-- ===== src/Ledger/Frame.antt =====
-- Rules for code that changes no table, that changes none when it fails, or that does not fail.
use microservice_workspace.Base.{◌≡◌, Bool, true, false, ◌∙◌, Option}
use microservice_workspace.Base.Result.{
  Error, Result, ok, err, M, Post, Post-bind, Post-weaken, ◌>>=◌, ◌>>◌, pure, attempt, from_result,
  raise_if, Post-world,
}
use microservice_workspace.Base.Text.{Text}
use microservice_workspace.Domain.{IdempotencyRecord}
use microservice_workspace.Domain.External.{External}
use microservice_workspace.Store.{idle, World}
use microservice_workspace.Store.Tx.{do_write, do_read}
use microservice_workspace.Store.Tx.Laws.{
  Steady, Unchanged, do_write-Atomic, read-Steady, new_uuid-Steady, time_now-Steady, Atomic,
  record_audit-Steady, validate_accounts-Steady, reserve_hold-Steady,
}
use microservice_workspace.Domain.Remote.{AuditRecord, ValidateRequest, HoldRequest}
use microservice_workspace.Store.Idempotency
use microservice_workspace.Store.Calls.{
  record_audit, reserve_hold, validate_accounts, new_uuid, time_now,
}
use microservice_workspace.Ledger.Rules.{cached_json, response_of}

module _ {X : External} (w₀ : World X) where
  -- The tables are those of `w₀`, and no transaction is open.
  abbrev pub At : World X → Type 0
  At w = (w.db ≡ w₀.db) × (w.tx ≡ idle)

  module _ {A : Type 0} where
    -- The action changes no table, however it ends.
    abbrev pub Still : M (World X) A → Type 0
    Still m = (w : World X) → At w → Post (λ _ v. At v) (λ _ v. At v) (m w)

    -- If the action fails, the tables are those of `w₀`.
    abbrev pub Safe : M (World X) A → Type 0
    Safe m = (w : World X) → At w → Post (λ _ v. v.tx ≡ idle) (λ _ v. At v) (m w)

    -- The action does not fail.
    abbrev pub Sure : M (World X) A → Type 0
    Sure m = (w : World X) → w.tx ≡ idle → Post (λ _ v. v.tx ≡ idle) (λ _ v. ⊥) (m w)

    pub Still-of_Steady : (m : M (World X) A) → ((w : World X) → w.tx ≡ idle → Steady m w) → Still m
    Still-of_Steady m h w a =
        Post-weaken _ _ _ _ (m w) (h w a.1) (λ _ v u. (cc, cc)) (λ _ v u. (cc, cc))

    pub Safe-of_Atomic : (m : M (World X) A) → ((w : World X) → w.tx ≡ idle → Atomic m w) → Safe m
    Safe-of_Atomic m h w a = Post-weaken _ _ _ _ (m w) (h w a.1) (λ _ v u. u) (λ _ v u. (cc, cc))

  module _ {A B : Type 0} where
    pub Safe-bind :
        (m : M (World X) A) (f : A → M (World X) B)
        → Still m
        → ((a : A) → Safe (f a))
        → Safe (m >>= f)
    Safe-bind m f h k w a = Post-bind (λ _ v. At v) _ _ m f w (h w a) (λ b v. k b v)

    pub Safe-bind-Sure :
        (m : M (World X) A) (f : A → M (World X) B)
        → Safe m
        → ((a : A) → Sure (f a))
        → Safe (m >>= f)
    Safe-bind-Sure m f h k w a =
        Post-bind (λ _ v. v.tx ≡ idle) _ _ m f w (h w a)
          λ b v t. Post-weaken _ _ _ _ (f b v) (k b v t) (λ _ _ u. u) (λ _ _ u. absurd u)

    pub Sure-attempt :
        (m : M (World X) A) (b : B)
        → ((w : World X) → w.tx ≡ idle → Steady m w)
        → Sure (attempt m >> pure b)
    Sure-attempt m b h w t = let u = Post-world (Unchanged w) (m w) (h w t) in u.1 ∙ t

  module _ {A : Type 0} where
    pub from_result-Still : (r : Result A) → Still (from_result r)
    from_result-Still (ok a) w h = h
    from_result-Still (err e) w h = h

    pub pure-Safe : (a : A) → Safe (pure a)
    pure-Safe a w h = h.1

  pub raise_if-Still : (b : Bool) (e : Error) → Still (raise_if b e)
  raise_if-Still true e w h = h
  raise_if-Still false e w h = h

  pub new_uuid-Still : Still (new_uuid X)
  new_uuid-Still = Still-of_Steady (new_uuid X) (λ w t. new_uuid-Steady X w)

  pub time_now-Still : Still (time_now X)
  time_now-Still = Still-of_Steady (time_now X) (λ w t. time_now-Steady X w)

  pub validate_accounts-Still : (q : ValidateRequest X.Float) → Still (validate_accounts X q)
  validate_accounts-Still q =
      Still-of_Steady (validate_accounts X q) (λ w t. validate_accounts-Steady X q w)

  pub reserve_hold-Still : (q : HoldRequest X.Float) → Still (reserve_hold X q)
  reserve_hold-Still q = Still-of_Steady (reserve_hold X q) (λ w t. reserve_hold-Steady X q w)

  response-Still : (rec : Option IdempotencyRecord) → Still (pure (response_of rec))
  response-Still rec w h = h

  pub cached_json-Still : (key : Text) → Still (cached_json X key)
  unfolding cached_json do_read Idempotency.get
  cached_json-Still key w h =
      Post-bind (λ _ v. At v) _ _ (Idempotency.get X key) (λ rec. pure (response_of rec)) w
        (Still-of_Steady (Idempotency.get X key) (λ v t. read-Steady X _ v t) w h) response-Still

  pub audit-Sure :
      {B : Type 0} (r : AuditRecord) (b : B) → Sure (attempt (record_audit X r) >> pure b)
  audit-Sure r b = Sure-attempt (record_audit X r) b (λ w t. record_audit-Steady X r w)

  pub do_write-Safe : {A : Type 0} (body : M (World X) A) → Safe (do_write X body)
  do_write-Safe body = Safe-of_Atomic (do_write X body) (do_write-Atomic X body)
