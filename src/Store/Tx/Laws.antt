-- ===== src/Store/Tx/Laws.antt =====
-- What statements, transactions and outside calls leave alone.
use microservice_workspace.Base.{◌≡◌, refl, Option, none, some, arith, List}
use microservice_workspace.Base.Result.{Error, Result, ok, err, M, Post}
use microservice_workspace.Domain.External.{External}
use microservice_workspace.Store.{Db, idle, active, World}
use mathlib.Core.Path.{subst}
use microservice_workspace.Base.Text.{Text}
use microservice_workspace.Domain.Remote.{
  Effect, ValidateRequest, HoldRequest, AuditRecord, validated, reserved, released, looked_up,
  audited,
}
use microservice_workspace.Store.Calls.{
  validate_accounts, reserve_hold, release_hold, account_summaries, record_audit, new_uuid,
  time_now, call,
}
use microservice_workspace.Base.{sym}
use microservice_workspace.Store.Tx.{begun, statement, do_write, finish}

module _ {X : External} where
  -- Tables and transaction are as they were.
  abbrev pub Unchanged : World X → World X → Type 0
  Unchanged w w' = (w'.db ≡ w.db) × (w'.tx ≡ w.tx)

  -- However the action ends, it changes neither tables nor transaction.
  abbrev pub Steady : {A : Type 0} → M (World X) A → World X → Type 0
  Steady m w = Post (λ _ w'. Unchanged w w') (λ _ w'. Unchanged w w') (m w)

  -- An action that changes nothing when it fails, outside a transaction.
  abbrev pub Atomic : {A : Type 0} → M (World X) A → World X → Type 0
  Atomic m w = Post (λ _ w'. w'.tx ≡ idle) (λ _ w'. (w'.db ≡ w.db) × (w'.tx ≡ idle)) (m w)

module _ (X : External) where
  module _ {A : Type 0} where
    abbrev Undone : World X → Result A × World X → Type 0
    Undone w r = Post (λ _ v. v.tx ≡ idle) (λ _ v. (v.db ≡ w.db) × (v.tx ≡ idle)) r

    finish-Undone : (w : World X) (r : Result A × World X) → Undone w (finish X w.db r)
    finish-Undone w (ok a, w') = ground arith
    finish-Undone w (err e, w') = (refl, refl)

    begun-Undone :
        (fault : Option Error) (body : M (World X) A) (w w' : World X)
        → w'.db ≡ w.db
        → w'.tx ≡ idle
        → Undone w (begun X idle fault body w w')
    begun-Undone (some e) body w w' h k = (h, k)
    begun-Undone none body w w' h k = finish-Undone w (body (record w' { tx = active }))

    -- A transaction writes all of what its body wrote, or nothing.
    pub do_write-Atomic :
        (body : M (World X) A) (w : World X) → w.tx ≡ idle → Atomic (do_write X body) w
    unfolding do_write
    do_write-Atomic body w h =
        let (fault, env') = X.db_fault w.env in
        subst (λ t. Undone w (begun X t fault body w (record w { env = env' }))) (sym h)
          (begun-Undone fault body w (record w { env = env' }) refl h)

    -- A query that only reads changes neither tables nor transaction, outside a transaction.
    pub read-Steady :
        (f : Db X.Decimal → A) (w : World X)
        → w.tx ≡ idle
        → Steady (statement X (λ db. ok (f db, db))) w
    unfolding statement
    read-Steady f w h = ground arith

  pub new_uuid-Steady : (w : World X) → Steady (new_uuid X) w
  unfolding new_uuid
  new_uuid-Steady w = (refl, refl)

  pub time_now-Steady : (w : World X) → Steady (time_now X) w
  unfolding time_now
  time_now-Steady w = (refl, refl)

  pub call-Steady :
      {A : Type 0} (effect : Effect X.Float) (answer : X.Env → Result A × X.Env) (w : World X)
      → Steady (call X effect answer) w
  unfolding call
  call-Steady effect answer w = ground arith

  pub validate_accounts-Steady :
      (q : ValidateRequest X.Float) (w : World X) → Steady (validate_accounts X q) w
  unfolding validate_accounts
  validate_accounts-Steady q w = call-Steady (validated q) (X.validate_accounts q) w

  pub reserve_hold-Steady : (q : HoldRequest X.Float) (w : World X) → Steady (reserve_hold X q) w
  unfolding reserve_hold
  reserve_hold-Steady q w = call-Steady (reserved q) (X.reserve_hold q) w

  pub release_hold-Steady : (q : HoldRequest X.Float) (w : World X) → Steady (release_hold X q) w
  unfolding release_hold
  release_hold-Steady q w = call-Steady (released q) (X.release_hold q) w

  pub account_summaries-Steady : (q : List Text) (w : World X) → Steady (account_summaries X q) w
  unfolding account_summaries
  account_summaries-Steady q w = call-Steady (looked_up q) (X.account_summaries q) w

  pub record_audit-Steady : (q : AuditRecord) (w : World X) → Steady (record_audit X q) w
  unfolding record_audit
  record_audit-Steady q w = call-Steady (audited q) (X.audit_record q) w
