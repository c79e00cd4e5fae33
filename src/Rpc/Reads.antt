-- ===== src/Rpc/Reads.antt =====
-- What the interceptors do to the database: they read at most.
use microservice_workspace.Base.{◌≡◌, refl, ◌∙◌, Bool, true, false, arith}
use microservice_workspace.Base.Result.{
  Error, Result, ok, M, ◌>>=◌, pure, raise, raise_if, attempt, from_result,
}
use microservice_workspace.Domain.Remote.{AuditRecord}
use microservice_workspace.Domain.External.{External}
use microservice_workspace.Store.{Db, World, idle}
use microservice_workspace.Store.Tx.{statement}
use microservice_workspace.Store.Calls.{new_uuid, time_now, record_audit, call}
use microservice_workspace.Ledger.Always.{Always, Always-bind, Always-attempt}

module _ {X : External} where
  -- From a connection without an open transaction: the tables are as they were, and no transaction
  -- is open.
  abbrev pub SameTables : World X → World X → Type 0
  SameTables w v = w.tx ≡ idle → (v.db ≡ w.db) × (v.tx ≡ idle)

  abbrev pub Reads : {A : Type 0} → M (World X) A → Type 0
  Reads m = Always SameTables m

  here : (w : World X) → SameTables w w
  here w h = (refl, h)

  next : (u v w : World X) → SameTables u v → SameTables v w → SameTables u w
  next u v w f g h = let (d, t) = f h in let (e, s) = g t in (e ∙ d, s)

  module _ {A B : Type 0} where
    pub Reads-bind :
        (m : M (World X) A) (f : A → M (World X) B)
        → Reads m
        → ((a : A) → Reads (f a))
        → Reads (m >>= f)
    Reads-bind m f h k = Always-bind SameTables here next m f h k

  module _ {A : Type 0} where
    pub Reads-attempt : (m : M (World X) A) → Reads m → Reads (attempt m)
    Reads-attempt m h = Always-attempt SameTables here next m h

    pub pure-Reads : (a : A) → Reads (pure a)
    pure-Reads a = record { run = λ w h. (refl, h) }

    pub raise-Reads : (e : Error) → Reads (raise {W = World X} {A = A} e)
    raise-Reads e = record { run = λ w h. (refl, h) }

    pub from_result-Reads : (r : Result A) → Reads (from_result r)
    from_result-Reads r = record { run = λ w h. (refl, h) }

    pub query-Reads : (f : Db X.Decimal → A) → Reads (statement X (λ db. ok (f db, db)))
    unfolding statement
    query-Reads f = record { run = λ w h. ground arith }

    pub env-Reads :
        (answer : X.Env → Result A × X.Env)
        → Reads (λ w. let (r, env') = answer w.env in (r, record w { env = env' }))
    env-Reads answer = record { run = λ w h. (refl, h) }

  pub raise_if-Reads : (b : Bool) (e : Error) → Reads (raise_if {W = World X} b e)
  raise_if-Reads true e = record { run = λ w h. (refl, h) }
  raise_if-Reads false e = record { run = λ w h. (refl, h) }

  pub new_uuid-Reads : Reads (new_uuid X)
  unfolding new_uuid
  new_uuid-Reads = record { run = λ w h. (refl, h) }

  pub time_now-Reads : Reads (time_now X)
  unfolding time_now
  time_now-Reads = record { run = λ w h. (refl, h) }

  pub record_audit-Reads : (a : AuditRecord) → Reads (record_audit X a)
  unfolding record_audit call
  record_audit-Reads a = record { run = λ w h. (refl, h) }
