-- ===== src/Delivery/Reliable.antt =====
-- One turn of the outbox worker when neither the database nor the event bus fails: what it leaves
-- in the table of events.
use microservice_workspace.Base.{◌≡◌, ◌∙◌, none, List, arith}
use microservice_workspace.Base.Text.{Text}
use microservice_workspace.Base.Result.{Result, ok, M, bind-eq, ◌>>=◌}
use microservice_workspace.Domain.Remote.{Effect}
use microservice_workspace.Domain.External.{External}
use microservice_workspace.Store.{Db, TxState, idle, active, World}
use microservice_workspace.Store.Tx.{statement, transaction}

module _ (X : External) where
  -- The database runs every statement, and the bus takes every event.
  pub record IsReliable : Type 0 where
    pub db_ok : (env : X.Env) → (X.db_fault env).0 ≡ none
    pub publish_ok :
        (topic key payload : Text) (env : X.Env) → (X.publish topic key payload env).0 ≡ ok tt

  abbrev pub world : TxState → Db X.Decimal → X.Env → List (Effect X.Float) → World X
  world tx db env l = record { db = db; tx = tx; env = env; log = l }

  -- The action returns `a` and leaves the tables `db'`; it sends nothing out, and the transaction
  -- is as it was.
  abbrev pub Does :
      {A : Type 0}
      → M (World X) A
      → TxState
      → Db X.Decimal
      → X.Env
      → List (Effect X.Float)
      → A
      → Db X.Decimal
      → Type 0
  Does m tx db env l a db' = (env' : X.Env) × (m (world tx db env l) ≡ (ok a, world tx db' env' l))

  module _ (R : IsReliable) (l : List (Effect X.Float)) where
    pub statement-Does :
        {A : Type 0} (q : Db X.Decimal → Result (A × Db X.Decimal)) (db db' : Db X.Decimal)
        (env : X.Env) (a : A)
        → q db ≡ ok (a, db')
        → Does (statement X q) active db env l a db'
    unfolding statement
    statement-Does q db db' env a h = let n = R.db_ok env in ((X.db_fault env).1, ground arith)

    pub bind-Does :
        {A B : Type 0} (m : M (World X) A) (f : A → M (World X) B) (tx : TxState)
        (db db' db'' : Db X.Decimal) (env : X.Env) (a : A) (b : B)
        → Does m tx db env l a db'
        → ((env' : X.Env) → Does (f a) tx db' env' l b db'')
        → Does (m >>= f) tx db env l b db''
    bind-Does m f tx db db' db'' env a b h k =
        let (env', e) = h in
        let (env'', e') = k env' in
        (env'', bind-eq m f (world tx db env l) a (world tx db' env' l) e ∙ e')

    pub transaction-Does :
        {A : Type 0} (body : M (World X) A) (db db' : Db X.Decimal) (env : X.Env) (a : A)
        → Does body active db (X.db_fault env).1 l a db'
        → Does (transaction X body) idle db env l a db'
    unfolding transaction
    transaction-Does body db db' env a h =
        let (env', e) = h in
        let n = R.db_ok env in let k = R.db_ok env' in ((X.db_fault env').1, ground arith)
