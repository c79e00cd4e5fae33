-- ===== src/Ledger/Keys.antt =====
-- Code that leaves the table of idempotency records alone.
use microservice_workspace.Base.{◌≡◌, refl, ◌∙◌, ap, none, some, arith, Option, List}
use microservice_workspace.Base.Result.{
  Result, ok, err, M, ◌>>=◌, pure, attempt, from_result, Error, Post-weaken, Post-world,
}
use microservice_workspace.Domain.External.{External}
use microservice_workspace.Store.{
  Db, TxState, idle, active, aborted, World, IdempotencyRecordEntity,
}
use microservice_workspace.Store.Tx.{statement, transaction, finish, finish_nested, begun}
use microservice_workspace.Store.Tx.Laws.{Steady, Unchanged}
use microservice_workspace.Ledger.Always.{Always, Always-bind, Always-attempt}
use microservice_workspace.Ledger.Sound.{statement-Post}

-- A query that leaves the records alone.
pub record Ignores {D A : Type 0} (q : Db D → Result (A × Db D)) : Type 0 where
  pub leaves :
      (db db' : Db D) (a : A)
      → q db ≡ ok (a, db')
      → db'.idempotency_records ≡ db.idempotency_records

module _ {X : External} where
  abbrev pub keys : World X → List IdempotencyRecordEntity
  keys w = w.db.idempotency_records

  abbrev pub SameKeys : World X → World X → Type 0
  SameKeys w v = keys v ≡ keys w

  abbrev pub Leaves : {A : Type 0} → M (World X) A → Type 0
  Leaves m = Always SameKeys m

  here : (w : World X) → SameKeys w w
  here w = refl

  next : (u v w : World X) → SameKeys u v → SameKeys v w → SameKeys u w
  next u v w h k = k ∙ h

  module _ {A B : Type 0} where
    pub Leaves-bind :
        (m : M (World X) A) (f : A → M (World X) B)
        → Leaves m
        → ((a : A) → Leaves (f a))
        → Leaves (m >>= f)
    Leaves-bind m f h k = Always-bind SameKeys here next m f h k

  module _ {A : Type 0} where
    pub Leaves-attempt : (m : M (World X) A) → Leaves m → Leaves (attempt m)
    Leaves-attempt m h = Always-attempt SameKeys here next m h

    pub from_result-Leaves : (r : Result A) → Leaves (from_result r)
    from_result-Leaves r = record { run = λ w. refl }

    pub pure-Leaves : (a : A) → Leaves (pure a)
    pure-Leaves a = record { run = λ w. refl }

    pub Steady-Leaves : (m : M (World X) A) → ((w : World X) → Steady m w) → Leaves m
    Steady-Leaves m h = record {
      run = λ w.
          let u = Post-world (Unchanged w) (m w) (h w) in
          ap (λ (db : Db X.Decimal). db.idempotency_records) u.0;
    }

    pub statement-Leaves :
        (q : Db X.Decimal → Result (A × Db X.Decimal)) → Ignores q → Leaves (statement X q)
    statement-Leaves q h = record {
      run = λ w. Post-world (SameKeys w) (statement X q w) (
          Post-weaken _ _ _ _ (statement X q w) (statement-Post q w)
            (λ a v e. h.leaves w.db v.db a e)
            (λ _ v e. ap (λ (db : Db X.Decimal). db.idempotency_records) e));
    }

    finish-keys :
        (before : Db X.Decimal) (r : Result A × World X)
        → keys r.1 ≡ before.idempotency_records
        → keys (finish X before r).1 ≡ before.idempotency_records
    finish-keys before (ok a, w) h = ground arith
    finish-keys before (err e, w) h = refl

    finish_nested-keys :
        (before : Db X.Decimal) (r : Result A × World X)
        → keys r.1 ≡ before.idempotency_records
        → keys (finish_nested X before r).1 ≡ before.idempotency_records
    finish_nested-keys before (ok a, w) h = h
    finish_nested-keys before (err e, w) h = refl

    begun-keys :
        (t : TxState) (fault : Option Error) (body : M (World X) A) (w w' : World X)
        → Leaves body
        → keys w' ≡ keys w
        → keys (begun X t fault body w w').1 ≡ keys w
    begun-keys idle (some e) body w w' h k = k
    begun-keys idle none body w w' h k =
        finish-keys w.db (body (record w' { tx = active })) (h.run (record w' { tx = active }) ∙ k)
    begun-keys active (some e) body w w' h k = k
    begun-keys active none body w w' h k = finish_nested-keys w.db (body w') (h.run w' ∙ k)
    begun-keys aborted fault body w w' h k = refl

    pub transaction-Leaves : (body : M (World X) A) → Leaves body → Leaves (transaction X body)
    unfolding transaction
    transaction-Leaves body h = record {
      run = λ w.
          let (fault, env') = X.db_fault w.env in
          begun-keys w.tx fault body w (record w { env = env' }) h refl;
    }
