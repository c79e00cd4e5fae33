-- ===== src/Ledger/Records.antt =====
-- Code that ends by recording in the table of idempotency records what it returns.
use microservice_workspace.Ledger.Keys.{keys, SameKeys, Leaves}
use mathlib.Core.Path.{subst}
use microservice_workspace.Base.{◌≡◌, refl, ◌∙◌, sym, ap, none, some, arith, Option}
use microservice_workspace.Base.Text.{Text}
use microservice_workspace.Base.Result.{
  Result, ok, err, M, ◌>>=◌, ◌>>◌, pure, attempt, Error, Post, Post-bind, Post-weaken,
}
use microservice_workspace.Domain.{IdempotencyRecord}
use microservice_workspace.Domain.External.{External}
use microservice_workspace.Store.{
  Db, TxState, idle, active, aborted, World, IdempotencyRecordEntity,
}
use microservice_workspace.Store.Tx.{transaction, do_write, finish, finish_nested, begun, commit}
use microservice_workspace.Store.Idempotency
use microservice_workspace.Ledger.Sound.{statement-Post}

module _ {X : External} where
  -- The action ends by recording what it returns under `key`, unless the key is taken.
  module _ {A : Type 0} (marshal : A → Text) (key : Text) where
    pub record IsRecorded (a : A) (w v : World X) : Type 0 where
      pub row : IdempotencyRecordEntity
      pub row_key : row.key ≡ key
      pub row_response : row.response_json ≡ marshal a
      pub stored : keys v ≡ Idempotency.insert_new row (keys w)

    pub record Records (m : M (World X) A) : Type 0 where
      pub run : (w : World X) → Post (λ a v. IsRecorded a w v) (λ _ _. Unit {0}) (m w)

    pub IsRecorded-before :
        (a : A) (u w v : World X) → SameKeys u w → IsRecorded a w v → IsRecorded a u v
    IsRecorded-before a u w v h r = record {
      row = r.row;
      row_key = r.row_key;
      row_response = r.row_response;
      stored = r.stored ∙ ap (Idempotency.insert_new r.row) h;
    }

    IsRecorded-after :
        (a : A) (u w v : World X) → SameKeys w v → IsRecorded a u w → IsRecorded a u v
    IsRecorded-after a u w v h r = record {
      row = r.row;
      row_key = r.row_key;
      row_response = r.row_response;
      stored = h ∙ r.stored;
    }

    pub Records-bind :
        {B : Type 0} (m : M (World X) B) (f : B → M (World X) A)
        → Leaves m
        → ((b : B) → Records (f b))
        → Records (m >>= f)
    Records-bind m f h k = record {
      run = λ w.
          Post-bind (λ _ v. SameKeys w v) (λ a v. IsRecorded a w v) (λ _ _. Unit {0}) m f w
            (Leaves-Post m w h)
            λ b v s.
              Post-weaken _ _ _ _ (f b v) ((k b).run v) (λ a u r. IsRecorded-before a w v u s r)
                (λ _ _ _. tt);
    }
      where
        Leaves-Post :
            {B : Type 0} (m : M (World X) B) (w : World X)
            → Leaves m
            → Post (λ _ v. SameKeys w v) (λ _ _. Unit {0}) (m w)
        Leaves-Post m w h = go (m w) (h.run w)
          where
            go :
                {B : Type 0} (r : Result B × World X)
                → SameKeys w r.1
                → Post (λ _ v. SameKeys w v) (λ _ _. Unit {0}) r
            go (ok b, v) s = s
            go (err e, v) s = tt

    -- What follows may leave the records alone, and hand the value on.
    pub Records-then :
        {B : Type 0} (m : M (World X) A) (f : A → M (World X) B)
        → Records m
        → ((a : A) → Leaves (f a))
        → Records (m >>= λ a. attempt (f a) >> pure a)
    Records-then m f h k = record {
      run = λ w.
          Post-bind (λ a v. IsRecorded a w v) (λ a v. IsRecorded a w v) (λ _ _. Unit {0}) m
            (λ a. attempt (f a) >> pure a) w (h.run w)
            λ a v r. IsRecorded-after a w v (f a v).1 ((k a).run v) r;
    }

    pub put-Records :
        (r : IdempotencyRecord) (a : A)
        → r.key ≡ key
        → r.response_json ≡ marshal a
        → Records (Idempotency.put X r >> pure a)
    unfolding Idempotency.put
    put-Records r a h k = record {
      run = λ w.
          Post-bind (λ _ v. keys v ≡ Idempotency.insert_new (Idempotency.of_record r) (keys w))
            (λ b v. IsRecorded b w v) (λ _ _. Unit {0}) (Idempotency.put X r) (λ _. pure a) w
            (Post-weaken _ _ _ _ (Idempotency.put X r w) (statement-Post _ w)
              (λ _ v e. ground arith) (λ _ _ _. tt))
            λ _ v e. record {
              row = Idempotency.of_record r;
              row_key = h;
              row_response = k;
              stored = e;
            };
    }

    commit-db :
        (before : Db X.Decimal) (a : A) (w : World X)
        → Post (λ b v. (b ≡ a) × (v.db ≡ w.db)) (λ _ _. Unit {0}) (commit X before a w)
    commit-db before a w = ground arith

    finish-Records :
        (u : World X) (before : Db X.Decimal) (r : Result A × World X)
        → Post (λ a v. IsRecorded a u v) (λ _ _. Unit {0}) r
        → Post (λ a v. IsRecorded a u v) (λ _ _. Unit {0}) (finish X before r)
    finish-Records u before (ok a, w) h =
        Post-weaken _ _ _ _ (commit X before a w) (commit-db before a w)
          (λ b v e.
            subst (λ c. IsRecorded c u v) (sym e.0)
              (IsRecorded-after a u w v (ap (λ (db : Db X.Decimal). db.idempotency_records) e.1) h))
          (λ _ _ _. tt)
    finish-Records u before (err e, w) h = tt

    finish_nested-Records :
        (u : World X) (before : Db X.Decimal) (r : Result A × World X)
        → Post (λ a v. IsRecorded a u v) (λ _ _. Unit {0}) r
        → Post (λ a v. IsRecorded a u v) (λ _ _. Unit {0}) (finish_nested X before r)
    finish_nested-Records u before (ok a, w) h = h
    finish_nested-Records u before (err e, w) h = tt

    body-Records :
        (body : M (World X) A) (u w : World X)
        → Records body
        → SameKeys u w
        → Post (λ a v. IsRecorded a u v) (λ _ _. Unit {0}) (body w)
    body-Records body u w h k =
        Post-weaken _ _ _ _ (body w) (h.run w) (λ a v r. IsRecorded-before a u w v k r)
          (λ _ _ _. tt)

    begun-Records :
        (t : TxState) (fault : Option Error) (body : M (World X) A) (w w' : World X)
        → Records body
        → SameKeys w w'
        → Post (λ a v. IsRecorded a w v) (λ _ _. Unit {0}) (begun X t fault body w w')
    begun-Records idle (some e) body w w' h k = tt
    begun-Records idle none body w w' h k =
        finish-Records w w.db (body (record w' { tx = active }))
          (body-Records body w (record w' { tx = active }) h k)
    begun-Records active (some e) body w w' h k = tt
    begun-Records active none body w w' h k =
        finish_nested-Records w w.db (body w') (body-Records body w w' h k)
    begun-Records aborted fault body w w' h k = tt

    -- What a transaction returns is recorded if its body records it.
    pub do_write-Records : (body : M (World X) A) → Records body → Records (do_write X body)
    unfolding do_write transaction
    do_write-Records body h = record {
      run = λ w.
          let (fault, env') = X.db_fault w.env in
          begun-Records w.tx fault body w (record w { env = env' }) h refl;
    }
