-- ===== src/Store/Outbox/Claims.antt =====
-- The claims on outbox events, which keep two workers from delivering the same event.
use microservice_workspace.Base.Result.{
  Post, Result, Post-any, Post-bind, Post-weaken, ok, Error, err, aborted,
}
use microservice_workspace.Store.Tx.{statement, settle, in_state}
use microservice_workspace.Domain.External.{External}
use microservice_workspace.Base.{some, none, select}
use microservice_workspace.Store.{idle, active, aborted}
use microservice_workspace.Store.Calls.{time_now}
use microservice_workspace.Base.Text.{Text}
use microservice_workspace.Store.Outbox.{
  is_claimable, is_among, claim_ttl, set_published, claim, mark_published, claim_rows, statement,
  time_now, sort_asc,
}
use microservice_workspace.Base.{
  ◌&&◌, refl, ◌≡◌, ◌≤◌, ◌+◌, Bool, true, false, List, [], ◌∷◌, all, update, arith, not, Bool-cases,
  inl, inr, ◌⊎◌, ◌<◌, ltb, Option, some, select,
}
use microservice_workspace.Domain.{Uuid, Time}
use microservice_workspace.Store.{OutboxEventEntity, Text, External, World, Db, TxState, aborted}

claim-not_claimable :
    (owner : Text) (now later : Time) (m : OutboxEventEntity)
    → later ≤ now + claim_ttl
    → is_claimable later (claim owner now m) ≡ false
unfolding is_claimable
claim-not_claimable owner now later m h = ground arith

set_published-not_claimable :
    (now later : Time) (m : OutboxEventEntity) → is_claimable later (set_published now m) ≡ false
unfolding is_claimable
set_published-not_claimable now later m = ground arith

-- No row with an identifier among `ids` can be claimed at `later`.
unfoldable pub none_claimable : Time → List Uuid → List OutboxEventEntity → Bool
none_claimable later ids rows = all (λ m. not (is_among ids m && is_claimable later m)) rows

-- After a worker claims the events `ids`, no worker can claim them again before two minutes have
-- passed, whatever else the table holds.
claim-none_claimable :
    (owner : Text) (now later : Time) (ids : List Uuid) (rows : List OutboxEventEntity)
    → later ≤ now + claim_ttl
    → none_claimable later ids (update (is_among ids) (claim owner now) rows) ≡ true
unfolding none_claimable
claim-none_claimable owner now later ids [] h = refl
claim-none_claimable owner now later ids (m ∷ rows) h = elim (Bool-cases (is_among ids m)) [
  | inl e ↦
      rw
        (
          e,
          claim-not_claimable owner now later m h,
          e,
          claim-none_claimable owner now later ids rows h,
        )
        refl
  | inr e ↦ rw (e, e, claim-none_claimable owner now later ids rows h) refl
]

-- Events marked as published are never claimed again.
set_published-none_claimable :
    (now later : Time) (ids : List Uuid) (rows : List OutboxEventEntity)
    → none_claimable later ids (update (is_among ids) (set_published now) rows) ≡ true
unfolding none_claimable
set_published-none_claimable now later ids [] = refl
set_published-none_claimable now later ids (m ∷ rows) = elim (Bool-cases (is_among ids m)) [
  | inl e ↦
      rw
        (
          e,
          set_published-not_claimable now later m,
          e,
          set_published-none_claimable now later ids rows,
        )
        refl
  | inr e ↦ rw (e, e, set_published-none_claimable now later ids rows) refl
]

abbrev with_tables : {D A : Type 0} → Result (A × D) → D → Result A × D
with_tables (ok (a, db')) db = (ok a, db')
with_tables (err e) db = (err e, db)

module _ (X : External) where
  -- What holds of the tables that a query makes holds after its statement, if that returns.
  statement-Leads :
      {A : Type 0} (P : Db X.Decimal → Type 0) (q : Db X.Decimal → Result (A × Db X.Decimal))
      (w : World X)
      → Post (λ _ db. P db) (λ _ _. Unit) (with_tables (q w.db) w.db)
      → Post (λ _ v. P v.db) (λ _ _. Unit) (statement X q w)
  unfolding statement
  statement-Leads {A} P q w h = go w.tx
    where
      settled :
          (r : Result (A × Db X.Decimal)) (after : TxState) (v : World X)
          → Post (λ _ db. P db) (λ _ _. Unit) (with_tables r w.db)
          → Post (λ _ v. P v.db) (λ _ _. Unit) (settle X after v r)
      settled (ok (a, db)) after v h = h
      settled (err e) after v h = tt

      executed :
          (fault : Option Error) (after : TxState) (env' : X.Env)
          → Post
              (λ _ v. P v.db)
              (λ _ _. Unit)
              (elim fault as (λ _. Result A × World X) [
                | some e ↦ (err e, record w { env = env'; tx = after })
                | none ↦ settle X after (record w { env = env' }) (q w.db)
              ])
      executed (some e) after env' = tt
      executed none after env' = settled (q w.db) after (record w { env = env' }) h

      go : (t : TxState) → Post (λ _ v. P v.db) (λ _ _. Unit) (in_state X t q w)
      go idle = let (fault, env') = X.db_fault w.env in executed fault idle env'
      go active = let (fault, env') = X.db_fault w.env in executed fault aborted env'
      go aborted = tt

  -- No event of `ids` can be claimed at `later`.
  abbrev pub NoneClaimable : Time → List Uuid → World X → Type 0
  NoneClaimable later ids v = none_claimable later ids v.db.outbox_events ≡ true

  none_claimable-empty :
      (later : Time) (rows : List OutboxEventEntity) → none_claimable later [] rows ≡ true
  unfolding none_claimable
  none_claimable-empty later [] = refl
  none_claimable-empty later (m ∷ rows) = none_claimable-empty later rows

  claim_rows-NoneClaimable :
      (owner : Text) (now later : Time) (ids : List Uuid) (w : World X)
      → later ≤ now + claim_ttl
      → Post (λ _ v. NoneClaimable later ids v) (λ _ _. Unit) (claim_rows X owner now ids w)
  unfolding claim_rows
  claim_rows-NoneClaimable owner now later [] w h = none_claimable-empty later w.db.outbox_events
  claim_rows-NoneClaimable owner now later (id ∷ ids) w h =
      let q : Db X.Decimal → Result ((Unit {0}) × Db X.Decimal) = λ db. ok (
        tt,
        record db {
          outbox_events = update (is_among (id ∷ ids)) (claim owner now) db.outbox_events;
        },
      ) in
      let read : Db X.Decimal → Result (List OutboxEventEntity × Db X.Decimal) =
        λ db. ok (sort_asc (select (is_among (id ∷ ids)) db.outbox_events), db) in
      Post-bind (λ _ v. NoneClaimable later (id ∷ ids) v) (λ _ v. NoneClaimable later (id ∷ ids) v)
        (λ _ _. Unit) (statement X q) (λ _. statement X read) w
        (statement-Leads (λ db. none_claimable later (id ∷ ids) db.outbox_events ≡ true) q w
          (claim-none_claimable owner now later (id ∷ ids) w.db.outbox_events h))
        λ _ v e.
          statement-Leads (λ db. none_claimable later (id ∷ ids) db.outbox_events ≡ true) read v e

  mark_published-NoneClaimable :
      (later : Time) (ids : List Uuid) (w : World X)
      → Post (λ _ v. NoneClaimable later ids v) (λ _ _. Unit) (mark_published X ids w)
  unfolding mark_published time_now
  mark_published-NoneClaimable later [] w = none_claimable-empty later w.db.outbox_events
  mark_published-NoneClaimable later (id ∷ ids) w =
      let (now, env') = X.time_now w.env in
      let q : Db X.Decimal → Result ((Unit {0}) × Db X.Decimal) = λ db. ok (
        tt,
        record db {
          outbox_events = update (is_among (id ∷ ids)) (set_published now) db.outbox_events;
        },
      ) in
      statement-Leads (λ db. none_claimable later (id ∷ ids) db.outbox_events ≡ true) q
        (record w { env = env' })
        (set_published-none_claimable now later (id ∷ ids) w.db.outbox_events)

  -- After a worker claims the events of a list of identifiers at `now`, no worker can claim one of
  -- them unless more than two minutes have passed; and after they are marked as published, none of
  -- them can be claimed at any time. Both hold whatever else the table holds, if the operation
  -- returns, and of any state of the transaction.
  pub marked-NoneClaimable :
      (owner : Text) (now later : Time) (ids : List Uuid) (w : World X)
      → Post
          (λ _ v. NoneClaimable later ids v ⊎ (now + claim_ttl < later))
          (λ _ _. Unit)
          (claim_rows X owner now ids w)
        × Post (λ _ v. NoneClaimable later ids v) (λ _ _. Unit) (mark_published X ids w)
  marked-NoneClaimable owner now later ids w = (
    elim (Bool-cases (ltb (now + claim_ttl) later)) [
      | inl e ↦ Post-any _ (claim_rows X owner now ids w) (λ _ _. inr (ground arith))
      | inr e ↦
          Post-weaken (λ _ v. NoneClaimable later ids v)
            (λ _ v. NoneClaimable later ids v ⊎ (now + claim_ttl < later)) (λ _ _. Unit)
            (λ _ _. Unit) (claim_rows X owner now ids w)
            (claim_rows-NoneClaimable owner now later ids w (ground arith)) (λ _ _ k. inl k)
            (λ _ _ _. tt)
    ],
    mark_published-NoneClaimable later ids w,
  )
