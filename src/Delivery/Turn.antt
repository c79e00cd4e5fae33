-- ===== src/Delivery/Turn.antt =====
-- One turn of the outbox worker when nothing fails: the events that it claims are those that it
-- marks as published.
use microservice_workspace.Delivery.{
  mark_all, publish_all, Pace, retry_later, pace_of, turn, deliver, Worker, first_backoff,
}
use microservice_workspace.Store.Calls.{publish, call}
use microservice_workspace.Store.Tx.{do_write, do_read}
use microservice_workspace.Base.{
  ◌∙◌, refl, sym, ap, List, [], ◌∷◌, map, select, update, if◌then◌else◌, ℕ, ◌≡◌,
}
use microservice_workspace.Base.Text.{Text, lit, is_empty}
use microservice_workspace.Base.Int.{ℤ, positive_or}
use microservice_workspace.Base.Result.{Result, ok, ◌>>=◌, pure, err}
use microservice_workspace.Domain.{Time, Uuid, OutboxEvent}
use microservice_workspace.Domain.Remote.{Effect, published}
use microservice_workspace.Domain.External.{External}
use microservice_workspace.Store.{Db, idle, active, OutboxEventEntity, TxState, World}
use microservice_workspace.Store.Tx.{statement, transaction, do_write, do_read}
use microservice_workspace.Store.Calls.{time_now, call}
use microservice_workspace.Store.Outbox.{
  is_among, claim, sort_asc, to_event, next_ids, claim_rows, fetch_next_unpublished, mark_published,
  set_published,
}
use microservice_workspace.Delivery.Rows.{claimed, update_none, select_none, event_id, delivered}
use microservice_workspace.Delivery.Reliable.{
  IsReliable, world, Does, statement-Does, bind-Does, transaction-Does,
}

abbrev pub worker_name : Text → Text
worker_name host = if is_empty host then lit "unknown" else host

module _ (X : External) where
  -- The tables with other events.
  abbrev pub with_events : Db X.Decimal → List OutboxEventEntity → Db X.Decimal
  with_events db rows = record db { outbox_events = rows }

  abbrev claimed_db : List Uuid → Text → Time → Db X.Decimal → Db X.Decimal
  claimed_db ids owner now db =
      with_events db (update (is_among ids) (claim owner now) db.outbox_events)

  module _ (R : IsReliable X) (l : List (Effect X.Float)) where
    claim_rows-Does :
        (owner : Text) (now : Time) (ids : List Uuid) (db : Db X.Decimal) (env : X.Env)
        → Does X
            (claim_rows X owner now ids)
            active
            db
            env
            l
            (claimed ids owner now db.outbox_events)
            (claimed_db ids owner now db)
    unfolding claim_rows sort_asc
    claim_rows-Does owner now [] db env = (
      env,
      ap (λ rs. (ok [], world X active (with_events db rs) env l))
            (sym (update_none (claim owner now) db.outbox_events))
          ∙ ap (λ rs. (ok (sort_asc rs), world X active (claimed_db [] owner now db) env l))
              (sym (select_none (update (is_among []) (claim owner now) db.outbox_events))),
    )
    claim_rows-Does owner now (id ∷ ids) db env =
        let db' = claimed_db (id ∷ ids) owner now db in
        bind-Does X R l (statement X λ db. ok (tt, claimed_db (id ∷ ids) owner now db))
          (λ _.
            statement X (λ db. ok (sort_asc (select (is_among (id ∷ ids)) db.outbox_events), db)))
          active db db' db' env tt (claimed (id ∷ ids) owner now db.outbox_events)
          (statement-Does X R l (λ db. ok (tt, claimed_db (id ∷ ids) owner now db)) db db' env tt
            refl)
          λ env'.
            statement-Does X R l
              (λ db. ok (sort_asc (select (is_among (id ∷ ids)) db.outbox_events), db)) db' db' env'
              (claimed (id ∷ ids) owner now db.outbox_events) refl

    fetch-Does :
        (host : Text) (limit : ℤ) (db : Db X.Decimal) (env : X.Env)
        → let now = (X.time_now env).0 in
          let ids = next_ids now (positive_or limit 50) db.outbox_events in
          Does X
            (fetch_next_unpublished X host limit)
            idle
            db
            env
            l
            (map to_event (claimed ids (worker_name host) now db.outbox_events))
            (claimed_db ids (worker_name host) now db)
    unfolding fetch_next_unpublished time_now
    fetch-Does host limit db env =
        let (now, env0) = X.time_now env in
        let q : Db X.Decimal → Result (List Uuid × Db X.Decimal) =
          λ db. ok (next_ids now (positive_or limit 50) db.outbox_events, db) in
        let ids = next_ids now (positive_or limit 50) db.outbox_events in
        let owner = worker_name host in
        let db' = claimed_db ids owner now db in
        let rows = claimed ids owner now db.outbox_events in
        bind-Does X R l (transaction X (statement X q >>= claim_rows X owner now))
          (λ c. pure (map to_event c)) idle db db' db' env0 rows (map to_event rows)
          (transaction-Does X R l (statement X q >>= claim_rows X owner now) db db' env0 rows (
            bind-Does X R l (statement X q) (claim_rows X owner now) active db db db'
              (X.db_fault env0).1 ids rows
              (statement-Does X R l q db db (X.db_fault env0).1 ids refl)
              (claim_rows-Does owner now ids db)))
          λ env1. (env1, refl)

  module _ (R : IsReliable X) where
    -- Every event is sent, and nothing but the world outside and the log changes.
    Publishes : List OutboxEvent → TxState → Db X.Decimal → X.Env → List (Effect X.Float) → Type 0
    Publishes es tx db env l =
        (env' : X.Env) × (l' : List (Effect X.Float)) × (publish_all X es (world X tx db env l)
          ≡ (map event_id es, world X tx db env' l'))

    publish_all-Publishes :
        (es : List OutboxEvent) (tx : TxState) (db : Db X.Decimal) (env : X.Env)
        (l : List (Effect X.Float))
        → Publishes es tx db env l
    unfolding Publishes publish_all publish call
    publish_all-Publishes [] tx db env l = (env, l, refl)
    publish_all-Publishes (e ∷ es) tx db env l =
        let topic = e.event_type in
        let key = X.uuid_string e.aggregate_id in
        let env1 = (X.publish topic key e.payload_json env).1 in
        let l1 = published topic key e.payload_json ∷ l in
        let (env', l', i) = publish_all-Publishes es tx db env1 l1 in
        (
          env',
          l',
          ap
                (λ (r : Result (Unit {0})). elim r as (λ _. List Uuid × World X) [
                  | err f ↦ ([], world X tx db env1 l1)
                  | ok u ↦
                      (let (ids, v) = publish_all X es (world X tx db env1 l1) in (e.id ∷ ids, v))
                ])
                (R.publish_ok topic key e.payload_json env)
              ∙ ap (λ (p : List Uuid × World X). (e.id ∷ p.0, p.1)) i,
        )

    -- What a turn makes of the events: those of the identifiers are marked at some time.
    Marks : ℕ → List Uuid → Db X.Decimal → X.Env → List (Effect X.Float) → Type 0
    Marks b ids db env l =
        (p : Pace) × (later : Time) × (env' : X.Env) × (mark_all X b (ids, world X idle db env l)
          ≡ (
            p,
            world X idle
                (with_events db (update (is_among ids) (set_published later) db.outbox_events)) env'
                l,
          ))

    mark_all-Marks :
        (b : ℕ) (ids : List Uuid) (db : Db X.Decimal) (env : X.Env) (l : List (Effect X.Float))
        → Marks b ids db env l
    unfolding Marks mark_all do_write mark_published time_now
    mark_all-Marks b [] db env l = (
      retry_later b,
      0,
      env,
      ap (λ rs. (retry_later b, world X idle (with_events db rs) env l))
          (sym (update_none (set_published 0) db.outbox_events)),
    )
    mark_all-Marks b (id ∷ ids) db env l =
        let (later, env1) = X.time_now (X.db_fault env).1 in
        let db' =
          with_events db (update (is_among (id ∷ ids)) (set_published later) db.outbox_events) in
        let q : Db X.Decimal → Result ((Unit {0}) × Db X.Decimal) = λ db. ok (
          tt,
          with_events db (update (is_among (id ∷ ids)) (set_published later) db.outbox_events),
        ) in
        let (env2, e) =
          transaction-Does X R l (mark_published X (id ∷ ids)) db db' env tt
            (statement-Does X R l q db db' env1 tt refl) in
        (
          pace_of X b (ok tt),
          later,
          env2,
          ap (λ (r : Result (Unit {0}) × World X). (pace_of X b r.0, r.1)) e,
        )

    -- After a turn the claimed events are published.
    unfoldable pub Delivers : Worker → ℕ → Db X.Decimal → X.Env → List (Effect X.Float) → Type 0
    Delivers k b db env l =
        (p : Pace) × (now : Time) × (later : Time) × (env' : X.Env) × (l' : List (Effect X.Float))
        × (turn X k b (world X idle db env l) ≡ (
          p,
          world X idle
              (with_events db (
                delivered (next_ids now (positive_or k.batch_size 50) db.outbox_events)
                  (worker_name k.host) now later db.outbox_events))
              env' l',
        ))

    deliver-Marks :
        (k : Worker) (b : ℕ) (es : List OutboxEvent) (db : Db X.Decimal) (env : X.Env)
        (l : List (Effect X.Float))
        → (p : Pace) × (later : Time) × (env' : X.Env) × (l' : List (Effect X.Float)) × (deliver X k
              b
              (ok es)
              (world X idle db env l)
            ≡ (
              p,
              world X idle
                  (with_events db
                    (update (is_among (map event_id es)) (set_published later) db.outbox_events))
                  env'
                  l',
            ))
    unfolding deliver Publishes Marks
    deliver-Marks k b [] db env l = (
      record { backoff = first_backoff; slept = k.poll_every },
      0,
      env,
      l,
      ap
          (λ rs. (
            record { backoff = first_backoff; slept = k.poll_every },
            world X idle (with_events db rs) env l,
          ))
          (sym (update_none (set_published 0) db.outbox_events)),
    )
    deliver-Marks k b (e ∷ es) db env l =
        let (env1, l1, sent) = publish_all-Publishes (e ∷ es) idle db env l in
        let (p, later, env2, marked) = mark_all-Marks b (map event_id (e ∷ es)) db env1 l1 in
        (p, later, env2, l1, ap (mark_all X b) sent ∙ marked)

    pub turn-Delivers :
        (k : Worker) (b : ℕ) (db : Db X.Decimal) (env : X.Env) (l : List (Effect X.Float))
        → Delivers k b db env l
    unfolding Delivers turn do_read
    turn-Delivers k b db env l =
        let now = (X.time_now env).0 in
        let ids = next_ids now (positive_or k.batch_size 50) db.outbox_events in
        let owner = worker_name k.host in
        let (env1, fetched) = fetch-Does R l k.host k.batch_size db env in
        let (p, later, env2, l2, done) =
          deliver-Marks k b (map to_event (claimed ids owner now db.outbox_events))
            (claimed_db ids owner now db) env1 l in
        (
          p,
          now,
          later,
          env2,
          l2,
          ap (λ (r : Result (List OutboxEvent) × World X). deliver X k b r.0 r.1) fetched ∙ done,
        )
