-- ===== src/Store/Outbox.antt =====
-- The adapter of outbox events:
-- micro/ledger/internal/infra/out/persistence/gorm/adapter/outbox_repo.go.
pub mod Claims
pub mod Order
use microservice_workspace.Base.{
  ℕ, ◌+◌, ◌*◌, Bool, true, false, not, ◌&&◌, ◌||◌, none, some, List, [], ◌∷◌, map, any, select,
  update, take, ltb, leb, ◌==◌, if◌then◌else◌, ◌^◌,
}
use microservice_workspace.Base.Int.{ℤ, positive_or}
use microservice_workspace.Base.Text.{Text, lit, is_empty}
use microservice_workspace.Base.Result.{Result, ok, err, M, ◌>>=◌, ◌>>◌, pure}
use microservice_workspace.Domain.{Time, Uuid, OutboxEvent}
use microservice_workspace.Domain.External.{External}
use microservice_workspace.Store.{Db, World, OutboxEventEntity, unique_violation}
use microservice_workspace.Store.Tx.{statement, transaction}
use microservice_workspace.Store.Calls.{time_now}

abbrev pub event_row : OutboxEvent → OutboxEventEntity
event_row e = record {
  id = e.id;
  aggregate_type = e.aggregate_type;
  aggregate_id = e.aggregate_id;
  event_type = e.event_type;
  payload_json = e.payload_json;
  published = e.published;
  published_at = none;
  processing = false;
  processing_owner = none;
  processing_at = none;
  created_at = e.created_at;
}

abbrev pub to_event : OutboxEventEntity → OutboxEvent
to_event m = record {
  id = m.id;
  aggregate_type = m.aggregate_type;
  aggregate_id = m.aggregate_id;
  event_type = m.event_type;
  payload_json = m.payload_json;
  published = m.published;
  created_at = m.created_at;
}

-- The claim's time to live: two minutes, in nanoseconds.
abbrev pub claim_ttl : ℕ
claim_ttl = 120 * 10 ^ 9

-- `processing_at < now - ttl`; a NULL is not less.
abbrev pub has_lapsed : Time → OutboxEventEntity → Bool
has_lapsed now m = elim (m.processing_at) [ none ↦ false | some at ↦ ltb (at + claim_ttl) now ]

unfoldable pub is_claimable : Time → OutboxEventEntity → Bool
is_claimable now m = not m.published && (not m.processing || (m.processing && has_lapsed now m))

-- `ORDER BY created_at ASC`
unfoldable pub insert_asc : OutboxEventEntity → List OutboxEventEntity → List OutboxEventEntity
insert_asc m [] = m ∷ []
insert_asc m (r ∷ rs) = if leb m.created_at r.created_at then m ∷ r ∷ rs else r ∷ insert_asc m rs

unfoldable pub sort_asc : List OutboxEventEntity → List OutboxEventEntity
sort_asc [] = []
sort_asc (r ∷ rs) = insert_asc r (sort_asc rs)

-- `id IN ids`
abbrev pub is_among : List Uuid → OutboxEventEntity → Bool
is_among ids m = any (λ id. m.id == id) ids

abbrev pub claim : Text → Time → OutboxEventEntity → OutboxEventEntity
claim owner now m = record m {
  processing = true;
  processing_owner = some owner;
  processing_at = some now;
}

abbrev pub set_published : Time → OutboxEventEntity → OutboxEventEntity
set_published now m = record m {
  published = true;
  published_at = some now;
  processing = false;
  processing_owner = none;
  processing_at = none;
}

unfoldable pub next_ids : Time → ℕ → List OutboxEventEntity → List Uuid
next_ids now limit rows =
    map (λ (m : OutboxEventEntity). m.id) (take limit (sort_asc (select (is_claimable now) rows)))

module _ (X : External) where
  unfoldable pub create_event :
      OutboxEventEntity → Db X.Decimal → Result ((Unit {0}) × Db X.Decimal)
  create_event m db =
      if any (λ (r : OutboxEventEntity). r.id == m.id) db.outbox_events
      then err unique_violation
      else ok (tt, record db { outbox_events = m ∷ db.outbox_events })

  unfoldable pub insert : OutboxEvent → M (World X) (Unit {0})
  insert e = statement X (create_event (event_row e))

  -- The UPDATE of the claim, and the rows read back.
  unfoldable pub claim_rows : Text → Time → List Uuid → M (World X) (List OutboxEventEntity)
  claim_rows owner now [] = pure []
  claim_rows owner now (id ∷ ids) = do
    statement X λ db. ok (
      tt,
      record db { outbox_events = update (is_among (id ∷ ids)) (claim owner now) db.outbox_events },
    )
    statement X (λ db. ok (sort_asc (select (is_among (id ∷ ids)) db.outbox_events), db))

  -- `host` is the environment variable HOSTNAME. Rows that another transaction has locked are
  -- those that `SKIP LOCKED` leaves out: statements here run one after another, so there are none.
  unfoldable pub fetch_next_unpublished : Text → ℤ → M (World X) (List OutboxEvent)
  fetch_next_unpublished host limit = do
    now ← time_now X
    claimed ← transaction X do
      ids ← statement X (λ db. ok (next_ids now (positive_or limit 50) db.outbox_events, db))
      claim_rows (if is_empty host then lit "unknown" else host) now ids
    pure (map to_event claimed)

  unfoldable pub mark_published : List Uuid → M (World X) (Unit {0})
  mark_published [] = pure tt
  mark_published (id ∷ ids) = do
    now ← time_now X
    statement X λ db. ok (
      tt,
      record db {
        outbox_events = update (is_among (id ∷ ids)) (set_published now) db.outbox_events;
      },
    )
