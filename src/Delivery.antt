-- ===== src/Delivery.antt =====
-- The outbox worker: micro/ledger/internal/infra/out/messaging/outbox_worker.go. One turn of its
-- loop fetches a batch, publishes it event by event, and marks what was published. Times are in
-- milliseconds.
pub mod Prefix
pub mod Backoff
pub mod Reliable
pub mod Turn
pub mod Drain
pub mod Rows
use microservice_workspace.Store.Outbox.{mark_published, fetch_next_unpublished}
use microservice_workspace.Store.Tx.{do_read, do_write}
use microservice_workspace.Base.{ℕ, zero, suc, List, [], ◌∷◌, if◌then◌else◌, ltb, ◌*◌}
use microservice_workspace.Base.Text.{Text}
use microservice_workspace.Base.Int.{ℤ}
use microservice_workspace.Base.Result.{Result, ok, err, M}
use microservice_workspace.Domain.{Uuid, OutboxEvent}
use microservice_workspace.Domain.External.{External}
use microservice_workspace.Store.{World}
use microservice_workspace.Store.Calls.{publish}

-- The worker's fields, HOSTNAME, and `pollEvery`.
pub record Worker : Type 0 where
  pub batch_size : ℤ
  pub poll_every : ℕ
  pub host : Text

-- What a turn leaves: the next backoff, and how long the worker slept.
pub record Pace : Type 0 where
  pub backoff : ℕ
  pub slept : ℕ

abbrev pub first_backoff : ℕ
first_backoff = 200

-- `time.Sleep(backoff); if backoff < 3*time.Second { backoff *= 2 }`
unfoldable pub retry_later : ℕ → Pace
retry_later b = record { backoff = if ltb b 3000 then b * 2 else b; slept = b }

module _ (X : External) where
  -- `for _, e := range events`: the identifiers of the events published before the first failure.
  unfoldable pub publish_all : List OutboxEvent → World X → List Uuid × World X
  publish_all [] w = ([], w)
  publish_all (e ∷ es) w =
      let (r, w') = publish X e.event_type (X.uuid_string e.aggregate_id) e.payload_json w in
      elim r [ err f ↦ ([], w') | ok u ↦ (let (ids, v) = publish_all es w' in (e.id ∷ ids, v)) ]

  -- 3) of the loop, by the outcome of its transaction.
  unfoldable pub pace_of : ℕ → Result (Unit {0}) → Pace
  pace_of b (ok u) = record { backoff = first_backoff; slept = 50 }
  pace_of b (err e) = retry_later b

  unfoldable pub mark_all : ℕ → List Uuid × World X → Pace × World X
  mark_all b ([], w) = (retry_later b, w)
  mark_all b (id ∷ ids, w) =
      let (r, v) = do_write X (mark_published X (id ∷ ids)) w in (pace_of b r, v)

  -- What follows the fetch.
  unfoldable pub deliver : Worker → ℕ → Result (List OutboxEvent) → World X → Pace × World X
  deliver k b (err e) w = (retry_later b, w)
  deliver k b (ok []) w = (record { backoff = first_backoff; slept = k.poll_every }, w)
  deliver k b (ok (e ∷ es)) w = mark_all b (publish_all (e ∷ es) w)

  unfoldable pub turn : Worker → ℕ → World X → Pace × World X
  turn k b w =
      let (fetched, v) = do_read X (fetch_next_unpublished X k.host k.batch_size) w in
      deliver k b fetched v

  -- The loop for a number of turns, from its first backoff on; `quit` ends it after any of them.
  unfoldable pub run_from : ℕ → Worker → ℕ → World X → ℕ × World X
  run_from zero k b w = (b, w)
  run_from (suc n) k b w = let (p, v) = turn k b w in run_from n k p.backoff v

  unfoldable pub start : ℕ → Worker → World X → ℕ × World X
  start n k w = run_from n k first_backoff w
