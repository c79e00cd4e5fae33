-- ===== src/Delivery/Backoff.antt =====
-- How long the worker waits between its turns.
use microservice_workspace.Store.Outbox.{mark_published, fetch_next_unpublished}
use microservice_workspace.Store.Tx.{do_read, do_write}
use microservice_workspace.Delivery.{
  Pace, first_backoff, retry_later, Worker, mark_all, start, run_from, deliver, publish_all,
  pace_of, turn, do_read, do_write, fetch_next_unpublished, mark_published,
}
use microservice_workspace.Base.{
  ◌⊎◌, inl, inr, ℕ, zero, suc, ◌≡◌, ◌≤◌, List, [], ◌∷◌, arith, ◌*◌, ◌^◌, refl,
}
use microservice_workspace.Base.Result.{Result, ok, err}
use microservice_workspace.Domain.{OutboxEvent, Uuid}
use microservice_workspace.Domain.External.{External}
use microservice_workspace.Store.{World}

-- The first backoff, doubled up to four times.
abbrev pub IsBackoff : ℕ → Type 0
IsBackoff b = (i : ℕ) × (i ≤ 4) × (b ≡ first_backoff * 2 ^ i)

first-IsBackoff : IsBackoff first_backoff
first-IsBackoff = (0, omega arith, refl)

retry_later-IsBackoff : (b : ℕ) → IsBackoff b → IsBackoff (retry_later b).backoff
unfolding retry_later
retry_later-IsBackoff b (zero, h, e) = rw e (1, omega arith, refl)
retry_later-IsBackoff b (suc zero, h, e) = rw e (2, omega arith, refl)
retry_later-IsBackoff b (suc (suc zero), h, e) = rw e (3, omega arith, refl)
retry_later-IsBackoff b (suc (suc (suc zero)), h, e) = rw e (4, omega arith, refl)
retry_later-IsBackoff b (suc (suc (suc (suc zero))), h, e) = rw e (4, omega arith, refl)
retry_later-IsBackoff b (suc (suc (suc (suc (suc i)))), h, e) = ground arith

-- After a turn that began with the backoff `b`: the worker slept for its poll interval or for 50 ms
-- and starts over with the first backoff, or it slept for `b` and keeps or doubles it.
pub record IsPaced (k : Worker) (b : ℕ) (p : Pace) : Type 0 where
  pub next : IsBackoff p.backoff
  pub pause :
      (((p.slept ≡ k.poll_every) ⊎ (p.slept ≡ 50)) × (p.backoff ≡ first_backoff))
      ⊎ ((p.slept ≡ b) × (b ≤ p.backoff))

module _ (k : Worker) where
  retry_later-IsPaced : (b : ℕ) → IsBackoff b → IsPaced k b (retry_later b)
  unfolding retry_later
  retry_later-IsPaced b h = record {
    next = retry_later-IsBackoff b h;
    pause = inr (refl, ground arith);
  }

module _ (X : External) (k : Worker) where
  pace_of-IsPaced : (b : ℕ) (r : Result (Unit {0})) → IsBackoff b → IsPaced k b (pace_of X b r)
  unfolding pace_of
  pace_of-IsPaced b (ok u) h = record { next = first-IsBackoff; pause = inl (inr refl, refl) }
  pace_of-IsPaced b (err e) h = retry_later-IsPaced k b h

  mark_all-IsPaced :
      (b : ℕ) (r : List Uuid × World X) → IsBackoff b → IsPaced k b (mark_all X b r).0
  unfolding mark_all
  mark_all-IsPaced b ([], w) h = retry_later-IsPaced k b h
  mark_all-IsPaced b (id ∷ ids, w) h =
      pace_of-IsPaced b (do_write X (mark_published X (id ∷ ids)) w).0 h

  deliver-IsPaced :
      (b : ℕ) (r : Result (List OutboxEvent)) (w : World X)
      → IsBackoff b
      → IsPaced k b (deliver X k b r w).0
  unfolding deliver
  deliver-IsPaced b (err e) w h = retry_later-IsPaced k b h
  deliver-IsPaced b (ok []) w h = record { next = first-IsBackoff; pause = inl (inl refl, refl) }
  deliver-IsPaced b (ok (e ∷ es)) w h = mark_all-IsPaced b (publish_all X (e ∷ es) w) h

  turn-IsPaced : (b : ℕ) (w : World X) → IsBackoff b → IsPaced k b (turn X k b w).0
  unfolding turn
  turn-IsPaced b w h =
      let (fetched, v) = do_read X (fetch_next_unpublished X k.host k.batch_size) w in
      deliver-IsPaced b fetched v h

  run_from-IsBackoff : (n b : ℕ) (w : World X) → IsBackoff b → IsBackoff (run_from X n k b w).0
  unfolding run_from
  run_from-IsBackoff zero b w h = h
  run_from-IsBackoff (suc n) b w h =
      let (p, v) = turn X k b w in run_from-IsBackoff n p.backoff v (turn-IsPaced b w h).next

  -- After any number of turns, whatever failed in them, the backoff `b` is 200 ms doubled at most
  -- four times, so 3.2 seconds at most. In the next turn, from whatever world, the worker sleeps
  -- for its poll interval or 50 ms and starts over with 200 ms, or it sleeps for `b` and goes on
  -- with a backoff that is again such a multiple and not less than `b`.
  pub start-IsBackoff :
      (n : ℕ) (w v : World X)
      → IsBackoff (start X n k w).0 × IsPaced k (start X n k w).0 (turn X k (start X n k w).0 v).0
  unfolding start
  start-IsBackoff n w v =
      let h = run_from-IsBackoff n first_backoff w first-IsBackoff in
      (h, turn-IsPaced (run_from X n k first_backoff w).0 v h)
