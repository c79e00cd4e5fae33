-- ===== src/Delivery/Drain.antt =====
-- The outbox worker gets done: what is left to publish after a number of turns.
use mathlib.Core.Path.{subst}
use microservice_workspace.Domain.Remote.{Effect}
use microservice_workspace.Delivery.{run_from, start, Worker, first_backoff, Pace}
use microservice_workspace.Delivery.Reliable.{IsReliable, world}
use microservice_workspace.Base.Int.{ℤ, positive_or, pos, negsuc}
use microservice_workspace.Base.Text.{Text}
use microservice_workspace.Domain.External.{External}
use microservice_workspace.Base.{
  zero, ℕ, suc, ◌<◌, ◌≡◌, ◌∙◌, refl, sym, Bool, true, ◌&&◌, List, [], ◌∷◌, map, any, select, take,
  arith, Bool-cases, inl, inr, ◌==◌, ◌≤◌, all, ◌-◌,
}
use microservice_workspace.Domain.{Time}
use microservice_workspace.Store.{OutboxEventEntity, World, idle, Db}
use microservice_workspace.Store.Outbox.{is_claimable, sort_asc, next_ids}
use microservice_workspace.Delivery.Turn.{Delivers, turn-Delivers, worker_name, with_events}
use microservice_workspace.Delivery.Rows.{
  pending, IsSettled, waits, any-sort_asc, delivered, fewer_after, no_more_after,
  delivered-IsSettled,
}

any-select :
    (p q : OutboxEventEntity → Bool) (rows : List OutboxEventEntity)
    → any p (select q rows) ≡ any (λ m. q m && p m) rows
any-select p q [] = refl
any-select p q (m ∷ rows) =
    let i = any-select p q rows in
    elim (Bool-cases (q m)) [ inl e ↦ rw (e, i) refl | inr e ↦ rw (e, i) refl ]

any-weaken :
    (p q : OutboxEventEntity → Bool) (rows : List OutboxEventEntity)
    → ((m : OutboxEventEntity) → p m ≡ true → q m ≡ true)
    → any p rows ≡ true
    → any q rows ≡ true
any-weaken p q [] f h = h
any-weaken p q (m ∷ rows) f h =
    let i = any-weaken p q rows f in
    let g = f m in
    elim (Bool-cases (p m)) [
      | inl e ↦ let k = g e in rw k refl
      | inr e ↦ let k = i (ground arith) in ground arith
    ]

anything : OutboxEventEntity → Bool
anything m = true

-- Outside the hands of workers, what is not published can be claimed.
claimable-exists :
    (now : Time) (rows : List OutboxEventEntity)
    → IsSettled rows
    → 0 < pending rows
    → any (is_claimable now) rows ≡ true
unfolding pending is_claimable
claimable-exists now [] s h = absurd (omega (arith, h))
claimable-exists now (m ∷ rows) s h = let i = claimable-exists now rows in ground arith

-- Of rows in order, the first `suc k` contain the first.
first-waits :
    (now : Time) (k : ℕ) (sorted rows : List OutboxEventEntity)
    → any (λ m. true) sorted ≡ true
    → ((p : OutboxEventEntity → Bool)
        → any p sorted ≡ true
        → any (λ m. is_claimable now m && p m) rows ≡ true)
    → any (waits (map (λ (m : OutboxEventEntity). m.id) (take (suc k) sorted))) rows ≡ true
unfolding is_claimable
first-waits now k [] rows h f = ground arith
first-waits now k (m ∷ sorted) rows h f =
    any-weaken (λ r. is_claimable now r && (r.id == m.id))
      (waits (m.id ∷ map (λ (m : OutboxEventEntity). m.id) (take k sorted))) rows
      (λ r h. ground arith) (f (λ r. r.id == m.id) (ground arith))

-- If something is left to publish, something of it is claimed.
pub next_ids-waits :
    (now : Time) (k : ℕ) (rows : List OutboxEventEntity)
    → IsSettled rows
    → 0 < pending rows
    → any (waits (next_ids now (suc k) rows)) rows ≡ true
unfolding next_ids
next_ids-waits now k rows s h =
    let found = select (is_claimable now) rows in
    first-waits now k (sort_asc found) rows
      (any-sort_asc (λ m. true) found
        ∙ any-select (λ m. true) (is_claimable now) rows
        ∙ any-weaken (is_claimable now) (λ m. is_claimable now m && true) rows (λ m e. rw e refl)
            (claimable-exists now rows s h))
      (λ p e. sym (any-select p (is_claimable now) rows) ∙ sym (any-sort_asc p found) ∙ e)

positive_or-pos : (limit : ℤ) → 0 < positive_or limit 50
positive_or-pos (pos zero) = omega arith
positive_or-pos (pos (suc n)) = omega arith
positive_or-pos (negsuc n) = omega arith

pending-none :
    (rows : List OutboxEventEntity)
    → pending rows ≤ 0
    → all (λ (m : OutboxEventEntity). m.published) rows ≡ true
unfolding pending
pending-none [] h = refl
pending-none (m ∷ rows) h = let i = pending-none rows in ground arith

-- After a turn fewer events wait, unless none did, and no event is in the hands of a worker.
delivered-fewer :
    (owner : Text) (now later : Time) (limit : ℤ) (rows : List OutboxEventEntity)
    → IsSettled rows
    → pending (delivered (next_ids now (positive_or limit 50) rows) owner now later rows)
      ≤ pending rows - 1
delivered-fewer owner now later limit rows s = go (positive_or limit 50) (positive_or-pos limit)
  where
    go :
        (n : ℕ)
        → 0 < n
        → pending (delivered (next_ids now n rows) owner now later rows) ≤ pending rows - 1
    go zero h = absurd (omega (arith, h))
    go (suc k) h =
        let ids = next_ids now (suc k) rows in
        let waits = next_ids-waits now k rows s in
        let fewer = fewer_after ids owner now later rows in
        let no_more = no_more_after ids owner now later rows in ground arith

module _ (X : External) (R : IsReliable X) where
  -- After `n` turns so many events fewer are left, and none is in the hands of a worker.
  pub record IsDrained (n : ℕ) (w v : World X) : Type 0 where
    pub closed : v.tx ≡ idle
    pub settled : IsSettled v.db.outbox_events
    pub left : pending v.db.outbox_events ≤ pending w.db.outbox_events - n

  run_from-IsDrained :
      (n : ℕ) (k : Worker) (b : ℕ) (db : Db X.Decimal) (env : X.Env) (l : List (Effect X.Float))
      → IsSettled db.outbox_events
      → IsDrained n (world X idle db env l) (run_from X n k b (world X idle db env l)).1
  unfolding run_from Delivers
  run_from-IsDrained zero k b db env l s = record { closed = refl; settled = s; left = omega arith }
  run_from-IsDrained (suc n) k b db env l s =
      let (p, now, later, env', l', e) = turn-Delivers X R k b db env l in
      let ids = next_ids now (positive_or k.batch_size 50) db.outbox_events in
      let rows = delivered ids (worker_name k.host) now later db.outbox_events in
      let fewer = delivered-fewer (worker_name k.host) now later k.batch_size db.outbox_events s in
      let rest =
        run_from-IsDrained n k p.backoff (with_events X db rows) env' l'
          (delivered-IsSettled ids (worker_name k.host) now later db.outbox_events s) in
      subst
        (λ (r : Pace × World X).
          IsDrained (suc n) (world X idle db env l) (run_from X n k r.0.backoff r.1).1)
        (sym e)
        (record {
          closed = rest.closed;
          settled = rest.settled;
          left = let h = rest.left in omega (arith, h, fewer);
        })

  -- If neither the database nor the event bus fails, no transaction is open, no event is in the
  -- hands of a worker and none is added, then as many turns of the worker as there are events to
  -- publish leave none: every event of the table is published, whatever the batch size is.
  pub start-drains :
      (n : ℕ) (k : Worker) (w : World X)
      → w.tx ≡ idle
      → IsSettled w.db.outbox_events
      → pending w.db.outbox_events ≤ n
      → all (λ m. m.published) (start X n k w).1.db.outbox_events ≡ true
  unfolding start
  start-drains n k w h s p =
      let d : IsDrained n w (run_from X n k first_backoff w).1 =
        subst
          (λ t.
            IsDrained n (world X t w.db w.env w.log)
              (run_from X n k first_backoff (world X t w.db w.env w.log)).1)
          (sym h) (run_from-IsDrained n k first_backoff w.db w.env w.log s) in
      pending-none (run_from X n k first_backoff w).1.db.outbox_events
        (let l = d.left in omega (arith, l, p))
