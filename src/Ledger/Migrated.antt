-- ===== src/Ledger/Migrated.antt =====
-- Payments on the table payment_steps as the migration creates it.
use mathlib.Core.Path.{subst}
use microservice_workspace.Base.{Bool, true, false, not, find, ◌≡◌, ◌∙◌, refl, sym, none, some, []}
use microservice_workspace.Base.Text.{Text}
use microservice_workspace.Base.Result.{
  Result, ok, err, M, Post, Post-bind, Post-weaken, Post-both, ◌>>=◌, ◌>>◌, pure, from_result,
  raise_if, attempt,
}
use microservice_workspace.Domain.{Actor, PostPaymentCommand, PostPaymentResult}
use microservice_workspace.Domain.External.{External}
use microservice_workspace.Store.{idle, World, migrated_step_columns}
use microservice_workspace.Store.Calls.{
  new_uuid, time_now, record_audit, reserve_hold, validate_accounts,
}
use microservice_workspace.Store.Tx.{do_write}
use microservice_workspace.Store.Tx.Laws.{
  Steady, Unchanged, reserve_hold-Steady, validate_accounts-Steady,
}
use microservice_workspace.Store.Idempotency
use microservice_workspace.Ledger.Rules.{
  cached_json, amount_not_exact, accept_hold, accept_accounts,
}
use microservice_workspace.Ledger.Atomic.{post_payment-Atomic}
use microservice_workspace.Ledger.Kept.{get-Ignores}
use microservice_workspace.Ledger.Frame.{At, cached_json-Still}
use microservice_workspace.Ledger.Holds.{Holds, from_result-Holds, new_uuid-Holds, time_now-Holds}
use microservice_workspace.Ledger.Payment.{
  post_payment, Order, write_payment, post_reserved, write_or_release, settle_outcome, run_saga,
  identified, start_payment, answer_or_start, payment_audit, new_order, reserve_request,
  validate_request, customer_of,
}
use microservice_workspace.Ledger.Unwritten.{Fails, write_payment-Fails}

module _ (X : External) (migrated : X.step_columns ≡ migrated_step_columns) where
  then-Fails :
      {A B : Type 0} (m : M (World X) A) (k : A → M (World X) B) (w : World X)
      → Holds X (λ t. t ≡ idle) m
      → w.tx ≡ idle
      → ((a : A) (v : World X) → v.tx ≡ idle → Fails X migrated (k a v))
      → Fails X migrated ((m >>= k) w)
  unfolding Fails
  then-Fails m k w h e f =
      Post-bind (λ _ v. v.tx ≡ idle) (λ _ _. ⊥) (λ _ _. Unit) m k w (h.run w e) f

  Fails-then :
      {A B : Type 0} (m : M (World X) A) (k : A → M (World X) B) (w : World X)
      → Fails X migrated (m w)
      → Fails X migrated ((m >>= k) w)
  unfolding Fails
  Fails-then m k w h = Post-bind (λ _ _. ⊥) (λ _ _. ⊥) (λ _ _. Unit) m k w h (λ a v z. elim z [ ])

  settled-Fails :
      (o : Order X) (r : Result PostPaymentResult × World X)
      → Fails X migrated r
      → Fails X migrated (settle_outcome X o r.0 r.1)
  unfolding Fails settle_outcome
  settled-Fails o (ok a, v) h = h
  settled-Fails o (err e, v) h = tt

  post_reserved-Fails :
      (o : Order X) (w : World X) → w.tx ≡ idle → Fails X migrated (post_reserved X o w)
  unfolding post_reserved write_or_release
  post_reserved-Fails o w h =
      Fails-then (write_or_release X o)
        (λ result. attempt (record_audit X (payment_audit X o)) >> pure result) w
        (settled-Fails o (do_write X (write_payment X o) w) (write_payment-Fails X migrated o w h))

  called-Holds :
      {A : Type 0} {m : M (World X) A} → ((w : World X) → Steady m w) → Holds X (λ t. t ≡ idle) m
  called-Holds {m = m} h = record {
    run = λ w e.
        Post-weaken (λ _ v. Unchanged w v) (λ _ v. v.tx ≡ idle) (λ _ v. Unchanged w v) (λ _ _. Unit)
          (m w) (h w) (λ _ v u. u.1 ∙ e) (λ _ _ _. tt);
  }

  run_saga-Fails : (o : Order X) (w : World X) → w.tx ≡ idle → Fails X migrated (run_saga X o w)
  unfolding run_saga
  run_saga-Fails o w h =
      then-Fails (reserve_hold X (reserve_request X o)) _ w
        (called-Holds (reserve_hold-Steady X (reserve_request X o))) h
        λ r v e.
          then-Fails (from_result (accept_hold r)) (λ _. post_reserved X o) v
            (from_result-Holds X (λ t. t ≡ idle) (accept_hold r)) e
            λ _ u i. post_reserved-Fails o u i

  identified-Fails :
      (actor : Actor) (cmd : PostPaymentCommand) (amt : X.Decimal) (w : World X)
      → w.tx ≡ idle
      → Fails X migrated (identified X actor cmd amt w)
  unfolding identified
  identified-Fails actor cmd amt w h =
      then-Fails (new_uuid X) _ w (new_uuid-Holds X (λ t. t ≡ idle)) h λ id v e.
        then-Fails (time_now X) _ v (time_now-Holds X (λ t. t ≡ idle)) e λ now u i.
          then-Fails (from_result (customer_of X actor)) _ u
            (from_result-Holds X (λ t. t ≡ idle) (customer_of X actor)) i
            λ customer x k. run_saga-Fails (new_order X actor cmd amt id now customer) x k

  start_payment-Fails :
      (actor : Actor) (cmd : PostPaymentCommand) (amt : X.Decimal) (w : World X)
      → w.tx ≡ idle
      → Fails X migrated (start_payment X actor cmd amt w)
  unfolding start_payment
  start_payment-Fails actor cmd amt w h =
      then-Fails (validate_accounts X (validate_request X cmd amt)) _ w
        (called-Holds (validate_accounts-Steady X (validate_request X cmd amt))) h
        λ r v e.
          then-Fails (from_result (accept_accounts r)) _ v
            (from_result-Holds X (λ t. t ≡ idle) (accept_accounts r)) e
            λ _ u i.
              Fails-then (identified X actor cmd amt) (λ result. pure (some result)) u
                (identified-Fails actor cmd amt u i)

  key_missing :
      (key : Text) (w : World X)
      → w.tx ≡ idle
      → find (Idempotency.has_key key) w.db.idempotency_records ≡ none
      → Post (λ t v. (v.tx ≡ idle) × (t ≡ [])) (λ _ _. Unit) (cached_json X key w)
  key_missing key w start h =
      Post-both (λ _ v. v.tx ≡ idle) (λ t _. t ≡ []) (λ _ _. Unit) (cached_json X key w)
        (Post-weaken _ _ (λ _ v. At w v) _ (cached_json X key w)
          (cached_json-Still w key w (refl, start)) (λ _ v a. a.1) (λ _ _ _. tt))
        (Post-weaken _ _ (λ _ _. Unit) _ (cached_json X key w) (get-Ignores X w key h)
          (λ _ _ e. e.0) (λ _ _ _. tt))

  post_payment-Fails :
      (actor : Actor) (cmd : PostPaymentCommand) (w : World X)
      → w.tx ≡ idle
      → find (Idempotency.has_key cmd.idempotency_key) w.db.idempotency_records ≡ none
      → Fails X migrated (post_payment X actor cmd w)
  unfolding post_payment answer_or_start Fails
  post_payment-Fails actor cmd w start h = parsed (X.decimal_from_string cmd.amount)
    where
      checked :
          (amt : X.Decimal) (b : Bool)
          → Fails X migrated (
              (raise_if b amount_not_exact
                  >> (cached_json X cmd.idempotency_key >>= answer_or_start X actor cmd amt))
                w)
      checked amt true = tt
      checked amt false =
          Post-bind (λ t v. (v.tx ≡ idle) × (t ≡ [])) (λ _ _. ⊥) (λ _ _. Unit)
            (cached_json X cmd.idempotency_key) (answer_or_start X actor cmd amt) w
            (key_missing cmd.idempotency_key w start h)
            λ t v e.
              subst (λ t. Fails X migrated (answer_or_start X actor cmd amt t v)) (sym e.1)
                (start_payment-Fails actor cmd amt v e.0)

      parsed :
          (r : Result X.Decimal)
          → Fails X migrated (
              (from_result r >>= λ amt.
              raise_if (not (X.float64 amt).1) amount_not_exact
              >> (cached_json X cmd.idempotency_key >>= answer_or_start X actor cmd amt))
                w)
      parsed (err e) = tt
      parsed (ok amt) = checked amt (not (X.float64 amt).1)

  -- If the table payment_steps has the columns with which the migration creates it, no new payment
  -- succeeds: from a connection without an open transaction, a payment under a key without a stored
  -- response ends with an error, whatever the accounts service and the database answer, and the
  -- tables are as they were.
  pub post_payment-unmigrated :
      (actor : Actor) (cmd : PostPaymentCommand) (w : World X) (start : w.tx ≡ idle)
      (new_key : find (Idempotency.has_key cmd.idempotency_key) w.db.idempotency_records ≡ none)
      → Post (λ _ _. ⊥) (λ _ v. (v.db ≡ w.db) × (v.tx ≡ idle)) (post_payment X actor cmd w)
  unfolding Fails
  post_payment-unmigrated actor cmd w start new_key =
      Post-weaken (λ _ v. (v.tx ≡ idle) × ⊥) (λ _ _. ⊥) (λ _ v. (v.db ≡ w.db) × (v.tx ≡ idle))
        (λ _ v. (v.db ≡ w.db) × (v.tx ≡ idle)) (post_payment X actor cmd w)
        (Post-both (λ _ v. v.tx ≡ idle) (λ _ _. ⊥) (λ _ v. (v.db ≡ w.db) × (v.tx ≡ idle))
          (post_payment X actor cmd w) (post_payment-Atomic X w start actor cmd)
          (post_payment-Fails actor cmd w start new_key))
        (λ _ _ z. z.1) (λ _ _ k. k)
