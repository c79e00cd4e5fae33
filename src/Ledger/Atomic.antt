-- ===== src/Ledger/Atomic.antt =====
-- Failures leave no trace in the tables: the use cases of credit and payment, from a connection
-- with no open transaction.
use mathlib.Core.Path.{refl}
use microservice_workspace.Ledger.Credit.{
  validated_booking, new_booking, credit_account_system, guarded, book_and_audit, answer_or_book,
  credit_account, Booking, book, self_request,
}
use microservice_workspace.Base.{◌≡◌, ◌∙◌, some, [], ◌∷◌, not}
use microservice_workspace.Base.Result.{
  Result, ok, err, M, Post, ◌>>◌, pure, attempt, from_result, raise_if, Post-world,
}
use microservice_workspace.Base.Text.{Text}
use microservice_workspace.Domain.{
  PostPaymentResult, Actor, CreditAccountCommand, CreditAccountResult, PostPaymentCommand, Uuid,
  CreditAccountSystemCommand, Time,
}
use microservice_workspace.Domain.External.{External}
use microservice_workspace.Store.{idle, World}
use microservice_workspace.Store.Tx.{do_write}
use microservice_workspace.Store.Tx.Laws.{Unchanged, Atomic, release_hold-Steady}
use microservice_workspace.Domain.Remote.{AuditRecord}
use microservice_workspace.Ledger.Rules.{accept_hold, amount_not_exact, accept_accounts}
use microservice_workspace.Store.Calls.{
  record_audit, release_hold, reserve_hold, validate_accounts, new_uuid, time_now,
}
use microservice_workspace.Ledger.Rules.{cached_json}
use microservice_workspace.Ledger.Payment.{
  Order, write_or_release, run_saga, reserve_request, settle_outcome, write_payment, post_reserved,
  payment_audit, release_request, post_payment, identified, answer_or_start, start_payment,
  validate_request, customer_of, new_order,
}
use microservice_workspace.Ledger.Frame.{
  At, Safe, Sure, Safe-bind, Safe-bind-Sure, from_result-Still, pure-Safe, raise_if-Still,
  new_uuid-Still, time_now-Still, validate_accounts-Still, reserve_hold-Still, cached_json-Still,
  audit-Sure, do_write-Safe,
}

module _ {X : External} (w₀ : World X) where
  -- What the saga does with the outcome of the transaction.
  outcome-Safe :
      (o : Order X) (r : Result PostPaymentResult) (w : World X)
      → Post (λ _ v. v.tx ≡ idle) (λ _ v. At w₀ v) (r, w)
      → Post (λ _ v. v.tx ≡ idle) (λ _ v. At w₀ v) (settle_outcome X o r w)
  unfolding settle_outcome
  outcome-Safe o (ok result) w h = h
  outcome-Safe o (err e) w h =
      let u =
        Post-world (Unchanged w) (release_hold X (release_request X o) w)
          (release_hold-Steady X (release_request X o) w) in
      (u.0 ∙ h.0, u.1 ∙ h.1)

  write_or_release-Safe : (o : Order X) → Safe w₀ (write_or_release X o)
  unfolding write_or_release
  write_or_release-Safe o w h =
      let (r, v) = do_write X (write_payment X o) w in
      outcome-Safe o r v (do_write-Safe w₀ (write_payment X o) w h)

  post_reserved-Safe : (o : Order X) → Safe w₀ (post_reserved X o)
  unfolding post_reserved
  post_reserved-Safe o =
      Safe-bind-Sure w₀ (write_or_release X o)
        (λ result. attempt (record_audit X (payment_audit X o)) >> pure result)
        (write_or_release-Safe o) (audit-Sure w₀ (payment_audit X o))

  run_saga-Safe : (o : Order X) → Safe w₀ (run_saga X o)
  unfolding run_saga
  run_saga-Safe o =
      Safe-bind w₀ (reserve_hold X (reserve_request X o))
        (λ r. from_result (accept_hold r) >> post_reserved X o)
        (reserve_hold-Still w₀ (reserve_request X o))
        λ r.
          Safe-bind w₀ (from_result (accept_hold r)) (λ _. post_reserved X o)
            (from_result-Still w₀ (accept_hold r)) (λ _. post_reserved-Safe o)

  pub identified-Safe :
      (actor : Actor) (cmd : PostPaymentCommand) (amt : X.Decimal)
      → Safe w₀ (identified X actor cmd amt)
  unfolding identified
  identified-Safe actor cmd amt = Safe-bind w₀ (new_uuid X) _ (new_uuid-Still w₀) λ id.
      Safe-bind w₀ (time_now X) _ (time_now-Still w₀) λ now.
        Safe-bind w₀ (from_result (customer_of X actor)) _
          (from_result-Still w₀ (customer_of X actor))
          λ customer. run_saga-Safe (new_order X actor cmd amt id now customer)

  pure-Sure : {A : Type 0} (a : A) → Sure w₀ (pure a)
  pure-Sure a w h = h

  start_payment-Safe :
      (actor : Actor) (cmd : PostPaymentCommand) (amt : X.Decimal)
      → Safe w₀ (start_payment X actor cmd amt)
  unfolding start_payment
  start_payment-Safe actor cmd amt =
      Safe-bind w₀ (validate_accounts X (validate_request X cmd amt)) _
        (validate_accounts-Still w₀ (validate_request X cmd amt))
        λ v.
          Safe-bind w₀ (from_result (accept_accounts v)) _
            (from_result-Still w₀ (accept_accounts v))
            λ _.
              Safe-bind-Sure w₀ (identified X actor cmd amt) (λ r. pure (some r))
                (identified-Safe actor cmd amt) (λ r. pure-Sure (some r))

  answer_or_start-Safe :
      (actor : Actor) (cmd : PostPaymentCommand) (amt : X.Decimal) (cached : Text)
      → Safe w₀ (answer_or_start X actor cmd amt cached)
  unfolding answer_or_start
  answer_or_start-Safe actor cmd amt [] = start_payment-Safe actor cmd amt
  answer_or_start-Safe actor cmd amt (c ∷ cs) = pure-Safe w₀ (X.unmarshal_payment (c ∷ cs))

  post_payment-Safe :
      (actor : Actor) (cmd : PostPaymentCommand) → Safe w₀ (post_payment X actor cmd)
  unfolding post_payment
  post_payment-Safe actor cmd =
      Safe-bind w₀ (from_result (X.decimal_from_string cmd.amount)) _
        (from_result-Still w₀ (X.decimal_from_string cmd.amount))
        λ amt.
          Safe-bind w₀ (raise_if (not (X.float64 amt).1) amount_not_exact) _
            (raise_if-Still w₀ (not (X.float64 amt).1) amount_not_exact)
            λ _.
              Safe-bind w₀ (cached_json X cmd.idempotency_key) _
                (cached_json-Still w₀ cmd.idempotency_key) (answer_or_start-Safe actor cmd amt)

  book_and_audit-Safe : (b : Booking X) (a : AuditRecord) → Safe w₀ (book_and_audit X b a)
  unfolding book_and_audit
  book_and_audit-Safe b a =
      Safe-bind-Sure w₀ (do_write X (book X b)) (λ r. attempt (record_audit X a) >> pure r)
        (do_write-Safe w₀ (book X b)) (audit-Sure w₀ a)

  pub new_booking-Safe :
      (b : Uuid → Time → Booking X) (a : Uuid → Time → AuditRecord) → Safe w₀ (new_booking X b a)
  unfolding new_booking
  new_booking-Safe b a = Safe-bind w₀ (new_uuid X) _ (new_uuid-Still w₀) λ id.
      Safe-bind w₀ (time_now X) _ (time_now-Still w₀)
        (λ now. book_and_audit-Safe (b id now) (a id now))

  validated_booking-Safe :
      (account currency : Text) (amt : X.Decimal) (proceed : M (World X) CreditAccountResult)
      → Safe w₀ proceed
      → Safe w₀ (validated_booking X account currency amt proceed)
  unfolding validated_booking
  validated_booking-Safe account currency amt proceed h =
      Safe-bind w₀ (validate_accounts X (self_request X account currency amt)) _
        (validate_accounts-Still w₀ (self_request X account currency amt))
        λ v.
          Safe-bind w₀ (from_result (accept_accounts v)) _
            (from_result-Still w₀ (accept_accounts v))
            λ _. Safe-bind-Sure w₀ proceed (λ r. pure (some r)) h (λ r. pure-Sure (some r))

  answer_or_book-Safe :
      (account currency : Text) (amt : X.Decimal) (proceed : M (World X) CreditAccountResult)
      (cached : Text)
      → Safe w₀ proceed
      → Safe w₀ (answer_or_book X account currency amt proceed cached)
  unfolding answer_or_book
  answer_or_book-Safe account currency amt proceed [] h =
      validated_booking-Safe account currency amt proceed h
  answer_or_book-Safe account currency amt proceed (c ∷ cs) h =
      pure-Safe w₀ (X.unmarshal_credit (c ∷ cs))

  guarded-Safe :
      (amount key account currency : Text) (proceed : X.Decimal → M (World X) CreditAccountResult)
      → ((amt : X.Decimal) → Safe w₀ (proceed amt))
      → Safe w₀ (guarded X amount key account currency proceed)
  unfolding guarded
  guarded-Safe amount key account currency proceed h =
      Safe-bind w₀ (from_result (X.decimal_from_string amount)) _
        (from_result-Still w₀ (X.decimal_from_string amount))
        λ amt.
          Safe-bind w₀ (raise_if (not (X.float64 amt).1) amount_not_exact) _
            (raise_if-Still w₀ (not (X.float64 amt).1) amount_not_exact)
            λ _.
              Safe-bind w₀ (cached_json X key) _ (cached_json-Still w₀ key)
                λ cached. answer_or_book-Safe account currency amt (proceed amt) cached (h amt)

module _ (X : External) (w : World X) (start : w.tx ≡ idle) where
  -- From a connection without an open transaction: however `PostPayment` fails, the tables are
  -- those that it began with; and no transaction stays open, whether it fails or not.
  pub post_payment-Atomic :
      (actor : Actor) (cmd : PostPaymentCommand) → Atomic (post_payment X actor cmd) w
  post_payment-Atomic actor cmd = post_payment-Safe w actor cmd w (refl, start)

  -- From a connection without an open transaction: if `CreditAccount` fails, the tables are those
  -- that it began with; and no transaction stays open, whether it fails or not.
  pub credit_account-Atomic :
      (actor : Actor) (cmd : CreditAccountCommand) → Atomic (credit_account X actor cmd) w
  unfolding credit_account
  credit_account-Atomic actor cmd =
      guarded-Safe w _ _ _ _ _ (λ amt. new_booking-Safe w _ _) w (refl, start)

  -- From a connection without an open transaction: if `CreditAccountSystem` fails, the tables are
  -- those that it began with; and no transaction stays open, whether it fails or not.
  pub credit_account_system-Atomic :
      (cmd : CreditAccountSystemCommand) → Atomic (credit_account_system X cmd) w
  unfolding credit_account_system
  credit_account_system-Atomic cmd =
      guarded-Safe w _ _ _ _ _ (λ amt. new_booking-Safe w _ _) w (refl, start)
