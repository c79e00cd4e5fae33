-- ===== src/Ledger/Books.antt =====
-- The use cases of credit and payment keep the books: a table of sound journals stays sound.
use microservice_workspace.Ledger.Balance.{IsSound}
use microservice_workspace.Ledger.Credit.{
  book, credit_account, answer_or_book, new_booking, guarded, Booking, book_and_audit,
  credit_account_system, validated_booking, user_booking, user_audit, system_booking, system_audit,
}
use microservice_workspace.Store.Tx.Laws.{
  reserve_hold-Steady, time_now-Steady, new_uuid-Steady, release_hold-Steady,
  validate_accounts-Steady, record_audit-Steady,
}
use microservice_workspace.Store.Calls.{
  record_audit, new_uuid, reserve_hold, release_hold, time_now, validate_accounts,
}
use microservice_workspace.Ledger.Rules.{cached_json}
use microservice_workspace.Ledger.Payment.{
  record_steps, open_payment, write_payment, close_payment, Order, settle_outcome, post_payment,
  run_saga, answer_or_start, post_reserved, start_payment, identified, write_or_release,
}
use microservice_workspace.Ledger.Sound.{
  Keeps-bind, Keeps, Elsewhere, statement-Keeps, Keeps-attempt, Steady-Keeps, from_result-Keeps,
  guard-Keeps, pure-Keeps, insert_journal-Keeps, do_write-Keeps,
}
use microservice_workspace.Domain.{
  IdempotencyRecord, Uuid, Time, Actor, PostPaymentResult, PostPaymentCommand, CreditAccountResult,
  CreditAccountCommand, CreditAccountSystemCommand,
}
use microservice_workspace.Domain.Remote.{AuditRecord, ValidateRequest, HoldRequest}
use microservice_workspace.Store.Payments.{create_step, set_status, create_payment}
use microservice_workspace.Base.{true, false, [], ◌∷◌, arith, Bool, List}
use microservice_workspace.Base.Result.{Result, ok, err, M, Error, raise_if, raise}
use microservice_workspace.Base.Text.{Text}
use microservice_workspace.Domain.External.{External}
use microservice_workspace.Store.{World, OutboxEventEntity, PaymentStepEntity, PaymentEntity}
use microservice_workspace.Store.Tx.{do_read}
use microservice_workspace.Store.Payments
use microservice_workspace.Store.Outbox
use microservice_workspace.Store.Idempotency

module _ {D : Type 0} where
  create_payment-Elsewhere : (m : PaymentEntity D) → Elsewhere (create_payment m)
  unfolding create_payment
  create_payment-Elsewhere m = record { leaves = λ db db' a h. ground arith }

  create_step-Elsewhere :
      (columns : List Text) (m : PaymentStepEntity) → Elsewhere (create_step {D = D} columns m)
  unfolding create_step
  create_step-Elsewhere columns m = record { leaves = λ db db' a h. ground arith }

  set_status-Elsewhere :
      (id : Uuid) (status : Text) (t : Time) → Elsewhere (set_status {D = D} id status t)
  unfolding set_status
  set_status-Elsewhere id status t = record { leaves = λ db db' a h. ground arith }

module _ (X : External) where
  create_event-Elsewhere : (m : OutboxEventEntity) → Elsewhere (Outbox.create_event X m)
  unfolding Outbox.create_event
  create_event-Elsewhere m = record { leaves = λ db db' a h. ground arith }

  put-Keeps : (r : IdempotencyRecord) → Keeps (Idempotency.put X r)
  unfolding Idempotency.put
  put-Keeps r = statement-Keeps _ (record { leaves = λ db db' a h. ground arith })

  get-Keeps : (key : Text) → Keeps (Idempotency.get X key)
  unfolding Idempotency.get
  get-Keeps key = statement-Keeps _ (record { leaves = λ db db' a h. ground arith })

  cached_json-Keeps : (key : Text) → Keeps (cached_json X key)
  unfolding cached_json do_read
  cached_json-Keeps key = search (Keeps-bind, get-Keeps, pure-Keeps)

  new_uuid-Keeps : Keeps (new_uuid X)
  new_uuid-Keeps = Steady-Keeps (new_uuid X) (new_uuid-Steady X)

  time_now-Keeps : Keeps (time_now X)
  time_now-Keeps = Steady-Keeps (time_now X) (time_now-Steady X)

  validate_accounts-Keeps : (q : ValidateRequest X.Float) → Keeps (validate_accounts X q)
  validate_accounts-Keeps q = Steady-Keeps (validate_accounts X q) (validate_accounts-Steady X q)

  reserve_hold-Keeps : (q : HoldRequest X.Float) → Keeps (reserve_hold X q)
  reserve_hold-Keeps q = Steady-Keeps (reserve_hold X q) (reserve_hold-Steady X q)

  release_hold-Keeps : (q : HoldRequest X.Float) → Keeps (release_hold X q)
  release_hold-Keeps q = Steady-Keeps (release_hold X q) (release_hold-Steady X q)

  record_audit-Keeps : (r : AuditRecord) → Keeps (record_audit X r)
  record_audit-Keeps r = Steady-Keeps (record_audit X r) (record_audit-Steady X r)

  raise-Keeps : {A : Type 0} (e : Error) → Keeps (raise {W = World X} {A = A} e)
  raise-Keeps e = record { run = λ w s. s }

  raise_if-Keeps : (b : Bool) (e : Error) → Keeps (raise_if {W = World X} b e)
  raise_if-Keeps true e = record { run = λ w s. s }
  raise_if-Keeps false e = record { run = λ w s. s }

  ruleset keeping = (
    Keeps-bind, Keeps-attempt, from_result-Keeps, guard-Keeps, pure-Keeps, statement-Keeps,
    create_payment-Elsewhere, create_step-Elsewhere, set_status-Elsewhere, create_event-Elsewhere,
    put-Keeps, new_uuid-Keeps, time_now-Keeps, insert_journal-Keeps, do_write-Keeps,
    validate_accounts-Keeps, reserve_hold-Keeps, release_hold-Keeps, record_audit-Keeps,
    raise-Keeps, raise_if-Keeps, cached_json-Keeps,
  )

  open_payment-Keeps : (o : Order X) → Keeps (open_payment X o)
  unfolding open_payment Payments.insert
  open_payment-Keeps o = search keeping depth 20

  record_steps-Keeps : (o : Order X) (jid : Uuid) → Keeps (record_steps X o jid)
  unfolding record_steps Payments.insert_step
  record_steps-Keeps o jid = search keeping depth 20

  close_payment-Keeps : (o : Order X) (jid : Uuid) → Keeps (close_payment X o jid)
  unfolding close_payment Outbox.insert Payments.update_status
  close_payment-Keeps o jid = search keeping depth 20

  write_payment-Keeps : (o : Order X) → Keeps (write_payment X o)
  unfolding write_payment
  write_payment-Keeps o =
      search (Keeps-bind, open_payment-Keeps, record_steps-Keeps, close_payment-Keeps)

  settle_outcome-Keeps : (o : Order X) (r : Result PostPaymentResult) → Keeps (settle_outcome X o r)
  unfolding settle_outcome
  settle_outcome-Keeps o (ok result) = pure-Keeps result
  settle_outcome-Keeps o (err e) = search keeping depth 10

  run_saga-Keeps : (o : Order X) → Keeps (run_saga X o)
  unfolding run_saga post_reserved write_or_release
  run_saga-Keeps o = search (keeping, write_payment-Keeps, settle_outcome-Keeps) depth 20

  answer_or_start-Keeps :
      (actor : Actor) (cmd : PostPaymentCommand) (amt : X.Decimal) (cached : Text)
      → Keeps (answer_or_start X actor cmd amt cached)
  unfolding answer_or_start start_payment identified
  answer_or_start-Keeps actor cmd amt [] = search (keeping, run_saga-Keeps) depth 20
  answer_or_start-Keeps actor cmd amt (c ∷ cs) = pure-Keeps (X.unmarshal_payment (c ∷ cs))

  book-Keeps : (b : Booking X) → Keeps (book X b)
  unfolding book Outbox.insert
  book-Keeps b = search keeping depth 20

  answer_or_book-Keeps :
      (account currency : Text) (amt : X.Decimal) (proceed : M (World X) CreditAccountResult)
      (cached : Text)
      → Keeps proceed
      → Keeps (answer_or_book X account currency amt proceed cached)
  unfolding answer_or_book validated_booking
  answer_or_book-Keeps account currency amt proceed [] h = search keeping depth 10
  answer_or_book-Keeps account currency amt proceed (c ∷ cs) h =
      pure-Keeps (X.unmarshal_credit (c ∷ cs))

  new_booking-Keeps :
      (b : Uuid → Time → Booking X) (a : Uuid → Time → AuditRecord) → Keeps (new_booking X b a)
  unfolding new_booking book_and_audit
  new_booking-Keeps b a = search (keeping, book-Keeps) depth 20

  guarded-Keeps :
      (amount key account currency : Text) (proceed : X.Decimal → M (World X) CreditAccountResult)
      → ((amt : X.Decimal) → Keeps (proceed amt))
      → Keeps (guarded X amount key account currency proceed)
  unfolding guarded
  guarded-Keeps amount key account currency proceed h =
      search (keeping, answer_or_book-Keeps) depth 10

  post_payment-Keeps : (actor : Actor) (cmd : PostPaymentCommand) → Keeps (post_payment X actor cmd)
  unfolding post_payment
  post_payment-Keeps actor cmd = search (keeping, answer_or_start-Keeps) depth 10

-- If every journal in the tables balances and every line belongs to a journal, the same holds
-- after `PostPayment`, however it ends.
pub post_payment-IsSound :
    (X : External) (actor : Actor) (cmd : PostPaymentCommand) (w : World X)
    → IsSound X w.db
    → IsSound X (post_payment X actor cmd w).1.db
post_payment-IsSound X actor cmd w s = (post_payment-Keeps X actor cmd).run w s

-- If every journal in the tables balances and every line belongs to a journal, the same holds
-- after `CreditAccount` and after `CreditAccountSystem`, however they end.
pub credit-IsSound :
    (X : External) (actor : Actor) (cmd : CreditAccountCommand) (sys : CreditAccountSystemCommand)
    (w : World X)
    → IsSound X w.db
    → IsSound X (credit_account X actor cmd w).1.db × IsSound X (credit_account_system X sys w).1.db
unfolding credit_account credit_account_system
credit-IsSound X actor cmd sys w s = (
  (guarded-Keeps X _ _ _ _ _
        (λ amt. new_booking-Keeps X (user_booking X actor cmd amt) (user_audit X cmd amt))).run
      w s,
  (guarded-Keeps X _ _ _ _ _
        (λ amt. new_booking-Keeps X (system_booking X sys amt) (system_audit X sys amt))).run
      w s,
)
