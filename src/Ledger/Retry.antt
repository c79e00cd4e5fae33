-- ===== src/Ledger/Retry.antt =====
-- A use case that is called again with the same key, after it has succeeded.
use microservice_workspace.Store.Tx.{do_write}
use microservice_workspace.Ledger.Credit.{
  book, book_and_audit, Booking, booked_record, booked_result,
}
use microservice_workspace.Ledger.Payment.{
  open_payment, identified, close_payment, write_payment, run_saga, settle_outcome, record_steps,
  write_or_release, post_reserved, Order, payment_record, payment_result,
}
use microservice_workspace.Base.{◌≡◌, refl, ◌∙◌, [], ◌∷◌, arith, List}
use microservice_workspace.Base.Text.{Text}
use microservice_workspace.Base.Result.{Result, ok, err, Post, and_then-eq-ok}
use microservice_workspace.Domain.{
  Actor, PostPaymentCommand, PostPaymentResult, JournalEntry, Uuid, Time,
}
use microservice_workspace.Domain.Remote.{AuditRecord, ValidateRequest, HoldRequest}
use microservice_workspace.Domain.External.{External}
use microservice_workspace.Store.{
  Db, World, EntryLineEntity, JournalEntryEntity, PaymentEntity, PaymentStepEntity,
  OutboxEventEntity,
}
use microservice_workspace.Store.Calls.{
  new_uuid, time_now, record_audit, validate_accounts, reserve_hold,
}
use microservice_workspace.Store.Payments
use microservice_workspace.Store.Outbox
use microservice_workspace.Store.Tx.Laws.{
  new_uuid-Steady, time_now-Steady, validate_accounts-Steady, reserve_hold-Steady,
  record_audit-Steady,
}
use microservice_workspace.Store.Journals.{
  insert_journal, insert_lines, create_lines, create_line, create_journal,
}
use microservice_workspace.Ledger.Keys.{
  Ignores, Leaves, Leaves-bind, Leaves-attempt, from_result-Leaves, pure-Leaves, Steady-Leaves,
  statement-Leaves, transaction-Leaves,
}
use microservice_workspace.Ledger.Records.{
  Records, Records-bind, Records-then, put-Records, do_write-Records, IsRecorded,
}

module _ {D : Type 0} where
  create_payment-Ignores : (m : PaymentEntity D) → Ignores (Payments.create_payment m)
  unfolding Payments.create_payment
  create_payment-Ignores m = record { leaves = λ db db' a h. ground arith }

  create_step-Ignores :
      (columns : List Text) (m : PaymentStepEntity)
      → Ignores (Payments.create_step {D = D} columns m)
  unfolding Payments.create_step
  create_step-Ignores columns m = record { leaves = λ db db' a h. ground arith }

  set_status-Ignores :
      (id : Uuid) (status : Text) (t : Time) → Ignores (Payments.set_status {D = D} id status t)
  unfolding Payments.set_status
  set_status-Ignores id status t = record { leaves = λ db db' a h. ground arith }

  create_journal-Ignores : (m : JournalEntryEntity) → Ignores (create_journal {D = D} m)
  unfolding create_journal
  create_journal-Ignores m = record { leaves = λ db db' a h. ground arith }

  create_line-leaves :
      (l : EntryLineEntity D) (db db' : Db D) (a : Unit {0})
      → create_line l db ≡ ok (a, db')
      → db'.idempotency_records ≡ db.idempotency_records
  unfolding create_line
  create_line-leaves l db db' a h = ground arith

  create_lines-leaves :
      (ls : List (EntryLineEntity D)) (db db' : Db D) (a : Unit {0})
      → create_lines ls db ≡ ok (a, db')
      → db'.idempotency_records ≡ db.idempotency_records
  unfolding create_lines
  create_lines-leaves [] db db' a h = ground arith
  create_lines-leaves (l ∷ ls) db db' a h =
      let (r, first, rest) = and_then-eq-ok (create_line l db) (λ r. create_lines ls r.1) h in
      create_lines-leaves ls r.1 db' a rest ∙ create_line-leaves l db r.1 r.0 first

  create_lines-Ignores : (ls : List (EntryLineEntity D)) → Ignores (create_lines ls)
  create_lines-Ignores ls = record { leaves = create_lines-leaves ls }

module _ (X : External) where
  create_event-Ignores : (m : OutboxEventEntity) → Ignores (Outbox.create_event X m)
  unfolding Outbox.create_event
  create_event-Ignores m = record { leaves = λ db db' a h. ground arith }

  pub new_uuid-Leaves : Leaves (new_uuid X)
  new_uuid-Leaves = Steady-Leaves (new_uuid X) (new_uuid-Steady X)

  pub time_now-Leaves : Leaves (time_now X)
  time_now-Leaves = Steady-Leaves (time_now X) (time_now-Steady X)

  pub validate_accounts-Leaves : (q : ValidateRequest X.Float) → Leaves (validate_accounts X q)
  validate_accounts-Leaves q = Steady-Leaves (validate_accounts X q) (validate_accounts-Steady X q)

  reserve_hold-Leaves : (q : HoldRequest X.Float) → Leaves (reserve_hold X q)
  reserve_hold-Leaves q = Steady-Leaves (reserve_hold X q) (reserve_hold-Steady X q)

  record_audit-Leaves : (r : AuditRecord) → Leaves (record_audit X r)
  record_audit-Leaves r = Steady-Leaves (record_audit X r) (record_audit-Steady X r)

  insert_lines-Leaves : (ls : List (EntryLineEntity X.Decimal)) → Leaves (insert_lines X ls)
  unfolding insert_lines
  insert_lines-Leaves [] = pure-Leaves tt
  insert_lines-Leaves (l ∷ ls) =
      statement-Leaves (create_lines (l ∷ ls)) (create_lines-Ignores (l ∷ ls))

  insert_journal-Leaves : (j : JournalEntry X.Decimal) → Leaves (insert_journal X j)
  unfolding insert_journal
  insert_journal-Leaves j = search (
    transaction-Leaves, Leaves-bind, statement-Leaves, create_journal-Ignores, insert_lines-Leaves,
  )

  ruleset leaving = (
    Leaves-bind, Leaves-attempt, from_result-Leaves, pure-Leaves, statement-Leaves,
    create_payment-Ignores, create_step-Ignores, set_status-Ignores, create_event-Ignores,
    new_uuid-Leaves, time_now-Leaves, validate_accounts-Leaves, reserve_hold-Leaves,
    insert_journal-Leaves,
  )

  open_payment-Leaves : (o : Order X) → Leaves (open_payment X o)
  unfolding open_payment Payments.insert
  open_payment-Leaves o = search leaving depth 20

  record_steps-Leaves : (o : Order X) (jid : Uuid) → Leaves (record_steps X o jid)
  unfolding record_steps Payments.insert_step
  record_steps-Leaves o jid = search leaving depth 20

  -- The bodies of the transactions end by recording their results.
  close_payment-Records :
      (o : Order X) (jid : Uuid)
      → Records X.marshal_payment o.cmd.idempotency_key (close_payment X o jid)
  unfolding close_payment Outbox.insert Payments.update_status
  close_payment-Records o jid =
      search
        (
          leaving,
          Records-bind,
          put-Records X.marshal_payment o.cmd.idempotency_key (payment_record X o)
              (payment_result X o) refl refl,
        )
        depth 20

  write_payment-Records :
      (o : Order X) → Records X.marshal_payment o.cmd.idempotency_key (write_payment X o)
  unfolding write_payment
  write_payment-Records o =
      search (Records-bind, open_payment-Leaves, record_steps-Leaves, close_payment-Records)

  outcome-Records :
      (o : Order X) (w : World X) (r : Result PostPaymentResult × World X)
      → Post (λ a v. IsRecorded X.marshal_payment o.cmd.idempotency_key a w v) (λ _ _. Unit {0}) r
      → Post
          (λ a v. IsRecorded X.marshal_payment o.cmd.idempotency_key a w v)
          (λ _ _. Unit {0})
          (settle_outcome X o r.0 r.1)
  unfolding settle_outcome
  outcome-Records o w (ok a, v) h = h
  outcome-Records o w (err e, v) h = tt

  write_or_release-Records :
      (o : Order X) → Records X.marshal_payment o.cmd.idempotency_key (write_or_release X o)
  unfolding write_or_release
  write_or_release-Records o = record {
    run = λ w. outcome-Records o w (do_write X (write_payment X o) w) (
        (do_write-Records X.marshal_payment o.cmd.idempotency_key (write_payment X o)
            (write_payment-Records o)).run
          w);
  }

  run_saga-Records : (o : Order X) → Records X.marshal_payment o.cmd.idempotency_key (run_saga X o)
  unfolding run_saga post_reserved
  run_saga-Records o = search (
    Records-bind, Records-then, reserve_hold-Leaves, from_result-Leaves, record_audit-Leaves,
    write_or_release-Records,
  )

  pub identified-Records :
      (actor : Actor) (cmd : PostPaymentCommand) (amt : X.Decimal)
      → Records X.marshal_payment cmd.idempotency_key (identified X actor cmd amt)
  unfolding identified
  identified-Records actor cmd amt = search (Records-bind, leaving, run_saga-Records)

  book-Records : (b : Booking X) → Records X.marshal_credit b.key (book X b)
  unfolding book Outbox.insert
  book-Records b =
      search
        (
          leaving,
          Records-bind,
          put-Records X.marshal_credit b.key (booked_record X b) (booked_result X b) refl refl,
        )
        depth 20

  pub book_and_audit-Records :
      (b : Booking X) (a : AuditRecord) → Records X.marshal_credit b.key (book_and_audit X b a)
  unfolding book_and_audit
  book_and_audit-Records b a =
      search (Records-then, do_write-Records, book-Records, record_audit-Leaves)
