-- ===== src/Tests/Again.antt =====
-- A payment of ten, a credit of ten and a bonus of ten, each sent twice.
use microservice_workspace.Ledger.Either.{credited-again, by_system}
use microservice_workspace.Base.{◌≡◌, refl, some}
use microservice_workspace.Tests.{
  toy, toy-Laws, world_of, all_accounts, ana, pay_ten, credit_ten, bonus_ten,
}
use microservice_workspace.Base.Text.{lit}
use microservice_workspace.Store.{World}
use microservice_workspace.Store.Payments
use microservice_workspace.Store.Outbox
use microservice_workspace.Store.Idempotency
use microservice_workspace.Base.Result.{ok, and_then}
use microservice_workspace.Store.Calls.{
  call, new_uuid, time_now, validate_accounts, reserve_hold, release_hold, record_audit,
}
use microservice_workspace.Ledger.Payment.{
  post_payment, run_saga, answer_or_start, start_payment, identified, customer_of,
  uuid_ptr_from_string, close_payment, open_payment, payment_lines, post_reserved, record_steps,
  settle_outcome, write_or_release, write_payment,
}
use microservice_workspace.Ledger.Credit.{
  guarded, answer_or_book, validated_booking, new_booking, book_and_audit, book, credit_lines,
  credit_account, credit_account_system,
}
use microservice_workspace.Ledger.Rules.{
  cached_json, accept_accounts, accept_hold, ensure_balanced, totals,
}
use microservice_workspace.Store.Journals.{
  create_journal, create_line, create_lines, insert_journal, insert_lines,
}
use microservice_workspace.Store.Tx.{do_read, do_write, statement, transaction}
use microservice_workspace.Ledger.Migrated.{post_payment-unmigrated}
use microservice_workspace.Domain.External.{External}
use microservice_workspace.Store.{migrated_step_columns, idle}
use microservice_workspace.Base.Result.{Post}

abbrev fresh : World toy
fresh = world_of all_accounts

-- The worlds after the first calls.
abbrev paid : World toy
paid = (post_payment toy ana pay_ten fresh).1

abbrev credited : World toy
credited = (credit_account toy ana credit_ten fresh).1

abbrev rewarded : World toy
rewarded = (credit_account_system toy bonus_ten fresh).1

paid-runs :
    post_payment toy ana pay_ten fresh
    ≡ (ok (some (record { payment_id = 100; status = lit "posted" })), paid)
unfolding cached_json do_read Idempotency.get statement answer_or_start start_payment
    validate_accounts call accept_accounts identified new_uuid time_now customer_of
    uuid_ptr_from_string run_saga reserve_hold and_then close_payment open_payment payment_lines
    post_reserved record_steps settle_outcome write_or_release write_payment accept_hold
    ensure_balanced totals record_audit release_hold Idempotency.put create_journal create_line
    create_lines insert_journal insert_lines Outbox.create_event Outbox.insert
    Payments.create_payment Payments.create_step Payments.from_domain_payment Payments.insert
    Payments.insert_step Payments.set_status Payments.update_status do_write transaction
    post_payment lit
paid-runs = refl

-- The same world, with the columns of the migration.
abbrev before_rename : External
before_rename = record toy { step_columns = migrated_step_columns }

abbrev unpaid : World before_rename
unpaid = record { db = fresh.db; tx = fresh.tx; env = fresh.env; log = fresh.log }

post_payment-unmigrated_example :
    Post
      (λ _ _. ⊥)
      (λ _ v. (v.db ≡ unpaid.db) × (v.tx ≡ idle))
      (post_payment before_rename ana pay_ten unpaid)
unfolding lit
post_payment-unmigrated_example =
    post_payment-unmigrated before_rename refl ana pay_ten unpaid refl refl

credited-runs :
    credit_account toy ana credit_ten fresh
    ≡ (ok (some (record { journal_id = 100; status = lit "posted" })), credited)
unfolding cached_json do_read Idempotency.get statement validate_accounts call accept_accounts
    new_uuid time_now reserve_hold and_then accept_hold ensure_balanced totals record_audit
    release_hold Idempotency.put create_journal create_line create_lines insert_journal insert_lines
    Outbox.create_event Outbox.insert do_write transaction guarded answer_or_book validated_booking
    new_booking book_and_audit book credit_lines credit_account credit_account_system lit
credited-runs = refl

rewarded-runs :
    credit_account_system toy bonus_ten fresh
    ≡ (ok (some (record { journal_id = 100; status = lit "posted" })), rewarded)
unfolding cached_json do_read Idempotency.get statement validate_accounts call accept_accounts
    new_uuid time_now reserve_hold and_then accept_hold ensure_balanced totals record_audit
    release_hold Idempotency.put create_journal create_line create_lines insert_journal insert_lines
    Outbox.create_event Outbox.insert do_write transaction guarded answer_or_book validated_booking
    new_booking book_and_audit book credit_lines credit_account credit_account_system lit
rewarded-runs = refl

credited-again_example : credit_account_system toy bonus_ten rewarded ≡ (
  ok (some (record { journal_id = 100; status = lit "posted" })),
  record rewarded { env = (toy.db_fault rewarded.env).1 },
)
unfolding lit
credited-again_example =
    credited-again toy toy-Laws fresh rewarded refl refl (by_system bonus_ten)
      (some (record { journal_id = 100; status = lit "posted" })) refl rewarded-runs
      (record { value = 10; parsed = refl; exact = refl })
