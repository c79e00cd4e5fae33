-- ===== src/Tests/Ledgers.antt =====
-- The theorems of the use cases at a payment of ten and credits of ten.
use microservice_workspace.Ledger.Either.{credited-eq, credited-Atomic, by_system, by_user}
use microservice_workspace.Store.Idempotency
use microservice_workspace.Store.Idempotency.{of_record, found_record}
use microservice_workspace.Ledger.Keyed.{view, put_first, idempotency-Refines}
use microservice_workspace.Base.Result.{Post}
use microservice_workspace.Domain.{IdempotencyRecord}
use microservice_workspace.Ledger.Statements.{
  list_account_journal_entries-page, tally-payment_lines,
}
use microservice_workspace.Ledger.Query.{tally, list_account_journal_entries, no_tally}
use microservice_workspace.Ledger.Views.{EntriesQuery}
use microservice_workspace.Base.Result.{ok}
use microservice_workspace.Ledger.Replay.{IsReadable, post_payment-eq}
use microservice_workspace.Base.Text.{lit, Text}
use microservice_workspace.Ledger.Atomic.{post_payment-Atomic}
use microservice_workspace.Ledger.Books.{post_payment-IsSound, credit-IsSound}
use microservice_workspace.Ledger.Credit.{credit_account, credit_account_system}
use microservice_workspace.Ledger.Saga.{SagaLog, run_saga-SagaLog}
use microservice_workspace.Store.Tx.Laws.{Atomic}
use microservice_workspace.Base.Int.{pos, negsuc}
use microservice_workspace.Tests.{toy-Laws}
use microservice_workspace.Store.{World, IdempotencyRecordEntity}
use microservice_workspace.Ledger.Balance.{IsSound}
use microservice_workspace.Ledger.Payment.{Order, post_payment, new_order, run_saga, payment_lines}
use microservice_workspace.Base.{refl, [], true, ◌∷◌, ◌≡◌, some}
use microservice_workspace.Tests.{
  toy, world_of, all_accounts, ana, pay_ten, credit_ten, bonus_ten, lit, Text, empty_db, ok,
}

abbrev no_accounts : World toy
no_accounts = world_of []

abbrev ready : World toy
ready = world_of all_accounts

abbrev order : Order toy
order = new_order toy ana pay_ten 10 100 1000 7

-- Without general ledger accounts the journal is refused.
post_payment-Atomic_example : Atomic (post_payment toy ana pay_ten) no_accounts
post_payment-Atomic_example = post_payment-Atomic toy no_accounts refl ana pay_ten

credited-Atomic_example : Atomic (credit_account_system toy bonus_ten) no_accounts
credited-Atomic_example = credited-Atomic toy no_accounts refl (by_system bonus_ten)

run_saga-SagaLog_example : SagaLog toy order true [] (run_saga toy order ready)
run_saga-SagaLog_example = run_saga-SagaLog toy order ready

ready-IsSound : IsSound toy ready.db
ready-IsSound = record { filed = tt; balanced = tt }

post_payment-IsSound_example : IsSound toy (post_payment toy ana pay_ten ready).1.db
post_payment-IsSound_example = post_payment-IsSound toy ana pay_ten ready ready-IsSound

credit-IsSound_example :
    IsSound toy (credit_account toy ana credit_ten ready).1.db
    × IsSound toy (credit_account_system toy bonus_ten ready).1.db
credit-IsSound_example = credit-IsSound toy ana credit_ten bonus_ten ready ready-IsSound

abbrev stored : Text → IdempotencyRecordEntity
stored key = record {
  key = key;
  operation = lit "PostPayment";
  response_json = 100 ∷ lit "posted";
  status_code = 200;
  created_at = 1000;
}

-- A world in which `key` has a response.
abbrev answered : Text → World toy
answered key = record ready {
  db = record (empty_db all_accounts) { idempotency_records = stored key ∷ [] };
}

readable : (key : Text) → IsReadable toy (answered key)
readable key = record { start = refl; no_fault = refl }

post_payment-eq_example : post_payment toy ana pay_ten (answered pay_ten.idempotency_key) ≡ (
  ok (some (record { payment_id = 100; status = lit "posted" })),
  answered pay_ten.idempotency_key,
)
unfolding lit
post_payment-eq_example =
    post_payment-eq toy (answered pay_ten.idempotency_key) ana pay_ten
      (readable pay_ten.idempotency_key)
      (record { row = stored pay_ten.idempotency_key; found = refl; nonempty = refl })
      (record { value = 10; parsed = refl; exact = refl })

credited-eq_example : credit_account toy ana credit_ten (answered credit_ten.idempotency_key) ≡ (
  ok (some (record { journal_id = 100; status = lit "posted" })),
  answered credit_ten.idempotency_key,
)
unfolding lit
credited-eq_example =
    credited-eq toy (answered credit_ten.idempotency_key) (by_user ana credit_ten)
      (readable credit_ten.idempotency_key)
      (record { row = stored credit_ten.idempotency_key; found = refl; nonempty = refl })
      (record { value = 10; parsed = refl; exact = refl })

abbrev entries_query : EntriesQuery
entries_query = record { account_id = 40; from = []; to = []; page = negsuc 4; size = pos 20 }

list_account_journal_entries-page_example :
    list_account_journal_entries toy entries_query ready
    ≡ list_account_journal_entries toy (record entries_query { page = pos 1 }) ready
list_account_journal_entries-page_example =
    list_account_journal_entries-page toy entries_query ready refl

tally-payment_lines_example :
    (tally toy (40 ∷ []) (no_tally toy) (payment_lines toy order 1 2 3)
      ≡ record { credit = 0; debit = 10; other = 41 ∷ [] })
    × (tally toy (41 ∷ []) (no_tally toy) (payment_lines toy order 1 2 3)
        ≡ record { credit = 10; debit = 0; other = 40 ∷ [] })
tally-payment_lines_example = tally-payment_lines toy toy-Laws order 1 2 3 (record {
  apart = refl;
  apart_back = refl;
  source_nonempty = refl;
  destination_nonempty = refl;
})

abbrev kept : IdempotencyRecord
kept = record {
  key = lit "k";
  operation = lit "PostPayment";
  response_json = lit "{}";
  status_code = 200;
  created_at = 5;
}

idempotency-Refines_example :
    Post
      (λ _ v. (k : Text) → view toy v k ≡ put_first (of_record kept) (view toy ready) k)
      (λ _ v. (k : Text) → view toy v k ≡ view toy ready k)
      (Idempotency.put toy kept ready)
    × Post
        (λ o v.
          (o ≡ found_record (view toy ready (lit "k")))
          × ((k : Text) → view toy v k ≡ view toy ready k))
        (λ _ v. (k : Text) → view toy v k ≡ view toy ready k)
        (Idempotency.get toy (lit "k") ready)
idempotency-Refines_example = idempotency-Refines toy kept (lit "k") ready
