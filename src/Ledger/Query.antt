-- ===== src/Ledger/Query.antt =====
-- The reads: `GetPayment` of micro/ledger/internal/application/service/payment_service.go,
-- `ListAccountJournalEntries` and `ListAccountStatement` of ledger_service.go beside it.
use microservice_workspace.Ledger.Views.{
  PaymentStepView, GetPaymentResult, EntriesQuery, text_of, StatementItemView, StatementQuery,
  JournalLineView, JournalEntryView, kind_of, counterparties, page_of, enriched, size_of,
}
use microservice_workspace.Store.Tx.{do_read}
use microservice_workspace.Base.{
  Bool, true, false, not, ◌&&◌, ◌==◌, Option, none, some, List, [], ◌∷◌, map, if◌then◌else◌,
}
use microservice_workspace.Base.Int.{ℤ}
use microservice_workspace.Base.Text.{Text, lit, is_empty, text_eq}
use microservice_workspace.Base.Result.{Result, ok, err, M, ◌>>=◌, ◌>>◌, pure, attempt}
use microservice_workspace.Domain.{Time, Uuid, EntryLine, JournalEntry, Payment, PaymentStep}
use microservice_workspace.Domain.Remote.{AccountSummary, AuditRecord}
use microservice_workspace.Domain.External.{External}
use microservice_workspace.Store.{World}
use microservice_workspace.Store.Calls.{time_now, account_summaries, record_audit}
use microservice_workspace.Store.Journals.{list_activity_by_account}
use microservice_workspace.Store.Payments

module _ (X : External) where
  abbrev step_view : PaymentStep → PaymentStepView
  step_view s = record {
    step = s.step;
    state = s.state;
    details_json = s.details_json;
    attempted_at = X.time_format s.attempted_at;
  }

  -- `steps, _ := ...`
  abbrev steps_or_none : Result (List PaymentStep) → List PaymentStep
  steps_or_none (ok ss) = ss
  steps_or_none (err e) = []

  abbrev payment_view : Uuid → Payment X.Decimal → List PaymentStep → GetPaymentResult
  payment_view id p steps = record {
    payment_id = id;
    status = p.status;
    idempotency_key = p.idempotency_key;
    source_account_id = p.source_account;
    dest_account_id = p.dest_account;
    currency = p.currency;
    amount = X.string_fixed p.amount 6;
    created_at = X.time_format p.created_at;
    steps = map step_view steps;
  }

  unfoldable pub get_payment : Uuid → M (World X) GetPaymentResult
  get_payment id = do_read X do
    p ← Payments.find_by_id X id
    steps ← attempt (Payments.list_steps X id)
    pure (payment_view id p (steps_or_none steps))

  abbrev line_view : EntryLine X.Decimal → JournalLineView
  line_view l = record {
    gl_account_code = l.gl_account_code;
    counterparty_ref = text_of l.counterparty_ref;
    debit = X.string_fixed l.debit 6;
    credit = X.string_fixed l.credit 6;
  }

  abbrev entry_view : JournalEntry X.Decimal → JournalEntryView
  entry_view e = record {
    journal_id = X.uuid_string e.id;
    currency = e.currency;
    status = e.status;
    booked_at = X.time_format e.booked_at;
    external_ref = e.external_ref;
    lines = map line_view e.lines;
  }

  -- A time that is absent or does not parse leaves the default.
  abbrev time_or : Time → Text → Time
  time_or d t = if is_empty t then d else elim (X.time_parse t) [ ok v ↦ v | err e ↦ d ]

  unfoldable pub list_account_journal_entries :
      EntriesQuery → M (World X) (List JournalEntryView × ℤ × ℤ)
  list_account_journal_entries q = do
    now ← time_now X
    entries ← do_read X (
        list_activity_by_account X q.account_id (time_or 0 q.from) (time_or now q.to)
          (page_of q.page) (size_of q.size))
    pure (map entry_view entries, page_of q.page, size_of q.size)

  -- The two sums and the other account, over the lines of one journal.
  pub record Tally : Type 0 where
    pub credit : X.Decimal
    pub debit : X.Decimal
    pub other : Text

  abbrev count_line : Text → Tally → EntryLine X.Decimal → Tally
  count_line acc t l =
      let cp = text_of l.counterparty_ref in
      if text_eq cp acc
      then record t { credit = X.add t.credit l.credit; debit = X.add t.debit l.debit }
      else (if not (is_empty cp) && is_empty t.other then record t { other = cp } else t)

  unfoldable pub tally : Text → Tally → List (EntryLine X.Decimal) → Tally
  tally acc t [] = t
  tally acc t (l ∷ ls) = tally acc (count_line acc t l) ls

  abbrev pub no_tally : Tally
  no_tally = record { credit = X.decimal_zero; debit = X.decimal_zero; other = [] }

  abbrev item_of : JournalEntry X.Decimal → Tally → X.Decimal → StatementItemView
  item_of je t net = record {
    journal_id = X.uuid_string je.id;
    booked_at = je.booked_at;
    currency = je.currency;
    direction = if X.is_negative net then lit "debit" else lit "credit";
    amount = X.string_fixed (if X.is_negative net then X.abs net else net) 6;
    kind = kind_of je.external_ref;
    memo = je.external_ref;
    counterparty_account_id = t.other;
    counterparty = none;
  }

  unfoldable pub statement_item : Text → JournalEntry X.Decimal → StatementItemView
  statement_item acc je =
      let t = tally acc no_tally je.lines in item_of je t (X.sub t.credit t.debit)

  -- A failed call is one without an answer.
  abbrev summaries_or_none : Result (Option (List AccountSummary)) → List AccountSummary
  summaries_or_none (ok (some found)) = found
  summaries_or_none (ok none) = []
  summaries_or_none (err e) = []

  abbrev with_summaries : List StatementItemView → List Text → M (World X) (List StatementItemView)
  with_summaries items [] = pure items
  with_summaries items (id ∷ ids) = attempt (account_summaries X (id ∷ ids)) >>= λ r.
      pure (map (enriched (summaries_or_none r)) items)

  unfoldable pub enrich : Bool → List StatementItemView → M (World X) (List StatementItemView)
  enrich true items = with_summaries items (counterparties items)
  enrich false items = pure items

  -- The details with page, size and flag are left out.
  abbrev statement_audit : StatementQuery → Time → Time → Time → AuditRecord
  statement_audit q from to at = record {
    entity = lit "ledger.statement";
    entity_id = X.uuid_string q.account_id;
    at = at;
    details = (lit "from", X.time_format from) ∷ (lit "to", X.time_format to) ∷ [];
  }

  -- `to.IsZero()`
  abbrev to_or_now : Time → M (World X) Time
  to_or_now t = if t == 0 then time_now X else pure t

  unfoldable pub list_account_statement :
      StatementQuery → M (World X) (List StatementItemView × ℤ × ℤ)
  list_account_statement q = do
    to ← to_or_now q.to
    entries ←
        do_read X
          (list_activity_by_account X q.account_id q.from to (page_of q.page) (size_of q.size))
    items ←
        enrich q.include_counterparty (map (statement_item (X.uuid_string q.account_id)) entries)
    at ← time_now X
    attempt (record_audit X (statement_audit q q.from to at))
    pure (items, page_of q.page, size_of q.size)
