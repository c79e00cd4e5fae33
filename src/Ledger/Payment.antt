-- ===== src/Ledger/Payment.antt =====
-- Payments between accounts: `PostPayment` and `GetPayment` of
-- micro/ledger/internal/application/service/payment_service.go, a saga that reserves a hold with
-- the accounts service, writes the payment in one transaction, and releases the hold if that fails.
use microservice_workspace.Base.{false, not, Option, none, some, List, [], ◌∷◌, ◌++◌, if◌then◌else◌}
use microservice_workspace.Base.Text.{Text, lit, is_empty}
use microservice_workspace.Base.Result.{
  Error, plain, Result, ok, err, M, ◌>>=◌, ◌>>◌, pure, from_result, attempt, raise, raise_if,
}
use microservice_workspace.Domain.{
  Time, Uuid, EntryLine, JournalEntry, Payment, Actor, PostPaymentCommand, PostPaymentResult,
  journal_posted, payment_processing, payment_posted, gl_out_id, gl_in_id, PaymentStep, OutboxEvent,
  IdempotencyRecord,
}
use microservice_workspace.Domain.Remote.{HoldRequest, AuditRecord, ValidateRequest}
use microservice_workspace.Domain.External.{External}
use microservice_workspace.Store.{World}
use microservice_workspace.Store.Tx.{do_write}
use microservice_workspace.Store.Calls.{
  new_uuid, time_now, validate_accounts, reserve_hold, release_hold, record_audit,
}
use microservice_workspace.Store.Idempotency
use microservice_workspace.Store.Journals.{insert_journal}
use microservice_workspace.Store.Payments
use microservice_workspace.Store.Outbox
use microservice_workspace.Ledger.Rules.{
  amount_not_exact, initiator, accept_accounts, accept_hold, ensure_balanced, cached_json,
}

abbrev pub customer_required : Error
customer_required =
    plain (lit "customer_id is required in context (got empty/invalid actor.CustomerID)")

module _ (X : External) where
  -- `uuidPtrFromString`
  unfoldable pub uuid_ptr_from_string : Text → Option Uuid
  uuid_ptr_from_string s = elim (X.uuid_parse s) [ ok u ↦ some u | err e ↦ none ]

  -- What the transaction closes over.
  pub record Order : Type 0 where
    pub cmd : PostPaymentCommand
    pub amount : X.Decimal
    pub initiated_by : Text
    pub customer_id : Uuid
    pub payment_id : Uuid
    pub now : Time

  unfoldable pub payment_lines : Order → Uuid → Uuid → Uuid → List (EntryLine X.Decimal)
  payment_lines o journal_id id1 id2 =
      record {
        id = id1;
        journal_id = journal_id;
        gl_account_id = gl_out_id;
        gl_account_code = lit "GL_OUT";
        counterparty_ref = some (X.uuid_string o.cmd.source_account_id);
        debit = o.amount;
        credit = X.decimal_zero;
      }
      ∷ record {
        id = id2;
        journal_id = journal_id;
        gl_account_id = gl_in_id;
        gl_account_code = lit "GL_IN";
        counterparty_ref = some (X.uuid_string o.cmd.destination_account);
        debit = X.decimal_zero;
        credit = o.amount;
      }
      ∷ []

  abbrev pub new_payment : Order → Uuid → Payment X.Decimal
  new_payment o journal_id = record {
    id = o.payment_id;
    idempotency_key = o.cmd.idempotency_key;
    source_account = o.cmd.source_account_id;
    dest_account = o.cmd.destination_account;
    amount = o.amount;
    currency = o.cmd.currency;
    status = payment_processing;
    customer_id = some o.customer_id;
    hold_id = some o.payment_id;
    journal_id = some journal_id;
    correlation_id = [];
    created_at = o.now;
    updated_at = o.now;
  }

  abbrev pub payment_journal : Order → Uuid → Uuid → Uuid → JournalEntry X.Decimal
  payment_journal o journal_id id1 id2 = record {
    id = journal_id;
    external_ref = lit "payment:" ++ X.uuid_string o.payment_id;
    booked_at = o.now;
    created_by = o.initiated_by;
    status = journal_posted;
    currency = o.cmd.currency;
    lines = payment_lines o journal_id id1 id2;
  }

  abbrev pub payment_payload : Order → Uuid → List (Text × Text)
  payment_payload o journal_id =
      (lit "payment_id", X.uuid_string o.payment_id)
      ∷ (lit "source_account_id", X.uuid_string o.cmd.source_account_id)
      ∷ (lit "destination_account_id", X.uuid_string o.cmd.destination_account)
      ∷ (lit "currency", o.cmd.currency)
      ∷ (lit "amount", X.string_fixed o.amount 6)
      ∷ (lit "hold_id", X.uuid_string o.payment_id)
      ∷ (lit "journal_id", X.uuid_string journal_id)
      ∷ (lit "occurred_at", X.time_format o.now)
      ∷ []

  abbrev pub payment_result : Order → PostPaymentResult
  payment_result o = record { payment_id = o.payment_id; status = lit "posted" }

  abbrev pub hold_details : Order → Text
  hold_details o = lit "{\"hold_id\":\"" ++ X.uuid_string o.payment_id ++ lit "\"}"

  abbrev pub ledger_details : Order → Uuid → Text
  ledger_details o journal_id =
      lit "{\"journal_id\":\""
      ++ X.uuid_string journal_id
      ++ lit "\",\"hold_id\":\""
      ++ X.uuid_string o.payment_id
      ++ lit "\"}"

  abbrev pub hold_step : Order → Uuid → PaymentStep
  hold_step o id = record {
    id = id;
    payment_id = o.payment_id;
    step = lit "reserve_hold";
    state = lit "ok";
    details_json = hold_details o;
    attempted_at = o.now;
  }

  abbrev pub ledger_step : Order → Uuid → Uuid → PaymentStep
  ledger_step o journal_id id = record {
    id = id;
    payment_id = o.payment_id;
    step = lit "post_ledger";
    state = lit "ok";
    details_json = ledger_details o journal_id;
    attempted_at = o.now;
  }

  -- 4.4: the two steps; their failure is not reported.
  unfoldable pub record_steps : Order → Uuid → M (World X) (Unit {0})
  record_steps o journal_id = do
    step1 ← new_uuid X
    attempt (Payments.insert_step X (hold_step o step1))
    step2 ← new_uuid X
    attempt (Payments.insert_step X (ledger_step o journal_id step2))
    pure tt

  -- 4.1 to 4.3: payment in status processing, and its journal.
  unfoldable pub open_payment : Order → M (World X) Uuid
  open_payment o = do
    journal_id ← new_uuid X
    Payments.insert X (new_payment o journal_id)
    id1 ← new_uuid X
    id2 ← new_uuid X
    from_result (ensure_balanced X (payment_lines o journal_id id1 id2))
    insert_journal X (payment_journal o journal_id id1 id2)
    pure journal_id

  abbrev pub payment_event : Order → Uuid → Uuid → OutboxEvent
  payment_event o journal_id id = record {
    id = id;
    aggregate_type = lit "payment";
    aggregate_id = o.payment_id;
    event_type = lit "payment.posted";
    payload_json = X.marshal_map (payment_payload o journal_id);
    published = false;
    created_at = o.now;
  }

  abbrev pub payment_record : Order → IdempotencyRecord
  payment_record o = record {
    key = o.cmd.idempotency_key;
    operation = lit "PostPayment";
    response_json = X.marshal_payment (payment_result o);
    status_code = 200;
    created_at = o.now;
  }

  -- 4.5 to 4.7: outbox event, status posted, idempotency record.
  unfoldable pub close_payment : Order → Uuid → M (World X) PostPaymentResult
  close_payment o journal_id = do
    event ← new_uuid X
    Outbox.insert X (payment_event o journal_id event)
    Payments.update_status X o.payment_id payment_posted
    Idempotency.put X (payment_record o)
    pure (payment_result o)

  -- The body of the transaction.
  unfoldable pub write_payment : Order → M (World X) PostPaymentResult
  write_payment o = do
    journal_id ← open_payment o
    record_steps o journal_id
    close_payment o journal_id

  -- The reservation of the hold, under the payment's identifier, and its release.
  abbrev pub hold_request : Order → Text → Text → HoldRequest X.Float
  hold_request o reason key_suffix = record {
    id = X.uuid_string o.cmd.source_account_id;
    currency = o.cmd.currency;
    amount = (X.float64 o.amount).0;
    reason = reason;
    hold_id = X.uuid_string o.payment_id;
    idempotency_key = o.cmd.idempotency_key ++ key_suffix;
  }

  abbrev pub reserve_request : Order → HoldRequest X.Float
  reserve_request o = hold_request o (lit "payment") (lit ":reserve_hold")

  abbrev pub release_request : Order → HoldRequest X.Float
  release_request o = hold_request o (lit "payment-compensation") (lit ":release_hold")

  -- After the transaction: if it failed, the hold is released and the failure returned.
  unfoldable pub settle_outcome : Order → Result PostPaymentResult → M (World X) PostPaymentResult
  settle_outcome o (ok result) = pure result
  settle_outcome o (err e) = attempt (release_hold X (release_request o)) >> raise e

  unfoldable pub write_or_release : Order → M (World X) PostPaymentResult
  write_or_release o = attempt (do_write X (write_payment o)) >>= settle_outcome o

  abbrev pub payment_audit : Order → AuditRecord
  payment_audit o = record {
    entity = lit "payments";
    entity_id = X.uuid_string o.payment_id;
    at = o.now;
    details = (lit "currency", o.cmd.currency) ∷ (lit "amount", X.string_fixed o.amount 6) ∷ [];
  }

  -- 4 of the saga, and the audit of a payment that was written.
  unfoldable pub post_reserved : Order → M (World X) PostPaymentResult
  post_reserved o =
      write_or_release o >>= λ result. attempt (record_audit X (payment_audit o)) >> pure result

  -- 3 and 4 of the saga.
  unfoldable pub run_saga : Order → M (World X) PostPaymentResult
  run_saga o = reserve_hold X (reserve_request o) >>= λ rresp.
      from_result (accept_hold rresp) >> post_reserved o

  unfoldable pub customer_of : Actor → Result Uuid
  customer_of actor = elim (uuid_ptr_from_string actor.customer_id) [
    | none ↦ err customer_required
    | some u ↦ ok u
  ]

  abbrev pub new_order : Actor → PostPaymentCommand → X.Decimal → Uuid → Time → Uuid → Order
  new_order actor cmd amt payment_id now customer = record {
    cmd = cmd;
    amount = amt;
    initiated_by = initiator actor cmd.initiated_by;
    customer_id = customer;
    payment_id = payment_id;
    now = now;
  }

  -- The identifiers of a new payment, and the rest of the saga.
  unfoldable pub identified : Actor → PostPaymentCommand → X.Decimal → M (World X) PostPaymentResult
  identified actor cmd amt = do
    payment_id ← new_uuid X
    now ← time_now X
    customer ← from_result (customer_of actor)
    run_saga (new_order actor cmd amt payment_id now customer)

  abbrev pub validate_request : PostPaymentCommand → X.Decimal → ValidateRequest X.Float
  validate_request cmd amt = record {
    source_account_id = X.uuid_string cmd.source_account_id;
    destination_account_id = X.uuid_string cmd.destination_account;
    currency = cmd.currency;
    amount = (X.float64 amt).0;
  }

  -- 2 of the saga, and what follows.
  unfoldable pub start_payment :
      Actor → PostPaymentCommand → X.Decimal → M (World X) (Option PostPaymentResult)
  start_payment actor cmd amt = do
    vresp ← validate_accounts X (validate_request cmd amt)
    from_result (accept_accounts vresp)
    result ← identified actor cmd amt
    pure (some result)

  -- With the cached response of the key, or for a new key.
  unfoldable pub answer_or_start :
      Actor → PostPaymentCommand → X.Decimal → Text → M (World X) (Option PostPaymentResult)
  answer_or_start actor cmd amt cached =
      if is_empty cached then start_payment actor cmd amt else pure (X.unmarshal_payment cached)

  unfoldable pub post_payment : Actor → PostPaymentCommand → M (World X) (Option PostPaymentResult)
  post_payment actor cmd = do
    amt ← from_result (X.decimal_from_string cmd.amount)
    raise_if (not (X.float64 amt).1) amount_not_exact
    cached ← cached_json X cmd.idempotency_key
    answer_or_start actor cmd amt cached
