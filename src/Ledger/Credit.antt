-- ===== src/Ledger/Credit.antt =====
-- Credits to an account: `CreditAccount` and `CreditAccountSystem` of
-- micro/ledger/internal/application/service/ledger_service.go.
use microservice_workspace.Domain.Remote.{ValidateRequest, AuditRecord}
use microservice_workspace.Base.{false, not, Option, none, some, List, [], ◌∷◌, ◌++◌, if◌then◌else◌}
use microservice_workspace.Base.Text.{Text, lit, is_empty}
use microservice_workspace.Base.Result.{M, ◌>>=◌, ◌>>◌, pure, from_result, attempt, raise_if}
use microservice_workspace.Domain.{
  Time, Uuid, EntryLine, JournalEntry, Actor, CreditAccountCommand, CreditAccountSystemCommand,
  CreditAccountResult, journal_posted, gl_system_fund_id, gl_customer_cash_id, OutboxEvent,
  IdempotencyRecord,
}
use microservice_workspace.Domain.External.{External}
use microservice_workspace.Store.{World}
use microservice_workspace.Store.Tx.{do_write}
use microservice_workspace.Store.Calls.{new_uuid, time_now, validate_accounts, record_audit}
use microservice_workspace.Store.Idempotency
use microservice_workspace.Store.Journals.{insert_journal}
use microservice_workspace.Store.Outbox
use microservice_workspace.Ledger.Rules.{
  amount_not_exact, initiator, accept_accounts, ensure_balanced, cached_json,
}

module _ (X : External) where
  -- System funding is debited, the customer's cash account is credited.
  unfoldable pub credit_lines : Uuid → Uuid → Uuid → Text → X.Decimal → List (EntryLine X.Decimal)
  credit_lines journal_id id1 id2 account amount =
      record {
        id = id1;
        journal_id = journal_id;
        gl_account_id = gl_system_fund_id;
        gl_account_code = lit "GL_SYSTEM_FUND";
        counterparty_ref = none;
        debit = amount;
        credit = X.decimal_zero;
      }
      ∷ record {
        id = id2;
        journal_id = journal_id;
        gl_account_id = gl_customer_cash_id;
        gl_account_code = lit "GL_CUSTOMER_CASH";
        counterparty_ref = some account;
        debit = X.decimal_zero;
        credit = amount;
      }
      ∷ []

  -- What the two use cases hand to the transaction that they share.
  pub record Booking : Type 0 where
    pub journal_id : Uuid
    pub now : Time
    pub account : Text
    pub amount : X.Decimal
    pub currency : Text
    pub external_ref : Text
    pub created_by : Text
    pub payload : List (Text × Text)
    pub key : Text
    pub operation : Text

  abbrev pub booked_journal : Booking → Uuid → Uuid → JournalEntry X.Decimal
  booked_journal b id1 id2 = record {
    id = b.journal_id;
    external_ref = b.external_ref;
    booked_at = b.now;
    created_by = b.created_by;
    status = journal_posted;
    currency = b.currency;
    lines = credit_lines b.journal_id id1 id2 b.account b.amount;
  }

  abbrev pub booked_result : Booking → CreditAccountResult
  booked_result b = record { journal_id = b.journal_id; status = lit "posted" }

  abbrev pub booked_event : Booking → Uuid → OutboxEvent
  booked_event b id = record {
    id = id;
    aggregate_type = lit "ledger";
    aggregate_id = b.journal_id;
    event_type = lit "ledger.posted";
    payload_json = X.marshal_map b.payload;
    published = false;
    created_at = b.now;
  }

  abbrev pub booked_record : Booking → IdempotencyRecord
  booked_record b = record {
    key = b.key;
    operation = b.operation;
    response_json = X.marshal_credit (booked_result b);
    status_code = 200;
    created_at = b.now;
  }

  -- The body of the transaction: journal, outbox event and idempotency record.
  unfoldable pub book : Booking → M (World X) CreditAccountResult
  book b = do
    id1 ← new_uuid X
    id2 ← new_uuid X
    from_result (ensure_balanced X (credit_lines b.journal_id id1 id2 b.account b.amount))
    insert_journal X (booked_journal b id1 id2)
    event ← new_uuid X
    Outbox.insert X (booked_event b event)
    Idempotency.put X (booked_record b)
    pure (booked_result b)

  abbrev pub self_request : Text → Text → X.Decimal → ValidateRequest X.Float
  self_request account currency amt = record {
    source_account_id = account;
    destination_account_id = account;
    currency = currency;
    amount = (X.float64 amt).0;
  }

  -- The check of the account with the accounts service, before what follows for a new key.
  unfoldable pub validated_booking :
      Text
      → Text
      → X.Decimal
      → M (World X) CreditAccountResult
      → M (World X) (Option CreditAccountResult)
  validated_booking account currency amt proceed = do
    vresp ← validate_accounts X (self_request account currency amt)
    from_result (accept_accounts vresp)
    result ← proceed
    pure (some result)

  -- With the cached response of the key, or for a new key.
  unfoldable pub answer_or_book :
      Text
      → Text
      → X.Decimal
      → M (World X) CreditAccountResult
      → Text
      → M (World X) (Option CreditAccountResult)
  answer_or_book account currency amt proceed cached =
      if is_empty cached
      then validated_booking account currency amt proceed
      else pure (X.unmarshal_credit cached)

  -- Amount, cached response, and `proceed` for a new key.
  unfoldable pub guarded :
      Text
      → Text
      → Text
      → Text
      → (X.Decimal → M (World X) CreditAccountResult)
      → M (World X) (Option CreditAccountResult)
  guarded amount key account currency proceed = do
    amt ← from_result (X.decimal_from_string amount)
    raise_if (not (X.float64 amt).1) amount_not_exact
    cached ← cached_json X key
    answer_or_book account currency amt (proceed amt) cached

  abbrev pub user_booking : Actor → CreditAccountCommand → X.Decimal → Uuid → Time → Booking
  user_booking actor cmd amt journal_id now = record {
    journal_id = journal_id;
    now = now;
    account = X.uuid_string cmd.account_id;
    amount = amt;
    currency = cmd.currency;
    external_ref = cmd.external_ref;
    created_by = initiator actor cmd.initiated_by;
    payload =
        (lit "journal_id", X.uuid_string journal_id)
        ∷ (lit "account_id", X.uuid_string cmd.account_id)
        ∷ (lit "currency", cmd.currency)
        ∷ (lit "amount", X.string_fixed amt 6)
        ∷ (lit "occurred_at", X.time_format now)
        ∷ [];
    key = cmd.idempotency_key;
    operation = lit "PostTopup";
  }

  abbrev pub system_booking : CreditAccountSystemCommand → X.Decimal → Uuid → Time → Booking
  system_booking cmd amt journal_id now = record {
    journal_id = journal_id;
    now = now;
    account = X.uuid_string cmd.account_id;
    amount = amt;
    currency = cmd.currency;
    external_ref = cmd.external_ref;
    created_by = lit "system";
    payload =
        (lit "journal_id", X.uuid_string journal_id)
        ∷ (lit "account_id", X.uuid_string cmd.account_id)
        ∷ (lit "currency", cmd.currency)
        ∷ (lit "amount", X.string_fixed amt 6)
        ∷ (lit "reason", cmd.reason)
        ∷ (lit "external_ref", cmd.external_ref)
        ∷ (lit "occurred_at", X.time_format now)
        ∷ [];
    key = cmd.idempotency_key;
    operation = lit "CreditAccountSystem:" ++ cmd.reason;
  }

  abbrev pub user_audit : CreditAccountCommand → X.Decimal → Uuid → Time → AuditRecord
  user_audit cmd amt journal_id now = record {
    entity = lit "journal_entries";
    entity_id = X.uuid_string journal_id;
    at = now;
    details =
        (lit "account_id", X.uuid_string cmd.account_id)
        ∷ (lit "currency", cmd.currency)
        ∷ (lit "amount", X.string_fixed amt 6)
        ∷ [];
  }

  abbrev pub system_audit : CreditAccountSystemCommand → X.Decimal → Uuid → Time → AuditRecord
  system_audit cmd amt journal_id now = record {
    entity = lit "ledger.credit_system";
    entity_id = X.uuid_string journal_id;
    at = now;
    details =
        (lit "account_id", X.uuid_string cmd.account_id)
        ∷ (lit "currency", cmd.currency)
        ∷ (lit "amount", X.string_fixed amt 6)
        ∷ (lit "reason", cmd.reason)
        ∷ (lit "external_ref", cmd.external_ref)
        ∷ [];
  }

  -- The transaction, and the audit of what it wrote.
  unfoldable pub book_and_audit : Booking → AuditRecord → M (World X) CreditAccountResult
  book_and_audit b a = do_write X (book b) >>= λ result. attempt (record_audit X a) >> pure result

  -- The identifier and time of a new journal, then the booking that they make.
  unfoldable pub new_booking :
      (Uuid → Time → Booking) → (Uuid → Time → AuditRecord) → M (World X) CreditAccountResult
  new_booking b a = do
    journal_id ← new_uuid X
    now ← time_now X
    book_and_audit (b journal_id now) (a journal_id now)

  unfoldable pub credit_account :
      Actor → CreditAccountCommand → M (World X) (Option CreditAccountResult)
  credit_account actor cmd =
      guarded cmd.amount cmd.idempotency_key (X.uuid_string cmd.account_id) cmd.currency
        λ amt. new_booking (user_booking actor cmd amt) (user_audit cmd amt)

  unfoldable pub credit_account_system :
      CreditAccountSystemCommand → M (World X) (Option CreditAccountResult)
  credit_account_system cmd =
      guarded cmd.amount cmd.idempotency_key (X.uuid_string cmd.account_id) cmd.currency
        λ amt. new_booking (system_booking cmd amt) (system_audit cmd amt)
