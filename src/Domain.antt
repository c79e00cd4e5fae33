-- ===== src/Domain.antt =====
-- The domain model of the ledger service (micro/ledger/internal/domain/model and domain/port/in):
-- journals, payments, outbox events and idempotency records, the commands and results of the use
-- cases, and, in the children, what the service calls but does not implement.
pub mod Remote
pub mod External
use microservice_workspace.Base.{ℕ, Bool, Option, List}
use microservice_workspace.Base.Text.{Text, lit}

-- `time.Time`: nanoseconds since the zero time of Go, the start of year 1 in UTC.
abbrev pub Time : Type 0
Time = ℕ

-- A `uuid.UUID`: sixteen bytes, as the number that they spell.
abbrev pub Uuid : Type 0
Uuid = ℕ

-- `JournalPosted`
abbrev pub journal_posted : Text
journal_posted = lit "posted"

-- `PaymentProcessing`, `PaymentPosted`
abbrev pub payment_processing : Text
payment_processing = lit "processing"

abbrev pub payment_posted : Text
payment_posted = lit "posted"

-- The identifiers of the general ledger accounts that the use cases book on.
abbrev pub gl_system_fund_id : Uuid
gl_system_fund_id = 0x11111111111111111111111111111111

abbrev pub gl_customer_cash_id : Uuid
gl_customer_cash_id = 0x22222222222222222222222222222222

abbrev pub gl_out_id : Uuid
gl_out_id = 0x33333333333333333333333333333333

abbrev pub gl_in_id : Uuid
gl_in_id = 0x44444444444444444444444444444444

pub record IdempotencyRecord : Type 0 where
  pub key : Text
  pub operation : Text
  pub response_json : Text
  pub status_code : ℕ
  pub created_at : Time

pub record EntryLine (D : Type 0) : Type 0 where
  pub id : Uuid
  pub journal_id : Uuid
  pub gl_account_id : Uuid
  pub gl_account_code : Text
  pub counterparty_ref : Option Text
  pub debit : D
  pub credit : D

pub record JournalEntry (D : Type 0) : Type 0 where
  pub id : Uuid
  pub external_ref : Text
  pub booked_at : Time
  pub created_by : Text
  pub status : Text
  pub currency : Text
  pub lines : List (EntryLine D)

pub record OutboxEvent : Type 0 where
  pub id : Uuid
  pub aggregate_type : Text
  pub aggregate_id : Uuid
  pub event_type : Text
  pub payload_json : Text
  pub published : Bool
  pub created_at : Time

pub record Payment (D : Type 0) : Type 0 where
  pub id : Uuid
  pub idempotency_key : Text
  pub source_account : Uuid
  pub dest_account : Uuid
  pub amount : D
  pub currency : Text
  pub status : Text
  pub customer_id : Option Uuid
  pub hold_id : Option Uuid
  pub journal_id : Option Uuid
  pub correlation_id : Text
  pub created_at : Time
  pub updated_at : Time

pub record PaymentStep : Type 0 where
  pub id : Uuid
  pub payment_id : Uuid
  pub step : Text
  pub state : Text
  pub details_json : Text
  pub attempted_at : Time

pub record CreditAccountCommand : Type 0 where
  pub idempotency_key : Text
  pub account_id : Uuid
  pub currency : Text
  pub amount : Text
  pub initiated_by : Text
  pub external_ref : Text

pub record CreditAccountSystemCommand : Type 0 where
  pub idempotency_key : Text
  pub account_id : Uuid
  pub currency : Text
  pub amount : Text
  pub external_ref : Text
  pub reason : Text

pub record CreditAccountResult : Type 0 where
  pub journal_id : Uuid
  pub status : Text

pub record PostPaymentCommand : Type 0 where
  pub idempotency_key : Text
  pub source_account_id : Uuid
  pub destination_account : Uuid
  pub currency : Text
  pub amount : Text
  pub initiated_by : Text

pub record PostPaymentResult : Type 0 where
  pub payment_id : Uuid
  pub status : Text

-- `authctx.Actor`: the caller, as the access token names it.
pub record Actor : Type 0 where
  pub subject : Text
  pub customer_id : Text
  pub roles : List Text
  pub mfa : Bool
