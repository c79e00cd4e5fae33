-- ===== src/Store.antt =====
-- The database of the ledger: the tables of micro/ledger/resources/migration/V1__init.sql with the
-- entities of micro/ledger/internal/infra/out/persistence/gorm/entity, the world on which the
-- service runs, and one SQL statement on it. The children model the adapters.
pub mod Tx
pub mod Idempotency
pub mod Journals
pub mod Payments
pub mod Outbox
pub mod Calls
use microservice_workspace.Base.{ℕ, Bool, Option, none, some, List, ◌∷◌, []}
use microservice_workspace.Base.Text.{Text, lit}
use microservice_workspace.Base.Result.{Error, plain, Result, ok, err, M}
use microservice_workspace.Domain.{Time, Uuid, EntryLine, OutboxEvent}
use microservice_workspace.Domain.Remote.{Effect}
use microservice_workspace.Domain.External.{External}

-- The primary key of this entity and of payment_steps is read by no code here, so only the
-- columns that are read stand in the row.
pub record IdempotencyRecordEntity : Type 0 where
  pub key : Text
  pub operation : Text
  pub response_json : Text
  pub status_code : ℕ
  pub created_at : Time

pub record JournalEntryEntity : Type 0 where
  pub id : Uuid
  pub external_ref : Text
  pub booked_at : Time
  pub created_by : Text
  pub status : Text
  pub currency : Text

pub record EntryLineEntity (D : Type 0) : Type 0 where
  pub id : Uuid
  pub journal_id : Uuid
  pub gl_account_id : Uuid
  pub gl_account_code : Text
  pub counterparty_ref : Option Text
  pub debit : D
  pub credit : D

pub record OutboxEventEntity : Type 0 where
  pub id : Uuid
  pub aggregate_type : Text
  pub aggregate_id : Uuid
  pub event_type : Text
  pub payload_json : Text
  pub published : Bool
  pub published_at : Option Time
  pub processing : Bool
  pub processing_owner : Option Text
  pub processing_at : Option Time
  pub created_at : Time

pub record PaymentEntity (D : Type 0) : Type 0 where
  pub id : Uuid
  pub idempotency_key : Text
  pub source_account : Uuid
  pub dest_account : Uuid
  pub amount : D
  pub currency : Text
  pub status : Text
  pub customer_id : Option Uuid
  pub hold_id : Option Uuid
  pub journal_id : Option Uuid
  pub correlation_id : Text
  pub created_at : Time
  pub updated_at : Time

pub record PaymentStepEntity : Type 0 where
  pub id : Uuid
  pub payment_id : Uuid
  pub step : Text
  pub state : Text
  pub details_json : Text
  pub attempted_at : Time

-- The tables: entry_lines oldest row first, the others newest first. Of gl_accounts only the
-- identifiers are referred to.
pub record Db (D : Type 0) : Type 0 where
  pub gl_accounts : List Uuid
  pub journal_entries : List JournalEntryEntity
  pub entry_lines : List (EntryLineEntity D)
  pub payments : List (PaymentEntity D)
  pub payment_steps : List PaymentStepEntity
  pub outbox_events : List OutboxEventEntity
  pub idempotency_records : List IdempotencyRecordEntity

-- No transaction; one that is open; one that PostgreSQL has aborted after a failed statement, in
-- which every later statement fails.
pub data TxState : Type 0 where
  idle active aborted : TxState

-- The database as the connection sees it, the state of its transaction, the world outside, and
-- what was sent out, newest first.
pub record World (X : External) : Type 0 where
  pub db : Db X.Decimal
  pub tx : TxState
  pub env : X.Env
  pub log : List (Effect X.Float)

abbrev pub tx_aborted : Error
tx_aborted = plain (lit "current transaction is aborted")

abbrev pub tx_rolled_back : Error
tx_rolled_back = plain (lit "commit unexpectedly resulted in rollback")

abbrev pub unique_violation : Error
unique_violation = plain (lit "duplicate key value violates unique constraint")

abbrev pub undefined_column : Error
undefined_column = plain (lit "column of relation does not exist")

-- The columns with which the migration creates the table payment_steps.
abbrev pub migrated_step_columns : List Text
migrated_step_columns =
    lit "id" ∷ lit "payment_id" ∷ lit "step" ∷ lit "state" ∷ lit "details" ∷ lit "attempted_at" ∷ []

abbrev pub foreign_key_violation : Error
foreign_key_violation = plain (lit "violates foreign key constraint")
