-- ===== src/Domain/Remote.antt =====
-- The messages that the ledger exchanges with the accounts service
-- (micro/ledger/internal/domain/port/out), and the log of what was sent. `F` is float64.
use microservice_workspace.Base.{ℕ, Bool, Option, List}
use microservice_workspace.Base.Text.{Text}

pub record ValidateRequest (F : Type 0) : Type 0 where
  pub source_account_id : Text
  pub destination_account_id : Text
  pub currency : Text
  pub amount : F

pub record ValidateResponse : Type 0 where
  pub is_ok : Bool
  pub reason : Option Text

pub record HoldRequest (F : Type 0) : Type 0 where
  pub id : Text
  pub currency : Text
  pub amount : F
  pub reason : Text
  pub hold_id : Text
  pub idempotency_key : Text

pub record HoldResponse : Type 0 where
  pub is_ok : Bool
  pub status : Option Text

pub record AccountSummary : Type 0 where
  pub account_id : Text
  pub account_number : Text
  pub display_name : Text
  pub product_type : Text

pub record AuditRecord : Type 0 where
  pub entity : Text
  pub entity_id : Text
  pub at : ℕ
  pub details : List (Text × Text)

-- What left the process, one entry for each call, in the order of a list that grows at its head.
pub data Effect (F : Type 0) : Type 0 where
  validated : ValidateRequest F → Effect F
  reserved : HoldRequest F → Effect F
  released : HoldRequest F → Effect F
  looked_up : List Text → Effect F
  audited : AuditRecord → Effect F
  published : Text → Text → Text → Effect F
