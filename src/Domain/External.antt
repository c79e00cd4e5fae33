-- ===== src/Domain/External.antt =====
-- What the ledger calls and does not implement, as one parameter of the model: the packages
-- shopspring/decimal, google/uuid and encoding/json, the text form of times, and the world
-- outside, whose state `Env` answers each call (randomness, clock, database faults, the accounts
-- service, the audit bus and the event bus). `Laws` states the documented facts that proofs use.
use microservice_workspace.Base.{ℕ, ◌≡◌, ◌↔◌, Bool, true, false, Option, some, List}
use microservice_workspace.Base.Text.{Text, is_empty}
use microservice_workspace.Base.Result.{Error, Result}
use microservice_workspace.Domain.{Time, Uuid, CreditAccountResult, PostPaymentResult}
use microservice_workspace.Domain.Remote.{
  ValidateRequest, ValidateResponse, HoldRequest, HoldResponse, AccountSummary, AuditRecord,
}

pub record External : Type 1 where
  pub Env : Type 0
  -- A decimal number and a float64.
  pub Decimal : Type 0
  pub Float : Type 0
  pub decimal_from_string : Text → Result Decimal
  pub decimal_zero : Decimal
  pub add : Decimal → Decimal → Decimal
  pub sub : Decimal → Decimal → Decimal
  pub equal : Decimal → Decimal → Bool
  pub is_negative : Decimal → Bool
  pub abs : Decimal → Decimal
  pub float64 : Decimal → Float × Bool
  pub string_fixed : Decimal → ℕ → Text
  pub uuid_string : Uuid → Text
  pub uuid_parse : Text → Result Uuid
  -- `json.Marshal` of a map, and of a result with its `json.Unmarshal` into a nil pointer.
  pub marshal_map : List (Text × Text) → Text
  pub marshal_credit : CreditAccountResult → Text
  pub unmarshal_credit : Text → Option CreditAccountResult
  pub marshal_payment : PostPaymentResult → Text
  pub unmarshal_payment : Text → Option PostPaymentResult
  -- Layout RFC3339Nano, in UTC.
  pub time_format : Time → Text
  pub time_parse : Text → Result Time
  pub new_uuid : Env → Uuid × Env
  pub time_now : Env → Time × Env
  -- The columns of the table payment_steps in the database that is deployed.
  pub step_columns : List Text
  -- Whether the next statement sent to the database fails for a reason outside the schema.
  pub db_fault : Env → Option Error × Env
  pub validate_accounts : ValidateRequest Float → Env → Result (Option ValidateResponse) × Env
  pub reserve_hold : HoldRequest Float → Env → Result (Option HoldResponse) × Env
  pub release_hold : HoldRequest Float → Env → Result (Option HoldResponse) × Env
  pub account_summaries : List Text → Env → Result (Option (List AccountSummary)) × Env
  pub audit_record : AuditRecord → Env → Result (Unit {0}) × Env
  pub publish : Text → Text → Text → Env → Result (Unit {0}) × Env

-- Decimals are exact numbers; the result types survive a trip through JSON.
pub record Laws (X : External) : Type 0 where
  pub equal_iff : (a b : X.Decimal) → (X.equal a b ≡ true) ↔ (a ≡ b)
  pub zero_add : (a : X.Decimal) → X.add X.decimal_zero a ≡ a
  pub add_zero : (a : X.Decimal) → X.add a X.decimal_zero ≡ a
  pub unmarshal-marshal_credit :
      (r : CreditAccountResult) → X.unmarshal_credit (X.marshal_credit r) ≡ some r
  pub unmarshal-marshal_payment :
      (r : PostPaymentResult) → X.unmarshal_payment (X.marshal_payment r) ≡ some r
  pub marshal_credit-nonempty : (r : CreditAccountResult) → is_empty (X.marshal_credit r) ≡ false
  pub marshal_payment-nonempty : (r : PostPaymentResult) → is_empty (X.marshal_payment r) ≡ false
