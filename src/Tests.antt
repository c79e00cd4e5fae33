-- ===== src/Tests.antt =====
-- A small concrete world on which the theorems are applied: numbers for decimals, a text of one
-- character for an identifier, and a database that never fails for outside reasons. The world
-- outside is a counter, from which identifiers and times are drawn.
pub mod Ledgers
pub mod Adapters
pub mod Calls
pub mod Services
pub mod Again
pub mod Web
pub mod Gateway
use microservice_workspace.Base.{
  ℕ, ◌≡◌, refl, Bool, true, false, Option, none, some, List, [], ◌∷◌, ◌+◌, ◌-◌, ◌==◌, inl, inr,
  arith, if◌then◌else◌, ◌*◌,
}
use microservice_workspace.Base.Text.{Text, lit, is_empty, is_digit}
use microservice_workspace.Base.Result.{Error, plain, Result, ok, err}
use microservice_workspace.Domain.{
  Actor, CreditAccountResult, PostPaymentResult, PostPaymentCommand, CreditAccountCommand,
  CreditAccountSystemCommand, gl_system_fund_id, gl_customer_cash_id, gl_out_id, gl_in_id, Uuid,
  Time,
}
use microservice_workspace.Domain.External.{External, Laws}
use microservice_workspace.Store.{Db, World, idle}

-- Digits only, the leading digits read so far being `n`.
abbrev parse_digits : ℕ → Text → Result ℕ
parse_digits n [] = ok n
parse_digits n (c ∷ s) = if is_digit c then parse_digits (n * 10 + (c - b'0')) s else err (plain [])

abbrev parse_single : Text → Result ℕ
parse_single (c ∷ []) = ok c
parse_single s = err (plain [])

abbrev read_credit : Text → Option CreditAccountResult
read_credit [] = none
read_credit (c ∷ s) = some (record { journal_id = c; status = s })

abbrev read_payment : Text → Option PostPaymentResult
read_payment [] = none
read_payment (c ∷ s) = some (record { payment_id = c; status = s })

abbrev pub toy : External
toy = record {
  Env = ℕ;
  Decimal = ℕ;
  Float = ℕ;
  decimal_from_string = λ s. parse_digits 0 s;
  decimal_zero = 0;
  add = λ a b. a + b;
  sub = λ a b. a - b;
  equal = λ a b. a == b;
  is_negative = λ a. false;
  abs = λ a. a;
  float64 = λ a. (a, true);
  string_fixed = λ a n. a ∷ [];
  uuid_string = λ u. u ∷ [];
  uuid_parse = λ s. parse_single s;
  marshal_map = λ m. [];
  marshal_credit = λ r. r.journal_id ∷ r.status;
  unmarshal_credit = λ s. read_credit s;
  marshal_payment = λ r. r.payment_id ∷ r.status;
  unmarshal_payment = λ s. read_payment s;
  time_format = λ t. t ∷ [];
  time_parse = λ s. parse_single s;
  new_uuid = λ e. (e, e + 1);
  time_now = λ e. (1000 + e, e);
  step_columns =
      lit "id"
      ∷ lit "payment_id"
      ∷ lit "step"
      ∷ lit "state"
      ∷ lit "details_json"
      ∷ lit "attempted_at"
      ∷ [];
  db_fault = λ e. (none, e);
  validate_accounts = λ q e. (ok none, e);
  reserve_hold = λ q e. (ok none, e);
  release_hold = λ q e. (ok none, e);
  account_summaries = λ ids e. (ok none, e);
  audit_record = λ a e. (ok tt, e);
  publish = λ topic key payload e. (ok tt, e);
}

pub toy-Laws : Laws toy
toy-Laws = record {
  equal_iff = λ a b. (λ h. ground arith, λ h. ground arith);
  zero_add = λ a. ground arith;
  add_zero = λ a. ground arith;
  unmarshal-marshal_credit = λ r. refl;
  unmarshal-marshal_payment = λ r. refl;
  marshal_credit-nonempty = λ r. refl;
  marshal_payment-nonempty = λ r. refl;
}

-- No row but the general ledger accounts `gl`.
abbrev pub empty_db : List Uuid → Db ℕ
empty_db gl = record {
  gl_accounts = gl;
  journal_entries = [];
  entry_lines = [];
  payments = [];
  payment_steps = [];
  outbox_events = [];
  idempotency_records = [];
}

abbrev pub all_accounts : List Uuid
all_accounts = gl_system_fund_id ∷ gl_customer_cash_id ∷ gl_out_id ∷ gl_in_id ∷ []

abbrev pub world_of : List Uuid → World toy
world_of gl = record { db = empty_db gl; tx = idle; env = 100; log = [] }

abbrev pub ana : Actor
ana = record { subject = lit "ana"; customer_id = 7 ∷ []; roles = []; mfa = true }

abbrev pub pay_ten : PostPaymentCommand
pay_ten = record {
  idempotency_key = lit "payment-1";
  source_account_id = 40;
  destination_account = 41;
  currency = lit "USD";
  amount = lit "10";
  initiated_by = lit "ana";
}

abbrev pub credit_ten : CreditAccountCommand
credit_ten = record {
  idempotency_key = lit "credit-1";
  account_id = 40;
  currency = lit "USD";
  amount = lit "10";
  initiated_by = lit "ana";
  external_ref = [];
}

abbrev pub bonus_ten : CreditAccountSystemCommand
bonus_ten = record {
  idempotency_key = lit "bonus-1";
  account_id = 40;
  currency = lit "USD";
  amount = lit "10";
  external_ref = lit "ref-1";
  reason = lit "registration_bonus";
}
