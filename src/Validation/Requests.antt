-- ===== src/Validation/Requests.antt =====
-- The commands that the handlers build from requests: ledger_validators.go, ledger_system.go and
-- payments_validators.go of micro/ledger/internal/infra/in/grpc/validation. A request is `none`
-- where the source tests for nil.
use microservice_workspace.Validation.Fields.{
  require_idempotency_key, invalid, Timestamp, require_uuid, require_currency, require_timestamp,
  require_decimal_amount, validate_time_window, days, require_non_blank, require_actor,
  normalize_page_size, optional_external_ref, optional_reason, forbidden,
}
use microservice_workspace.Base.{
  ℕ, Bool, true, false, [], ◌∷◌, Option, none, some, ◌==◌, ◌-◌, ◌%◌, ◌^◌, not,
}
use microservice_workspace.Base.Int.{ℤ}
use microservice_workspace.Base.Text.{Text, lit, is_empty, text_eq}
use microservice_workspace.Base.Result.{Error, Result, ok, err, and_then}
use microservice_workspace.Domain.{
  Time, Uuid, CreditAccountCommand, CreditAccountSystemCommand, PostPaymentCommand,
}
use microservice_workspace.Domain.External.{External}

-- The protobuf messages (package bank.ledgerpayments.v1), with the fields that are read.
pub record CreditAccountRequest : Type 0 where
  pub idempotency_key : Text
  pub account_id : Text
  pub currency : Text
  pub amount : Text
  pub initiated_by : Text
  pub external_ref : Text
  pub reason : Text
  pub customer_id : Text

pub record CreditAccountSystemRequest : Type 0 where
  pub idempotency_key : Text
  pub account_id : Text
  pub currency : Text
  pub amount : Text
  pub external_ref : Text
  pub reason : Text

pub record PostPaymentRequest : Type 0 where
  pub idempotency_key : Text
  pub source_account_id : Text
  pub destination_account_id : Text
  pub currency : Text
  pub amount : Text
  pub initiated_by : Text

pub record ListRequest : Type 0 where
  pub account_id : Text
  pub from : Option Timestamp
  pub to : Option Timestamp
  pub page : ℤ
  pub size : ℤ
  pub include_counterparty : Bool

-- `in.ListAccountStatementQuery`, and the query of journal entries with its times as instants.
pub record ListQuery : Type 0 where
  pub account_id : Uuid
  pub from : Time
  pub to : Time
  pub page : ℕ
  pub size : ℕ
  pub include_counterparty : Bool

abbrev pub request_required : Error
request_required = invalid (lit "request is required")

infixl 5 ◌>>=◌ ◌>>◌
abbrev ◌>>=◌ : {A B : Type 0} → Result A → (A → Result B) → Result B
m >>= f = and_then m f

abbrev ◌>>◌ : {A B : Type 0} → Result A → Result B → Result B
m >> k = m >>= λ _. k

abbrev pub fail_if : Bool → Error → Result (Unit {0})
fail_if true e = err e
fail_if false e = ok tt

module _ (X : External) where
  -- `if req.GetCustomerId() != ""`
  abbrev pub optional_uuid : Text → Text → Result (Unit {0})
  optional_uuid [] field = ok tt
  optional_uuid (c ∷ s) field = do require_uuid X (c ∷ s) field; ok tt

  unfoldable pub to_credit_account_command :
      Option CreditAccountRequest → Result CreditAccountCommand
  to_credit_account_command none = err request_required
  to_credit_account_command (some req) = do
    idem ← require_idempotency_key req.idempotency_key (lit "idempotency_key")
    acc ← require_uuid X req.account_id (lit "account_id")
    ccy ← require_currency req.currency
    amt ← require_decimal_amount req.amount (lit "amount")
    actor ← require_actor req.initiated_by
    ext ← optional_external_ref req.external_ref
    optional_reason req.reason
    optional_uuid req.customer_id (lit "customer_id")
    ok (record {
      idempotency_key = idem;
      account_id = acc;
      currency = ccy;
      amount = amt;
      initiated_by = actor;
      external_ref = ext;
    })

  unfoldable pub to_credit_account_system_command :
      Option CreditAccountSystemRequest → Result CreditAccountSystemCommand
  to_credit_account_system_command none = err request_required
  to_credit_account_system_command (some req) = do
    idem ← require_idempotency_key req.idempotency_key (lit "idempotency_key")
    acc ← require_uuid X req.account_id (lit "account_id")
    ccy ← require_currency req.currency
    amt ← require_decimal_amount req.amount (lit "amount")
    ext ← require_non_blank req.external_ref (lit "external_ref") 140
    optional_external_ref ext
    given ← require_non_blank req.reason (lit "reason") 64
    reason ← optional_reason given
    fail_if (is_empty reason) (invalid (lit "reason is required"))
    fail_if (not (text_eq reason (lit "registration_bonus"))) (forbidden (lit "reason not allowed"))
    ok (record {
      idempotency_key = idem;
      account_id = acc;
      currency = ccy;
      amount = amt;
      external_ref = ext;
      reason = reason;
    })

  unfoldable pub to_post_payment_command : Option PostPaymentRequest → Result PostPaymentCommand
  to_post_payment_command none = err request_required
  to_post_payment_command (some req) = do
    idem ← require_idempotency_key req.idempotency_key (lit "idempotency_key")
    src ← require_uuid X req.source_account_id (lit "source_account_id")
    dst ← require_uuid X req.destination_account_id (lit "destination_account_id")
    fail_if (src == dst)
        (invalid (lit "source_account_id must be different from destination_account_id"))
    ccy ← require_currency req.currency
    amt ← require_decimal_amount req.amount (lit "amount")
    actor ← require_actor req.initiated_by
    ok (record {
      idempotency_key = idem;
      source_account_id = src;
      destination_account = dst;
      currency = ccy;
      amount = amt;
      initiated_by = actor;
    })

  unfoldable pub to_get_payment_uuid : Option Text → Result Uuid
  to_get_payment_uuid none = err request_required
  to_get_payment_uuid (some payment_id) = require_uuid X payment_id (lit "payment_id")

  -- The window of both lists: account, times and their distance, page and size.
  unfoldable pub to_list_query : ℕ → Bool → Option ListRequest → Result ListQuery
  to_list_query max_days one_based none = err request_required
  to_list_query max_days one_based (some req) = do
    acc ← require_uuid X req.account_id (lit "account_id")
    from ← require_timestamp req.from (lit "from")
    to ← require_timestamp req.to (lit "to")
    validate_time_window from to (days max_days)
    bounds ← normalize_page_size req.page req.size 200 one_based
    ok (record {
      account_id = acc;
      from = from;
      to = to;
      page = bounds.0;
      size = bounds.1;
      include_counterparty = req.include_counterparty;
    })

  -- The times go on in RFC 3339 to the second.
  abbrev pub to_second : Time → Time
  to_second t = t - t % 10 ^ 9

  unfoldable pub to_list_account_journal_entries_query : Option ListRequest → Result ListQuery
  to_list_account_journal_entries_query req = do
    q ← to_list_query 90 false req
    ok (record q { from = to_second q.from; to = to_second q.to })

  unfoldable pub to_list_account_statement_query : Option ListRequest → Result ListQuery
  to_list_account_statement_query req = to_list_query 180 true req
