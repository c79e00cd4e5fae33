-- ===== src/Bff/Pay.antt =====
-- Payments and beneficiaries: bff/internal/api/rest/v1/web/feature/payments/strict.go, with
-- `PostPayment` of bff/internal/client/grpc/ledgerpayments.go.
use microservice_workspace.Base.{not, Option, none, some, List, any, if◌then◌else◌}
use microservice_workspace.Base.Text.{Text, lit, is_empty, text_eq, trim_space, to_lower}
use microservice_workspace.Base.Result.{Result, ok, err, ◌>>=◌, pure, attempt}
use microservice_workspace.Bff.Context.{Context}
use microservice_workspace.Bff.Peers.{
  Peers, LimitsInput, LimitsOutput, PaymentRequest, PostPaymentReply, validate_accounts_and_limits,
  list_accounts, ask_payment,
}
use microservice_workspace.Bff.Login.{Operation, refuse, answered}

-- `openapi.CreatePaymentRequest`
pub record CreatePaymentRequest : Type 0 where
  pub source_account : Text
  pub destination_account : Text
  pub currency : Text
  pub amount : Text

-- `CreatePaymentResponseStatus`
pub data PaymentStatus : Type 0 where
  posted pending rejected failed : PaymentStatus

abbrev pub lowered_status : Text → PaymentStatus
lowered_status s =
    if text_eq s (lit "posted")
    then posted
    else if text_eq s (lit "pending")
    then pending
    else if text_eq s (lit "rejected")
    then rejected
    else if text_eq s (lit "failed")
    then failed
    else pending

unfoldable pub map_payment_status : Text → PaymentStatus
map_payment_status s = lowered_status (to_lower (trim_space s))

pub record CreatePaymentResponse : Type 0 where
  pub payment_id : Text
  pub status : PaymentStatus

module _ (X : Peers) where
  -- The answer is the identifier of the beneficiary.
  abbrev pub beneficiary_of : Context → Text → Result (List Text) → Operation X Text
  beneficiary_of ctx account (err e) =
      refuse X 502 (some ctx.correlation_id) (lit "UPSTREAM_ERROR")
        (lit "accounts service unavailable")
  beneficiary_of ctx account (ok ids) =
      if any (λ id. text_eq id account) ids
      then pure (answered 201 account)
      else refuse X 400 (some ctx.correlation_id) (lit "BAD_REQUEST")
          (lit "destination_account not allowed for this customer")

  unfoldable pub create_beneficiary : Context → Text → Operation X Text
  create_beneficiary ctx account =
      if is_empty ctx.customer
      then refuse X 403 (some ctx.correlation_id) (lit "FORBIDDEN") (lit "missing customer context")
      else (attempt (list_accounts X ctx ctx.customer) >>= beneficiary_of ctx account)

  abbrev pub payment_request : Context → Text → CreatePaymentRequest → PaymentRequest
  payment_request ctx key body = record {
    idempotency_key = key;
    source_account_id = body.source_account;
    destination_account_id = body.destination_account;
    currency = body.currency;
    amount = body.amount;
    initiated_by = ctx.subject;
  }

  abbrev pub limits_request : CreatePaymentRequest → X.Float → LimitsInput X.Float
  limits_request body amount = record {
    source_account_id = body.source_account;
    destination_account_id = body.destination_account;
    currency = body.currency;
    amount = amount;
  }

  abbrev pub paid : Context → Result PostPaymentReply → Operation X CreatePaymentResponse
  paid ctx (err e) =
      refuse X 502 (some ctx.correlation_id) (lit "UPSTREAM_ERROR")
        (lit "ledgerpayments service unavailable")
  paid ctx (ok out) = pure (
      answered 201 (record { payment_id = out.payment_id; status = map_payment_status out.status }))

  -- The details name the correlation only if there is a reason.
  abbrev pub reason_details : Context → Option Text → Option Text
  reason_details ctx none = none
  reason_details ctx (some reason) = some ctx.correlation_id

  abbrev pub pay_if :
      Context → Text → CreatePaymentRequest → LimitsOutput → Operation X CreatePaymentResponse
  pay_if ctx key body val =
      if not val.is_ok
      then refuse X 400 (reason_details ctx val.reason) (lit "VALIDATION_FAILED")
          (lit "payment validation failed")
      else (attempt (ask_payment X ctx (payment_request ctx key body)) >>= paid ctx)

  abbrev pub pay_validated :
      Context
      → Text
      → CreatePaymentRequest
      → Result LimitsOutput
      → Operation X CreatePaymentResponse
  pay_validated ctx key body (err e) =
      refuse X 502 (some ctx.correlation_id) (lit "UPSTREAM_ERROR")
        (lit "accounts validation unavailable")
  pay_validated ctx key body (ok val) = pay_if ctx key body val

  abbrev pub pay_amount :
      Context → Text → CreatePaymentRequest → Result X.Float → Operation X CreatePaymentResponse
  pay_amount ctx key body (err e) =
      refuse X 400 (some ctx.correlation_id) (lit "BAD_REQUEST") (lit "invalid amount")
  pay_amount ctx key body (ok amount) =
      if X.is_at_most_zero amount
      then refuse X 400 (some ctx.correlation_id) (lit "BAD_REQUEST") (lit "invalid amount")
      else (attempt (validate_accounts_and_limits X ctx (limits_request body amount))
          >>= pay_validated ctx key body)

  unfoldable pub create_payment :
      Context → Text → CreatePaymentRequest → Operation X CreatePaymentResponse
  create_payment ctx key body =
      if is_empty ctx.customer
      then refuse X 403 (some ctx.correlation_id) (lit "FORBIDDEN") (lit "missing customer context")
      else if is_empty ctx.subject
      then refuse X 401 (some ctx.correlation_id) (lit "UNAUTHORIZED")
          (lit "missing subject context")
      else pay_amount ctx key body (X.parse_float body.amount)
