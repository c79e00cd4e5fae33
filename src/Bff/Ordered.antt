-- ===== src/Bff/Ordered.antt =====
-- When the gateway asks the ledger for a payment.
use microservice_workspace.Base.Text.{Text, is_empty}
use microservice_workspace.Bff.Context.{Context, inject_outgoing}
use mathlib.Core.Path.{◌≡◌}
use mathlib.Core.Bool.{true, false}
use microservice_workspace.Base.{◌⊎◌, ◌∷◌, ℕ}
use microservice_workspace.Base.Result.{Result, ok}
use microservice_workspace.Bff.Peers.{Peers, limits_of, payment_of, LimitsOutput, Web, LimitsInput}
use microservice_workspace.Bff.Pay.{
  payment_request, limits_request, CreatePaymentRequest, CreatePaymentResponse,
}
use microservice_workspace.Bff.Login.{Reply, refused, ErrorResponse}

module _ (X : Peers) (ctx : Context) (key : Text) (body : CreatePaymentRequest) where
  -- What happened between `w` and the end, and what was answered.
  pub data PaymentRun (w : Web X) (end : Result (Reply CreatePaymentResponse) × Web X)
      : Type 0 where
    -- The ledger was not asked.
    not_asked :
        (status : ℕ) (e : ErrorResponse)
        → end.0 ≡ ok (refused status e)
        → (end.1.calls ≡ w.calls)
          ⊎ ((q : LimitsInput X.Float) × (end.1.calls
                ≡ limits_of (inject_outgoing ctx) q ∷ w.calls))
        → PaymentRun w end
    -- The ledger was asked for what the accounts service had just accepted.
    asked_for :
        (amount : X.Float) (before : X.Env) (val : LimitsOutput)
        → is_empty ctx.customer ≡ false
        → is_empty ctx.subject ≡ false
        → X.parse_float body.amount ≡ ok amount
        → X.is_at_most_zero amount ≡ false
        → (X.validate_accounts_and_limits
            (inject_outgoing ctx)
            (limits_request X body amount)
            before).0
          ≡ ok val
        → val.is_ok ≡ true
        → end.1.calls
          ≡ payment_of (inject_outgoing ctx) (payment_request X ctx key body)
            ∷ limits_of (inject_outgoing ctx) (limits_request X body amount)
            ∷ w.calls
        → PaymentRun w end
