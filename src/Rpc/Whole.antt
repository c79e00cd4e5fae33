-- ===== src/Rpc/Whole.antt =====
-- The calls that write, from end to end.
use microservice_workspace.Base.{◌≡◌, Option}
use microservice_workspace.Base.Text.{Text}
use microservice_workspace.Domain.External.{External}
use microservice_workspace.Store.{World, idle}
use microservice_workspace.Security.Call.{Interceptor, Call}
use microservice_workspace.Validation.Requests.{
  PostPaymentRequest, CreditAccountRequest, CreditAccountSystemRequest, to_post_payment_command,
  to_credit_account_command, to_credit_account_system_command,
}
use microservice_workspace.Ledger.Payment.{post_payment}
use microservice_workspace.Ledger.Credit.{credit_account, credit_account_system}
use microservice_workspace.Ledger.Certain.{
  post_payment-Certain, credit_account-Certain, credit_account_system-Certain,
}
use microservice_workspace.Rpc.{
  serve, post_payment_handler, credit_account_handler, credit_account_system_handler,
  to_post_payment_response, to_credit_account_response,
}
use microservice_workspace.Rpc.Served.{AllOrNothing, serve-AllOrNothing}

module _ (X : External) (i : Interceptor X) (env : Text) (c : Call) (w : World X)
    (start : w.tx ≡ idle) where
  -- From a connection without an open transaction, a client's PostPayment either answers with a
  -- response, and then the call was admitted and the request valid, the response shows the result
  -- that the use case returned for that command and the caller whom the admission names, the actor
  -- of the token in the call's header if its route asks for one, on the tables as they were, and
  -- the tables are those that it left; or it answers with an error, however it came about, a panic
  -- included, and the tables are as they were. No transaction stays open.
  pub post_payment-AllOrNothing :
      (req : Option PostPaymentRequest)
      → AllOrNothing X i env c
          (to_post_payment_command X req)
          (λ ctx. post_payment X ctx.actor)
          (to_post_payment_response X)
          w
          (serve X i env c (post_payment_handler X req) w)
  post_payment-AllOrNothing req =
      serve-AllOrNothing X i env c (to_post_payment_command X req) (λ ctx. post_payment X ctx.actor)
        (to_post_payment_response X) (λ ctx cmd u. post_payment-Certain u ctx.actor cmd) w start

  -- The same of CreditAccount and CreditAccountSystem.
  pub credit-AllOrNothing :
      (req : Option CreditAccountRequest) (sys : Option CreditAccountSystemRequest)
      → AllOrNothing X i env c
          (to_credit_account_command X req)
          (λ ctx. credit_account X ctx.actor)
          (to_credit_account_response X)
          w
          (serve X i env c (credit_account_handler X req) w)
        × AllOrNothing X i env c
            (to_credit_account_system_command X sys)
            (λ ctx. credit_account_system X)
            (to_credit_account_response X)
            w
            (serve X i env c (credit_account_system_handler X sys) w)
  credit-AllOrNothing req sys = (
    serve-AllOrNothing X i env c (to_credit_account_command X req)
        (λ ctx. credit_account X ctx.actor) (to_credit_account_response X)
        (λ ctx cmd u. credit_account-Certain u ctx.actor cmd) w start,
    serve-AllOrNothing X i env c (to_credit_account_system_command X sys)
        (λ ctx. credit_account_system X) (to_credit_account_response X)
        (λ ctx cmd u. credit_account_system-Certain u cmd) w start,
  )
