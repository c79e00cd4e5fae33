-- ===== src/Tests/Calls.antt =====
-- The theorems of calls from end to end, and of the keys of tokens, at a concrete call.
use microservice_workspace.Base.{refl, none, some, [], ◌∷◌, arith}
use microservice_workspace.Base.Text.{lit}
use microservice_workspace.Base.Result.{ok, Post}
use microservice_workspace.Store.{World}
use microservice_workspace.Security.Call.{Call}
use microservice_workspace.Validation.Requests.{
  to_post_payment_command, to_credit_account_command, to_credit_account_system_command,
}
use microservice_workspace.Ledger.Payment.{post_payment}
use microservice_workspace.Ledger.Credit.{credit_account, credit_account_system}
use microservice_workspace.Rpc.{
  serve, post_payment_handler, credit_account_handler, credit_account_system_handler,
  to_post_payment_response, to_credit_account_response,
}
use microservice_workspace.Rpc.Served.{AllOrNothing}
use microservice_workspace.Rpc.Whole.{post_payment-AllOrNothing, credit-AllOrNothing}
use microservice_workspace.Security.Keys.{Jwk, KeySource, KeyWorld, get_key_by_kid}
use microservice_workspace.Security.Keys.Cache.{Within}
use microservice_workspace.Security.Keys.Held.{KeyFound, get_key_by_kid-KeyFound}
use microservice_workspace.Tests.{toy, world_of, all_accounts}
use microservice_workspace.Tests.Adapters.{interceptor, call_post, pay_request, bonus_request}

abbrev opening : World toy
opening = world_of all_accounts

post_payment-AllOrNothing_example :
    AllOrNothing toy interceptor
      (lit "prod")
      call_post
      (to_post_payment_command toy (some pay_request))
      (λ ctx. post_payment toy ctx.actor)
      (to_post_payment_response toy)
      opening
      (serve toy interceptor
        (lit "prod")
        call_post
        (post_payment_handler toy (some pay_request))
        opening)
post_payment-AllOrNothing_example =
    post_payment-AllOrNothing toy interceptor (lit "prod") call_post opening refl (some pay_request)

abbrev call_credit : Call
call_credit = record {
  full_method = lit "/bank.ledgerpayments.v1.LedgerService/CreditAccountSystem";
  metadata = [];
  request = [];
}

credit-AllOrNothing_example :
    AllOrNothing toy interceptor
      (lit "prod")
      call_credit
      (to_credit_account_command toy none)
      (λ ctx. credit_account toy ctx.actor)
      (to_credit_account_response toy)
      opening
      (serve toy interceptor (lit "prod") call_credit (credit_account_handler toy none) opening)
    × AllOrNothing toy interceptor
        (lit "prod")
        call_credit
        (to_credit_account_system_command toy (some bonus_request))
        (λ ctx. credit_account_system toy)
        (to_credit_account_response toy)
        opening
        (serve toy interceptor
          (lit "prod")
          call_credit
          (credit_account_system_handler toy (some bonus_request))
          opening)
credit-AllOrNothing_example =
    credit-AllOrNothing toy interceptor (lit "prod") call_credit opening refl none
      (some bonus_request)

abbrev jwk : Jwk
jwk = record { kty = lit "RSA"; kid = lit "k1"; n = lit "n"; e = lit "e" }

abbrev source : KeySource toy
source = record {
  jwks_url = lit "https://keys";
  cache_ttl = 600;
  get = λ url env. (ok (200, lit "body"), env);
  decode = λ body. ok (jwk ∷ []);
  base64_decode = λ s. ok (1 ∷ 0 ∷ 1 ∷ []);
}

abbrev cached : KeyWorld toy
cached = record {
  keys = (lit "k0", record { modulus = 15; exponent = 3 }) ∷ [];
  cached_at = some 900;
  env = 5;
  requests = [];
}

get_key_by_kid-KeyFound_example :
    Post
      (λ k v. KeyFound toy source (lit "k1") 1005 cached k v)
      (λ _ v. Within toy source 2 cached v)
      (get_key_by_kid toy source (lit "k1") cached)
unfolding lit
get_key_by_kid-KeyFound_example =
    get_key_by_kid-KeyFound toy source (lit "k1") cached ((refl, (omega arith, omega arith)), tt)
