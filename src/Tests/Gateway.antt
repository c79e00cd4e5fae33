-- ===== src/Tests/Gateway.antt =====
-- The gateway's theorems at concrete requests.
use microservice_workspace.Tests.Web.{
  peers, peers-PeerLaws, pay_request, secured_info, fresh, handler,
}
use microservice_workspace.Bff.Login.{answered, refused}
use microservice_workspace.Bff.Logout.{
  get_web_csrf_token-first, IsLoggedOut, logout_web_session-IsLoggedOut,
}
use microservice_workspace.Validation.Fields.{normalize_page_size}
use microservice_workspace.Bff.Asked.{requests-refused, statement_request-accepted}
use microservice_workspace.Bff.Csrf.{new_csrf_manager}
use microservice_workspace.Bff.Protected.{Verdict, protect-Verdict}
use microservice_workspace.Bff.Login.{
  ErrorResponse, complete_web_login, get_web_csrf_token, logout_web_session, refused, answered,
}
use microservice_workspace.Bff.Cookies.{read_session_id, new_cookie_manager, plain_sid}
use microservice_workspace.Bff.Landing.{LeadsInside, complete_web_login-LeadsInside}
use microservice_workspace.Bff.Limit.{Store, rate_limit, admitted}
use microservice_workspace.Bff.Guard.{is_unsafe, protect}
use microservice_workspace.Bff.Rate.{
  IsBounded, Within, rate_limit-IsBounded, rate_limit-again, admitted-bound, after_requests,
}
use microservice_workspace.Bff.Pay.{CreatePaymentRequest}
use microservice_workspace.Validation.Requests.{
  to_list_account_journal_entries_query, to_list_account_statement_query,
}
use microservice_workspace.Bff.Redirect.{RedirectPolicy, new_redirect_policy}
use microservice_workspace.Bff.Statement.{
  statement_request, StatementParams, Times, journal_entries_request, page_param, size_param,
}
use microservice_workspace.Bff.Session.{auth_session}
use microservice_workspace.Bff.Entry.{Outcome, auth_session-Outcome}
use microservice_workspace.Base.Result.{status, not_found}
use microservice_workspace.Bff.Errors.{Failure, app, upstream, wrapping, Common, common, write}
use microservice_workspace.Bff.Faces.{write-common}
use mathlib.Core.Path.{◌≡◌, refl}
use mathlib.Core.Bool.{true, false}
use microservice_workspace.Base.Int.{int32}
use microservice_workspace.Base.{◌*◌, ◌≤◌, none, some, [], ◌∷◌, arith}
use microservice_workspace.Base.Int.{pos}
use microservice_workspace.Base.Text.{lit}
use microservice_workspace.Base.Result.{ok, err, Error}
use microservice_workspace.Bff.Context.{Context, background, inject_outgoing}
use microservice_workspace.Bff.Http.{Request, no_response}
use microservice_workspace.Bff.Routes.{
  find_info, requires_scheme, requires_both_in_same_requirement, effective_security,
}
use microservice_workspace.Bff.Peers.{logout_of}
use microservice_workspace.Tests.{toy}

auth_session-Outcome_example :
    Outcome peers peers-PeerLaws (lit "lax") false handler pay_request no_response (
      auth_session peers
        (new_cookie_manager (lit "lax") false)
        handler
        pay_request
        background
        fresh)
unfolding find_info requires_scheme effective_security lit
auth_session-Outcome_example =
    auth_session-Outcome peers peers-PeerLaws (lit "lax") false handler pay_request secured_info
      background fresh refl refl refl

protect-Verdict_example :
    Verdict peers peers-PeerLaws
      (lit "lax")
      false
      (new_csrf_manager (lit "lax") false)
      handler
      pay_request
      (protect peers
        (new_csrf_manager (lit "lax") false)
        (new_cookie_manager (lit "lax") false)
        handler
        pay_request
        background
        fresh)
unfolding find_info requires_both_in_same_requirement effective_security is_unsafe lit
protect-Verdict_example =
    protect-Verdict peers peers-PeerLaws (lit "lax") false (new_csrf_manager (lit "lax") false)
      handler pay_request secured_info refl refl refl background fresh refl

abbrev policy : RedirectPolicy
policy = new_redirect_policy peers (lit "/home" ∷ lit "/app/*" ∷ [])

-- A request and a response are in the context.
abbrev http_context : Context
http_context = record background { http_request = some pay_request; http_writer = true }

complete_web_login-LeadsInside_example :
    LeadsInside peers policy
      (complete_web_login peers
        (new_cookie_manager (lit "lax") false)
        (new_csrf_manager (lit "lax") false)
        policy
        http_context
        (lit "code")
        (lit "state")
        fresh).0
complete_web_login-LeadsInside_example =
    complete_web_login-LeadsInside peers policy (new_cookie_manager (lit "lax") false)
      (new_csrf_manager (lit "lax") false) http_context (lit "code") (lit "state") fresh

logout_web_session-IsLoggedOut_example :
    ((logout_web_session peers
        (new_cookie_manager (lit "lax") false)
        (new_csrf_manager (lit "lax") false)
        http_context
        fresh).0
      ≡ ok (answered 204 []))
    × ((logout_web_session peers
          (new_cookie_manager (lit "lax") false)
          (new_csrf_manager (lit "lax") false)
          http_context
          fresh).1.calls
        ≡ logout_of (inject_outgoing http_context) (lit "s-1") ∷ [])
    × IsLoggedOut
        (lit "lax")
        false
        (logout_web_session peers
          (new_cookie_manager (lit "lax") false)
          (new_csrf_manager (lit "lax") false)
          http_context
          fresh).1.writer
unfolding read_session_id new_cookie_manager plain_sid lit
logout_web_session-IsLoggedOut_example =
    logout_web_session-IsLoggedOut peers (lit "lax") false http_context pay_request refl refl fresh
      (lit "s-1") refl refl

-- The same request without a token.
abbrev bare_request : Request
bare_request = record pay_request { cookies = [] }

abbrev bare_context : Context
bare_context = record http_context { http_request = some bare_request }

get_web_csrf_token-first_example :
    (e : ErrorResponse) × ((get_web_csrf_token peers
        (new_cookie_manager (lit "lax") false)
        (new_csrf_manager (lit "lax") false)
        bare_context
        fresh).0
      ≡ ok (refused 502 e))
get_web_csrf_token-first_example =
    get_web_csrf_token-first peers (lit "lax") false bare_context bare_request refl refl fresh refl

abbrev statement_params : StatementParams
statement_params = record {
  from = none;
  to = none;
  page = some (pos 3);
  size = some (pos 500);
  include_counterparty = none;
}

abbrev times : Times
times = record {
  format_rfc3339 = λ t. t ∷ [];
  parse_rfc3339 = λ s. ok 0;
  new_timestamp = λ t. record { seconds = t; nanos = 0 };
}

statement_request-accepted_example : normalize_page_size (pos 3) (pos 200) 200 true ≡ ok (3, 200)
unfolding statement_request page_param size_param int32
statement_request-accepted_example = statement_request-accepted times (lit "a-1") statement_params

requests-refused_example :
    ((e : Error) × (to_list_account_journal_entries_query toy
          (some (journal_entries_request (lit "a") (pos 0) (pos 20)))
        ≡ err e))
    × ((e : Error) × (to_list_account_statement_query toy
            (some (statement_request times (lit "a") statement_params))
          ≡ err e))
requests-refused_example =
    requests-refused toy times (lit "a") (pos 0) (pos 20) statement_params refl

abbrev bob : Context
bob = record background { customer = lit "c-1"; subject = lit "bob" }

abbrev ten : CreatePaymentRequest
ten = record {
  source_account = lit "a-1";
  destination_account = lit "a-2";
  currency = lit "USD";
  amount = lit "10";
}

abbrev no_buckets : Store
no_buckets a = none

no_buckets-IsBounded : IsBounded (pos 2) no_buckets
no_buckets-IsBounded = record { bounded = λ a b h. cc }

admitted-bound_example :
    admitted
      (pos 2)
      (lit "ip")
      ((lit "ip", 5) ∷ (lit "ip", 6) ∷ (lit "other", 6) ∷ (lit "ip", 7) ∷ [])
      no_buckets
    ≤ 2 * 2
unfolding Within
admitted-bound_example =
    admitted-bound (pos 2) (lit "ip") 5
      ((lit "ip", 5) ∷ (lit "ip", 6) ∷ (lit "other", 6) ∷ (lit "ip", 7) ∷ []) no_buckets
      no_buckets-IsBounded (ground arith)

rate_limit-again_example :
    (rate_limit (pos 1) (lit "ip") 1000000005 1000000005 (
      after_requests
        (pos 1)
        ((lit "other", 7) ∷ [])
        (rate_limit (pos 1) (lit "ip") 5 5 no_buckets).1)).0
    ≡ true
unfolding lit
rate_limit-again_example =
    rate_limit-again (pos 1) (lit "ip") 5 5 1000000005 1000000005 no_buckets (omega arith)
      (λ b h. cc) (omega arith) ((lit "other", 7) ∷ []) (refl, tt)

rate_limit-IsBounded_example : IsBounded (pos 2) (rate_limit (pos 2) (lit "ip") 5 5 no_buckets).1
rate_limit-IsBounded_example =
    rate_limit-IsBounded (pos 2) (lit "ip") 5 5 no_buckets no_buckets-IsBounded

-- A refusal by another service, wrapped with a text.
abbrev failure : Failure
failure = wrapping (lit "call: ") (upstream (status not_found (lit "secret")))

write-common_example :
    (k : Common) × (write (λ b. b.message) failure true no_response
      ≡ write (λ b. b.message) (app (common k)) false no_response)
write-common_example = write-common (λ b. b.message) failure true no_response refl
