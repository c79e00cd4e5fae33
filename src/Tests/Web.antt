-- ===== src/Tests/Web.antt =====
-- A gateway with one operation, which asks for a session and a token, before an identity service
-- that knows one session; and a request with that session.
use microservice_workspace.Bff.Confirm.{PeerLaws}
use microservice_workspace.Bff.Session.{Handler}
use mathlib.Core.Bool.{true}
use microservice_workspace.Base.{ℕ, none, some, [], ◌∷◌, ◌==◌, if◌then◌else◌}
use microservice_workspace.Base.Int.{pos}
use microservice_workspace.Base.Text.{lit, text_eq, text_eq_refl}
use microservice_workspace.Base.Result.{ok, err, plain}
use microservice_workspace.Bff.Http.{Request, no_response}
use microservice_workspace.Bff.Routes.{RouteInfo}
use microservice_workspace.Bff.Peers.{Peers, Web, SessionInfo, Route}

abbrev pub secured : Route
secured = record {
  path = lit "/api/v1/payments";
  operation_id = lit "executePayment";
  security = some ((lit "cookieAuth" ∷ lit "csrfAuth" ∷ []) ∷ []);
}

abbrev pub bob_info : SessionInfo
bob_info = record {
  identity_id = lit "i-1";
  subject_id_oidc = lit "bob";
  roles = [];
  customer_id = lit "c-1";
  user_status = lit "ACTIVE";
  access_token = lit "t-1";
  access_token_expires_in = pos 300;
}

-- The identity service describes the session "s-1" and refreshes none.
abbrev pub peers : Peers
peers = record {
  Env = ℕ;
  Float = ℕ;
  parse_float = λ s. ok 10;
  is_at_most_zero = λ f. f == 0;
  list_accounts = λ md c e. (ok [], e);
  validate_accounts_and_limits = λ md q e. (ok (record { is_ok = true; reason = none }), e);
  post_payment = λ md q e. (ok (record { payment_id = lit "p-1"; status = lit "posted" }), e);
  get_session_info = λ md q e.
      (if text_eq q.session_id (lit "s-1") then ok bob_info else err (plain (lit "unknown")), e);
  refresh_session = λ md q e. (err (plain (lit "unknown")), e);
  logout_session = λ md s e. (ok true, e);
  start_oidc_login = λ md s e. (ok (lit "https://login"), e);
  complete_oidc_login = λ md q e. (
    ok (record {
      session_id = lit "s-1";
      session_expires_in = pos 600;
      redirect_after_login = lit "/home";
    }),
    e,
  );
  time_after = λ n e. (e, e);
  time_now = λ e. (e, e);
  rand_read = λ n e. (ok [], e);
  encode_to_string = λ b. b;
  split_host_port = λ s. none;
  parse_ip = λ s. none;
  url_parse = λ s. some (record { scheme = []; host = []; path = s; rest = [] });
  url_string = λ u. u.path;
  clean = λ p. p;
  find_route = λ r. some secured;
  global_security = [];
  equal_fold = λ s t. text_eq s t;
}

pub peers-PeerLaws : PeerLaws peers
peers-PeerLaws = record { refreshed = λ md q e out h. cc; equal_fold_refl = λ s. text_eq_refl s }

-- A payment with the session's cookie, and the token both as a cookie and as a header.
abbrev pub pay_request : Request
pay_request = record {
  method = lit "POST";
  path = lit "/api/v1/payments";
  remote_addr = lit "10.0.0.1";
  headers = (lit "X-Csrf-Token", lit "k-1") ∷ [];
  cookies = (lit "bff_sid", lit "s-1") ∷ (lit "bff_csrf", lit "k-1") ∷ [];
}

abbrev pub secured_info : RouteInfo
secured_info = record {
  operation_id = lit "executePayment";
  route_template = lit "/api/v1/payments";
  security = (lit "cookieAuth" ∷ lit "csrfAuth" ∷ []) ∷ [];
}

abbrev pub fresh : Web peers
fresh = record { env = 0; writer = no_response; calls = [] }

abbrev pub handler : Handler peers
handler ctx w = w
