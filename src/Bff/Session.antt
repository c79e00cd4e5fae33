-- ===== src/Bff/Session.antt =====
-- The session of a request: bff/internal/api/rest/middleware/auth_session.go.
use microservice_workspace.Base.{
  ℕ, Bool, false, not, ◌&&◌, Option, none, some, [], ltb, if◌then◌else◌,
}
use microservice_workspace.Base.Text.{Text, lit, is_empty, text_eq}
use microservice_workspace.Base.Int.{ℤ, pos, negsuc}
use microservice_workspace.Base.Result.{
  Code, unauthenticated, not_found, failed_precondition, unavailable, deadline_exceeded, Error,
  status, Result, ok, err, M, ◌>>=◌, ◌>>◌, pure, raise, attempt,
}
use microservice_workspace.Bff.Http.{Request, Writer, write_header, header_get}
use microservice_workspace.Bff.Context.{
  Context, with_session_id, with_access_token, with_route_template, with_client_ip, with_user_agent,
  with_idempotency_key,
}
use microservice_workspace.Bff.Peers.{
  Peers, Web, on_writer, SessionInfo, SessionInput, RefreshSessionOutput, get_session_info,
  refresh_session,
}
use microservice_workspace.Bff.Cookies.{CookieManager, read_session_id, clear, write_session_id}
use microservice_workspace.Bff.Routes.{RouteInfo, find_info, requires_scheme}
use microservice_workspace.Bff.Address.{get_client_ip}

pub record Session : Type 0 where
  pub info : SessionInfo
  pub new_sid : Text
  pub access_token : Text

-- The cases of the switch on the code of identity's refusal.
pub data Refusal : Type 0 where
  not_authenticated lost away unexpected : Refusal

abbrev pub refusal_of : Code → Refusal
refusal_of unauthenticated = not_authenticated
refusal_of not_found = lost
refusal_of failed_precondition = lost
refusal_of unavailable = away
refusal_of deadline_exceeded = away
refusal_of c = unexpected

abbrev pub exceeds : ℤ → ℕ → Bool
exceeds (pos n) k = ltb k n
exceeds (negsuc n) k = false

abbrev pub session_input : Text → Text → Text → SessionInput
session_input sid ip ua = record { session_id = sid; ip = ip; user_agent = ua }

abbrev pub bad_gateway : Writer → Writer
bad_gateway w = write_header 502 (record w { body = lit "Session error" })

abbrev pub service_unavailable : Writer → Writer
service_unavailable w = write_header 503 (record w { body = lit "service unavailable" })

abbrev pub has_valid_token : SessionInfo → Bool
has_valid_token info = not (is_empty info.access_token) && exceeds info.access_token_expires_in 30

abbrev pub is_rotated : Text → Session → Bool
is_rotated sid s = not (is_empty s.new_sid) && not (text_eq s.new_sid sid)

-- What the handler finds in its context.
abbrev pub user_context : Context → RouteInfo → Text → Session → Context
user_context ctx ri sid s =
    let ctx1 = with_access_token (with_session_id ctx s.new_sid) s.access_token in
    let ctx2 = if is_rotated sid s then with_session_id ctx1 s.new_sid else ctx1 in
    record ctx2 {
      subject = s.info.subject_id_oidc;
      roles = s.info.roles;
      session = if is_rotated sid s then s.new_sid else sid;
      customer = s.info.customer_id;
      user_state = s.info.user_status;
      identity = s.info.identity_id;
      template = ri.route_template;
    }

abbrev pub is_locked_out : SessionInfo → Bool
is_locked_out info =
    not (is_empty info.user_status) && not (text_eq info.user_status (lit "ACTIVE"))

module _ (X : Peers) where
  -- What the rest of the middleware and the handler do.
  abbrev pub Handler : Type 0
  Handler = Context → Web X → Web X

  -- What the calls to identity are made with.
  abbrev pub session_context : Context → RouteInfo → Text → Request → Context
  session_context ctx ri sid r =
      with_idempotency_key
        (with_route_template
          (with_user_agent (with_client_ip (with_session_id ctx sid) (get_client_ip X r))
            (header_get (lit "User-Agent") r))
          ri.route_template)
        (header_get (lit "Idempotency-Key") r)

  module _ (cookies : CookieManager) where
    -- The session is over: its cookie is removed.
    unfoldable pub reject : Error → M (Web X) Session
    reject e = on_writer X (clear cookies) >> on_writer X (write_header 401) >> raise e

    abbrev pub reloaded : RefreshSessionOutput → Result SessionInfo → M (Web X) Session
    reloaded ref (ok info) =
        pure (record { info = info; new_sid = ref.session_id; access_token = ref.access_token })
    reloaded ref (err e) = reject e

    abbrev pub reload : Context → Text → Text → RefreshSessionOutput → M (Web X) Session
    reload ctx ip ua ref =
        attempt (get_session_info X ctx (session_input ref.session_id ip ua)) >>= reloaded ref

    abbrev pub rotated : Context → Text → Text → Result RefreshSessionOutput → M (Web X) Session
    rotated ctx ip ua (err e) = reject e
    rotated ctx ip ua (ok ref) =
        write_session_id X cookies ref.session_id ref.session_expires_in >> reload ctx ip ua ref

    -- A new identifier for the session, its cookie, and what identity says of it.
    unfoldable pub rotate : Context → Text → Text → Text → M (Web X) Session
    rotate ctx sid ip ua =
        attempt (refresh_session X ctx (session_input sid ip ua)) >>= rotated ctx ip ua

    -- `e` is the error, of that kind and with that message.
    abbrev pub refused_as :
        Context → Text → Text → Text → Refusal → Text → Error → M (Web X) Session
    refused_as ctx sid ip ua not_authenticated message e =
        if text_eq message (lit "SESSION_EXPIRED") then rotate ctx sid ip ua else reject e
    refused_as ctx sid ip ua lost message e = reject e
    refused_as ctx sid ip ua away message e = on_writer X service_unavailable >> raise e
    refused_as ctx sid ip ua unexpected message e = on_writer X bad_gateway >> raise e

    abbrev pub refused_by_identity : Context → Text → Text → Text → Error → M (Web X) Session
    refused_by_identity ctx sid ip ua (status c message) =
        refused_as ctx sid ip ua (refusal_of c) message (status c message)
    refused_by_identity ctx sid ip ua e = on_writer X bad_gateway >> raise e

    abbrev pub accepted : Context → Text → Text → Text → Result SessionInfo → M (Web X) Session
    accepted ctx sid ip ua (err e) = refused_by_identity ctx sid ip ua e
    accepted ctx sid ip ua (ok info) =
        if has_valid_token info
        then pure (record { info = info; new_sid = []; access_token = info.access_token })
        else rotate ctx sid ip ua

    unfoldable pub get_session_info_with_refresh : Context → Text → Text → Text → M (Web X) Session
    get_session_info_with_refresh ctx sid ip ua =
        attempt (get_session_info X ctx (session_input sid ip ua)) >>= accepted ctx sid ip ua

    unfoldable pub enter : Handler → Context → RouteInfo → Text → Result Session × Web X → Web X
    enter next ctx ri sid (err e, w) = w
    enter next ctx ri sid (ok s, w) =
        if is_locked_out s.info
        then record w { writer = write_header 403 w.writer }
        else next (user_context ctx ri sid s) w

    unfoldable pub with_session : Handler → Request → RouteInfo → Option Text → Handler
    with_session next r ri none ctx w = record w { writer = write_header 401 w.writer }
    with_session next r ri (some sid) ctx w =
        let ctx' = session_context ctx ri sid r in
        enter next ctx' ri sid (
          get_session_info_with_refresh ctx' sid (get_client_ip X r)
            (header_get (lit "User-Agent") r) w)

    unfoldable pub auth_route : Handler → Request → Option RouteInfo → Handler
    auth_route next r none ctx w = next ctx w
    auth_route next r (some ri) ctx w =
        if requires_scheme X ri.security (lit "cookieAuth")
        then with_session next r ri (read_session_id cookies r) ctx w
        else next ctx w

    unfoldable pub auth_session : Handler → Request → Handler
    auth_session next r = auth_route next r (find_info X r)
