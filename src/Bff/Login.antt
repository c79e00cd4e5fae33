-- ===== src/Bff/Login.antt =====
-- The operations of login and session: bff/internal/api/rest/server/auth_strict.go.
use microservice_workspace.Base.Result.{attempt}
use mathlib.Core.Bool.{true, false}
use microservice_workspace.Base.{ℕ, ◌||◌, Option, none, some, if◌then◌else◌, Bool}
use microservice_workspace.Base.Text.{Text, lit, is_empty}
use microservice_workspace.Base.Int.{ℤ}
use microservice_workspace.Base.Result.{M, Result, ok, err, ◌>>=◌, ◌>>◌, pure, attempt}
use microservice_workspace.Bff.Http.{Request, header_get, set_header, text_or_nothing}
use microservice_workspace.Bff.Context.{Context}
use microservice_workspace.Bff.Peers.{
  Peers, Web, on_writer, start_oidc_login, complete_oidc_login, logout_session, refresh_session,
  CompleteOidcLoginOutput, RefreshSessionOutput,
}
use microservice_workspace.Bff.Cookies.{CookieManager, read_session_id, clear, set}
use microservice_workspace.Bff.Csrf.{CsrfManager, ensure_token, read_token, clear_token}
use microservice_workspace.Bff.Redirect.{RedirectPolicy, safe}
use microservice_workspace.Bff.Session.{session_input}
use microservice_workspace.Bff.Address.{get_client_ip}

-- `openapi.ErrorResponse`, with the correlation identifier of its details.
pub record ErrorResponse : Type 0 where
  pub code : Text
  pub message : Text
  pub correlation_id : Option Text

-- The answer of an operation: its status, and what it answers or the error.
pub data Reply (A : Type 0) : Type 0 where
  answered : ℕ → A → Reply A
  refused : ℕ → ErrorResponse → Reply A

abbrev pub error_response : Option Text → Text → Text → ErrorResponse
error_response cid code message = record { code = code; message = message; correlation_id = cid }

module _ (X : Peers) where
  abbrev pub Operation : Type 0 → Type 0
  Operation A = M (Web X) (Reply A)

  abbrev pub refuse : {A : Type 0} → ℕ → Option Text → Text → Text → Operation A
  refuse status cid code message = pure (refused status (error_response cid code message))

  -- What `middleware.GetHTTPRequest` and `middleware.GetHTTPResponseWriter` find.
  abbrev pub found_http :
      {A : Type 0} → ℕ → Option Text → Option Request → Bool → (Request → Operation A) → Operation A
  found_http status cid none writer f =
      refuse status cid (lit "INTERNAL") (lit "missing http request context")
  found_http status cid (some r) false f =
      refuse status cid (lit "INTERNAL") (lit "missing http response context")
  found_http status cid (some r) true f = f r

  abbrev pub with_http :
      {A : Type 0} → ℕ → Option Text → Context → (Request → Operation A) → Operation A
  with_http status cid ctx f = found_http status cid ctx.http_request ctx.http_writer f

  abbrev pub no_store : M (Web X) (Unit {0})
  no_store = on_writer X (set_header (lit "Cache-Control") (lit "no-store"))

  abbrev pub login_started : Result Text → Operation Text
  login_started (ok url) = pure (answered 302 url)
  login_started (err e) =
      refuse 502 none (lit "UPSTREAM_ERROR") (lit "identity service unavailable")

  -- The answer is the location.
  unfoldable pub start_web_login : RedirectPolicy → Context → Option Text → Operation Text
  start_web_login policy ctx redirect =
      attempt (start_oidc_login X ctx (safe X policy (text_or_nothing redirect))) >>= login_started

  module _ (cookies : CookieManager) (csrf : CsrfManager) where
    -- The cookies of a session that was given out.
    abbrev pub keep_session : Request → Text → ℤ → M (Web X) (Unit {0})
    keep_session r sid ttl = set X cookies sid ttl >> attempt (ensure_token X csrf r) >> no_store

    abbrev pub login_completed :
        RedirectPolicy → Request → Result CompleteOidcLoginOutput → Operation Text
    login_completed policy r (err e) = refuse 401 none (lit "UNAUTHORIZED") (lit "login rejected")
    login_completed policy r (ok out) =
        keep_session r out.session_id out.session_expires_in
        >> pure (answered 302 (safe X policy out.redirect_after_login))

    abbrev pub complete_login : RedirectPolicy → Context → Text → Text → Request → Operation Text
    complete_login policy ctx code state r =
        if is_empty code || is_empty state
        then refuse 400 none (lit "BAD_REQUEST") (lit "missing code/state")
        else attempt (
            complete_oidc_login X ctx (record {
              code = code;
              state = state;
              ip = get_client_ip X r;
              user_agent = header_get (lit "User-Agent") r;
            }))
          >>= login_completed policy r

    unfoldable pub complete_web_login : RedirectPolicy → Context → Text → Text → Operation Text
    complete_web_login policy ctx code state =
        with_http 502 none ctx (complete_login policy ctx code state)

    -- The session is over for the client.
    abbrev pub drop_cookies : M (Web X) (Unit {0})
    drop_cookies = on_writer X (clear cookies) >> on_writer X (clear_token csrf)

    abbrev pub log_out : Context → Option Text → M (Web X) (Unit {0})
    log_out ctx none = pure tt
    log_out ctx (some sid) = attempt (logout_session X ctx sid) >> pure tt

    -- The answer is the correlation identifier.
    unfoldable pub logout_web_session : Context → Operation Text
    logout_web_session ctx = with_http 502 (some ctx.correlation_id) ctx λ r.
        log_out ctx (read_session_id cookies r)
        >> drop_cookies
        >> pure (answered 204 ctx.correlation_id)

    abbrev pub token_read : Context → Option Text → Operation Text
    token_read ctx none =
        refuse 502 (some ctx.correlation_id) (lit "INTERNAL")
          (lit "csrf token missing after issuance")
    token_read ctx (some tok) = pure (answered 200 tok)

    abbrev pub token_ensured : Context → Request → Result (Unit {0}) → Operation Text
    token_ensured ctx r (err e) =
        refuse 502 (some ctx.correlation_id) (lit "INTERNAL") (lit "cannot issue csrf token")
    token_ensured ctx r (ok u) = token_read ctx (read_token csrf r)

    -- The answer is the token.
    unfoldable pub get_web_csrf_token : Context → Operation Text
    get_web_csrf_token ctx =
        with_http 403 (some ctx.correlation_id) ctx
          λ r. attempt (ensure_token X csrf r) >>= token_ensured ctx r

    abbrev pub session_refreshed : Context → Request → Result RefreshSessionOutput → Operation ℤ
    session_refreshed ctx r (err e) =
        drop_cookies
        >> refuse 401 (some ctx.correlation_id) (lit "UNAUTHORIZED")
            (lit "session refresh rejected")
    session_refreshed ctx r (ok out) =
        keep_session r out.session_id out.session_expires_in
        >> pure (answered 200 out.session_expires_in)

    abbrev pub refresh_of_sid : Context → Request → Option Text → Operation ℤ
    refresh_of_sid ctx r none =
        refuse 401 (some ctx.correlation_id) (lit "UNAUTHORIZED") (lit "missing session")
    refresh_of_sid ctx r (some sid) =
        attempt (
          refresh_session X ctx
            (session_input sid (get_client_ip X r) (header_get (lit "User-Agent") r)))
        >>= session_refreshed ctx r

    -- The answer is the time that the session has left, in seconds.
    unfoldable pub refresh_web_session : Context → Operation ℤ
    refresh_web_session ctx =
        with_http 502 (some ctx.correlation_id) ctx
          λ r. refresh_of_sid ctx r (read_session_id cookies r)
