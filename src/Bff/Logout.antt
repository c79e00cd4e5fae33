-- ===== src/Bff/Logout.antt =====
-- What the client is left with after logout, refresh and a request for a token.
use microservice_workspace.Base.Result.{Result, ok, err}
use microservice_workspace.Base.Int.{negsuc}
use microservice_workspace.Bff.Csrf.{
  clear_token, new_csrf_manager, token_cookie, read_token, ensure_token,
}
use microservice_workspace.Bff.Http.{Writer, set_cookie, Request, cookie_value, unix_epoch}
use microservice_workspace.Base.Text.{Text, lit, is_empty}
use microservice_workspace.Bff.Context.{Context, inject_outgoing}
use mathlib.Core.Path.{◌≡◌, refl, sym, subst}
use microservice_workspace.Bff.Cookies.{
  plain_sid, host_sid, clear, clear_alternate, cleared, new_cookie_manager, read_session_id,
}
use microservice_workspace.Bff.Peers.{logout_of, Peers, Web}
use microservice_workspace.Base.{Bool, true, false, none, some, [], ◌∷◌}
use microservice_workspace.Bff.Ended.{IsDropped}
use microservice_workspace.Bff.Login.{
  Reply, answered, refused, logout_web_session, get_web_csrf_token, ErrorResponse, token_ensured,
}

-- The client is told to drop every cookie of its session.
pub record IsLoggedOut (same_site : Text) (secure : Bool) (w : Writer) : Type 0 where
  pub host_dropped : IsDropped host_sid w
  pub plain_dropped : IsDropped plain_sid w
  pub token_dropped : IsDropped (new_csrf_manager same_site secure).cookie_name w

module _ (same_site : Text) where
  dropped_open :
      (secure : Bool) (w : Writer)
      → IsLoggedOut same_site secure (
          clear_token
            (new_csrf_manager same_site secure)
            (clear (new_cookie_manager same_site secure) (record w { status = none })))
  unfolding clear clear_alternate set_cookie new_cookie_manager new_csrf_manager clear_token
      host_sid plain_sid lit
  dropped_open true w = record {
    host_dropped = record {
      cookie = cleared (new_cookie_manager same_site true) host_sid;
      found = refl;
      expired = refl;
      emptied = refl;
    };
    plain_dropped = record {
      cookie = cleared (new_cookie_manager same_site true) plain_sid;
      found = refl;
      expired = refl;
      emptied = refl;
    };
    token_dropped = record {
      cookie = token_cookie (new_csrf_manager same_site true) [] (negsuc 0) unix_epoch;
      found = refl;
      expired = refl;
      emptied = refl;
    };
  }
  dropped_open false w = record {
    host_dropped = record {
      cookie = cleared (new_cookie_manager same_site false) host_sid;
      found = refl;
      expired = refl;
      emptied = refl;
    };
    plain_dropped = record {
      cookie = cleared (new_cookie_manager same_site false) plain_sid;
      found = refl;
      expired = refl;
      emptied = refl;
    };
    token_dropped = record {
      cookie = token_cookie (new_csrf_manager same_site false) [] (negsuc 0) unix_epoch;
      found = refl;
      expired = refl;
      emptied = refl;
    };
  }

  dropped :
      (secure : Bool) (w : Writer)
      → w.status ≡ none
      → IsLoggedOut same_site secure (
          clear_token
            (new_csrf_manager same_site secure)
            (clear (new_cookie_manager same_site secure) w))
  dropped secure w h =
      subst
        (λ s. IsLoggedOut same_site secure (
          clear_token (new_csrf_manager same_site secure)
            (clear (new_cookie_manager same_site secure) (record w { status = s }))))
        (sym h) (dropped_open secure w)

module _ (X : Peers) (same_site : Text) (secure : Bool) (ctx : Context) (r : Request)
    (has_request : ctx.http_request ≡ some r) (has_writer : ctx.http_writer ≡ true)
    (w : Web X) where
  abbrev logged_out : Result (Reply Text) × Web X
  logged_out =
      logout_web_session X (new_cookie_manager same_site secure) (new_csrf_manager same_site secure)
        ctx w

  -- If the request and the response are in the context and no status is written yet, a logout with
  -- a session cookie asks identity to end that session, answers 204 whatever identity says, and
  -- tells the client to drop both session cookies and the token's.
  pub logout_web_session-IsLoggedOut :
      (sid : Text)
      → read_session_id (new_cookie_manager same_site secure) r ≡ some sid
      → w.writer.status ≡ none
      → (logged_out.0 ≡ ok (answered 204 ctx.correlation_id))
        × (logged_out.1.calls ≡ logout_of (inject_outgoing ctx) sid ∷ w.calls)
        × IsLoggedOut same_site secure logged_out.1.writer
  unfolding logout_web_session
  logout_web_session-IsLoggedOut sid read h =
      rw (has_request, has_writer, read) (refl, refl, dropped same_site secure w.writer h)

  token_ensured-refused :
      (x : Result (Unit {0})) (v : Web X)
      → is_empty (cookie_value (new_csrf_manager same_site secure).cookie_name r) ≡ true
      → (e : ErrorResponse) × ((token_ensured X
            (new_cookie_manager same_site secure)
            (new_csrf_manager same_site secure)
            ctx
            r
            x
            v).0
          ≡ ok (refused 502 e))
  unfolding read_token
  token_ensured-refused (err e) v h = (_, refl)
  token_ensured-refused (ok u) v h = rw h (_, refl)

  -- If the request and the response are in the context, a request for a token that has no token
  -- yet is refused with 502, whether a token could be made or not.
  pub get_web_csrf_token-first :
      is_empty (cookie_value (new_csrf_manager same_site secure).cookie_name r) ≡ true
      → (e : ErrorResponse) × ((get_web_csrf_token X
            (new_cookie_manager same_site secure)
            (new_csrf_manager same_site secure)
            ctx
            w).0
          ≡ ok (refused 502 e))
  unfolding get_web_csrf_token
  get_web_csrf_token-first h =
      rw (has_request, has_writer)
        (token_ensured-refused (ensure_token X (new_csrf_manager same_site secure) r w).0 _ h)
