-- ===== src/Bff/Csrf.antt =====
-- The double-submit token against request forgery: bff/internal/security/csrf_manager.go.
use microservice_workspace.Base.{ℕ, Bool, false, not, ◌&&◌, Option, none, some, [], if◌then◌else◌}
use microservice_workspace.Base.Text.{Text, lit, is_empty, text_eq}
use microservice_workspace.Base.Int.{ℤ, pos, negsuc}
use microservice_workspace.Base.Result.{M, ok, err, ◌>>=◌, pure}
use microservice_workspace.Domain.{Time}
use microservice_workspace.Bff.Http.{
  SameSite, lax, strict, same_site_none, Cookie, Request, Writer, cookie_value, header_get,
  set_cookie, unix_epoch,
}
use microservice_workspace.Bff.Peers.{Peers, Web, on_writer}

pub record CsrfManager : Type 0 where
  pub secure : Bool
  pub same_site : SameSite
  pub cookie_name : Text
  pub header_name : Text
  -- In seconds.
  pub ttl : ℕ

abbrev pub csrf_same_site_of : Text → Bool → SameSite
csrf_same_site_of s secure =
    if text_eq s (lit "strict")
    then strict
    else if text_eq s (lit "none")
    then (if secure then same_site_none else lax)
    else lax

unfoldable pub new_csrf_manager : Text → Bool → CsrfManager
new_csrf_manager same_site secure = record {
  secure = secure;
  same_site = csrf_same_site_of same_site secure;
  cookie_name = if secure then lit "__Host-bff_csrf" else lit "bff_csrf";
  header_name = lit "X-Csrf-Token";
  ttl = 86400;
}

abbrev pub token_cookie : CsrfManager → Text → ℤ → Time → Cookie
token_cookie m value max_age expires = record {
  name = m.cookie_name;
  value = value;
  http_only = false;
  secure = m.secure;
  same_site = m.same_site;
  max_age = max_age;
  expires = expires;
}

-- A token is valid if the header repeats a cookie that is not empty.
unfoldable pub validate : CsrfManager → Request → Bool
validate m r =
    let cookie = cookie_value m.cookie_name r in
    let header = header_get m.header_name r in
    not (is_empty cookie) && not (is_empty header) && text_eq header cookie

unfoldable pub read_token : CsrfManager → Request → Option Text
read_token m r =
    if is_empty (cookie_value m.cookie_name r) then none else some (cookie_value m.cookie_name r)

unfoldable pub clear_token : CsrfManager → Writer → Writer
clear_token m = set_cookie (token_cookie m [] (negsuc 0) unix_epoch)

module _ (X : Peers) where
  unfoldable pub random_token : ℕ → M (Web X) Text
  random_token n w =
      let (r, env') = X.rand_read n w.env in
      let w' : Web X = record w { env = env' } in
      elim r [ ok bytes ↦ (ok (X.encode_to_string bytes), w') | err e ↦ (err e, w') ]

  -- The cookie of a new token.
  unfoldable pub issue_token : CsrfManager → Text → M (Web X) (Unit {0})
  issue_token m tok w =
      let (expires, env') = X.time_after (pos m.ttl) w.env in
      on_writer X (set_cookie (token_cookie m tok (pos m.ttl) expires)) (record w { env = env' })

  -- A request with a token keeps it.
  unfoldable pub ensure_token : CsrfManager → Request → M (Web X) (Unit {0})
  ensure_token m r =
      if is_empty (cookie_value m.cookie_name r) then random_token 32 >>= issue_token m else pure tt
