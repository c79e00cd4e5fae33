-- ===== src/Bff/Cookies.antt =====
-- The cookie of a session: bff/internal/security/cookies.go.
use microservice_workspace.Base.{Bool, true, Option, none, some, List, [], ◌∷◌, if◌then◌else◌}
use microservice_workspace.Base.Text.{Text, lit, is_empty, text_eq}
use microservice_workspace.Base.Int.{ℤ, negsuc}
use microservice_workspace.Base.Result.{M, pure}
use microservice_workspace.Domain.{Time}
use microservice_workspace.Bff.Http.{
  SameSite, lax, strict, same_site_none, Cookie, Request, Writer, cookie_value, set_cookie,
  unix_epoch,
}
use microservice_workspace.Bff.Peers.{Peers, Web, on_writer}

pub record CookieManager : Type 0 where
  pub secure : Bool
  pub same_site : SameSite
  pub cookie_name : Text

unfoldable pub host_sid : Text
host_sid = lit "__Host-bff_sid"

unfoldable pub plain_sid : Text
plain_sid = lit "bff_sid"

abbrev pub same_site_of : Text → SameSite
same_site_of s =
    if text_eq s (lit "strict")
    then strict
    else if text_eq s (lit "none")
    then same_site_none
    else lax

-- From the configured SameSite and Secure.
unfoldable pub new_cookie_manager : Text → Bool → CookieManager
new_cookie_manager same_site secure = record {
  secure = secure;
  same_site = same_site_of same_site;
  cookie_name = if secure then host_sid else plain_sid;
}

abbrev pub session_cookie : CookieManager → Text → Text → ℤ → Time → Cookie
session_cookie m name value max_age expires = record {
  name = name;
  value = value;
  http_only = true;
  secure = m.secure;
  same_site = m.same_site;
  max_age = max_age;
  expires = expires;
}

-- The names that are not the manager's own.
unfoldable pub read_alternate : CookieManager → List Text → Request → Option Text
read_alternate m [] r = none
read_alternate m (n ∷ ns) r =
    let rest = read_alternate m ns r in
    if text_eq n m.cookie_name
    then rest
    else if is_empty (cookie_value n r)
    then rest
    else some (cookie_value n r)

unfoldable pub read_session_id : CookieManager → Request → Option Text
read_session_id m r =
    if is_empty (cookie_value m.cookie_name r)
    then read_alternate m (host_sid ∷ plain_sid ∷ []) r
    else some (cookie_value m.cookie_name r)

abbrev pub cleared : CookieManager → Text → Cookie
cleared m name = session_cookie m name [] (negsuc 0) unix_epoch

unfoldable pub clear_alternate : CookieManager → List Text → Writer → Writer
clear_alternate m [] w = w
clear_alternate m (n ∷ ns) w =
    clear_alternate m ns (if text_eq n m.cookie_name then w else set_cookie (cleared m n) w)

unfoldable pub clear : CookieManager → Writer → Writer
clear m w = clear_alternate m (host_sid ∷ plain_sid ∷ []) (set_cookie (cleared m m.cookie_name) w)

module _ (X : Peers) where
  unfoldable pub write_session_id : CookieManager → Text → ℤ → M (Web X) (Unit {0})
  write_session_id m sid ttl w =
      let (expires, env') = X.time_after ttl w.env in
      on_writer X (set_cookie (session_cookie m m.cookie_name sid ttl expires))
        (record w { env = env' })

  -- `Set`: an empty identifier is not written.
  unfoldable pub set : CookieManager → Text → ℤ → M (Web X) (Unit {0})
  set m sid ttl = if is_empty sid then pure tt else write_session_id m sid ttl
