-- ===== src/Bff/Landing.antt =====
-- Where a login leads, and what a refresh leaves.
use microservice_workspace.Base.Int.{ℤ}
use microservice_workspace.Bff.Http.{Request}
use microservice_workspace.Bff.Csrf.{CsrfManager}
use microservice_workspace.Bff.Cookies.{CookieManager, set, write_session_id}
use microservice_workspace.Base.Text.{Text, is_empty}
use microservice_workspace.Bff.Redirect.{RedirectPolicy, IsInside, safe-IsInside, safe}
use microservice_workspace.Bff.Peers.{Peers, Web, CompleteOidcLoginOutput}
use mathlib.Core.Path.{◌≡◌, refl}
use microservice_workspace.Base.{
  ℕ, Bool, true, false, none, some, Bool-cases, ◌⊎◌, inl, inr, ◌||◌, Option,
}
use microservice_workspace.Base.Result.{Result, ok, err, pure}
use microservice_workspace.Bff.Context.{Context}
use microservice_workspace.Bff.Login.{
  Reply, answered, refused, complete_web_login, login_completed, complete_login, ErrorResponse,
  found_http, keep_session,
}

module _ (X : Peers) (policy : RedirectPolicy) where
  -- A reply that sends the client on sends it to a place inside the site.
  pub data LeadsInside (reply : Result (Reply Text)) : Type 0 where
    leads :
        (status : ℕ) (location : Text)
        → reply ≡ ok (answered status location)
        → IsInside X policy location
        → LeadsInside reply
    refuses : (status : ℕ) (e : ErrorResponse) → reply ≡ ok (refused status e) → LeadsInside reply

  module _ (cookies : CookieManager) (csrf : CsrfManager) where
    keep_session-ok :
        (r : Request) (sid : Text) (ttl : ℤ) (w : Web X)
        → (keep_session X cookies csrf r sid ttl w).0 ≡ ok tt
    unfolding set write_session_id
    keep_session-ok r sid ttl w = elim (Bool-cases (is_empty sid)) [
      | inl e ↦ rw e refl
      | inr e ↦ rw e refl
    ]

    then-ok :
        {A : Type 0} (a : A) (p : Result (Unit {0}) × Web X)
        → p.0 ≡ ok tt
        → (let (r, w) = p in
            let q : Result A × Web X = elim r [ ok u ↦ pure a w | err e ↦ (err e, w) ] in q).0
          ≡ ok a
    then-ok a (ok tt, w) h = refl
    then-ok a (err e, w) h = cc

    login_completed-LeadsInside :
        (r : Request) (x : Result CompleteOidcLoginOutput) (w : Web X)
        → LeadsInside (login_completed X cookies csrf policy r x w).0
    login_completed-LeadsInside r (err e) w = refuses 401 _ refl
    login_completed-LeadsInside r (ok out) w =
        leads 302 (safe X policy out.redirect_after_login)
          (then-ok _ (keep_session X cookies csrf r out.session_id out.session_expires_in w)
            (keep_session-ok r out.session_id out.session_expires_in w))
          (safe-IsInside X policy out.redirect_after_login)

    complete_login-LeadsInside :
        (ctx : Context) (code state : Text) (r : Request) (w : Web X)
        → LeadsInside (complete_login X cookies csrf policy ctx code state r w).0
    complete_login-LeadsInside ctx code state r w =
        go (Bool-cases (is_empty code || is_empty state))
      where
        go :
            (is_empty code || is_empty state ≡ true) ⊎ (is_empty code || is_empty state ≡ false)
            → LeadsInside (complete_login X cookies csrf policy ctx code state r w).0
        go (inl e) = rw e (refuses 400 _ refl)
        go (inr e) = rw e (login_completed-LeadsInside r _ _)

    found_http-LeadsInside :
        (ctx : Context) (code state : Text) (o : Option Request) (b : Bool) (w : Web X)
        → LeadsInside
            (found_http X 502 none o b (complete_login X cookies csrf policy ctx code state) w).0
    found_http-LeadsInside ctx code state none b w = refuses 502 _ refl
    found_http-LeadsInside ctx code state (some r) true w =
        complete_login-LeadsInside ctx code state r w
    found_http-LeadsInside ctx code state (some r) false w = refuses 502 _ refl

    -- Whatever identity answers, the callback of a login sends the client on only to the root, or
    -- to a URL without scheme and host, whose path begins at the root and is allowed; or it
    -- refuses.
    pub complete_web_login-LeadsInside :
        (ctx : Context) (code state : Text) (w : Web X)
        → LeadsInside (complete_web_login X cookies csrf policy ctx code state w).0
    unfolding complete_web_login
    complete_web_login-LeadsInside ctx code state w =
        found_http-LeadsInside ctx code state ctx.http_request ctx.http_writer w
