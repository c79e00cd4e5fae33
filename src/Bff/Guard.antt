-- ===== src/Bff/Guard.antt =====
-- The middleware against request forgery, bff/internal/api/rest/middleware/csrf.go, and the part of
-- the chain of bff/internal/api/rest/server/router.go that decides whether a handler runs.
use microservice_workspace.Bff.Cookies.{CookieManager}
use microservice_workspace.Bff.Http.{Request, header_get, cookie_value, write_header}
use microservice_workspace.Bff.Routes.{
  requires_both_in_same_requirement, find_info, requires_scheme, RouteInfo,
}
use microservice_workspace.Bff.Csrf.{validate, CsrfManager, ensure_token}
use microservice_workspace.Base.Text.{Text, text_eq, lit, text_eq_iff, is_empty}
use microservice_workspace.Bff.Peers.{Peers, SecurityRequirements, Web}
use microservice_workspace.Base.{
  ◌≡◌, refl, true, false, not, ◌&&◌, ◌||◌, some, none, [], ◌∷◌, List, any, arith, if◌then◌else◌,
  ◌⊎◌, inl, inr, Bool, Option, Bool-cases,
}
use microservice_workspace.Bff.Confirm.{PeerLaws}
use microservice_workspace.Bff.Entry.{write_header-open}
use microservice_workspace.Bff.Context.{Context}
use microservice_workspace.Bff.Session.{auth_session, Handler}

unfoldable pub is_unsafe : Text → Bool
is_unsafe method =
    text_eq method (lit "POST")
    || text_eq method (lit "PUT")
    || text_eq method (lit "PATCH")
    || text_eq method (lit "DELETE")

module _ (X : Peers) (m : CsrfManager) where
  unfoldable pub csrf_route : Handler X → Request → Option RouteInfo → Handler X
  csrf_route next r none ctx w = next ctx w
  csrf_route next r (some ri) ctx w =
      if not (requires_scheme X ri.security (lit "cookieAuth"))
      then next ctx w
      else if not (is_unsafe r.method)
      then next ctx (ensure_token X m r w).1
      else if requires_both_in_same_requirement ri.security (lit "cookieAuth") (lit "csrfAuth")
          && not (validate m r)
      then record w { writer = write_header 403 w.writer }
      else next ctx w

  unfoldable pub csrf : Handler X → Request → Handler X
  csrf next r = csrf_route next r (find_info X r)

  -- 6 and 7 of `NewRouter`, around the handler.
  unfoldable pub protect : CookieManager → Handler X → Request → Handler X
  protect cookies next r = auth_session X cookies (csrf next r) r

-- The request repeats its cookie in the header.
pub record IsRepeated (m : CsrfManager) (r : Request) : Type 0 where
  pub repeated : header_get m.header_name r ≡ cookie_value m.cookie_name r
  pub nonempty : is_empty (cookie_value m.cookie_name r) ≡ false

validate-IsRepeated : (m : CsrfManager) (r : Request) → validate m r ≡ true → IsRepeated m r
unfolding validate
validate-IsRepeated m r h = record {
  repeated =
      (text_eq_iff (header_get m.header_name r) (cookie_value m.cookie_name r)).0 (ground arith);
  nonempty = ground arith;
}

module _ (X : Peers) (laws : PeerLaws X) where
  -- A scheme that is named exactly is found when case is ignored.
  folds : (a k : Text) → text_eq k a ≡ true → X.equal_fold k a ≡ true
  folds a k h = rw ((text_eq_iff k a).0 h) (laws.equal_fold_refl a)

  names-requires :
      (a : Text) (req : List Text)
      → any (λ k. text_eq k a) req ≡ true
      → any (λ k. X.equal_fold k a) req ≡ true
  names-requires a [] h = h
  names-requires a (k ∷ req) h = ground (arith, folds a k, names-requires a req)

  pub requires_both-requires_scheme :
      (sec : SecurityRequirements) (a b : Text)
      → requires_both_in_same_requirement sec a b ≡ true
      → requires_scheme X sec a ≡ true
  unfolding requires_both_in_same_requirement requires_scheme
  requires_both-requires_scheme [] a b h = h
  requires_both-requires_scheme (req ∷ sec) a b h =
      ground (arith, names-requires a req, requires_both-requires_scheme sec a b)

module _ (X : Peers) (laws : PeerLaws X) (m : CsrfManager) (next : Handler X) (r : Request)
    (ri : RouteInfo) where
  -- A request that may change something reaches the handler with a repeated token, and as it is,
  -- or ends with 403.
  pub csrf-IsRepeated :
      (ctx : Context) (w : Web X)
      → find_info X r ≡ some ri
      → is_unsafe r.method ≡ true
      → requires_both_in_same_requirement ri.security (lit "cookieAuth") (lit "csrfAuth") ≡ true
      → w.writer.status ≡ none
      → ((csrf X m next r ctx w ≡ next ctx w) × IsRepeated m r)
        ⊎ ((csrf X m next r ctx w).writer.status ≡ some 403)
  unfolding csrf csrf_route
  csrf-IsRepeated ctx w found unsafe both h =
      let scheme =
        requires_both-requires_scheme X laws ri.security (lit "cookieAuth") (lit "csrfAuth") both in
      elim (Bool-cases (validate m r)) [
        | inl e ↦ inl (rw (found, scheme, unsafe, both, e) refl, validate-IsRepeated m r e)
        | inr e ↦ inr (rw (found, scheme, unsafe, both, e) (write_header-open 403 w.writer h))
      ]
