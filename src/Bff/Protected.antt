-- ===== src/Bff/Protected.antt =====
-- The session middleware and the middleware against request forgery around one handler.
use microservice_workspace.Bff.Cookies.{new_cookie_manager}
use microservice_workspace.Bff.Routes.{RouteInfo, find_info, requires_both_in_same_requirement}
use microservice_workspace.Bff.Http.{Request, Writer}
use microservice_workspace.Bff.Session.{Handler}
use microservice_workspace.Bff.Csrf.{CsrfManager}
use microservice_workspace.Base.Text.{Text, lit}
use microservice_workspace.Bff.Peers.{Peers, Web}
use mathlib.Core.Path.{◌≡◌, ◌∙◌, ap}
use microservice_workspace.Base.{true, some, none, ◌⊎◌, inl, inr, Bool}
use microservice_workspace.Bff.Confirm.{PeerLaws}
use microservice_workspace.Bff.Entry.{
  Outcome, passed, without_session, locked_out, ended, failing, IsAuthenticated,
  auth_session-Outcome,
}
use microservice_workspace.Bff.Context.{Context}
use microservice_workspace.Bff.Routes.{requires_both_in_same_requirement}
use microservice_workspace.Bff.Guard.{
  csrf, protect, IsRepeated, csrf-IsRepeated, is_unsafe, requires_both-requires_scheme,
}

module _ (X : Peers) (laws : PeerLaws X) (same_site : Text) (secure : Bool) (m : CsrfManager) where
  -- How a request for a protected operation ends.
  pub data Verdict (next : Handler X) (r : Request) (result : Web X) : Type 0 where
    served :
        (ctx : Context) (v : Web X)
        → result ≡ next ctx v
        → IsAuthenticated X laws same_site secure r ctx v
        → IsRepeated m r
        → Verdict next r result
    unauthorized : result.writer.status ≡ some 401 → Verdict next r result
    forbidden : result.writer.status ≡ some 403 → Verdict next r result
    upstream :
        (result.writer.status ≡ some 502) ⊎ (result.writer.status ≡ some 503)
        → Verdict next r result

  module _ (next : Handler X) (r : Request) (ri : RouteInfo) (found : find_info X r ≡ some ri)
      (unsafe : is_unsafe r.method ≡ true)
      (both : requires_both_in_same_requirement ri.security (lit "cookieAuth") (lit "csrfAuth")
        ≡ true) where
    verdict :
        (u : Writer) (result : Web X)
        → Outcome X laws same_site secure (csrf X m next r) r u result
        → Verdict next r result
    verdict u result (passed ctx v e free a) =
        elim (csrf-IsRepeated X laws m next r ri ctx v found unsafe both free) [
          | inl s ↦ served ctx v (e ∙ s.0) a s.1
          | inr s ↦ forbidden (ap (λ (w : Web X). w.writer.status) e ∙ s)
        ]
    verdict u result (without_session e) = unauthorized (ap (λ (w : Writer). w.status) e)
    verdict u result (locked_out e) = forbidden e
    verdict u result (ended e) = unauthorized e.refused
    verdict u result (failing e) = upstream e.refused

    -- If identity never hands out empty identifiers or tokens, a request that may change
    -- something, for an operation that asks for cookieAuth and csrfAuth together, no status being
    -- written yet, reaches the handler only in the context of a user whose status is ACTIVE or not
    -- given and whose session identity described in the last call before, and with the token of its
    -- cookie repeated in the header. Every other such request ends with 401, 403, 502 or 503.
    pub protect-Verdict :
        (ctx : Context) (w : Web X)
        → w.writer.status ≡ none
        → Verdict next r (protect X m (new_cookie_manager same_site secure) next r ctx w)
    unfolding protect
    protect-Verdict ctx w h = verdict w.writer _ (
        auth_session-Outcome X laws same_site secure (csrf X m next r) r ri ctx w found
          (requires_both-requires_scheme X laws ri.security (lit "cookieAuth") (lit "csrfAuth")
            both)
          h)
