-- ===== src/Bff/Routes.antt =====
-- What the OpenAPI document asks of a request:
-- bff/internal/api/rest/middleware/openapi_security.go.
use microservice_workspace.Base.{Bool, Option, none, some, any, ◌&&◌}
use microservice_workspace.Base.Text.{Text, text_eq}
use microservice_workspace.Bff.Http.{Request}
use microservice_workspace.Bff.Peers.{Peers, Route, SecurityRequirements}

pub record RouteInfo : Type 0 where
  pub operation_id : Text
  pub route_template : Text
  pub security : SecurityRequirements

module _ (X : Peers) where
  -- An operation without requirements of its own has those of the document.
  unfoldable pub effective_security : Option SecurityRequirements → SecurityRequirements
  effective_security none = X.global_security
  effective_security (some security) = security

  abbrev pub route_info : Option Route → Option RouteInfo
  route_info none = none
  route_info (some r) = some (record {
    operation_id = r.operation_id;
    route_template = r.path;
    security = effective_security r.security;
  })

  unfoldable pub find_info : Request → Option RouteInfo
  find_info r = route_info (X.find_route r)

  unfoldable pub requires_scheme : SecurityRequirements → Text → Bool
  requires_scheme sec scheme = any (λ req. any (λ k. X.equal_fold k scheme) req) sec

unfoldable pub requires_both_in_same_requirement : SecurityRequirements → Text → Text → Bool
requires_both_in_same_requirement sec a b =
    any (λ req. any (λ k. text_eq k a) req && any (λ k. text_eq k b) req) sec
