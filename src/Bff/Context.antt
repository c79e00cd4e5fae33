-- ===== src/Bff/Context.antt =====
-- The values that middleware puts into a request's context, a missing value being the empty text:
-- bff/internal/security/ctx.go, bff/internal/api/rest/middleware/httpctx.go, and the metadata that
-- a call to another service carries, bff/internal/client/grpc/outgoing_metadata.go.
use microservice_workspace.Base.{
  Bool, false, Option, none, List, [], ◌∷◌, ◌++◌, not, select, if◌then◌else◌,
}
use microservice_workspace.Base.Text.{
  Text, lit, is_empty, text_eq, has_prefix, trim_space, to_lower,
}
use microservice_workspace.Bff.Http.{Request}

pub record Context : Type 0 where
  pub correlation_id : Text
  pub access_token : Text
  pub session_id : Text
  pub route_template : Text
  pub client_ip : Text
  pub user_agent : Text
  pub idempotency_key : Text
  -- The keys of api/rest/middleware.
  pub subject : Text
  pub roles : List Text
  pub session : Text
  pub customer : Text
  pub user_state : Text
  pub identity : Text
  pub template : Text
  pub http_request : Option Request
  pub http_writer : Bool
  -- The metadata of the outgoing context.
  pub outgoing : List (Text × Text)

abbrev pub background : Context
background = record {
  correlation_id = [];
  access_token = [];
  session_id = [];
  route_template = [];
  client_ip = [];
  user_agent = [];
  idempotency_key = [];
  subject = [];
  roles = [];
  session = [];
  customer = [];
  user_state = [];
  identity = [];
  template = [];
  http_request = none;
  http_writer = false;
  outgoing = [];
}

abbrev pub with_correlation_id : Context → Text → Context
with_correlation_id ctx v = if is_empty v then ctx else record ctx { correlation_id = v }

abbrev pub with_access_token : Context → Text → Context
with_access_token ctx v = if is_empty v then ctx else record ctx { access_token = v }

abbrev pub with_session_id : Context → Text → Context
with_session_id ctx v = if is_empty v then ctx else record ctx { session_id = v }

abbrev pub with_route_template : Context → Text → Context
with_route_template ctx v = if is_empty v then ctx else record ctx { route_template = v }

abbrev pub with_client_ip : Context → Text → Context
with_client_ip ctx v = if is_empty v then ctx else record ctx { client_ip = v }

abbrev pub with_user_agent : Context → Text → Context
with_user_agent ctx v = if is_empty v then ctx else record ctx { user_agent = v }

abbrev pub with_idempotency_key : Context → Text → Context
with_idempotency_key ctx v = if is_empty v then ctx else record ctx { idempotency_key = v }

unfoldable pub ensure_bearer_trimmed : Text → Text
ensure_bearer_trimmed tok =
    if is_empty tok
    then []
    else if has_prefix (to_lower tok) (lit "bearer ")
    then tok
    else lit "Bearer " ++ tok

unfoldable pub ensure_bearer : Text → Text
ensure_bearer tok = ensure_bearer_trimmed (trim_space tok)

-- `md.Set` of a value that is not empty.
unfoldable pub set_value : Text → Text → List (Text × Text) → List (Text × Text)
set_value key value md =
    if is_empty value then md else (key, value) ∷ select (λ p. not (text_eq p.0 key)) md

-- The outgoing metadata of a call made with the context.
unfoldable pub inject_outgoing : Context → List (Text × Text)
inject_outgoing ctx = set_value (lit "authorization") (ensure_bearer ctx.access_token) (
    set_value (lit "idempotency-key") ctx.idempotency_key (
      set_value (lit "x-user-agent") ctx.user_agent (
        set_value (lit "x-forwarded-for") ctx.client_ip (
          set_value (lit "x-route-template") ctx.route_template
            (set_value (lit "x-correlation-id") ctx.correlation_id ctx.outgoing)))))
