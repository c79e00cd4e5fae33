-- ===== src/Security/Call.antt =====
-- What the interceptor of micro/ledger/internal/infra/security/grpc/authz_interceptor.go works
-- on: its fields, one call, the context it builds, and what it asks Verified Permissions.
use microservice_workspace.Base.{
  Bool, false, ◌||◌, Option, none, some, List, [], ◌∷◌, ◌++◌, if◌then◌else◌, drop,
}
use microservice_workspace.Base.Text.{Text, lit, is_empty, has_prefix, to_lower, trim_space}
use microservice_workspace.Base.Result.{
  Error, status, Result, permission_denied, unauthenticated, internal,
}
use microservice_workspace.Domain.{Actor}
use microservice_workspace.Domain.External.{External}
use microservice_workspace.Security.Token.{Validator}
use microservice_workspace.Security.Routes.{Fields, lookup, extract_string_field, Resolved}

-- What Verified Permissions is asked, and what it answers.
pub record AvpInput : Type 0 where
  pub access_token : Text
  pub action_id : Text
  pub resource_type : Text
  pub resource_id : Text
  pub context : List (Text × Text)

pub record AvpResult : Type 0 where
  pub decision : Text
  pub policy_id : Text

abbrev pub decision_allow : Text
decision_allow = lit "ALLOW"

-- The fields of the interceptor and of the client; `is_authorized` stands for the AWS SDK and
-- `sha_hex` for crypto/sha256, `has_audit` tells whether the audit port is not nil.
pub record Interceptor (X : External) : Type 0 where
  pub jwt : Validator X
  pub policy_store_id : Text
  pub is_authorized : AvpInput → X.Env → Result AvpResult × X.Env
  pub has_audit : Bool
  pub sha_hex : Text → Text
  pub salt_ip : Text
  pub salt_ua : Text

-- One call: its method, the first value of each metadata key, and the fields of the request.
pub record Call : Type 0 where
  pub full_method : Text
  pub metadata : List (Text × Text)
  pub request : Fields

-- The values that the interceptor puts into the context; an absent one is empty.
pub record Context : Type 0 where
  pub correlation_id : Text
  pub access_token : Text
  pub actor : Actor
  pub ip_hash : Text
  pub ua_hash : Text
  pub route_template : Text
  pub action_id : Text
  pub idempotency_key : Text
  pub decision : Text
  pub policy_id : Text

abbrev pub no_actor : Actor
no_actor = record { subject = []; customer_id = []; roles = []; mfa = false }

abbrev pub context_with : Text → Context
context_with cid = record {
  correlation_id = cid;
  access_token = [];
  actor = no_actor;
  ip_hash = [];
  ua_hash = [];
  route_template = [];
  action_id = [];
  idempotency_key = [];
  decision = [];
  policy_id = [];
}

-- The refusals.
abbrev pub refused : Error
refused = status permission_denied (lit "forbidden")

abbrev pub not_authenticated : Error
not_authenticated = status unauthenticated (lit "unauthenticated")

abbrev pub not_decided : Error
not_decided = status internal (lit "authorization error")

abbrev pub read_incoming : Call → Text → Text
read_incoming c key = elim (lookup (to_lower key) c.metadata) [ none ↦ [] | some v ↦ v ]

abbrev pub bearer_value : Text → Text
bearer_value header =
    let h = trim_space header in
    if has_prefix (to_lower h) (lit "bearer ") then trim_space (drop 7 h) else []

unfoldable pub is_infra : Text → Bool
is_infra m =
    has_prefix m (lit "/grpc.health.v1.Health/")
    || has_prefix m (lit "/grpc.reflection.v1alpha.ServerReflection/")

abbrev pub key_of : Fields → Text
key_of req =
    let k = extract_string_field req (lit "IdempotencyKey") in
    if is_empty k then extract_string_field req (lit "idempotency_key") else k

-- `if v != "" { avpCtx[k] = v }`
abbrev pub optional_attr : Text → Text → List (Text × Text)
optional_attr k v = if is_empty v then [] else (k, v) ∷ []

abbrev pub avp_context : Context → Resolved → List (Text × Text)
avp_context ctx r =
    ((lit "correlation_id", ctx.correlation_id)
      ∷ (lit "route_template", ctx.route_template)
      ∷ (lit "ip_hash", ctx.ip_hash)
      ∷ (lit "ua_hash", ctx.ua_hash)
      ∷ [])
    ++ optional_attr (lit "customer_id") ctx.actor.customer_id
    ++ optional_attr (lit "owner_customer_id") r.owner_customer_id
    ++ optional_attr (lit "idempotency_key") ctx.idempotency_key
    ++ r.context_attrs

-- What the handler runs with, and whether its outcome is audited.
pub record Admission : Type 0 where
  pub context : Context
  pub audited_as : Option Text
