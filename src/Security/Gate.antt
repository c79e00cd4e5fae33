-- ===== src/Security/Gate.antt =====
-- The interceptor of every call (micro/ledger/internal/infra/security/grpc/authz_interceptor.go),
-- and `AuthorizeWithToken` of micro/ledger/internal/infra/security/avp/client.go.
use microservice_workspace.Security.Call.{
  Interceptor, Call, Context, Admission, AvpInput, AvpResult, context_with, avp_context,
  not_decided, bearer_value, refused, read_incoming, is_infra, key_of, decision_allow,
  not_authenticated,
}
use microservice_workspace.Base.{
  Bool, true, false, not, ◌&&◌, Option, none, some, [], ◌∷◌, ◌++◌, if◌then◌else◌, ℕ,
}
use microservice_workspace.Base.Text.{Text, lit, is_empty, text_eq}
use microservice_workspace.Base.Result.{
  Error, plain, Result, ok, err, M, ◌>>=◌, ◌>>◌, pure, raise, raise_if, attempt, from_result,
}
use microservice_workspace.Domain.Remote.{AuditRecord}
use microservice_workspace.Domain.External.{External}
use microservice_workspace.Store.{World}
use microservice_workspace.Store.Calls.{new_uuid, time_now, record_audit}
use microservice_workspace.Security.Token.{Claims, validate_bearer}
use microservice_workspace.Security.Routes.{
  RouteDef, mode_public, mode_authn_only, mode_authz, Mode, get_route, Resolved, resolve,
}

module _ (X : External) (i : Interceptor X) (c : Call) where
  abbrev pub audit_of : Context → Text → Text → ℕ → AuditRecord
  audit_of ctx decision outcome at = record {
    entity = lit "AUTHZ";
    entity_id = c.full_method;
    at = at;
    details =
        (lit "decision", decision)
        ∷ (lit "outcome", outcome)
        ∷ (lit "correlation_id", ctx.correlation_id)
        ∷ (lit "route_template", ctx.route_template)
        ∷ (lit "action_id", ctx.action_id)
        ∷ (lit "policy_id", ctx.policy_id)
        ∷ (lit "ip_hash", ctx.ip_hash)
        ∷ (lit "ua_hash", ctx.ua_hash)
        ∷ [];
  }

  abbrev pub audit_if : Bool → AuditRecord → M (World X) (Unit {0})
  audit_if true a = attempt (record_audit X a) >> pure tt
  audit_if false a = pure tt

  -- `bestEffortAudit`; its extra details are left out.
  unfoldable pub best_effort_audit : Context → Text → Text → M (World X) (Unit {0})
  best_effort_audit ctx decision outcome = do
    at ← time_now X
    audit_if i.has_audit (audit_of ctx decision outcome at)

  -- An audit of the refusal, and the refusal.
  unfoldable pub deny : {A : Type 0} → Context → Text → Error → M (World X) A
  deny ctx outcome e = best_effort_audit ctx (lit "DENY") outcome >> raise e

  -- `err != nil`: the refusal in its place.
  abbrev pub or_deny : {A : Type 0} → Context → Text → Error → Result A → M (World X) A
  or_deny ctx outcome e (ok a) = pure a
  or_deny ctx outcome e (err f) = deny ctx outcome e

  abbrev pub deny_if : Bool → Context → Text → M (World X) (Unit {0})
  deny_if true ctx outcome = deny ctx outcome refused
  deny_if false ctx outcome = pure tt

  -- `Client.AuthorizeWithToken`
  abbrev pub asked : AvpInput → M (World X) AvpResult
  asked q w = let (r, env') = i.is_authorized q w.env in (r, record w { env = env' })

  unfoldable pub authorize_with_token : AvpInput → M (World X) AvpResult
  authorize_with_token q = do
    raise_if (is_empty i.policy_store_id) (plain (lit "AVP_POLICY_STORE_ID is empty"))
    raise_if (is_empty q.access_token) (plain (lit "missing access token"))
    asked q

  abbrev pub avp_input : RouteDef → Context → Resolved → AvpInput
  avp_input def ctx r = record {
    access_token = ctx.access_token;
    action_id = def.action_id;
    resource_type = if is_empty r.resource_type then lit "Unknown" else r.resource_type;
    resource_id = r.resource_id;
    context = avp_context ctx r;
  }

  abbrev pub decided : Context → AvpResult → Context
  decided ctx d = record ctx { decision = d.decision; policy_id = d.policy_id }

  -- After the decision.
  unfoldable pub conclude : RouteDef → Context → AvpResult → M (World X) Admission
  conclude def ctx d =
      deny_if (not (text_eq d.decision decision_allow)) (decided ctx d) (lit "not_authorized")
      >> pure (record {
        context = decided ctx d;
        audited_as = if def.critical then some def.action_id else none;
      })

  unfoldable pub decide : RouteDef → Context → Resolved → M (World X) Admission
  decide def ctx r = attempt (authorize_with_token (avp_input def ctx r)) >>= λ d.
      or_deny ctx (lit "avp_error") not_decided d >>= conclude def ctx

  -- AUTHZ
  unfoldable pub authorize : RouteDef → Context → M (World X) Admission
  authorize def ctx = attempt (resolve X def.resource_template c.request) >>= λ r.
      or_deny ctx (lit "resource_resolve_error") refused r >>= λ res.
      deny_if (def.require_customer_link && is_empty ctx.actor.customer_id) ctx
        (lit "customer_link_missing")
      >> decide def ctx res

  abbrev pub authenticated_context : RouteDef → Text → Text → Claims → Context
  authenticated_context def cid header claims = record {
    correlation_id = cid;
    access_token = bearer_value header;
    actor = claims.actor;
    ip_hash = i.sha_hex (read_incoming c (lit "x-forwarded-for") ++ i.salt_ip);
    ua_hash = i.sha_hex (read_incoming c (lit "user-agent") ++ i.salt_ua);
    route_template = lit "CALL " ++ c.full_method;
    action_id = def.action_id;
    idempotency_key = key_of c.request;
    decision = [];
    policy_id = [];
  }

  unfoldable pub by_mode : Mode → RouteDef → Context → M (World X) Admission
  by_mode mode_authn_only def ctx = pure (record { context = ctx; audited_as = none })
  by_mode mode_public def ctx = pure (record { context = ctx; audited_as = none })
  by_mode mode_authz def ctx = authorize def ctx

  -- The token, for every mode but PUBLIC.
  unfoldable pub authenticate : RouteDef → Text → M (World X) Admission
  authenticate def cid =
      let header = read_incoming c (lit "authorization") in
      attempt (validate_bearer X i.jwt header) >>= λ r.
      or_deny (context_with cid) (lit "authn_failed") not_authenticated r >>= λ claims.
      by_mode def.mode def (authenticated_context def cid header claims)

  abbrev pub unless_public : Mode → RouteDef → Text → M (World X) Admission
  unless_public mode_public def cid =
      pure (record { context = context_with cid; audited_as = none })
  unless_public mode_authn_only def cid = authenticate def cid
  unless_public mode_authz def cid = authenticate def cid

  unfoldable pub admit_route : Option RouteDef → Text → M (World X) Admission
  admit_route none cid = deny (context_with cid) (lit "route_not_registered") refused
  admit_route (some def) cid = unless_public def.mode def cid

  unfoldable pub admit_as : Text → M (World X) Admission
  admit_as cid =
      if is_infra c.full_method
      then pure (record { context = context_with cid; audited_as = none })
      else admit_route (get_route c.full_method) cid

  abbrev pub or_new : Text → M (World X) Text
  or_new [] = new_uuid X >>= λ u. pure (X.uuid_string u)
  or_new (x ∷ s) = pure (x ∷ s)

  -- Up to the call of the handler.
  unfoldable pub admit : M (World X) Admission
  admit = or_new (read_incoming c (lit "x-correlation-id")) >>= admit_as

  abbrev pub outcome_of : {A : Type 0} → Result A → Text
  outcome_of (ok a) = lit "ok"
  outcome_of (err e) = lit "handler_error"

  abbrev pub audit_outcome : {A : Type 0} → Admission → Result A → M (World X) (Unit {0})
  audit_outcome a r = elim (a.audited_as) [
    | none ↦ pure tt
    | some action ↦ best_effort_audit a.context (lit "ALLOW") (outcome_of r)
  ]

  -- The handler, and the audit of its outcome.
  unfoldable pub run_handler : {A : Type 0} → (Context → M (World X) A) → Admission → M (World X) A
  run_handler handler a = attempt (handler a.context) >>= λ r. audit_outcome a r >> from_result r

  -- `Interceptor.Unary`
  unfoldable pub unary : {A : Type 0} → (Context → M (World X) A) → M (World X) A
  unary handler = admit >>= run_handler handler
