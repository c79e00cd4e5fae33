-- ===== src/Security/Refusals.antt =====
-- What it takes to reach a handler, and how the checks of the interceptor refuse.
use microservice_workspace.Domain.Remote.{AuditRecord}
use microservice_workspace.Security.Gate.{
  deny, best_effort_audit, or_deny, deny_if, audit_if, audit_of,
}
use microservice_workspace.Security.Call.{
  refused, no_actor, read_incoming, Interceptor, Call, not_authenticated, Admission, Context,
  not_decided, AvpInput, is_infra, AvpResult, decision_allow,
}
use microservice_workspace.Base.{refl, ◌≡◌, ◌⊎◌, inl, Bool, true, false, ◌&&◌, some}
use microservice_workspace.Base.Text.{Text, lit, is_empty, text_eq}
use microservice_workspace.Base.Result.{
  Error, Result, ok, err, M, Post, Post-bind, ◌>>=◌, ◌>>◌, raise,
}
use microservice_workspace.Domain.External.{External}
use microservice_workspace.Store.{World}
use microservice_workspace.Store.Calls.{time_now}
use microservice_workspace.Security.Token.{Claims, IsTrusted, IsBearer}
use microservice_workspace.Base.{[], ◌∷◌}
use microservice_workspace.Security.Routes.{
  RouteDef, mode_public, mode_authn_only, mode_authz, get_route,
}

-- The errors that a caller who is turned away can see.
abbrev pub IsRefusal : Error → Type 0
IsRefusal e = (e ≡ refused) ⊎ ((e ≡ not_authenticated) ⊎ (e ≡ not_decided))

module _ (X : External) (i : Interceptor X) (c : Call) where
  -- The token of the context is the one in the call's header, it was trusted when it was looked at
  -- in `start`, and the actor is the one of its claims.
  pub record HasToken (start : X.Env) (ctx : Context) : Type 0 where
    pub claims : Claims
    pub bearer : IsBearer X i.jwt (read_incoming c (lit "authorization")) ctx.access_token
    pub trusted : IsTrusted X i.jwt ctx.access_token start claims
    pub same_actor : ctx.actor ≡ claims.actor

  -- Where the token is looked at, for a call that arrives with this correlation identifier.
  abbrev pub arrival : Text → X.Env → X.Env
  arrival [] e = (X.new_uuid e).1
  arrival (x ∷ s) e = e

  -- Verified Permissions allowed the action of the route for the token of the caller.
  pub record IsGranted (def : RouteDef) (ctx : Context) : Type 0 where
    pub question : AvpInput
    pub at : X.Env
    pub answer : AvpResult
    pub answered : (i.is_authorized question at).0 ≡ ok answer
    pub allowed : text_eq answer.decision decision_allow ≡ true
    pub same_token : question.access_token ≡ ctx.access_token
    pub same_action : question.action_id ≡ def.action_id

  pub data IsAdmitted (start : X.Env) (ctx : Context) : Type 0 where
    infra : is_infra c.full_method ≡ true → ctx.actor ≡ no_actor → IsAdmitted start ctx
    public :
        (def : RouteDef)
        → get_route c.full_method ≡ some def
        → def.mode ≡ mode_public
        → ctx.actor ≡ no_actor
        → IsAdmitted start ctx
    authenticated :
        (def : RouteDef)
        → get_route c.full_method ≡ some def
        → def.mode ≡ mode_authn_only
        → HasToken start ctx
        → IsAdmitted start ctx
    authorized :
        (def : RouteDef)
        → get_route c.full_method ≡ some def
        → def.mode ≡ mode_authz
        → HasToken start ctx
        → (def.require_customer_link && is_empty ctx.actor.customer_id) ≡ false
        → IsGranted def ctx
        → IsAdmitted start ctx

  abbrev pub Admitted : X.Env → Admission → World X → Type 0
  Admitted start a w = IsAdmitted start a.context

  abbrev pub Admits : X.Env → Result Admission × World X → Type 0
  Admits start r = Post (λ a _. IsAdmitted start a.context) (λ e _. IsRefusal e) r

  module _ {A : Type 0} (Q : A → World X → Type 0) where
    audited-IsRefusal :
        (b : Bool) (a : AuditRecord) (e : Error) (w : World X)
        → IsRefusal e
        → Post Q (λ e _. IsRefusal e) ((audit_if X i c b a >> raise e) w)
    audited-IsRefusal true a e w h = h
    audited-IsRefusal false a e w h = h

    pub deny-IsRefusal :
        (ctx : Context) (outcome : Text) (e : Error) (w : World X)
        → IsRefusal e
        → Post Q (λ e _. IsRefusal e) (deny X i c ctx outcome e w)
    unfolding deny best_effort_audit time_now
    deny-IsRefusal ctx outcome e w h =
        audited-IsRefusal i.has_audit (audit_of X i c ctx (lit "DENY") outcome (X.time_now w.env).0)
          e (record w { env = (X.time_now w.env).1 }) h

  module _ {A : Type 0} (Q : A → World X → Type 0) where
    -- A check that refuses, or hands its value on.
    pub or_deny-Post :
        {B : Type 0} (ctx : Context) (outcome : Text) (e : Error) (r : Result B)
        (k : B → M (World X) A) (w : World X)
        → IsRefusal e
        → ((b : B) → r ≡ ok b → (u : World X) → Post Q (λ e _. IsRefusal e) (k b u))
        → Post Q (λ e _. IsRefusal e) ((or_deny X i c ctx outcome e r >>= k) w)
    or_deny-Post ctx outcome e (ok b) k w h g = g b refl w
    or_deny-Post {B} ctx outcome e (err f) k w h g =
        Post-bind (λ _ _. ⊥) Q (λ e _. IsRefusal e) (deny X i c ctx outcome e) k w
          (deny-IsRefusal {A = B} (λ _ _. ⊥) ctx outcome e w h) (λ b u z. elim z [ ])

    pub deny_if-Post :
        (b : Bool) (ctx : Context) (outcome : Text) (k : M (World X) A) (w : World X)
        → (b ≡ false → (u : World X) → Post Q (λ e _. IsRefusal e) (k u))
        → Post Q (λ e _. IsRefusal e) ((deny_if X i c b ctx outcome >> k) w)
    deny_if-Post true ctx outcome k w g =
        Post-bind (λ _ _. ⊥) Q (λ e _. IsRefusal e) (deny X i c ctx outcome refused) (λ _. k) w
          (deny-IsRefusal {A = Unit {0}} (λ _ _. ⊥) ctx outcome refused w (inl refl))
          (λ b u z. elim z [ ])
    deny_if-Post false ctx outcome k w g = g refl w
