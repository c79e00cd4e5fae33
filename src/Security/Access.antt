-- ===== src/Security/Access.antt =====
-- Which calls reach their handler.
use microservice_workspace.Security.Gate.{
  deny_if, conclude, decided, unless_public, admit_as, decide, authenticate, admit,
  authorize_with_token, admit_route, by_mode, authorize, or_new, avp_input, asked,
  authenticated_context,
}
use microservice_workspace.Security.Call.{
  refused, bearer_value, Interceptor, Call, not_authenticated, Context, not_decided, AvpInput,
  is_infra, AvpResult, decision_allow, context_with, read_incoming,
}
use microservice_workspace.Base.{
  [], ◌∷◌, refl, sym, ◌∙◌, ◌≢◌, ◌≡◌, inl, inr, Bool, true, false, not, ◌&&◌, Option, none, some,
  Bool-cases, if◌then◌else◌, arith, ◌∷◌,
}
use microservice_workspace.Base.Text.{Text, lit, is_empty, text_eq}
use microservice_workspace.Base.Result.{
  Result, ok, err, Post, ◌>>=◌, ◌>>◌, pure, raise_if, plain, Post-ok,
}
use mathlib.Core.Path.{subst}
use microservice_workspace.Domain.External.{External}
use microservice_workspace.Store.{World}
use microservice_workspace.Store.Calls.{new_uuid}
use microservice_workspace.Security.Token.{
  Claims, IsTrusted, IsBearer, HoldsTrusted, validate_bearer, validate_bearer-IsTrusted,
}
use microservice_workspace.Security.Routes.{
  RouteDef, Mode, mode_public, mode_authn_only, mode_authz, get_route, Resolved, resolve,
}
use microservice_workspace.Security.Refusals.{
  IsRefusal, arrival, HasToken, IsAdmitted, infra, public, authenticated, authorized, Admitted,
  Admits, deny-IsRefusal, or_deny-Post, deny_if-Post,
}

module _ (X : External) (i : Interceptor X) (c : Call) (start : X.Env) where
  decided-HasToken :
      (ctx : Context) (d : AvpResult)
      → HasToken X i c start ctx
      → HasToken X i c start (decided X i c ctx d)
  decided-HasToken ctx d t = record {
    claims = t.claims;
    bearer = t.bearer;
    trusted = t.trusted;
    same_actor = t.same_actor;
  }

  conclude-Admits :
      (def : RouteDef) (ctx : Context) (q : AvpInput) (at : X.Env) (d : AvpResult) (w : World X)
      → get_route c.full_method ≡ some def
      → def.mode ≡ mode_authz
      → HasToken X i c start ctx
      → (def.require_customer_link && is_empty ctx.actor.customer_id) ≡ false
      → (i.is_authorized q at).0 ≡ ok d
      → q.access_token ≡ ctx.access_token
      → q.action_id ≡ def.action_id
      → Admits X i c start (conclude X i c def ctx d w)
  unfolding conclude
  conclude-Admits def ctx q at d w route mode token link answered same_token same_action =
      deny_if-Post X i c (Admitted X i c start) (not (text_eq d.decision decision_allow))
        (decided X i c ctx d) (lit "not_authorized")
        (pure (record {
          context = decided X i c ctx d;
          audited_as = if def.critical then some def.action_id else none;
        }))
        w
        λ allow u. authorized def route mode (decided-HasToken ctx d token) link (record {
          question = q;
          at = at;
          answer = d;
          answered = answered;
          allowed = ground arith;
          same_token = same_token;
          same_action = same_action;
        })

  -- An answer came from Verified Permissions.
  authorize_with_token-Post :
      (q : AvpInput) (w : World X)
      → Post
          (λ d _. (at : X.Env) × ((i.is_authorized q at).0 ≡ ok d))
          (λ _ _. Unit)
          (authorize_with_token X i c q w)
  unfolding authorize_with_token
  authorize_with_token-Post q w = go (is_empty i.policy_store_id) (is_empty q.access_token)
    where
      Answered : AvpResult → World X → Type 0
      Answered d _ = (at : X.Env) × ((i.is_authorized q at).0 ≡ ok d)

      asked-Post :
          (r : Result AvpResult) (v : World X)
          → (i.is_authorized q w.env).0 ≡ r
          → Post Answered (λ _ _. Unit) (r, v)
      asked-Post (ok d) v e = (w.env, e)
      asked-Post (err f) v e = tt

      go :
          (a b : Bool)
          → Post Answered
              (λ _ _. Unit)
              ((raise_if a (plain (lit "AVP_POLICY_STORE_ID is empty"))
                  >> (raise_if b (plain (lit "missing access token")) >> asked X i c q))
                w)
      go true b = tt
      go false true = tt
      go false false =
          let (r, env') = i.is_authorized q w.env in asked-Post r (record w { env = env' }) refl

  decide-Admits :
      (def : RouteDef) (ctx : Context) (r : Resolved) (w : World X)
      → get_route c.full_method ≡ some def
      → def.mode ≡ mode_authz
      → HasToken X i c start ctx
      → (def.require_customer_link && is_empty ctx.actor.customer_id) ≡ false
      → Admits X i c start (decide X i c def ctx r w)
  unfolding decide
  decide-Admits def ctx r w route mode token link =
      let q = avp_input X i c def ctx r in
      let (d, v) = authorize_with_token X i c q w in
      or_deny-Post X i c (Admitted X i c start) ctx (lit "avp_error") not_decided d
        (conclude X i c def ctx) v (inr (inr refl))
        λ a e u.
          let (at, answered) =
            Post-ok (λ d. (at : X.Env) × ((i.is_authorized q at).0 ≡ ok d)) (λ _ _. Unit)
              (authorize_with_token X i c q w) a (authorize_with_token-Post q w) e in
          conclude-Admits def ctx q at a u route mode token link answered refl refl

  authorize-Admits :
      (def : RouteDef) (ctx : Context) (w : World X)
      → get_route c.full_method ≡ some def
      → def.mode ≡ mode_authz
      → HasToken X i c start ctx
      → Admits X i c start (authorize X i c def ctx w)
  unfolding authorize
  authorize-Admits def ctx w route mode token =
      let (r, v) = resolve X def.resource_template c.request w in
      or_deny-Post X i c (Admitted X i c start) ctx (lit "resource_resolve_error") refused r
        (λ res.
          deny_if X i c (def.require_customer_link && is_empty ctx.actor.customer_id) ctx
            (lit "customer_link_missing")
          >> decide X i c def ctx res)
        v (inl refl)
        λ res _ u.
          deny_if-Post X i c (Admitted X i c start)
            (def.require_customer_link && is_empty ctx.actor.customer_id) ctx
            (lit "customer_link_missing") (decide X i c def ctx res) u
            λ link u'. decide-Admits def ctx res u' route mode token link

  by_mode-Admits :
      (m : Mode) (def : RouteDef) (ctx : Context) (w : World X)
      → get_route c.full_method ≡ some def
      → def.mode ≡ m
      → HasToken X i c start ctx
      → def.mode ≢ mode_public
      → Admits X i c start (by_mode X i c m def ctx w)
  unfolding by_mode
  by_mode-Admits mode_public def ctx w route mode token private = elim (private mode) [ ]
  by_mode-Admits mode_authn_only def ctx w route mode token private =
      authenticated def route mode token
  by_mode-Admits mode_authz def ctx w route mode token private =
      authorize-Admits def ctx w route mode token

  authenticate-Admits :
      (def : RouteDef) (cid : Text) (w : World X)
      → get_route c.full_method ≡ some def
      → def.mode ≢ mode_public
      → start ≡ w.env
      → Admits X i c start (authenticate X i c def cid w)
  unfolding authenticate
  authenticate-Admits def cid w route private at =
      let header = read_incoming c (lit "authorization") in
      let (r, v) = validate_bearer X i.jwt header w in
      or_deny-Post X i c (Admitted X i c start) (context_with cid) (lit "authn_failed")
        not_authenticated r
        (λ claims. by_mode X i c def.mode def (authenticated_context X i c def cid header claims)) v
        (inr (inl refl))
        λ claims e u.
          by_mode-Admits def.mode def (authenticated_context X i c def cid header claims) u route
            refl (token claims (trusted claims e)) private
    where
      trusted :
          (claims : Claims)
          → (validate_bearer X i.jwt (read_incoming c (lit "authorization")) w).0 ≡ ok claims
          → HoldsTrusted X i.jwt (read_incoming c (lit "authorization")) start claims
      trusted claims e =
          subst (λ s. HoldsTrusted X i.jwt (read_incoming c (lit "authorization")) s claims)
            (sym at)
            (Post-ok
              (λ claims. HoldsTrusted X i.jwt (read_incoming c (lit "authorization")) w.env claims)
              (λ _ _. Unit) (validate_bearer X i.jwt (read_incoming c (lit "authorization")) w)
              claims (validate_bearer-IsTrusted X i.jwt (read_incoming c (lit "authorization")) w)
              e)

      token :
          (claims : Claims)
          → HoldsTrusted X i.jwt (read_incoming c (lit "authorization")) start claims
          → HasToken X i c start
              (authenticated_context X i c def cid (read_incoming c (lit "authorization")) claims)
      token claims (t, b, h) =
          let same : t ≡ bearer_value (read_incoming c (lit "authorization")) =
            b.rest ∙ rw b.prefixed refl in
          record {
            claims = claims;
            bearer = subst (IsBearer X i.jwt (read_incoming c (lit "authorization"))) same b;
            trusted = subst (λ t. IsTrusted X i.jwt t start claims) same h;
            same_actor = refl;
          }

  unless_public-Admits :
      (m : Mode) (def : RouteDef) (cid : Text) (w : World X)
      → get_route c.full_method ≡ some def
      → def.mode ≡ m
      → start ≡ w.env
      → Admits X i c start (unless_public X i c m def cid w)
  unless_public-Admits mode_public def cid w route mode at = public def route mode refl
  unless_public-Admits mode_authn_only def cid w route mode at =
      authenticate-Admits def cid w route
        (λ e. let k : mode_authn_only ≡ mode_public = sym mode ∙ e in cc) at
  unless_public-Admits mode_authz def cid w route mode at =
      authenticate-Admits def cid w route
        (λ e. let k : mode_authz ≡ mode_public = sym mode ∙ e in cc) at

  admit_route-Admits :
      (r : Option RouteDef) (cid : Text) (w : World X)
      → get_route c.full_method ≡ r
      → start ≡ w.env
      → Admits X i c start (admit_route X i c r cid w)
  unfolding admit_route
  admit_route-Admits none cid w e at =
      deny-IsRefusal X i c (Admitted X i c start) (context_with cid) (lit "route_not_registered")
        refused w (inl refl)
  admit_route-Admits (some def) cid w e at = unless_public-Admits def.mode def cid w e refl at

  admit_as-Admits :
      (cid : Text) (w : World X) → start ≡ w.env → Admits X i c start (admit_as X i c cid w)
  unfolding admit_as
  admit_as-Admits cid w at = elim (Bool-cases (is_infra c.full_method)) [
    | inl e ↦ rw e (infra e refl)
    | inr e ↦ rw e (admit_route-Admits (get_route c.full_method) cid w refl at)
  ]

module _ (X : External) (i : Interceptor X) (c : Call) where
  -- A call is let through to its handler only if its method is one of health or reflection, or it
  -- is registered and is public, and then it has no actor; or the token that its header holds after
  -- the word Bearer parses to claims of the validator's issuer and audience that have not expired
  -- by the clock right after, the handler's actor and token are those of that header, and the mode
  -- of the route asks for no more, or in addition Verified Permissions allowed the action of the
  -- route for this very token, and the token names a customer if the route asks for one. Every
  -- other call is refused with one of three errors.
  pub admit-IsAdmitted :
      (w : World X)
      → Post
          (λ a _.
            IsAdmitted X i c
              (arrival X i c (read_incoming c (lit "x-correlation-id")) w.env)
              a.context)
          (λ e _. IsRefusal e)
          (admit X i c w)
  unfolding admit new_uuid
  admit-IsAdmitted w = correlated (read_incoming c (lit "x-correlation-id")) w
    where
      correlated :
          (s : Text) (w : World X)
          → Admits X i c (arrival X i c s w.env) ((or_new X i c s >>= admit_as X i c) w)
      correlated [] w =
          admit_as-Admits X i c (X.new_uuid w.env).1 (X.uuid_string (X.new_uuid w.env).0)
            (record w { env = (X.new_uuid w.env).1 }) refl
      correlated (x ∷ s) w = admit_as-Admits X i c w.env (x ∷ s) w refl
