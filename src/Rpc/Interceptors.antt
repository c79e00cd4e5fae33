-- ===== src/Rpc/Interceptors.antt =====
-- The admission of a call reads from the database at most.
use microservice_workspace.Base.{
  refl, Bool, true, false, Option, none, some, [], ◌∷◌, Bool-cases, inl, inr, find,
}
use microservice_workspace.Base.Text.{Text, lit}
use microservice_workspace.Base.Result.{Error, Result, ok, err, M, pure}
use microservice_workspace.Domain.{Time, Uuid}
use microservice_workspace.Domain.Remote.{AuditRecord}
use microservice_workspace.Domain.External.{External}
use microservice_workspace.Store.{World, PaymentEntity}
use microservice_workspace.Store.Tx.{statement, do_read}
use microservice_workspace.Store.Payments
use microservice_workspace.Security.Token.{
  MapClaims, validate_bearer, validate_token, parse_and_check, check_expiry, parsed,
  claims_or_invalid,
}
use microservice_workspace.Security.Routes.{
  RouteDef, Mode, mode_public, mode_authn_only, mode_authz, Template, Fields, Resolved, resolve,
  lookup_payment_owner, get_route, owner_for,
}
use microservice_workspace.Security.Call.{
  Interceptor, Call, Context, Admission, AvpInput, AvpResult, context_with, is_infra,
}
use microservice_workspace.Security.Gate.{
  audit_if, best_effort_audit, deny, or_deny, deny_if, authorize_with_token, conclude, decide,
  authorize, authenticate, by_mode, unless_public, admit_route, admit_as, or_new, admit, outcome_of,
  audit_outcome,
}
use microservice_workspace.Rpc.Reads.{
  Reads, Reads-bind, Reads-attempt, pure-Reads, raise-Reads, from_result-Reads, query-Reads,
  env-Reads, raise_if-Reads, new_uuid-Reads, time_now-Reads, record_audit-Reads,
}

module _ (X : External) (i : Interceptor X) (c : Call) where
  ruleset reading = (
    Reads-bind, Reads-attempt, pure-Reads, raise-Reads, from_result-Reads, env-Reads,
    raise_if-Reads, new_uuid-Reads, time_now-Reads, record_audit-Reads,
  )

  preloaded-Reads : (found : Option (PaymentEntity X.Decimal)) → Reads (Payments.preloaded X found)
  preloaded-Reads none = raise-Reads _
  preloaded-Reads (some m) =
      Reads-bind (statement X (λ db. ok (tt, db))) (λ _. pure (Payments.to_domain_payment m))
        (query-Reads (λ db. tt)) (λ _. pure-Reads _)

  find_by_id-Reads : (id : Uuid) → Reads (Payments.find_by_id X id)
  unfolding Payments.find_by_id
  find_by_id-Reads id =
      Reads-bind (statement X (λ db. ok (find (Payments.has_id id) db.payments, db)))
        (Payments.preloaded X) (query-Reads (λ db. find (Payments.has_id id) db.payments))
        preloaded-Reads

  owner_for-Reads : (r : Result Uuid) → Reads (owner_for X r)
  unfolding do_read
  owner_for-Reads (err e) = pure-Reads []
  owner_for-Reads (ok id) = search (reading, find_by_id-Reads)

  lookup_payment_owner-Reads : (id : Text) → Reads (lookup_payment_owner X id)
  unfolding lookup_payment_owner
  lookup_payment_owner-Reads id = owner_for-Reads (X.uuid_parse id)

  resolve-Reads : (t : Template) (req : Fields) → Reads (resolve X t req)
  unfolding resolve
  resolve-Reads Template.payment_new req = search reading
  resolve-Reads Template.payment_by_id req = search (reading, lookup_payment_owner-Reads)
  resolve-Reads Template.account_by_id req = search reading
  resolve-Reads Template.account_statement req = search reading
  resolve-Reads Template.account_system_credit req = search reading

  check_expiry-Reads : (exp : Option Time) → Reads (check_expiry X i.jwt exp)
  unfolding check_expiry
  check_expiry-Reads none = search reading
  check_expiry-Reads (some exp) = search reading

  parsed-Reads : (token : Text) → Reads (parsed X i.jwt token)
  parsed-Reads token = record { run = λ w h. (refl, h) }

  claims_or_invalid-Reads : (r : Result MapClaims) → Reads (claims_or_invalid X i.jwt r)
  claims_or_invalid-Reads (ok mc) = search reading
  claims_or_invalid-Reads (err e) = search reading

  parse_and_check-Reads : (token : Text) → Reads (parse_and_check X i.jwt token)
  unfolding parse_and_check
  parse_and_check-Reads token =
      search (reading, parsed-Reads, claims_or_invalid-Reads, check_expiry-Reads) depth 20

  validate_token-Reads : (token : Text) → Reads (validate_token X i.jwt token)
  unfolding validate_token
  validate_token-Reads token = search (reading, parse_and_check-Reads)

  validate_bearer-Reads : (header : Text) → Reads (validate_bearer X i.jwt header)
  unfolding validate_bearer
  validate_bearer-Reads header = search (reading, validate_token-Reads)

  audit_if-Reads : (b : Bool) (a : AuditRecord) → Reads (audit_if X i c b a)
  audit_if-Reads true a = search reading
  audit_if-Reads false a = search reading

  best_effort_audit-Reads :
      (ctx : Context) (decision outcome : Text)
      → Reads (best_effort_audit X i c ctx decision outcome)
  unfolding best_effort_audit
  best_effort_audit-Reads ctx decision outcome = search (reading, audit_if-Reads)

  deny-Reads :
      {A : Type 0} (ctx : Context) (outcome : Text) (e : Error)
      → Reads (deny X i c {A = A} ctx outcome e)
  unfolding deny
  deny-Reads ctx outcome e = search (reading, best_effort_audit-Reads)

  or_deny-Reads :
      {A : Type 0} (ctx : Context) (outcome : Text) (e : Error) (r : Result A)
      → Reads (or_deny X i c ctx outcome e r)
  or_deny-Reads ctx outcome e (ok a) = pure-Reads a
  or_deny-Reads {A = A} ctx outcome e (err f) = deny-Reads {A = A} ctx outcome e

  deny_if-Reads : (b : Bool) (ctx : Context) (outcome : Text) → Reads (deny_if X i c b ctx outcome)
  deny_if-Reads true ctx outcome = deny-Reads ctx outcome _
  deny_if-Reads false ctx outcome = pure-Reads tt

  authorize_with_token-Reads : (q : AvpInput) → Reads (authorize_with_token X i c q)
  unfolding authorize_with_token
  authorize_with_token-Reads q = search reading

  conclude-Reads :
      (def : RouteDef) (ctx : Context) (d : AvpResult) → Reads (conclude X i c def ctx d)
  unfolding conclude
  conclude-Reads def ctx d = search (reading, deny_if-Reads)

  decide-Reads : (def : RouteDef) (ctx : Context) (r : Resolved) → Reads (decide X i c def ctx r)
  unfolding decide
  decide-Reads def ctx r =
      search (reading, authorize_with_token-Reads, or_deny-Reads, conclude-Reads)

  authorize-Reads : (def : RouteDef) (ctx : Context) → Reads (authorize X i c def ctx)
  unfolding authorize
  authorize-Reads def ctx =
      search (reading, resolve-Reads, or_deny-Reads, deny_if-Reads, decide-Reads)

  by_mode-Reads : (m : Mode) (def : RouteDef) (ctx : Context) → Reads (by_mode X i c m def ctx)
  unfolding by_mode
  by_mode-Reads mode_authn_only def ctx = search reading
  by_mode-Reads mode_public def ctx = search reading
  by_mode-Reads mode_authz def ctx = authorize-Reads def ctx

  authenticate-Reads : (def : RouteDef) (cid : Text) → Reads (authenticate X i c def cid)
  unfolding authenticate
  authenticate-Reads def cid = search (reading, validate_bearer-Reads, or_deny-Reads, by_mode-Reads)

  unless_public-Reads :
      (m : Mode) (def : RouteDef) (cid : Text) → Reads (unless_public X i c m def cid)
  unless_public-Reads mode_public def cid = search reading
  unless_public-Reads mode_authn_only def cid = authenticate-Reads def cid
  unless_public-Reads mode_authz def cid = authenticate-Reads def cid

  admit_route-Reads : (r : Option RouteDef) (cid : Text) → Reads (admit_route X i c r cid)
  unfolding admit_route
  admit_route-Reads none cid = deny-Reads (context_with cid) _ _
  admit_route-Reads (some def) cid = unless_public-Reads def.mode def cid

  admit_as-Reads : (cid : Text) → Reads (admit_as X i c cid)
  unfolding admit_as
  admit_as-Reads cid = elim (Bool-cases (is_infra c.full_method)) [
    | inl e ↦ rw e (pure-Reads _)
    | inr e ↦ rw e (admit_route-Reads (get_route c.full_method) cid)
  ]

  pub or_new-Reads : (s : Text) → Reads (or_new X i c s)
  or_new-Reads [] = search reading
  or_new-Reads (x ∷ s) = search reading

  pub admit-Reads : Reads (admit X i c)
  unfolding admit
  admit-Reads = search (reading, or_new-Reads, admit_as-Reads)

  pub audit_outcome-Reads :
      {A : Type 0} (a : Admission) (r : Result A) → Reads (audit_outcome X i c a r)
  audit_outcome-Reads a r = go (a.audited_as)
    where
      go :
          (o : Option Text)
          → Reads (elim o as (λ _. M (World X) (Unit {0})) [
            | none ↦ pure tt
            | some action ↦ best_effort_audit X i c a.context (lit "ALLOW") (outcome_of X i c r)
          ])
      go none = pure-Reads tt
      go (some action) = best_effort_audit-Reads a.context _ _
