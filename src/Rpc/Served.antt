-- ===== src/Rpc/Served.antt =====
-- A call whose handler runs a use case that answers with a pointer: what it leaves when the client
-- is given a response, and when it is given an error.
use microservice_workspace.Base.{◌≡◌, refl, ◌∙◌, Option, none, some}
use microservice_workspace.Base.Text.{Text, lit, trim_space}
use microservice_workspace.Base.Result.{Result, ok, err, M, Post}
use microservice_workspace.Domain.External.{External}
use microservice_workspace.Store.{World, idle}
use microservice_workspace.Ledger.Frame.{At}
use microservice_workspace.Ledger.Certain.{Certain}
use microservice_workspace.Security.Call.{Interceptor, Call, Context, Admission, read_incoming}
use microservice_workspace.Security.Gate.{admit, audit_outcome}
use microservice_workspace.Security.Refusals.{IsAdmitted, IsRefusal, arrival}
use microservice_workspace.Security.Access.{admit-IsAdmitted}
use microservice_workspace.Security.Messages.{respond}
use microservice_workspace.Rpc.Interceptors.{or_new-Reads, admit-Reads, audit_outcome-Reads}
use microservice_workspace.Rpc.{
  handle, or_panic, mapped, audited, guarded, responded, serve, audit_outcome,
  get_or_create_correlation_id,
}

module _ (X : External) (i : Interceptor X) (env : Text) (c : Call) {C R A : Type 0}
    (request : Result C) (use_case : Context → C → M (World X) (Option R)) (to : R → A) where
  -- The world in which the call reaches the interceptor that admits it, from `w` on.
  abbrev pub received : World X → World X
  received w = (get_or_create_correlation_id X i env c w).1

  abbrev pub AdmittedFrom : World X → Context → Type 0
  AdmittedFrom w ctx =
      IsAdmitted X i c (arrival X i c (read_incoming c (lit "x-correlation-id")) (received w).env)
        ctx

  -- A response was sent: the interceptor admitted the call, the request is valid, and the use case,
  -- which ran in the context of this admission and found the tables of `w`, returned the result
  -- that the response shows and left the tables of `v`, in which no transaction is open.
  pub record IsServed (w : World X) (response : A) (v : World X) : Type 0 where
    pub admission : Admission
    pub passed : (admit X i c (received w)).0 ≡ ok admission
    pub admitted : AdmittedFrom w admission.context
    pub cmd : C
    pub valid : request ≡ ok cmd
    pub before : World X
    pub found : before.db ≡ w.db
    pub result : R
    pub after : World X
    pub ran : use_case admission.context cmd before ≡ (ok (some result), after)
    pub shown : response ≡ to result
    pub left : v.db ≡ after.db
    pub closed : v.tx ≡ idle

  -- Whether or not a response is sent: without one, the tables are those of `w`.
  abbrev pub AllOrNothing : World X → Result A × World X → Type 0
  AllOrNothing w r = Post (IsServed w) (λ _ v. (v.db ≡ w.db) × (v.tx ≡ idle)) r

  audit-At :
      (w : World X) (a : Admission) (r : Result A) (v : World X)
      → At w v
      → At w (audit_outcome X i c a r v).1
  audit-At w a r v h = let s = (audit_outcome-Reads X i c a r).run v h.1 in (s.0 ∙ h.0, s.1)

  module _ (w : World X) (a : Admission) (passed : (admit X i c (received w)).0 ≡ ok a)
      (admitted : AdmittedFrom w a.context) where
    ran-AllOrNothing :
        (cmd : C) (u : World X) (p : Result (Option R) × World X)
        → request ≡ ok cmd
        → At w u
        → use_case a.context cmd u ≡ p
        → Post (λ o v. (v.tx ≡ idle) × (o ≡ none → At u v)) (λ _ v. At u v) p
        → AllOrNothing w (responded X i env c (audited X i env c a (mapped X (or_panic X to) p)))
    unfolding respond
    ran-AllOrNothing cmd u (err e, v) q h e' k = audit-At w a (err e) v (k.0 ∙ h.0, k.1)
    ran-AllOrNothing cmd u (ok none, v) q h e k = let n = k.1 refl in (n.0 ∙ h.0, n.1)
    ran-AllOrNothing cmd u (ok (some r), v) q h e k =
        let s = (audit_outcome-Reads X i c a (ok (to r))).run v k.0 in
        record {
          admission = a;
          passed = passed;
          admitted = admitted;
          cmd = cmd;
          valid = q;
          before = u;
          found = h.0;
          result = r;
          after = v;
          ran = e;
          shown = refl;
          left = s.0;
          closed = s.1;
        }

    handled-AllOrNothing :
        ((ctx : Context) (cmd : C) (u : World X) → Certain u (use_case ctx cmd))
        → (q : Result C) (u : World X) → request ≡ q
        → At w u
        → AllOrNothing w (
            responded X i env c
              (audited X i env c a (handle X q (use_case a.context) (or_panic X to) u)))
    unfolding handle respond
    handled-AllOrNothing certain (err e) u q h = audit-At w a (err e) u h
    handled-AllOrNothing certain (ok cmd) u q h =
        ran-AllOrNothing cmd u (use_case a.context cmd u) q h refl
          (certain a.context cmd u u (refl, h.1))

  admitted-AllOrNothing :
      ((ctx : Context) (cmd : C) (u : World X) → Certain u (use_case ctx cmd))
      → (w : World X) (p : Result Admission × World X) → (admit X i c (received w)).0 ≡ p.0
      → At w p.1
      → Post (λ a _. AdmittedFrom w a.context) (λ e _. IsRefusal e) p
      → AllOrNothing w (
          responded X i env c
            (guarded X i env c (λ ctx. handle X request (use_case ctx) (or_panic X to)) p))
  unfolding respond
  admitted-AllOrNothing certain w (err e, v) q h k = h
  admitted-AllOrNothing certain w (ok a, v) q h k =
      handled-AllOrNothing w a q k certain request v refl h

  pub serve-AllOrNothing :
      ((ctx : Context) (cmd : C) (u : World X) → Certain u (use_case ctx cmd))
      → (w : World X) → w.tx ≡ idle
      → AllOrNothing w (serve X i env c (λ ctx. handle X request (use_case ctx) (or_panic X to)) w)
  unfolding serve
  serve-AllOrNothing certain w h =
      let s =
        (or_new-Reads X i c (trim_space (read_incoming c (lit "x-correlation-id")))).run w h in
      let v = (get_or_create_correlation_id X i env c w).1 in
      let t = (admit-Reads X i c).run v s.1 in
      admitted-AllOrNothing certain w (admit X i c v) refl (t.0 ∙ s.0, t.1)
        (admit-IsAdmitted X i c v)
