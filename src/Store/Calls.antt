-- ===== src/Store/Calls.antt =====
-- Calls that leave the process: each is answered by the world outside and logged.
use microservice_workspace.Base.{Option, List, ◌∷◌}
use microservice_workspace.Base.Text.{Text}
use microservice_workspace.Base.Result.{Result, ok, M}
use microservice_workspace.Domain.{Time, Uuid}
use microservice_workspace.Domain.Remote.{
  ValidateRequest, ValidateResponse, HoldRequest, HoldResponse, AccountSummary, AuditRecord, Effect,
  validated, reserved, released, looked_up, audited, published,
}
use microservice_workspace.Domain.External.{External}
use microservice_workspace.Store.{World}

module _ (X : External) where
  unfoldable pub new_uuid : M (World X) Uuid
  new_uuid w = let (u, env') = X.new_uuid w.env in (ok u, record w { env = env' })

  -- `time.Now().UTC()`
  unfoldable pub time_now : M (World X) Time
  time_now w = let (t, env') = X.time_now w.env in (ok t, record w { env = env' })

  -- A call whose answer comes from outside.
  unfoldable pub call : {A : Type 0} → Effect X.Float → (X.Env → Result A × X.Env) → M (World X) A
  call effect answer w =
      let (r, env') = answer w.env in (r, record w { env = env'; log = effect ∷ w.log })

  unfoldable pub validate_accounts : ValidateRequest X.Float → M (World X) (Option ValidateResponse)
  validate_accounts q = call (validated q) (X.validate_accounts q)

  unfoldable pub reserve_hold : HoldRequest X.Float → M (World X) (Option HoldResponse)
  reserve_hold q = call (reserved q) (X.reserve_hold q)

  unfoldable pub release_hold : HoldRequest X.Float → M (World X) (Option HoldResponse)
  release_hold q = call (released q) (X.release_hold q)

  unfoldable pub account_summaries : List Text → M (World X) (Option (List AccountSummary))
  account_summaries q = call (looked_up q) (X.account_summaries q)

  unfoldable pub record_audit : AuditRecord → M (World X) (Unit {0})
  record_audit q = call (audited q) (X.audit_record q)

  unfoldable pub publish : Text → Text → Text → M (World X) (Unit {0})
  publish topic key payload = call (published topic key payload) (X.publish topic key payload)
