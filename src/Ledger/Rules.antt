-- ===== src/Ledger/Rules.antt =====
-- micro/ledger/internal/application/service/ledger_rules.go, and the reads and checks that the
-- use cases of credit and payment begin with.
use microservice_workspace.Base.{Option, none, some, List, [], ◌∷◌, ◌++◌, if◌then◌else◌}
use microservice_workspace.Base.Text.{Text, lit, is_empty}
use microservice_workspace.Base.Result.{Error, plain, Result, ok, err, M, ◌>>=◌, pure}
use microservice_workspace.Domain.{IdempotencyRecord, EntryLine, Actor}
use microservice_workspace.Domain.Remote.{ValidateResponse, HoldResponse}
use microservice_workspace.Domain.External.{External}
use microservice_workspace.Store.{World}
use microservice_workspace.Store.Tx.{do_read}
use microservice_workspace.Store.Idempotency.{get}

abbrev pub not_balanced : Error
not_balanced = plain (lit "journal not balanced (debit != credit)")

-- `model.ErrAmountNotExact`
abbrev pub amount_not_exact : Error
amount_not_exact = plain (lit "amount cannot be represented exactly as float64")

-- `initiatedBy`: the token's subject, else what the command says.
abbrev pub initiator : Actor → Text → Text
initiator actor said = if is_empty actor.subject then said else actor.subject

abbrev pub text_or_empty : Option Text → Text
text_or_empty none = []
text_or_empty (some t) = t

-- `vresp != nil && !vresp.Ok`
unfoldable pub accept_accounts : Option ValidateResponse → Result (Unit {0})
accept_accounts none = ok tt
accept_accounts (some v) =
    if v.is_ok
    then ok tt
    else err (plain (lit "accounts validation failed: " ++ text_or_empty v.reason))

-- `rresp != nil && !rresp.Ok`
unfoldable pub accept_hold : Option HoldResponse → Result (Unit {0})
accept_hold none = ok tt
accept_hold (some r) =
    if r.is_ok
    then ok tt
    else err (plain (lit "reserve hold failed status=" ++ text_or_empty r.status))

-- `if rec != nil { cachedJSON = rec.ResponseJSON }`
abbrev pub response_of : Option IdempotencyRecord → Text
response_of none = []
response_of (some r) = r.response_json

module _ (X : External) where
  -- The sums of the loop, debit and credit.
  unfoldable pub totals : X.Decimal → X.Decimal → List (EntryLine X.Decimal) → X.Decimal × X.Decimal
  totals d c [] = (d, c)
  totals d c (l ∷ ls) = totals (X.add d l.debit) (X.add c l.credit) ls

  unfoldable pub ensure_balanced : List (EntryLine X.Decimal) → Result (Unit {0})
  ensure_balanced lines =
      let (d, c) = totals X.decimal_zero X.decimal_zero lines in
      if X.equal d c then ok tt else err not_balanced

  -- The stored response of an idempotency key; the empty text if there is none.
  unfoldable pub cached_json : Text → M (World X) Text
  cached_json key = do_read X do rec ← get X key; pure (response_of rec)
