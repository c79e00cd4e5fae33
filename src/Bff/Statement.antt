-- ===== src/Bff/Statement.antt =====
-- The statement of an account, as the gateway asks the ledger for it: `StatementStrict` of
-- bff/internal/api/rest/v1/web/feature/accounts/strict.go and the requests that
-- bff/internal/client/grpc/ledgerpayments.go makes of it, which the ledger's validation reads.
use microservice_workspace.Base.{Bool, false, Option, none, some, ltb, if◌then◌else◌}
use microservice_workspace.Base.Text.{Text}
use microservice_workspace.Base.Int.{int32, ℤ, pos, is_nonpos, to_ℕ}
use microservice_workspace.Base.Result.{Result, ok, err}
use microservice_workspace.Domain.{Time}
use microservice_workspace.Validation.Fields.{Timestamp}
use microservice_workspace.Validation.Requests.{ListRequest}

-- The layout RFC3339 of package time, and `timestamppb.New`.
pub record Times : Type 0 where
  pub format_rfc3339 : Time → Text
  pub parse_rfc3339 : Text → Result Time
  pub new_timestamp : Time → Timestamp

pub record StatementParams : Type 0 where
  pub from : Option Time
  pub to : Option Time
  pub page : Option ℤ
  pub size : Option ℤ
  pub include_counterparty : Option Bool

unfoldable pub page_param : Option ℤ → ℤ
page_param none = pos 1
page_param (some p) = if is_nonpos p then pos 1 else int32 p

unfoldable pub size_param : Option ℤ → ℤ
size_param none = pos 20
size_param (some s) = if is_nonpos s then pos 20 else if ltb 200 (to_ℕ s) then pos 200 else int32 s

abbrev pub flag_param : Option Bool → Bool
flag_param none = false
flag_param (some b) = b

module _ (T : Times) where
  abbrev pub formatted : Option Time → Option Text
  formatted none = none
  formatted (some t) = some (T.format_rfc3339 t)

  -- A text that does not parse is left out.
  abbrev pub parsed : Option Text → Option Timestamp
  parsed none = none
  parsed (some s) = elim (T.parse_rfc3339 s) [ ok t ↦ some (T.new_timestamp t) | err e ↦ none ]

  -- `StatementStrict` and `ListAccountStatement`
  unfoldable pub statement_request : Text → StatementParams → ListRequest
  statement_request account p = record {
    account_id = account;
    from = parsed (formatted p.from);
    to = parsed (formatted p.to);
    page = page_param p.page;
    size = size_param p.size;
    include_counterparty = flag_param p.include_counterparty;
  }

-- `ListAccountJournalEntries`
unfoldable pub journal_entries_request : Text → ℤ → ℤ → ListRequest
journal_entries_request account page size = record {
  account_id = account;
  from = none;
  to = none;
  page = page;
  size = size;
  include_counterparty = false;
}
