-- ===== src/Ledger/Views.antt =====
-- What the reads take and return, and what of it needs no call:
-- micro/ledger/internal/domain/port/in and ledger_service.go of
-- micro/ledger/internal/application/service.
use microservice_workspace.Base.{Bool, ◌||◌, Option, none, some, List, [], ◌∷◌, any, if◌then◌else◌}
use microservice_workspace.Base.Int.{ℤ, positive_or}
use microservice_workspace.Base.Text.{Text, lit, is_empty, text_eq, has_prefix, contains}
use microservice_workspace.Domain.{Time, Uuid}
use microservice_workspace.Domain.Remote.{AccountSummary}

pub record PaymentStepView : Type 0 where
  pub step : Text
  pub state : Text
  pub details_json : Text
  pub attempted_at : Text

pub record GetPaymentResult : Type 0 where
  pub payment_id : Uuid
  pub status : Text
  pub idempotency_key : Text
  pub source_account_id : Uuid
  pub dest_account_id : Uuid
  pub currency : Text
  pub amount : Text
  pub created_at : Text
  pub steps : List PaymentStepView

pub record JournalLineView : Type 0 where
  pub gl_account_code : Text
  pub counterparty_ref : Text
  pub debit : Text
  pub credit : Text

pub record JournalEntryView : Type 0 where
  pub journal_id : Text
  pub currency : Text
  pub status : Text
  pub booked_at : Text
  pub external_ref : Text
  pub lines : List JournalLineView

-- `in.ListAccountJournalEntriesQuery`: times as texts, empty where absent.
pub record EntriesQuery : Type 0 where
  pub account_id : Uuid
  pub from : Text
  pub to : Text
  pub page : ℤ
  pub size : ℤ

pub record StatementQuery : Type 0 where
  pub account_id : Uuid
  pub from : Time
  pub to : Time
  pub page : ℤ
  pub size : ℤ
  pub include_counterparty : Bool

pub record CounterpartyView : Type 0 where
  pub account_id : Text
  pub account_number : Text
  pub display_name : Text
  pub account_type : Text

pub record StatementItemView : Type 0 where
  pub journal_id : Text
  pub booked_at : Time
  pub currency : Text
  pub direction : Text
  pub amount : Text
  pub kind : Text
  pub memo : Text
  pub counterparty_account_id : Text
  pub counterparty : Option CounterpartyView

abbrev pub text_of : Option Text → Text
text_of none = []
text_of (some t) = t

-- `if page <= 0 { page = 1 }`, `if size <= 0 { size = 20 }`
abbrev pub page_of : ℤ → ℤ
page_of z = ℤ.pos (positive_or z 1)

abbrev pub size_of : ℤ → ℤ
size_of z = ℤ.pos (positive_or z 20)

unfoldable pub kind_of : Text → Text
kind_of memo =
    if has_prefix memo (lit "payment:")
    then lit "transfer"
    else (if has_prefix memo (lit "bonus:") || contains memo (lit "registration_bonus")
        then lit "bonus"
        else lit "other")

abbrev pub counterparty_view : AccountSummary → CounterpartyView
counterparty_view a = record {
  account_id = a.account_id;
  account_number = a.account_number;
  display_name = a.display_name;
  account_type = a.product_type;
}

-- `lookup[a.AccountId] = ...` in the order of the response: the last one of an identifier counts.
unfoldable pub lookup_summary : Text → List AccountSummary → Option CounterpartyView
lookup_summary id [] = none
lookup_summary id (a ∷ as') = elim (lookup_summary id as') [
  | some v ↦ some v
  | none ↦ (if text_eq a.account_id id then some (counterparty_view a) else none)
]

abbrev pub enriched : List AccountSummary → StatementItemView → StatementItemView
enriched found it =
    if is_empty it.counterparty_account_id
    then it
    else record it { counterparty = lookup_summary it.counterparty_account_id found }

-- The keys of `counterpartyIDsSet`. Go leaves their order open; here it is that of the items.
unfoldable pub counterparties : List StatementItemView → List Text
counterparties [] = []
counterparties (it ∷ its) =
    let ids = counterparties its in
    if is_empty it.counterparty_account_id || any (text_eq it.counterparty_account_id) ids
    then ids
    else it.counterparty_account_id ∷ ids
