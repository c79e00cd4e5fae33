-- ===== src/Bff/Accounts/Operations.antt =====
-- The operations on accounts and on the profile of a customer:
-- bff/internal/api/rest/v1/web/feature/accounts/strict.go and
-- bff/internal/api/rest/v1/web/feature/profile/strict.go.
use microservice_workspace.Base.{ℕ, Bool, Option, none, some, List, [], ◌∷◌, map, if◌then◌else◌}
use microservice_workspace.Base.Text.{Text, lit, text_eq, is_empty}
use microservice_workspace.Base.Result.{Result, ok, err, M, ◌>>=◌, pure, attempt}
use microservice_workspace.Domain.{Uuid}
use microservice_workspace.Bff.Context.{Context}
use microservice_workspace.Bff.Login.{Reply, answered, refused, error_response}
use microservice_workspace.Bff.Accounts.{
  AccountsService, Wire, Balances, AccountView, AccountLimits, AccountLookupView, CustomerPatch,
  list_accounts, patch_account_limits, get_account_by_number, patch_customer,
}

pub record AccountItem : Type 0 where
  pub id : Text
  pub product_type : Text
  pub currency : Text
  pub status : Text
  pub balances : Balances Text

pub record PatchLimitsRequest : Type 0 where
  pub daily_out : Option Text
  pub daily_in : Option Text

pub record AccountLookupItem : Type 0 where
  pub account_id : Uuid
  pub account_number : Text
  pub display_name : Text
  pub product_type : Text
  pub currency : Text
  pub status : Text

-- `PatchProfileRequest`: a preference is a channel and whether the customer opts in.
pub record PatchProfileRequest : Type 0 where
  pub full_name : Option Text
  pub email : Option Text
  pub phone : Option Text
  pub preferences : Option (List (Text × Bool))

-- `mapPref` of the profile
unfoldable pub channel_of : Text → Text
channel_of s =
    if text_eq s (lit "email")
    then lit "EMAIL"
    else if text_eq s (lit "sms")
    then lit "SMS"
    else if text_eq s (lit "push")
    then lit "PUSH"
    else lit "EMAIL"

-- The first preference, if there is any.
abbrev pub preference_of : Option (List (Text × Bool)) → Option (Text × Bool)
preference_of none = none
preference_of (some []) = none
preference_of (some ((channel, opt_in) ∷ ps)) = some (channel_of channel, opt_in)

module _ (U : AccountsService) where
  abbrev pub Answer : Type 0 → Type 0
  Answer A = M (Wire U) (Reply A)

  abbrev pub refusal : {A : Type 0} → Context → ℕ → Text → Text → Reply A
  refusal ctx status code message =
      refused status (error_response (some ctx.correlation_id) code message)

  abbrev pub no_customer : {A : Type 0} → Context → Reply A
  no_customer ctx = refusal ctx 403 (lit "FORBIDDEN") (lit "missing customer context")

  abbrev pub unavailable : {A : Type 0} → Context → Text → Reply A
  unavailable ctx message = refusal ctx 502 (lit "UPSTREAM_ERROR") message

  abbrev pub balances_of : Option (Balances U.Float) → Balances Text
  balances_of none = record { ledger = lit "0.00"; available = lit "0.00"; hold = lit "0.00" }
  balances_of (some b) = record {
    ledger = U.format_money b.ledger;
    available = U.format_money b.available;
    hold = U.format_money b.hold;
  }

  abbrev pub account_item : AccountView U.Float Text → AccountItem
  account_item a = record {
    id = a.id;
    product_type = a.product_type;
    currency = a.currency;
    status = a.status;
    balances = balances_of a.balances;
  }

  abbrev pub overview_of :
      Context → Result (List (AccountView U.Float Text)) → Reply (List AccountItem)
  overview_of ctx (err e) = unavailable ctx (lit "service unavailable")
  overview_of ctx (ok accounts) = answered 200 (map account_item accounts)

  -- `OverviewStrict`
  unfoldable pub overview : Context → Answer (List AccountItem)
  overview ctx =
      if is_empty ctx.customer
      then pure (no_customer ctx)
      else attempt (list_accounts U ctx ctx.customer) >>= λ r. pure (overview_of ctx r)

  -- `v, err := strconv.ParseFloat(...); if err != nil || v < 0`; `ok none` where nothing is given.
  abbrev pub not_negative : Result U.Float → Option (Option U.Float)
  not_negative (err e) = none
  not_negative (ok v) = if U.is_negative v then none else some (some v)

  unfoldable pub limit_of : Option Text → Option (Option U.Float)
  limit_of none = some none
  limit_of (some s) = not_negative (U.parse_float s)

  abbrev pub limits_of_reply : Context → Result (AccountLimits U.Float) → Reply (AccountLimits Text)
  limits_of_reply ctx (err e) = unavailable ctx (lit "accounts service unavailable")
  limits_of_reply ctx (ok out) = answered 200 (record {
    account_id = out.account_id;
    daily_out = U.format_money out.daily_out;
    daily_in = U.format_money out.daily_in;
  })

  abbrev pub patch_checked :
      Context
      → Text
      → Option (Option U.Float)
      → Option (Option U.Float)
      → Answer (AccountLimits Text)
  patch_checked ctx account none din =
      pure (refusal ctx 400 (lit "BAD_REQUEST") (lit "invalid daily_out value"))
  patch_checked ctx account (some dout) none =
      pure (refusal ctx 400 (lit "BAD_REQUEST") (lit "invalid daily_in value"))
  patch_checked ctx account (some dout) (some din) =
      attempt
        (patch_account_limits U ctx (record { id = account; daily_out = dout; daily_in = din }))
      >>= λ r. pure (limits_of_reply ctx r)

  -- `PatchLimitsStrict`
  unfoldable pub patch_limits : Context → Text → PatchLimitsRequest → Answer (AccountLimits Text)
  patch_limits ctx account body =
      patch_checked ctx account (limit_of body.daily_out) (limit_of body.daily_in)

  abbrev pub lookup_item : AccountLookupView → Uuid → AccountLookupItem
  lookup_item a id = record {
    account_id = id;
    account_number = a.account_number;
    display_name = a.display_name;
    product_type = a.product_type;
    currency = a.currency;
    status = a.status;
  }

  abbrev pub parsed_item : Context → AccountLookupView → Result Uuid → Reply AccountLookupItem
  parsed_item ctx a (err e) = unavailable ctx (lit "invalid account_id format from upstream")
  parsed_item ctx a (ok id) = answered 200 (lookup_item a id)

  abbrev pub looked_up : Context → Result AccountLookupView → Reply AccountLookupItem
  looked_up ctx (err e) = unavailable ctx (lit "accounts service unavailable")
  looked_up ctx (ok a) = parsed_item ctx a (U.uuid_parse a.account_id)

  -- `LookupByNumberStrict`
  unfoldable pub lookup_by_number : Context → Text → Answer AccountLookupItem
  lookup_by_number ctx number =
      if is_empty number
      then pure (refusal ctx 400 (lit "BAD_REQUEST") (lit "missing account_number"))
      else attempt (get_account_by_number U ctx number) >>= λ r. pure (looked_up ctx r)

  abbrev pub profile_patched : Context → Result Text → Reply (Unit {0})
  profile_patched ctx (err e) = unavailable ctx (lit "accounts service unavailable")
  profile_patched ctx (ok id) = answered 200 tt

  abbrev pub customer_patch : Context → PatchProfileRequest → CustomerPatch Text
  customer_patch ctx body = record {
    id = ctx.customer;
    full_name = body.full_name;
    email = body.email;
    phone = body.phone;
    preferences = preference_of body.preferences;
  }

  -- `PatchStrict` of the profile
  unfoldable pub patch_profile : Context → PatchProfileRequest → Answer (Unit {0})
  patch_profile ctx body =
      if is_empty ctx.customer
      then pure (no_customer ctx)
      else attempt (patch_customer U ctx (customer_patch ctx body)) >>= λ r.
          pure (profile_patched ctx r)
