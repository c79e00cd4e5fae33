-- ===== src/Bff/Accounts.antt =====
-- The gateway's client of the accounts service, bff/internal/client/grpc/accounts.go, with the
-- types of bff/internal/client/ports/accounts.go: the calls that its operations make.
pub mod Operations
pub mod Asked
use microservice_workspace.Base.{Bool, Option, none, some, List, [], ◌∷◌, map, if◌then◌else◌}
use microservice_workspace.Base.Int.{ℤ}
use microservice_workspace.Base.Text.{Text, lit, text_eq}
use microservice_workspace.Base.Result.{Result, M, ◌>>=◌, pure}
use microservice_workspace.Domain.{Time, Uuid}
use microservice_workspace.Bff.Context.{Context, inject_outgoing}
use microservice_workspace.Bff.Upstream.{Line, rpc}

pub record Balances (F : Type 0) : Type 0 where
  pub ledger : F
  pub available : F
  pub hold : F

-- `Account` of the service and `AccountView` of the port: times as times, and as texts.
pub record AccountView (F T : Type 0) : Type 0 where
  pub id : Text
  pub customer_id : Text
  pub account_number : Text
  pub product_type : Text
  pub currency : Text
  pub status : Text
  pub opened_at : T
  pub updated_at : T
  pub balances : Option (Balances F)

pub record LimitsPatch (F : Type 0) : Type 0 where
  pub id : Text
  pub daily_out : Option F
  pub daily_in : Option F

pub record AccountLimits (F : Type 0) : Type 0 where
  pub account_id : Text
  pub daily_out : F
  pub daily_in : F

pub record AccountLookupView : Type 0 where
  pub account_id : Text
  pub account_number : Text
  pub display_name : Text
  pub product_type : Text
  pub currency : Text
  pub status : Text

-- The constants of `PreferenceChannel`, and the enumeration of the service.
pub data PreferenceChannel : Type 0 where
  email sms push : PreferenceChannel
  other_channel : ℤ → PreferenceChannel

unfoldable pub map_pref : Text → PreferenceChannel
map_pref p =
    if text_eq p (lit "EMAIL")
    then email
    else if text_eq p (lit "SMS")
    then sms
    else if text_eq p (lit "PUSH")
    then push
    else other_channel (ℤ.pos 0)

-- `PatchCustomerInput` and its request, by the type of channels; the operations set neither risk
-- segment nor status.
pub record CustomerPatch (C : Type 0) : Type 0 where
  pub id : Text
  pub full_name : Option Text
  pub email : Option Text
  pub phone : Option Text
  pub preferences : Option (C × Bool)

-- The service. The product type of a found account is `ProductType.String()`.
pub record AccountsService : Type 1 where
  pub Env : Type 0
  pub Float : Type 0
  pub parse_float : Text → Result Float
  pub is_negative : Float → Bool
  pub format_money : Float → Text
  pub uuid_parse : Text → Result Uuid
  pub time_format : Time → Text
  pub list_accounts :
      List (Text × Text) → Text → Env → Result (List (AccountView Float (Option Time))) × Env
  pub patch_account_limits :
      List (Text × Text) → LimitsPatch Float → Env → Result (AccountLimits Float) × Env
  pub get_account_by_number :
      List (Text × Text) → Text → Env → Result (Option AccountLookupView) × Env
  pub patch_customer :
      List (Text × Text) → CustomerPatch PreferenceChannel → Env → Result Text × Env

pub data AccountsCall (F : Type 0) : Type 0 where
  list_of : List (Text × Text) → Text → AccountsCall F
  limits_of : List (Text × Text) → LimitsPatch F → AccountsCall F
  lookup_of : List (Text × Text) → Text → AccountsCall F
  patch_of : List (Text × Text) → CustomerPatch PreferenceChannel → AccountsCall F

module _ (U : AccountsService) where
  abbrev pub Wire : Type 0
  Wire = Line U.Env (AccountsCall U.Float)

  abbrev pub formatted : Option Time → Text
  formatted none = []
  formatted (some t) = U.time_format t

  abbrev pub account_view : AccountView U.Float (Option Time) → AccountView U.Float Text
  account_view a = record {
    id = a.id;
    customer_id = a.customer_id;
    account_number = a.account_number;
    product_type = a.product_type;
    currency = a.currency;
    status = a.status;
    opened_at = formatted a.opened_at;
    updated_at = formatted a.updated_at;
    balances = a.balances;
  }

  unfoldable pub list_accounts : Context → Text → M Wire (List (AccountView U.Float Text))
  list_accounts ctx customer_id =
      let md = inject_outgoing ctx in
      rpc (list_of md customer_id) (U.list_accounts md customer_id) >>= λ accounts.
      pure (map account_view accounts)

  unfoldable pub patch_account_limits :
      Context → LimitsPatch U.Float → M Wire (AccountLimits U.Float)
  patch_account_limits ctx patch =
      let md = inject_outgoing ctx in rpc (limits_of md patch) (U.patch_account_limits md patch)

  unfoldable pub product_type_of : Text → Text
  product_type_of pt =
      if text_eq pt (lit "PRODUCT_TYPE_CHECKING")
      then lit "CHECKING"
      else if text_eq pt (lit "PRODUCT_TYPE_SAVINGS")
      then lit "SAVINGS"
      else pt

  abbrev pub no_account : AccountLookupView
  no_account = record {
    account_id = [];
    account_number = [];
    display_name = [];
    product_type = [];
    currency = [];
    status = [];
  }

  -- `if res.Account == nil { return ports.GetAccountByNumberOutput{}, err }`, where `err` is nil.
  abbrev pub lookup_view : Option AccountLookupView → AccountLookupView
  lookup_view none = no_account
  lookup_view (some a) = record a { product_type = product_type_of a.product_type }

  unfoldable pub get_account_by_number : Context → Text → M Wire AccountLookupView
  get_account_by_number ctx number =
      let md = inject_outgoing ctx in
      rpc (lookup_of md number) (U.get_account_by_number md number) >>= λ account.
      pure (lookup_view account)

  abbrev pub mapped_preferences : Option (Text × Bool) → Option (PreferenceChannel × Bool)
  mapped_preferences none = none
  mapped_preferences (some (channel, opt_in)) = some (map_pref channel, opt_in)

  abbrev pub customer_request : CustomerPatch Text → CustomerPatch PreferenceChannel
  customer_request input = record {
    id = input.id;
    full_name = input.full_name;
    email = input.email;
    phone = input.phone;
    preferences = mapped_preferences input.preferences;
  }

  -- The answer is the customer's identifier.
  unfoldable pub patch_customer : Context → CustomerPatch Text → M Wire Text
  patch_customer ctx input =
      let md = inject_outgoing ctx in
      let req = customer_request input in rpc (patch_of md req) (U.patch_customer md req)
