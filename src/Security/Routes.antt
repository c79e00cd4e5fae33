-- ===== src/Security/Routes.antt =====
-- micro/ledger/internal/infra/security/authz: route_def.go, route_registry.go and
-- resource_templates.go with resource_resolver_reflect.go. A request is the list of its string
-- fields by name, which is what reflection on it finds.
use microservice_workspace.Store.Tx.{do_read}
use microservice_workspace.Domain.{Uuid}
use microservice_workspace.Base.{
  refl, Bool, true, false, Option, none, some, List, [], ◌∷◌, if◌then◌else◌, ◌++◌, ◌≡◌, ℕ,
}
use microservice_workspace.Base.Text.{Text, lit, is_empty, text_eq, to_lower}
use microservice_workspace.Base.Result.{Result, ok, err, M, ◌>>=◌, pure, attempt, Post, Post-bind}
use microservice_workspace.Domain.{Payment}
use microservice_workspace.Domain.External.{External}
use microservice_workspace.Store.{World}
use microservice_workspace.Store.Payments

pub data Mode : Type 0 where
  mode_public mode_authn_only mode_authz : Mode

-- `ResourceTemplate`
pub data Template : Type 0 where
  payment_new payment_by_id account_by_id account_system_credit account_statement : Template

pub record RouteDef : Type 0 where
  pub action_id : Text
  pub critical : Bool
  pub mode : Mode
  pub require_customer_link : Bool
  pub resource_template : Template

abbrev pub route : Text → Bool → Mode → Bool → Template → RouteDef
route action critical mode link template = record {
  action_id = action;
  critical = critical;
  mode = mode;
  require_customer_link = link;
  resource_template = template;
}

-- The names of the methods, after the name of their package.
abbrev pub payments_method : Text → Text
payments_method m = lit "/bank.ledgerpayments.v1.PaymentsService/" ++ m

abbrev pub ledger_method : Text → Text
ledger_method m = lit "/bank.ledgerpayments.v1.LedgerService/" ++ m

unfoldable pub routes : List (Text × RouteDef)
routes =
    (
      payments_method (lit "PostPayment"),
      route (lit "ledger.payments.post") true mode_authz true payment_new,
    )
    ∷ (
      payments_method (lit "GetPayment"),
      route (lit "ledger.payments.get") false mode_authz true payment_by_id,
    )
    ∷ (
      ledger_method (lit "CreditAccount"),
      route (lit "ledger.accounts.credit") true mode_authz true account_by_id,
    )
    ∷ (
      ledger_method (lit "CreditAccountSystem"),
      route (lit "ledger.accounts.credit_system") true mode_public false account_system_credit,
    )
    ∷ (
      ledger_method (lit "ListAccountJournalEntries"),
      route (lit "ledger.journals.list") false mode_authz true account_by_id,
    )
    ∷ (
      ledger_method (lit "ListAccountStatement"),
      route (lit "ledger.statement.list") false mode_authz true account_statement,
    )
    ∷ []

abbrev pub lookup : {A : Type 0} → Text → List (Text × A) → Option A
lookup key [] = none
lookup key ((k, a) ∷ es) = if text_eq k key then some a else lookup key es

-- `Registry.Get`
unfoldable pub get_route : Text → Option RouteDef
get_route full_method = lookup full_method routes

abbrev pub Fields : Type 0
Fields = List (Text × Text)

-- `ExtractStringField`
unfoldable pub extract_string_field : Fields → Text → Text
extract_string_field req field = elim (lookup field req) [ none ↦ [] | some s ↦ s ]

-- A field by its Go name, else by its name in the protobuf file.
abbrev pub either_field : Fields → Text → Text → Text
either_field req a b =
    let s = extract_string_field req a in if is_empty s then extract_string_field req b else s

pub record Resolved : Type 0 where
  pub resource_type : Text
  pub resource_id : Text
  pub context_attrs : List (Text × Text)
  pub owner_customer_id : Text

abbrev pub resolved_as : Text → Text → List (Text × Text) → Text → Resolved
resolved_as type id attrs owner = record {
  resource_type = type;
  resource_id = id;
  context_attrs = attrs;
  owner_customer_id = owner;
}

-- What reflection sees of a field: a `uuid.UUID`, a pointer to one, or something else.
pub data FieldKind : Type 0 where
  uuid_value : ℕ → FieldKind
  uuid_pointer : Option ℕ → FieldKind
  other_kind : FieldKind

module _ (X : External) where
  -- `extractUUIDStringField`: the type of the field must be `uuid.UUID` itself.
  unfoldable pub extract_uuid_string_field : FieldKind → Text
  extract_uuid_string_field (uuid_value ℕ.zero) = []
  extract_uuid_string_field (uuid_value (ℕ.suc n)) = X.uuid_string (ℕ.suc n)
  extract_uuid_string_field (uuid_pointer p) = []
  extract_uuid_string_field other_kind = []

  -- The field `CustomerID *uuid.UUID` of the domain's payment.
  abbrev pub customer_id_field : Payment X.Decimal → FieldKind
  customer_id_field p = uuid_pointer p.customer_id

  -- The owner of a payment that was found, or the error of the query.
  abbrev pub owner_of : Result (Payment X.Decimal) → Text
  owner_of (ok p) = extract_uuid_string_field (customer_id_field p)
  owner_of (err e) = []

  abbrev pub owner_for : Result Uuid → M (World X) Text
  owner_for (err e) = pure []
  owner_for (ok pid) = attempt (do_read X (Payments.find_by_id X pid)) >>= λ r. pure (owner_of r)

  unfoldable pub lookup_payment_owner : Text → M (World X) Text
  lookup_payment_owner payment_id = owner_for (X.uuid_parse payment_id)

  abbrev credit_attrs : Fields → List (Text × Text)
  credit_attrs req =
      (lit "external_ref", either_field req (lit "ExternalRef") (lit "external_ref"))
      ∷ (lit "reason", to_lower (either_field req (lit "Reason") (lit "reason")))
      ∷ (lit "amount", either_field req (lit "Amount") (lit "amount"))
      ∷ []

  -- `Templates.Resolve`
  unfoldable pub resolve : Template → Fields → M (World X) Resolved
  resolve payment_new req = pure (resolved_as (lit "Payment") (lit "new") [] [])
  resolve payment_by_id req = do
    let id = either_field req (lit "PaymentId") (lit "payment_id")
    owner ← lookup_payment_owner id
    pure (resolved_as (lit "Payment") id [] owner)
  resolve account_by_id req =
      pure
        (resolved_as (lit "Account") (either_field req (lit "AccountId") (lit "account_id")) [] [])
  resolve account_statement req =
      pure
        (resolved_as (lit "Account") (either_field req (lit "AccountId") (lit "account_id")) [] [])
  resolve account_system_credit req = pure (
      resolved_as (lit "Account") (either_field req (lit "AccountId") (lit "account_id"))
        (credit_attrs req) [])

  abbrev NoOwner : Resolved → World X → Type 0
  NoOwner r w = r.owner_customer_id ≡ []

  owner_of-nil : (r : Result (Payment X.Decimal)) → owner_of r ≡ []
  unfolding extract_uuid_string_field
  owner_of-nil (ok p) = refl
  owner_of-nil (err e) = refl

  owner_for-nil :
      (r : Result Uuid) (w : World X) → Post (λ t _. t ≡ []) (λ _ _. Unit) (owner_for r w)
  owner_for-nil (err e) w = refl
  owner_for-nil (ok pid) w = owner_of-nil (do_read X (Payments.find_by_id X pid) w).0

  lookup_payment_owner-nil :
      (id : Text) (w : World X) → Post (λ t _. t ≡ []) (λ _ _. Unit) (lookup_payment_owner id w)
  unfolding lookup_payment_owner
  lookup_payment_owner-nil id w = owner_for-nil (X.uuid_parse id) w

  -- Whatever the template, request and tables, no resource that is resolved names its owner: the
  -- owner of a payment stands behind a pointer, which the extraction does not follow.
  pub resolve-owner_customer_id :
      (t : Template) (req : Fields) (w : World X)
      → Post (λ r _. r.owner_customer_id ≡ []) (λ _ _. Unit) (resolve t req w)
  unfolding resolve
  resolve-owner_customer_id payment_new req w = refl
  resolve-owner_customer_id payment_by_id req w =
      let id = either_field req (lit "PaymentId") (lit "payment_id") in
      Post-bind (λ (t : Text) (_ : World X). t ≡ []) NoOwner (λ _ _. Unit) (lookup_payment_owner id)
        (λ owner. pure (resolved_as (lit "Payment") id [] owner)) w (lookup_payment_owner-nil id w)
        (λ t _ h. h)
  resolve-owner_customer_id account_by_id req w = refl
  resolve-owner_customer_id account_statement req w = refl
  resolve-owner_customer_id account_system_credit req w = refl
