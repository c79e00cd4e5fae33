-- ===== src/Bff/Shown.antt =====
-- What the gateway shows of the ledger's answers: `GetPayment` and `ListAccountStatement` of
-- bff/internal/client/grpc/ledgerpayments.go, with the types of
-- bff/internal/client/ports/ledgerpayments.go, `GetPaymentStrict` of
-- bff/internal/api/rest/v1/web/feature/payments/strict.go, and `StatementStrict` of
-- accounts/strict.go beside it.
pub mod Whole
use microservice_workspace.Base.{
  ◌⊎◌, inl, inr, ℕ, Bool, true, false, Option, none, some, List, [], ◌∷◌, map, if◌then◌else◌,
}
use microservice_workspace.Base.Int.{ℤ}
use microservice_workspace.Base.Text.{Text, lit, is_empty, trim_space}
use microservice_workspace.Base.Result.{Result, ok, err, M, ◌>>=◌, pure, attempt, and_then}
use microservice_workspace.Domain.{Time, Uuid}
use microservice_workspace.Ledger.Views.{CounterpartyView}
use microservice_workspace.Validation.Requests.{ListRequest}
use microservice_workspace.Bff.Context.{Context, inject_outgoing}
use microservice_workspace.Bff.Upstream.{Line, rpc}
use microservice_workspace.Bff.Login.{Reply, answered, refused, error_response}
use microservice_workspace.Bff.Statement.{
  Times, StatementParams, statement_request, page_param, size_param,
}

-- A step of a payment, with its time as the message has it, as a text, or as a time.
pub record Step (T D : Type 0) : Type 0 where
  pub step : Text
  pub state : Text
  pub details_json : D
  pub attempted_at : T

-- The message of the ledger, and `GetPaymentOutput`.
pub record PaymentView (T : Type 0) : Type 0 where
  pub payment_id : Text
  pub status : Text
  pub source_account_id : Text
  pub destination_account_id : Text
  pub currency : Text
  pub amount : Text
  pub steps : List (Step T Text)
  pub created_at : T

-- `openapi.GetPaymentResponse`
pub record PaymentStatus : Type 0 where
  pub payment_id : Text
  pub status : Text
  pub idempotency_key : Text
  pub source_account : Text
  pub destination_account : Text
  pub currency : Text
  pub amount : Text
  pub steps : List (Step Time (Option Text))
  pub created_at : Time

-- An item of a statement: the message of the ledger with M as its text fields' type, and
-- `StatementItem` of the port, in which an empty text is absent.
pub record Item (T M : Type 0) : Type 0 where
  pub journal_id : Text
  pub booked_at : T
  pub currency : Text
  pub direction : Text
  pub amount : Text
  pub kind : Text
  pub memo : M
  pub counterparty_account_id : M
  pub counterparty : Option CounterpartyView

-- `openapi.CounterpartyView` and `openapi.StatementItem`
pub record ShownCounterparty : Type 0 where
  pub account_id : Uuid
  pub account_number : Text
  pub display_name : Text
  pub account_type : Text

pub record ShownItem : Type 0 where
  pub journal_id : Text
  pub booked_at : Time
  pub currency : Text
  pub direction : Text
  pub amount : Text
  pub kind : Text
  pub memo : Option Text
  pub counterparty_account_id : Option Uuid
  pub counterparty : Option ShownCounterparty

pub record AccountStatement : Type 0 where
  pub items : List ShownItem
  pub page : ℤ
  pub size : ℤ

-- The ledger as the gateway reaches it, the texts of times, and `uuid.Parse`.
pub record LedgerService : Type 1 where
  pub Env : Type 0
  pub times : Times
  pub uuid_parse : Text → Result Uuid
  pub get_payment : List (Text × Text) → Text → Env → Result (PaymentView (Option Time)) × Env
  pub list_account_statement :
      List (Text × Text) → ListRequest → Env → Result (List (Item (Option Time) Text)) × Env

pub data LedgerCall : Type 0 where
  payment_of : List (Text × Text) → Text → LedgerCall
  statement_of : List (Text × Text) → ListRequest → LedgerCall

module _ (U : LedgerService) where
  abbrev pub Wire : Type 0
  Wire = Line U.Env LedgerCall

  abbrev pub time_text : Option Time → Text
  time_text none = []
  time_text (some t) = U.times.format_rfc3339 t

  abbrev pub text_ptr : Text → Option Text
  text_ptr s = if is_empty s then none else some s

  abbrev pub step_output : Step (Option Time) Text → Step Text Text
  step_output s = record {
    step = s.step;
    state = s.state;
    details_json = s.details_json;
    attempted_at = time_text s.attempted_at;
  }

  -- The idempotency key of the output stays empty.
  abbrev pub payment_output : PaymentView (Option Time) → PaymentView Text
  payment_output res = record {
    payment_id = res.payment_id;
    status = res.status;
    source_account_id = res.source_account_id;
    destination_account_id = res.destination_account_id;
    currency = res.currency;
    amount = res.amount;
    steps = map step_output res.steps;
    created_at = time_text res.created_at;
  }

  -- `LedgerPaymentsClient.GetPayment`
  unfoldable pub fetch_payment : Context → Text → M Wire (PaymentView Text)
  fetch_payment ctx id =
      let md = inject_outgoing ctx in
      rpc (payment_of md id) (U.get_payment md id) >>= λ res. pure (payment_output res)

  abbrev pub shown_step : Step Text Text → Time → Step Time (Option Text)
  shown_step s at = record {
    step = s.step;
    state = s.state;
    details_json = if is_empty (trim_space s.details_json) then none else some s.details_json;
    attempted_at = at;
  }

  -- The first time that does not parse ends the loop.
  unfoldable pub shown_steps : List (Step Text Text) → Result (List (Step Time (Option Text)))
  shown_steps [] = ok []
  shown_steps (s ∷ ss) =
      and_then (U.times.parse_rfc3339 s.attempted_at)
        λ at. and_then (shown_steps ss) λ rest. ok (shown_step s at ∷ rest)

  abbrev pub refusal : {A : Type 0} → Context → ℕ → Text → Text → Reply A
  refusal ctx status code message =
      refused status (error_response (some ctx.correlation_id) code message)

  abbrev pub bad_upstream : {A : Type 0} → Context → Text → Reply A
  bad_upstream ctx message = refusal ctx 502 (lit "UPSTREAM_ERROR") message

  abbrev pub payment_status :
      PaymentView Text → Time → List (Step Time (Option Text)) → PaymentStatus
  payment_status out at steps = record {
    payment_id = out.payment_id;
    status = out.status;
    idempotency_key = [];
    source_account = out.source_account_id;
    destination_account = out.destination_account_id;
    currency = out.currency;
    amount = out.amount;
    steps = steps;
    created_at = at;
  }

  abbrev pub with_steps :
      Context
      → PaymentView Text
      → Time
      → Result (List (Step Time (Option Text)))
      → Reply PaymentStatus
  with_steps ctx out at (err e) = bad_upstream ctx (lit "invalid attempted_at from upstream")
  with_steps ctx out at (ok steps) = answered 200 (payment_status out at steps)

  abbrev pub with_created : Context → PaymentView Text → Result Time → Reply PaymentStatus
  with_created ctx out (err e) = bad_upstream ctx (lit "invalid created_at from upstream")
  with_created ctx out (ok at) = with_steps ctx out at (shown_steps out.steps)

  abbrev pub status_reply : Context → Result (PaymentView Text) → Reply PaymentStatus
  status_reply ctx (err e) = bad_upstream ctx (lit "ledgerpayments service unavailable")
  status_reply ctx (ok out) = with_created ctx out (U.times.parse_rfc3339 out.created_at)

  -- `GetPaymentStrict`
  unfoldable pub get_payment_status : Context → Text → M Wire (Reply PaymentStatus)
  get_payment_status ctx id =
      if is_empty ctx.customer
      then pure (refusal ctx 403 (lit "FORBIDDEN") (lit "missing customer context"))
      else attempt (fetch_payment ctx id) >>= λ out. pure (status_reply ctx out)

  abbrev pub item_output : Item (Option Time) Text → Item Text (Option Text)
  item_output it = record {
    journal_id = it.journal_id;
    booked_at = time_text it.booked_at;
    currency = it.currency;
    direction = it.direction;
    amount = it.amount;
    kind = it.kind;
    memo = text_ptr it.memo;
    counterparty_account_id = text_ptr it.counterparty_account_id;
    counterparty = it.counterparty;
  }

  -- `LedgerPaymentsClient.ListAccountStatement`; page and size of the answer are not used.
  unfoldable pub fetch_statement : Context → ListRequest → M Wire (List (Item Text (Option Text)))
  fetch_statement ctx req =
      let md = inject_outgoing ctx in
      rpc (statement_of md req) (U.list_account_statement md req) >>= λ items.
      pure (map item_output items)

  abbrev pub zero_or : Option Uuid → Uuid
  zero_or none = 0
  zero_or (some u) = u

  abbrev pub shown_counterparty : Option Uuid → Option CounterpartyView → Option ShownCounterparty
  shown_counterparty id none = none
  shown_counterparty id (some cp) = some (record {
    account_id = zero_or id;
    account_number = cp.account_number;
    display_name = cp.display_name;
    account_type = cp.account_type;
  })

  abbrev pub shown_item : {T M : Type 0} → Item T M → Option Text → Time → Option Uuid → ShownItem
  shown_item it memo at id = record {
    journal_id = it.journal_id;
    booked_at = at;
    currency = it.currency;
    direction = it.direction;
    amount = it.amount;
    kind = it.kind;
    memo = memo;
    counterparty_account_id = id;
    counterparty = shown_counterparty id it.counterparty;
  }

  -- `it.CounterpartyAccountID != nil && *it.CounterpartyAccountID != ""`
  unfoldable pub counterparty_id : Option Text → Result (Option Uuid)
  counterparty_id none = ok none
  counterparty_id (some []) = ok none
  counterparty_id (some (c ∷ s)) = and_then (U.uuid_parse (c ∷ s)) (λ u. ok (some u))

  -- What ends the loop is the message of the refusal.
  abbrev pub one_item :
      Item Text (Option Text) → Result (Option Uuid) → Result Time → ShownItem ⊎ Text
  one_item it id (err e) = inr (lit "invalid booked_at from upstream")
  one_item it (err e) (ok at) = inr (lit "invalid counterparty_account_id from upstream")
  one_item it (ok id) (ok at) = inl (shown_item it it.memo at id)

  abbrev pub next_item : ShownItem ⊎ Text → List ShownItem ⊎ Text → List ShownItem ⊎ Text
  next_item (inr message) rest = inr message
  next_item (inl it) (inr message) = inr message
  next_item (inl it) (inl its) = inl (it ∷ its)

  unfoldable pub shown_items : List (Item Text (Option Text)) → List ShownItem ⊎ Text
  shown_items [] = inl []
  shown_items (it ∷ its) =
      next_item
        (one_item it (counterparty_id it.counterparty_account_id)
          (U.times.parse_rfc3339 it.booked_at))
        (shown_items its)

  abbrev pub statement_shown :
      Context → StatementParams → List ShownItem ⊎ Text → Reply AccountStatement
  statement_shown ctx p (inr message) = bad_upstream ctx message
  statement_shown ctx p (inl its) =
      answered 200 (record { items = its; page = page_param p.page; size = size_param p.size })

  abbrev pub statement_reply :
      Context → StatementParams → Result (List (Item Text (Option Text))) → Reply AccountStatement
  statement_reply ctx p (err e) = bad_upstream ctx (lit "ledgerpayments service unavailable")
  statement_reply ctx p (ok items) = statement_shown ctx p (shown_items items)

  -- `StatementStrict`
  unfoldable pub get_account_statement :
      Context → Text → StatementParams → M Wire (Reply AccountStatement)
  get_account_statement ctx account p =
      attempt (fetch_statement ctx (statement_request U.times account p)) >>= λ r.
      pure (statement_reply ctx p r)
