-- ===== src/Bff/Shown/Whole.antt =====
-- From the ledger's answers to the web client: the messages are those that the ledger's handlers
-- send, and what is stated is what the client is shown.
use microservice_workspace.Base.{
  ◌≡◌, ◌∙◌, ◌⊎◌, inl, inr, refl, ap, false, Option, none, some, List, [], ◌∷◌, map, if◌then◌else◌,
  ◌-◌, ◌%◌, ◌^◌, All,
}
use microservice_workspace.Base.Text.{Text, is_empty, trim_space}
use microservice_workspace.Base.Result.{Result, ok, err, and_then}
use microservice_workspace.Domain.{Time, Uuid}
use microservice_workspace.Ledger.Views.{StatementItemView, CounterpartyView}
use microservice_workspace.Rpc
use microservice_workspace.Bff.Context.{Context, inject_outgoing}
use microservice_workspace.Bff.Upstream.{rpc}
use microservice_workspace.Bff.Upstream.Laws.{ok-eq}
use microservice_workspace.Bff.Login.{answered}
use microservice_workspace.Bff.Statement.{
  StatementParams, statement_request, page_param, size_param,
}
use microservice_workspace.Bff.Shown.{
  Step, PaymentView, PaymentStatus, Item, ShownItem, ShownCounterparty, shown_counterparty,
  LedgerService, Wire, payment_of, statement_of, text_ptr, step_output, payment_output,
  fetch_payment, shown_steps, status_reply, get_payment_status, item_output, fetch_statement,
  counterparty_id, shown_items, statement_shown, statement_reply, get_account_statement,
}

module _ (U : LedgerService) where
  -- RFC 3339 to the second: what was written can be read.
  pub record ReadableTimes : Type 0 where
    pub parse-format :
        (t : Time) → U.times.parse_rfc3339 (U.times.format_rfc3339 t) ≡ ok (t - t % 10 ^ 9)

  abbrev pub to_second : Time → Time
  to_second t = t - t % 10 ^ 9

  -- The ledger's messages on the wire, where every time is present.
  abbrev pub step_message : Rpc.PaymentStepMessage → Step (Option Time) Text
  step_message s = record {
    step = s.step;
    state = s.state;
    details_json = s.details_json;
    attempted_at = some s.attempted_at;
  }

  abbrev pub payment_message : Rpc.GetPaymentResponse → PaymentView (Option Time)
  payment_message m = record {
    payment_id = m.payment_id;
    status = m.status;
    source_account_id = m.source_account_id;
    destination_account_id = m.destination_account_id;
    currency = m.currency;
    amount = m.amount;
    steps = map step_message m.steps;
    created_at = some m.created_at;
  }

  abbrev pub item_message : StatementItemView → Item (Option Time) Text
  item_message it = record {
    journal_id = it.journal_id;
    booked_at = some it.booked_at;
    currency = it.currency;
    direction = it.direction;
    amount = it.amount;
    kind = it.kind;
    memo = it.memo;
    counterparty_account_id = it.counterparty_account_id;
    counterparty = it.counterparty;
  }

  -- What the web client is shown of them.
  abbrev pub step_shown : Rpc.PaymentStepMessage → Step Time (Option Text)
  step_shown s = record {
    step = s.step;
    state = s.state;
    details_json = if is_empty (trim_space s.details_json) then none else some s.details_json;
    attempted_at = to_second s.attempted_at;
  }

  abbrev pub payment_shown : Rpc.GetPaymentResponse → PaymentStatus
  payment_shown m = record {
    payment_id = m.payment_id;
    status = m.status;
    idempotency_key = [];
    source_account = m.source_account_id;
    destination_account = m.destination_account_id;
    currency = m.currency;
    amount = m.amount;
    steps = map step_shown m.steps;
    created_at = to_second m.created_at;
  }

  abbrev uuid_ptr : Result Uuid → Option Uuid
  uuid_ptr (ok u) = some u
  uuid_ptr (err e) = none

  abbrev pub counterparty_shown : Text → Option Uuid
  counterparty_shown [] = none
  counterparty_shown (c ∷ s) = uuid_ptr (U.uuid_parse (c ∷ s))

  -- Without an identifier the web client is given the zero UUID.
  abbrev view_shown : Option Uuid → Option CounterpartyView → Option ShownCounterparty
  view_shown id none = none
  view_shown none (some c) = some (record {
    account_id = 0;
    account_number = c.account_number;
    display_name = c.display_name;
    account_type = c.account_type;
  })
  view_shown (some u) (some c) = some (record {
    account_id = u;
    account_number = c.account_number;
    display_name = c.display_name;
    account_type = c.account_type;
  })

  view_shown-eq :
      (id : Option Uuid) (c : Option CounterpartyView) → shown_counterparty U id c ≡ view_shown id c
  view_shown-eq none none = refl
  view_shown-eq none (some c) = refl
  view_shown-eq (some u) none = refl
  view_shown-eq (some u) (some c) = refl

  abbrev pub item_shown : StatementItemView → ShownItem
  item_shown it =
      let id = counterparty_shown it.counterparty_account_id in
      record {
        journal_id = it.journal_id;
        booked_at = to_second it.booked_at;
        currency = it.currency;
        direction = it.direction;
        amount = it.amount;
        kind = it.kind;
        memo = if is_empty it.memo then none else some it.memo;
        counterparty_account_id = id;
        counterparty = view_shown id it.counterparty;
      }

  -- The item has no counterparty, or one whose identifier can be read.
  abbrev pub IsReadable : StatementItemView → Type 0
  IsReadable it =
      (it.counterparty_account_id ≡ [])
      ⊎ ((u : Uuid) × (U.uuid_parse it.counterparty_account_id ≡ ok u))

  shown_steps-eq :
      (L : ReadableTimes) (ss : List Rpc.PaymentStepMessage)
      → shown_steps U (map (step_output U) (map step_message ss)) ≡ ok (map step_shown ss)
  unfolding shown_steps and_then
  shown_steps-eq L [] = refl
  shown_steps-eq L (s ∷ ss) = rw (L.parse-format s.attempted_at, shown_steps-eq L ss) refl

  status_reply-eq :
      (L : ReadableTimes) (ctx : Context) (m : Rpc.GetPaymentResponse)
      → status_reply U ctx (ok (payment_output U (payment_message m)))
        ≡ answered 200 (payment_shown m)
  status_reply-eq L ctx m = rw (L.parse-format m.created_at, shown_steps-eq L m.steps) refl

  counterparty_id-eq :
      (s : Text)
      → (s ≡ []) ⊎ ((u : Uuid) × (U.uuid_parse s ≡ ok u))
      → counterparty_id U (text_ptr U s) ≡ ok (counterparty_shown s)
  unfolding counterparty_id and_then
  counterparty_id-eq [] h = refl
  counterparty_id-eq (c ∷ s) (inl h) = cc
  counterparty_id-eq (c ∷ s) (inr (u, h)) = rw h refl

  shown_items-eq :
      (L : ReadableTimes) (its : List StatementItemView)
      → All IsReadable its
      → shown_items U (map (item_output U) (map item_message its)) ≡ inl (map item_shown its)
  unfolding shown_items
  shown_items-eq L [] h = refl
  shown_items-eq L (it ∷ its) h =
      rw
        (
          L.parse-format it.booked_at,
          counterparty_id-eq it.counterparty_account_id h.0,
          ← view_shown-eq (counterparty_shown it.counterparty_account_id) it.counterparty,
          shown_items-eq L its h.1,
        )
        refl

  -- If times are written and read to the second, and the ledger answers with a payment and with a
  -- statement, then a customer is shown that payment, with its fields and steps in their order, its
  -- times to the second and no idempotency key; and that statement, item by item in its order with
  -- times to the second, if the identifier of each counterparty is missing or can be read, together
  -- with the page and size that were asked for.
  pub answers-shown :
      (L : ReadableTimes) (ctx : Context) (id account : Text) (p : StatementParams) (w : Wire U)
      (m : Rpc.GetPaymentResponse) (its : List StatementItemView)
      → is_empty ctx.customer ≡ false
      → (U.get_payment (inject_outgoing ctx) id w.env).0 ≡ ok (payment_message m)
      → (U.list_account_statement
          (inject_outgoing ctx)
          (statement_request U.times account p)
          w.env).0
        ≡ ok (map item_message its)
      → All IsReadable its
      → ((get_payment_status U ctx id w).0 ≡ ok (answered 200 (payment_shown m)))
        × ((get_account_statement U ctx account p w).0
            ≡ ok (
                answered 200 (record {
                  items = map item_shown its;
                  page = page_param p.page;
                  size = size_param p.size;
                })))
  unfolding get_payment_status get_account_statement fetch_payment fetch_statement
  answers-shown L ctx id account p w m its customer paid listed readable =
      let md = inject_outgoing ctx in
      let req = statement_request U.times account p in
      (
        rw customer (
            ok-eq (rpc (payment_of md id) (U.get_payment md id)) (payment_output U)
              (status_reply U ctx) w (payment_message m) paid
            ∙ ap (λ r. ok r) (status_reply-eq L ctx m)),
        ok-eq (rpc (statement_of md req) (U.list_account_statement md req))
              (λ items. map (item_output U) items) (statement_reply U ctx p) w
              (map item_message its) listed
            ∙ ap (λ r. ok (statement_shown U ctx p r)) (shown_items-eq L its readable),
      )
