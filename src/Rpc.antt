-- ===== src/Rpc.antt =====
-- The calls of the ledger as a client sees them: the handlers ledger_handler.go and
-- payment_handler.go of micro/ledger/internal/infra/in/grpc/handler, the mapper mapper.go beside
-- them, and the chain of interceptors that micro/ledger/cmd/ledger/main.go sets up.
pub mod Reads
pub mod Interceptors
pub mod Whole
pub mod Served
use microservice_workspace.Base.{
  ℕ, Bool, true, false, ◌+◌, ◌-◌, ◌*◌, ◌%◌, ◌^◌, Option, none, some, List, [], ◌∷◌, map, ltb,
  if◌then◌else◌,
}
use microservice_workspace.Base.Int.{int32, ℤ, pos, negsuc}
use microservice_workspace.Base.Text.{trim_space, Text, lit}
use microservice_workspace.Base.Result.{Error, Result, ok, err, M}
use microservice_workspace.Domain.{Time, Uuid, CreditAccountResult, PostPaymentResult}
use microservice_workspace.Domain.External.{External}
use microservice_workspace.Store.{World}
use microservice_workspace.Ledger.Credit.{credit_account, credit_account_system}
use microservice_workspace.Ledger.Payment.{post_payment}
use microservice_workspace.Ledger.Views.{
  GetPaymentResult, PaymentStepView, JournalEntryView, JournalLineView, StatementItemView,
  EntriesQuery, StatementQuery,
}
use microservice_workspace.Ledger.Query.{
  get_payment, list_account_journal_entries, list_account_statement,
}
use microservice_workspace.Security.Call.{Interceptor, Call, Context, Admission, read_incoming}
use microservice_workspace.Security.Gate.{admit, audit_outcome, or_new}
use microservice_workspace.Security.Messages.{Outcome, returned, failed, panicked, respond}
use microservice_workspace.Validation.Requests.{
  CreditAccountRequest, CreditAccountSystemRequest, PostPaymentRequest, ListRequest, ListQuery,
  to_credit_account_command, to_credit_account_system_command, to_post_payment_command,
  to_get_payment_uuid, to_list_account_journal_entries_query, to_list_account_statement_query,
}

-- The messages that are sent back.
pub record PostPaymentResponse : Type 0 where
  pub payment_id : Text
  pub status : Text

pub record PaymentStepMessage : Type 0 where
  pub step : Text
  pub state : Text
  pub details_json : Text
  pub attempted_at : Time

pub record GetPaymentResponse : Type 0 where
  pub payment_id : Text
  pub status : Text
  pub source_account_id : Text
  pub destination_account_id : Text
  pub currency : Text
  pub amount : Text
  pub created_at : Time
  pub steps : List PaymentStepMessage

-- Of `CreditAccount` and of `CreditAccountSystem`.
pub record CreditAccountResponse : Type 0 where
  pub journal_id : Text
  pub status : Text

pub record JournalEntryMessage : Type 0 where
  pub journal_id : Text
  pub currency : Text
  pub status : Text
  pub booked_at : Time
  pub external_ref : Text
  pub lines : List JournalLineView

-- A list with its page and size.
pub record Listed (A : Type 0) : Type 0 where
  pub items : List A
  pub page : ℤ
  pub size : ℤ

module _ (X : External) where
  -- `t, _ := time.Parse(time.RFC3339Nano, s)`
  abbrev pub parsed_time : Text → Time
  parsed_time s = elim (X.time_parse s) [ ok t ↦ t | err e ↦ 0 ]

  -- The mappers read fields of a result behind a pointer, and so panic on nil.
  abbrev pub or_panic : {R A : Type 0} → (R → A) → Option R → Outcome A
  or_panic f none = panicked
  or_panic f (some res) = returned (f res)

  unfoldable pub to_post_payment_response : PostPaymentResult → PostPaymentResponse
  to_post_payment_response res = record {
    payment_id = X.uuid_string res.payment_id;
    status = res.status;
  }

  abbrev pub to_step : PaymentStepView → PaymentStepMessage
  to_step s = record {
    step = s.step;
    state = s.state;
    details_json = s.details_json;
    attempted_at = parsed_time s.attempted_at;
  }

  unfoldable pub to_get_payment_response : GetPaymentResult → Outcome GetPaymentResponse
  to_get_payment_response res = returned (record {
    payment_id = X.uuid_string res.payment_id;
    status = res.status;
    source_account_id = X.uuid_string res.source_account_id;
    destination_account_id = X.uuid_string res.dest_account_id;
    currency = res.currency;
    amount = res.amount;
    created_at = parsed_time res.created_at;
    steps = map to_step res.steps;
  })

  -- `ToCreditAccountResponse`, and `ToCreditAccountSystemResponse`, which does the same.
  unfoldable pub to_credit_account_response : CreditAccountResult → CreditAccountResponse
  to_credit_account_response res = record {
    journal_id = X.uuid_string res.journal_id;
    status = res.status;
  }

  abbrev pub to_entry : JournalEntryView → JournalEntryMessage
  to_entry e = record {
    journal_id = e.journal_id;
    currency = e.currency;
    status = e.status;
    booked_at = parsed_time e.booked_at;
    external_ref = e.external_ref;
    lines = e.lines;
  }

  unfoldable pub to_list_account_journal_entries_response :
      List JournalEntryView × ℤ × ℤ → Outcome (Listed JournalEntryMessage)
  to_list_account_journal_entries_response (entries, page, size) =
      returned (record { items = map to_entry entries; page = int32 page; size = int32 size })

  unfoldable pub to_list_account_statement_response :
      List StatementItemView × ℤ × ℤ → Outcome (Listed StatementItemView)
  to_list_account_statement_response (items, page, size) =
      returned (record { items = items; page = int32 page; size = int32 size })

  -- The queries of the application, with the texts that the times have in the first of them.
  abbrev pub entries_query : ListQuery → EntriesQuery
  entries_query q = record {
    account_id = q.account_id;
    from = X.time_format q.from;
    to = X.time_format q.to;
    page = pos q.page;
    size = pos q.size;
  }

  abbrev pub statement_query : ListQuery → StatementQuery
  statement_query q = record {
    account_id = q.account_id;
    from = q.from;
    to = q.to;
    page = pos q.page;
    size = pos q.size;
    include_counterparty = q.include_counterparty;
  }

  -- What every handler does: the request is validated, the use case runs, its result is mapped.
  abbrev pub mapped : {R A : Type 0} → (R → Outcome A) → Result R × World X → Outcome A × World X
  mapped to (ok r, w) = (to r, w)
  mapped to (err e, w) = (failed e, w)

  unfoldable pub handle :
      {C R A : Type 0}
      → Result C
      → (C → M (World X) R)
      → (R → Outcome A)
      → World X
      → Outcome A × World X
  handle (err e) use_case to w = (failed e, w)
  handle (ok cmd) use_case to w = mapped to (use_case cmd w)

  abbrev pub Handler : Type 0 → Type 0
  Handler A = Context → World X → Outcome A × World X

  abbrev pub post_payment_handler : Option PostPaymentRequest → Handler PostPaymentResponse
  post_payment_handler req ctx =
      handle (to_post_payment_command X req) (post_payment X ctx.actor)
        (or_panic to_post_payment_response)

  abbrev pub get_payment_handler : Option Text → Handler GetPaymentResponse
  get_payment_handler req ctx =
      handle (to_get_payment_uuid X req) (get_payment X) to_get_payment_response

  abbrev pub credit_account_handler : Option CreditAccountRequest → Handler CreditAccountResponse
  credit_account_handler req ctx =
      handle (to_credit_account_command X req) (credit_account X ctx.actor)
        (or_panic to_credit_account_response)

  abbrev pub credit_account_system_handler :
      Option CreditAccountSystemRequest → Handler CreditAccountResponse
  credit_account_system_handler req ctx =
      handle (to_credit_account_system_command X req) (credit_account_system X)
        (or_panic to_credit_account_response)

  abbrev pub list_account_journal_entries_handler :
      Option ListRequest → Handler (Listed JournalEntryMessage)
  list_account_journal_entries_handler req ctx =
      handle (to_list_account_journal_entries_query X req)
        (λ q. list_account_journal_entries X (entries_query q))
        to_list_account_journal_entries_response

  abbrev pub list_account_statement_handler :
      Option ListRequest → Handler (Listed StatementItemView)
  list_account_statement_handler req ctx =
      handle (to_list_account_statement_query X req)
        (λ q. list_account_statement X (statement_query q)) to_list_account_statement_response

  module _ (i : Interceptor X) (env : Text) (c : Call) where
    -- The handler's outcome is audited, unless it panics.
    abbrev pub audited : {A : Type 0} → Admission → Outcome A × World X → Outcome A × World X
    audited a (returned r, w) = (returned r, (audit_outcome X i c a (ok r) w).1)
    audited {A} a (failed e, w) = (failed e, (audit_outcome X i c {A = A} a (err e) w).1)
    audited a (panicked, w) = (panicked, w)

    -- `Interceptor.Unary` around a handler that may panic.
    abbrev pub guarded : {A : Type 0} → Handler A → Result Admission × World X → Outcome A × World X
    guarded h (ok a, w) = audited a (h a.context w)
    guarded h (err e, w) = (failed e, w)

    abbrev pub responded : {A : Type 0} → Outcome A × World X → Result A × World X
    responded (o, w) = (respond env o, w)

    -- `getOrCreateCorrelationID`
    abbrev pub get_or_create_correlation_id : M (World X) Text
    get_or_create_correlation_id =
        or_new X i c (trim_space (read_incoming c (lit "x-correlation-id")))

    -- One call: the error interceptor, which may draw an identifier of its own, around the
    -- authorization interceptor around the handler.
    unfoldable pub serve : {A : Type 0} → Handler A → M (World X) A
    serve h w =
        let (cid, v) = get_or_create_correlation_id w in responded (guarded h (admit X i c v))
