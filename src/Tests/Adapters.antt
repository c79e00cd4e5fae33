-- ===== src/Tests/Adapters.antt =====
-- The theorems of validation, security and delivery at concrete requests, calls and tables.
use microservice_workspace.Delivery.Drain.{start-drains}
use microservice_workspace.Delivery.Rows.{pending}
use microservice_workspace.Delivery.Reliable.{IsReliable}
use microservice_workspace.Store.Outbox.Order.{IsOldest, next_ids-IsOldest}
use microservice_workspace.Security.Gate.{admit}
use microservice_workspace.Store.Outbox.Claims.{marked-NoneClaimable, NoneClaimable}
use microservice_workspace.Validation.Fields.{Timestamp}
use microservice_workspace.Delivery.Prefix.{IsPrefix, publish_all-IsPrefix}
use microservice_workspace.Store.Outbox.{event_row, next_ids, claim_ttl, claim_rows, mark_published}
use microservice_workspace.Security.Routes.{resolve, Template, resolve-owner_customer_id}
use microservice_workspace.Validation.Bounds.{IsWindow, to_list_query-IsWindow}
use microservice_workspace.Security.Messages.{
  is_local, Outcome, Discreet, respond, respond-Discreet,
}
use microservice_workspace.Validation.Requests.{
  PostPaymentRequest, CreditAccountSystemRequest, ListRequest, to_post_payment_command,
  to_credit_account_system_command, to_list_query,
}
use microservice_workspace.Validation.Laws.{IsBonus, IsPayment, commands-Ensures}
use microservice_workspace.Security.Token.{
  Value, array, float, string, Validator, MapClaims, validate_bearer, validate_bearer-IsTrusted,
  HoldsTrusted,
}
use microservice_workspace.Delivery.Backoff.{IsBackoff, start-IsBackoff, IsPaced}
use microservice_workspace.Security.Access.{admit-IsAdmitted}
use microservice_workspace.Security.Refusals.{IsAdmitted, IsRefusal, arrival}
use microservice_workspace.Security.Call.{Interceptor, Call, decision_allow, read_incoming}
use microservice_workspace.Delivery.{Worker, publish_all, start, turn}
use microservice_workspace.Base.{
  ◌+◌, ◌<◌, ◌⊎◌, ℕ, ◌≡◌, refl, true, false, Option, some, List, [], ◌∷◌, arith, ◌⊎◌, all,
}
use microservice_workspace.Base.Int.{pos}
use microservice_workspace.Base.Text.{
  lit, trim_space, trim_left, trim_right, to_lower, rune_to_lower, is_space,
}
use microservice_workspace.Base.Result.{plain, ok, Post, Ensures}
use microservice_workspace.Domain.{OutboxEvent}
use microservice_workspace.Store.{World, OutboxEventEntity}
use microservice_workspace.Tests.{toy, world_of, all_accounts}

abbrev ready : World toy
ready = world_of all_accounts

abbrev event : OutboxEvent
event = record {
  id = 5;
  aggregate_type = lit "payment";
  aggregate_id = 6;
  event_type = lit "payment.posted";
  payload_json = lit "p";
  published = false;
  created_at = 1000;
}

publish_all-IsPrefix_example : IsPrefix toy (event ∷ []) ready (publish_all toy (event ∷ []) ready)
publish_all-IsPrefix_example = publish_all-IsPrefix toy (event ∷ []) ready

abbrev worker : Worker
worker = record { batch_size = pos 10; poll_every = 1000; host = lit "host" }

start-IsBackoff_example :
    IsBackoff (start toy 3 worker ready).0
    × IsPaced worker
        (start toy 3 worker ready).0
        (turn toy worker (start toy 3 worker ready).0 ready).0
start-IsBackoff_example = start-IsBackoff toy worker 3 ready ready

abbrev rows : List OutboxEventEntity
rows = event_row event ∷ []

abbrev waiting : World toy
waiting = record ready { db = record ready.db { outbox_events = rows } }

marked-NoneClaimable_example :
    Post
      (λ _ v. NoneClaimable toy 2000 (5 ∷ []) v ⊎ (1500 + claim_ttl < 2000))
      (λ _ _. Unit)
      (claim_rows toy (lit "host") 1500 (5 ∷ []) waiting)
    × Post
        (λ _ v. NoneClaimable toy 2000 (5 ∷ []) v)
        (λ _ _. Unit)
        (mark_published toy (5 ∷ []) waiting)
marked-NoneClaimable_example = marked-NoneClaimable toy (lit "host") 1500 2000 (5 ∷ []) waiting

next_ids-IsOldest_example : IsOldest 1500 1 rows (next_ids 1500 1 rows)
next_ids-IsOldest_example = next_ids-IsOldest 1500 1 rows

toy-IsReliable : IsReliable toy
toy-IsReliable = record { db_ok = λ env. refl; publish_ok = λ topic key payload env. refl }

start-drains_example : all (λ m. m.published) (start toy 1 worker waiting).1.db.outbox_events ≡ true
unfolding pending
start-drains_example = start-drains toy toy-IsReliable 1 worker waiting refl refl (omega arith)

abbrev claims : MapClaims
claims = record {
  iss = lit "issuer";
  aud = array (some (lit "ledger") ∷ []);
  exp = float (pos 5000);
  sub = lit "ana";
  groups = Value.other;
  custom_customer_id = lit "7";
  customer_id = [];
  amr = string (lit "mfa");
}

abbrev validator : Validator toy
validator = record { issuer = lit "issuer"; audience = lit "ledger"; parse = λ t e. (ok claims, e) }

validate_bearer-IsTrusted_example :
    Post
      (λ c _. HoldsTrusted toy validator (lit "Bearer abc") ready.env c)
      (λ _ _. Unit)
      (validate_bearer toy validator (lit "Bearer abc") ready)
validate_bearer-IsTrusted_example = validate_bearer-IsTrusted toy validator (lit "Bearer abc") ready

abbrev pub interceptor : Interceptor toy
interceptor = record {
  jwt = validator;
  policy_store_id = lit "store";
  is_authorized = λ q e. (ok (record { decision = decision_allow; policy_id = [] }), e);
  has_audit = true;
  sha_hex = λ s. s;
  salt_ip = [];
  salt_ua = [];
}

abbrev pub call_post : Call
call_post = record {
  full_method = lit "/bank.ledgerpayments.v1.PaymentsService/PostPayment";
  metadata = (lit "authorization", lit "Bearer abc") ∷ [];
  request = [];
}

admit-IsAdmitted_example :
    Post
      (λ a _.
        IsAdmitted toy interceptor call_post
          (arrival toy interceptor call_post
            (read_incoming call_post (lit "x-correlation-id"))
            ready.env)
          a.context)
      (λ e _. IsRefusal e)
      (admit toy interceptor call_post ready)
admit-IsAdmitted_example = admit-IsAdmitted toy interceptor call_post ready

resolve-owner_customer_id_example :
    Post
      (λ r _. r.owner_customer_id ≡ [])
      (λ _ _. Unit)
      (resolve toy Template.payment_by_id ((lit "PaymentId", 5 ∷ []) ∷ []) ready)
resolve-owner_customer_id_example =
    resolve-owner_customer_id toy Template.payment_by_id ((lit "PaymentId", 5 ∷ []) ∷ []) ready

abbrev fault : Outcome ℕ
fault = Outcome.failed (plain (lit "password=secret"))

is_local-prod : is_local (lit "prod") ≡ false
unfolding is_local lit trim_space trim_left trim_right to_lower rune_to_lower is_space
is_local-prod = refl

respond-Discreet_example : Discreet fault (respond (lit "prod") fault)
respond-Discreet_example = respond-Discreet (lit "prod") fault is_local-prod

abbrev pub pay_request : PostPaymentRequest
pay_request = record {
  idempotency_key = lit "payment-1";
  source_account_id = lit "a";
  destination_account_id = lit "b";
  currency = lit "USD";
  amount = lit "10";
  initiated_by = lit "ana";
}

abbrev pub bonus_request : CreditAccountSystemRequest
bonus_request = record {
  idempotency_key = lit "bonus-01";
  account_id = lit "a";
  currency = lit "USD";
  amount = lit "10";
  external_ref = lit "ref-1";
  reason = lit "registration_bonus";
}

commands-Ensures_example :
    Ensures IsPayment (to_post_payment_command toy (some pay_request))
    × Ensures IsBonus (to_credit_account_system_command toy (some bonus_request))
commands-Ensures_example = commands-Ensures toy (some pay_request) (some bonus_request)

abbrev instant : ℕ → Option Timestamp
instant s = some (record { seconds = s; nanos = 0 })

abbrev list_request : ListRequest
list_request = record {
  account_id = lit "a";
  from = instant 63900000000;
  to = instant 63900086400;
  page = pos 1;
  size = pos 20;
  include_counterparty = true;
}

to_list_query-IsWindow_example :
    Ensures (IsWindow 90 true) (to_list_query toy 90 true (some list_request))
to_list_query-IsWindow_example =
    to_list_query-IsWindow toy 90 true (some list_request) (omega arith)
