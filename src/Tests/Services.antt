-- ===== src/Tests/Services.antt =====
-- The theorems on onboarding and on accounts at concrete services.
use microservice_workspace.Bff.Shown.Whole.{payment_shown, item_shown, answers-shown}
use microservice_workspace.Ledger.Views.{StatementItemView}
use microservice_workspace.Bff.Shown.{get_payment_status, LedgerService, get_account_statement}
use microservice_workspace.Bff.Statement.{StatementParams, Times, page_param, size_param}
use microservice_workspace.Base.{ℕ, ◌≡◌, ◌⊎◌, refl, false, none, some, [], ◌∷◌, ◌-◌, ◌%◌, ◌^◌}
use microservice_workspace.Base.Text.{Text, lit}
use microservice_workspace.Base.Result.{Result, ok, err, plain}
use microservice_workspace.Domain.{Time}
use microservice_workspace.Bff.Context.{Context, background, inject_outgoing}
use microservice_workspace.Bff.Shown
use microservice_workspace.Base.{◌*◌, ◌+◌, ◌/◌, inr}
use microservice_workspace.Rpc.{GetPaymentResponse}
use microservice_workspace.Bff.Login.{answered}
use microservice_workspace.Bff.Onboarding.Messages.{Registrar, RegistrationState}
use microservice_workspace.Bff.Onboarding.Client.{registration_request, confirmation_request}
use microservice_workspace.Bff.Onboarding.Client
use microservice_workspace.Bff.Onboarding.Handlers.{OnboardingIntentRequest, ConfirmKycRequest}
use microservice_workspace.Bff.Accounts.{AccountsService, list_of, patch_of, customer_request}
use microservice_workspace.Bff.Accounts
use microservice_workspace.Bff.Accounts.Operations.{
  PatchProfileRequest, PatchLimitsRequest, overview, patch_profile, patch_limits, lookup_by_number,
  unavailable,
}
use microservice_workspace.Bff.Accounts.Asked.{
  IsOwn, accounts-IsOwn, IsBadRequest, LimitsSent, patch_limits-LimitsSent,
  lookup_by_number-missing, own_patch,
}

-- A time is written as one number, its seconds in nanoseconds.
abbrev read_time : Text → Result Time
read_time [] = err (plain [])
read_time (c ∷ s) = ok c

abbrev registrar : Registrar
registrar = record {
  Env = ℕ;
  Float = ℕ;
  time_format = λ t. (t - t % 10 ^ 9) ∷ [];
  time_parse = read_time;
  start_registration = λ md req env. (
    ok (record {
      registration_id = lit "r1";
      state = RegistrationState.started;
      created_at = some 7;
      uploads = [];
    }),
    env,
  );
  confirm_registration_kyc = λ md req env. (
    ok (record {
      registration_id = lit "r1";
      state = RegistrationState.consented;
      statuses = [];
      confirmed_at = none;
    }),
    env,
  );
  activate_registration = λ md req env. (err (plain []), env);
}

abbrev intent : OnboardingIntentRequest ℕ
intent = record {
  channel = none;
  email = lit "a@b.c";
  fingerprint_code = lit "f";
  id_front_content_type = none;
  monthly_income = 100;
  national_id = lit "1";
  national_id_issue_date = lit "2020-01-01";
  occupation_type = lit "student";
  phone = lit "5";
  selfie_content_type = none;
}

abbrev kyc : ConfirmKycRequest
kyc = record {
  channel = none;
  objects =
      (record {
        doc_type = lit "selfie";
        bucket = lit "b";
        key = lit "k";
        etag = none;
        size_bytes = none;
        content_type = none;
      })
      ∷ [];
  registration_id = lit "r1";
}

abbrev idle_line : Client.Wire registrar
idle_line = record { env = 0; sent = [] }

abbrev parse_one : Text → Result ℕ
parse_one [] = err (plain [])
parse_one (c ∷ s) = ok c

abbrev service : AccountsService
service = record {
  Env = ℕ;
  Float = ℕ;
  parse_float = parse_one;
  is_negative = λ v. false;
  format_money = λ v. v ∷ [];
  uuid_parse = parse_one;
  time_format = λ t. t ∷ [];
  list_accounts = λ md id env. (ok [], env);
  patch_account_limits =
      λ md patch env. (ok (record { account_id = patch.id; daily_out = 1; daily_in = 2 }), env);
  get_account_by_number = λ md number env. (ok none, env);
  patch_customer = λ md patch env. (ok patch.id, env);
}

abbrev quiet_line : Accounts.Wire service
quiet_line = record { env = 0; sent = [] }

abbrev as_ana : Context
as_ana = record background { customer = lit "ana" }

abbrev profile : PatchProfileRequest
profile = record { full_name = some (lit "Ana"); email = none; phone = none; preferences = none }

accounts-IsOwn_example :
    IsOwn service as_ana quiet_line
      (list_of (inject_outgoing as_ana) (lit "ana"))
      (overview service as_ana quiet_line)
    × IsOwn service as_ana quiet_line
        (patch_of (inject_outgoing as_ana) (own_patch service as_ana quiet_line profile))
        (patch_profile service as_ana profile quiet_line)
accounts-IsOwn_example = accounts-IsOwn service as_ana quiet_line profile

abbrev limits : PatchLimitsRequest
limits = record { daily_out = some (lit "5"); daily_in = none }

patch_limits-LimitsSent_example :
    IsBadRequest service as_ana quiet_line (patch_limits service as_ana (lit "a") limits quiet_line)
    ⊎ LimitsSent service as_ana quiet_line
        (lit "a")
        limits
        (patch_limits service as_ana (lit "a") limits quiet_line).1
patch_limits-LimitsSent_example = patch_limits-LimitsSent service as_ana quiet_line (lit "a") limits

lookup_by_number-missing_example :
    (lookup_by_number service as_ana (lit "123") quiet_line).0
    ≡ ok (unavailable service as_ana (lit "invalid account_id format from upstream"))
unfolding lit
lookup_by_number-missing_example =
    lookup_by_number-missing service as_ana quiet_line (lit "123") refl refl (plain []) refl

abbrev clock_texts : Times
clock_texts = record {
  format_rfc3339 = λ t. (t - t % 10 ^ 9) ∷ [];
  parse_rfc3339 = read_time;
  new_timestamp = λ t. record { seconds = t / 10 ^ 9; nanos = t % 10 ^ 9 };
}

abbrev posted : GetPaymentResponse
posted = record {
  payment_id = lit "p1";
  status = lit "posted";
  source_account_id = lit "a";
  destination_account_id = lit "b";
  currency = lit "USD";
  amount = lit "10.000000";
  created_at = 5 * 10 ^ 9 + 3;
  steps =
      (record { step = lit "hold"; state = lit "ok"; details_json = []; attempted_at = 6 * 10 ^ 9 })
      ∷ [];
}

abbrev booked : StatementItemView
booked = record {
  journal_id = lit "j1";
  booked_at = 5 * 10 ^ 9;
  currency = lit "USD";
  direction = lit "debit";
  amount = lit "10.000000";
  kind = lit "transfer";
  memo = lit "payment:p1";
  counterparty_account_id = 7 ∷ [];
  counterparty = none;
}

abbrev teller : LedgerService
teller = record {
  Env = ℕ;
  times = clock_texts;
  uuid_parse = parse_one;
  get_payment = λ md id env. (
    ok (record {
      payment_id = lit "p1";
      status = lit "posted";
      source_account_id = lit "a";
      destination_account_id = lit "b";
      currency = lit "USD";
      amount = lit "10.000000";
      created_at = some (5 * 10 ^ 9 + 3);
      steps =
          (record {
            step = lit "hold";
            state = lit "ok";
            details_json = [];
            attempted_at = some (6 * 10 ^ 9);
          })
          ∷ [];
    }),
    env,
  );
  list_account_statement = λ md req env. (
    ok (
        (record {
          journal_id = lit "j1";
          booked_at = some (5 * 10 ^ 9);
          currency = lit "USD";
          direction = lit "debit";
          amount = lit "10.000000";
          kind = lit "transfer";
          memo = lit "payment:p1";
          counterparty_account_id = 7 ∷ [];
          counterparty = none;
        })
        ∷ []),
    env,
  );
}

abbrev asked_for : StatementParams
asked_for = record {
  from = some (10 ^ 9);
  to = none;
  page = none;
  size = none;
  include_counterparty = none;
}

abbrev still_line : Shown.Wire teller
still_line = record { env = 0; sent = [] }

answers-shown_example :
    ((get_payment_status teller as_ana (lit "p1") still_line).0
      ≡ ok (answered 200 (payment_shown teller posted)))
    × ((get_account_statement teller as_ana (lit "a") asked_for still_line).0
        ≡ ok (
            answered 200 (record {
              items = item_shown teller booked ∷ [];
              page = page_param none;
              size = size_param none;
            })))
unfolding lit
answers-shown_example =
    answers-shown teller (record { parse-format = λ t. refl }) as_ana (lit "p1") (lit "a") asked_for
      still_line posted (booked ∷ []) refl refl refl (inr (7, refl), tt)
