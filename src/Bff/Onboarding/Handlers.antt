-- ===== src/Bff/Onboarding/Handlers.antt =====
-- The operations of onboarding: bff/internal/api/rest/v1/web/feature/onboarding/strict.go.
use microservice_workspace.Base.{Bool, Option, none, some, List, map, if◌then◌else◌}
use microservice_workspace.Base.Int.{ℤ}
use microservice_workspace.Base.Text.{Text, lit, text_eq, is_empty}
use microservice_workspace.Base.Result.{Result, ok, err, M, ◌>>=◌, pure, attempt}
use microservice_workspace.Domain.{Time}
use microservice_workspace.Security.Messages.{Outcome, returned, failed, panicked}
use microservice_workspace.Bff.Context.{Context}
use microservice_workspace.Bff.Http.{text_or_nothing}
use microservice_workspace.Bff.Login.{Reply, answered, refused, error_response}
use microservice_workspace.Bff.Onboarding.Messages.{
  Registrar, Registration, PresignedUpload, StartRegistrationOutput, UploadedObject, Confirmation,
  KycObjectStatus, ConfirmRegistrationKycOutput, Activation, Activated,
}
use microservice_workspace.Bff.Onboarding.Client.{
  Wire, start_registration, confirm_registration_kyc, activate_registration, with_doc_type,
}

-- `OnboardingIntentRequest`, with the income as a float64.
pub record OnboardingIntentRequest (F : Type 0) : Type 0 where
  pub channel : Option Text
  pub email : Text
  pub fingerprint_code : Text
  pub id_front_content_type : Option Text
  pub monthly_income : F
  pub national_id : Text
  pub national_id_issue_date : Text
  pub occupation_type : Text
  pub phone : Text
  pub selfie_content_type : Option Text

pub record OnboardingIntentResponse : Type 0 where
  pub registration_id : Text
  pub state : Text
  pub uploads : List (PresignedUpload Text)
  pub created_at : Option Time
  pub correlation_id : Option Text

-- `openapi.UploadedObject`
pub record KycObject : Type 0 where
  pub doc_type : Text
  pub bucket : Text
  pub key : Text
  pub etag : Option Text
  pub size_bytes : Option ℤ
  pub content_type : Option Text

pub record ConfirmKycRequest : Type 0 where
  pub channel : Option Text
  pub objects : List KycObject
  pub registration_id : Text

pub record ConfirmKycResponse : Type 0 where
  pub registration_id : Text
  pub state : Text
  pub statuses : List (KycObjectStatus Text Text (Option Text))
  pub confirmed_at : Option Time

pub record ActivateResponse : Type 0 where
  pub customer_id : Text
  pub account_id : Text
  pub activation_ref : Text
  pub correlation_id : Option Text

-- `channel := "web"; if body.Channel != nil && *body.Channel != ""`
abbrev pub channel_of : Option Text → Text
channel_of c = if is_empty (text_or_nothing c) then lit "web" else text_or_nothing c

unfoldable pub doc_type_of : Text → Text
doc_type_of s =
    if text_eq s (lit "id_front")
    then lit "id_front"
    else if text_eq s (lit "selfie")
    then lit "selfie"
    else lit "unspecified"

unfoldable pub state_of : Text → Text
state_of s =
    if text_eq s (lit "started")
    then lit "started"
    else if text_eq s (lit "contact_verified")
    then lit "contact_verified"
    else if text_eq s (lit "consented")
    then lit "consented"
    else if text_eq s (lit "activated")
    then lit "activated"
    else if text_eq s (lit "rejected")
    then lit "rejected"
    else lit "unspecified"

unfoldable pub status_of : Text → Text
status_of s =
    if text_eq s (lit "pending")
    then lit "pending"
    else if text_eq s (lit "confirmed")
    then lit "confirmed"
    else lit "unspecified"

-- A pointer to a text that is not empty.
abbrev pub text_ptr : Text → Option Text
text_ptr s = if is_empty s then none else some s

abbrev pub size_or_zero : Option ℤ → ℤ
size_or_zero none = ℤ.pos 0
size_or_zero (some n) = n

abbrev pub object_of : KycObject → UploadedObject Text
object_of o = record {
  doc_type = o.doc_type;
  bucket = o.bucket;
  key = o.key;
  etag = text_or_nothing o.etag;
  size_bytes = size_or_zero o.size_bytes;
  content_type = text_or_nothing o.content_type;
}

abbrev pub confirmation_of : ConfirmKycRequest → Confirmation Text
confirmation_of body = record {
  registration_id = body.registration_id;
  objects = map object_of body.objects;
  channel = channel_of body.channel;
}

abbrev pub object_status : KycObjectStatus Text Text Text → KycObjectStatus Text Text (Option Text)
object_status st = record {
  doc_type = doc_type_of st.doc_type;
  status = status_of st.status;
  bucket = st.bucket;
  key = st.key;
  etag = text_ptr st.etag;
}

module _ (U : Registrar) where
  abbrev pub registration_of : OnboardingIntentRequest U.Float → Registration U.Float Text
  registration_of body = record {
    channel = channel_of body.channel;
    national_id = body.national_id;
    national_id_issue_date = body.national_id_issue_date;
    fingerprint_code = body.fingerprint_code;
    monthly_income = body.monthly_income;
    occupation_type = body.occupation_type;
    email = body.email;
    phone = body.phone;
    id_front_content_type = text_or_nothing body.id_front_content_type;
    selfie_content_type = text_or_nothing body.selfie_content_type;
  }

  -- `if s != "" { if t, e := time.Parse(...); e == nil { ... } }`
  unfoldable pub time_ptr : Text → Option Time
  time_ptr s = if is_empty s then none else elim (U.time_parse s) [ ok t ↦ some t | err e ↦ none ]

  abbrev pub unavailable : {A : Type 0} → Text → Reply A
  unavailable cid =
      refused 502
        (error_response (some cid) (lit "UPSTREAM_ERROR") (lit "identity service unavailable"))

  abbrev pub intent_response : Text → StartRegistrationOutput → OnboardingIntentResponse
  intent_response cid out = record {
    registration_id = out.registration_id;
    state = state_of out.state;
    uploads = map (with_doc_type U doc_type_of) out.uploads;
    created_at = time_ptr out.created_at;
    correlation_id = text_ptr cid;
  }

  abbrev pub started_reply : Text → Result StartRegistrationOutput → Reply OnboardingIntentResponse
  started_reply cid (err e) = unavailable cid
  started_reply cid (ok out) = answered 201 (intent_response cid out)

  -- `StartOnboardingStrict`
  unfoldable pub start_onboarding :
      Context → OnboardingIntentRequest U.Float → M (Wire U) (Reply OnboardingIntentResponse)
  start_onboarding ctx body = attempt (start_registration U ctx (registration_of body)) >>= λ out.
      pure (started_reply ctx.correlation_id out)

  abbrev pub kyc_response : ConfirmRegistrationKycOutput → ConfirmKycResponse
  kyc_response out = record {
    registration_id = out.registration_id;
    state = state_of out.state;
    statuses = map object_status out.statuses;
    confirmed_at = time_ptr out.confirmed_at;
  }

  abbrev pub confirmed_reply : Text → Result ConfirmRegistrationKycOutput → Reply ConfirmKycResponse
  confirmed_reply cid (err e) = unavailable cid
  confirmed_reply cid (ok out) = answered 200 (kyc_response out)

  -- `ConfirmOnboardingKycStrict`
  unfoldable pub confirm_onboarding_kyc :
      Context → ConfirmKycRequest → M (Wire U) (Reply ConfirmKycResponse)
  confirm_onboarding_kyc ctx body =
      attempt (confirm_registration_kyc U ctx (confirmation_of body)) >>= λ out.
      pure (confirmed_reply ctx.correlation_id out)

  abbrev pub activate_response : Text → Activated Text → ActivateResponse
  activate_response cid out = record {
    customer_id = out.customer_id;
    account_id = out.primary_account_id;
    activation_ref = out.activation_ref;
    correlation_id = text_ptr cid;
  }

  abbrev pub activated_reply :
      Text → Outcome (Activated Text) × Wire U → Outcome (Reply ActivateResponse) × Wire U
  activated_reply cid (returned out, w) = (returned (answered 201 (activate_response cid out)), w)
  activated_reply cid (failed e, w) = (returned (unavailable cid), w)
  activated_reply cid (panicked, w) = (panicked, w)

  -- `ActivateOnboardingStrict`; the channel of the body is "web".
  unfoldable pub activate_onboarding :
      Context → Activation (Option Bool) → Wire U → Outcome (Reply ActivateResponse) × Wire U
  activate_onboarding ctx body w =
      activated_reply ctx.correlation_id
        (activate_registration U ctx (record body { channel = lit "web" }) w)
