-- ===== src/Bff/Onboarding/Direct.antt =====
-- The client and the handlers of onboarding together: what of a message of the identity service
-- reaches the web client, past the texts of the port between them.
use microservice_workspace.Base.Int.{ℤ}
use microservice_workspace.Base.{◌≡◌, false, Option, none, some, [], map, ◌-◌, ◌%◌, ◌^◌}
use microservice_workspace.Base.Text.{Text, lit, is_empty, trim_space}
use microservice_workspace.Base.Result.{and_then, Result, ok, err, and_then}
use microservice_workspace.Domain.{Time}
use microservice_workspace.Bff.Context.{Context}
use microservice_workspace.Bff.Login.{Reply, answered}
use microservice_workspace.Bff.Onboarding.Messages.{
  Registrar, PresignedUpload, KycDocType, RegistrationState, KycUploadStatus, KycObjectStatus,
  StartRegistrationResponse, ConfirmRegistrationKycResponse, Registration, UploadedObject,
  Confirmation, OccupationType,
}
use microservice_workspace.Bff.Onboarding.Client.{map_doc_type_in, map_occupation}
use microservice_workspace.Bff.Onboarding.Handlers.{
  OnboardingIntentRequest, OnboardingIntentResponse, ConfirmKycRequest, ConfirmKycResponse,
  text_ptr, unavailable, KycObject, channel_of,
}

-- The text that stands for each document type, state and status.
abbrev pub doc_type_text : KycDocType → Text
doc_type_text KycDocType.id_front = lit "id_front"
doc_type_text KycDocType.selfie = lit "selfie"
doc_type_text (KycDocType.other_document n) = lit "unspecified"

abbrev pub state_text : RegistrationState → Text
state_text RegistrationState.started = lit "started"
state_text RegistrationState.contact_verified = lit "contact_verified"
state_text RegistrationState.consented = lit "consented"
state_text RegistrationState.activated = lit "activated"
state_text RegistrationState.rejected = lit "rejected"
state_text (RegistrationState.other_state n) = lit "unspecified"

abbrev pub status_text : KycUploadStatus → Text
status_text KycUploadStatus.pending = lit "pending"
status_text KycUploadStatus.confirmed = lit "confirmed"
status_text (KycUploadStatus.other_status n) = lit "unspecified"

module _ (U : Registrar) where
  -- RFC 3339 to the second, of times given in nanoseconds: what was written can be read.
  pub record TimeLaws : Type 0 where
    pub parse-format : (t : Time) → U.time_parse (U.time_format t) ≡ ok (t - t % 10 ^ 9)
    pub format-nonempty : (t : Time) → is_empty (U.time_format t) ≡ false

  abbrev pub to_second : Option Time → Option Time
  to_second none = none
  to_second (some t) = some (t - t % 10 ^ 9)

  -- The response to the web client as a function of the message of the service.
  abbrev pub direct_upload : PresignedUpload KycDocType → PresignedUpload Text
  direct_upload u = record {
    doc_type = doc_type_text u.doc_type;
    bucket = u.bucket;
    key = u.key;
    upload_url = u.upload_url;
    headers = u.headers;
    max_bytes = u.max_bytes;
    content_type = u.content_type;
    expires_in_seconds = u.expires_in_seconds;
  }

  abbrev pub direct_start : Text → Result StartRegistrationResponse → Reply OnboardingIntentResponse
  direct_start cid (err e) = unavailable U cid
  direct_start cid (ok res) = answered 201 (record {
    registration_id = res.registration_id;
    state = state_text res.state;
    uploads = map direct_upload res.uploads;
    created_at = to_second res.created_at;
    correlation_id = text_ptr cid;
  })

  abbrev pub direct_status :
      KycObjectStatus KycDocType KycUploadStatus Text → KycObjectStatus Text Text (Option Text)
  direct_status st = record {
    doc_type = doc_type_text st.doc_type;
    status = status_text st.status;
    bucket = st.bucket;
    key = st.key;
    etag = text_ptr st.etag;
  }

  abbrev pub direct_confirm :
      Text → Result ConfirmRegistrationKycResponse → Reply ConfirmKycResponse
  direct_confirm cid (err e) = unavailable U cid
  direct_confirm cid (ok res) = answered 200 (record {
    registration_id = res.registration_id;
    state = state_text res.state;
    statuses = map direct_status res.statuses;
    confirmed_at = to_second res.confirmed_at;
  })

  -- The requests to the service: the fields of the web client's request, with empty texts and zero
  -- for what is missing.
  abbrev or_nothing : Option Text → Text
  or_nothing none = []
  or_nothing (some s) = s

  abbrev or_zero : Option ℤ → ℤ
  or_zero none = ℤ.pos 0
  or_zero (some n) = n

  abbrev pub direct_registration :
      OnboardingIntentRequest U.Float → Registration U.Float OccupationType
  direct_registration body = record {
    channel = channel_of body.channel;
    national_id = body.national_id;
    national_id_issue_date = body.national_id_issue_date;
    fingerprint_code = body.fingerprint_code;
    monthly_income = body.monthly_income;
    occupation_type = map_occupation body.occupation_type;
    email = body.email;
    phone = body.phone;
    id_front_content_type = trim_space (or_nothing body.id_front_content_type);
    selfie_content_type = trim_space (or_nothing body.selfie_content_type);
  }

  abbrev pub direct_object : KycObject → UploadedObject KycDocType
  direct_object o = record {
    doc_type = map_doc_type_in o.doc_type;
    bucket = o.bucket;
    key = o.key;
    etag = or_nothing o.etag;
    size_bytes = or_zero o.size_bytes;
    content_type = or_nothing o.content_type;
  }

  abbrev pub direct_confirmation : ConfirmKycRequest → Confirmation KycDocType
  direct_confirmation body = record {
    registration_id = body.registration_id;
    objects = map direct_object body.objects;
    channel = channel_of body.channel;
  }
