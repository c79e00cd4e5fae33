-- ===== src/Bff/Onboarding/Client.antt =====
-- The calls of bff/internal/client/grpc/identity.go for onboarding.
use microservice_workspace.Base.{Bool, Option, none, some, [], map, if◌then◌else◌}
use microservice_workspace.Base.Int.{ℤ}
use microservice_workspace.Base.Text.{Text, lit, text_eq, trim_space, to_lower}
use microservice_workspace.Base.Result.{ok, err, Result, M, ◌>>=◌, pure}
use microservice_workspace.Domain.{Time}
use microservice_workspace.Bff.Context.{Context, inject_outgoing}
use microservice_workspace.Security.Messages.{Outcome, returned, failed, panicked}
use microservice_workspace.Bff.Upstream.{Line, rpc}
use microservice_workspace.Bff.Onboarding.Messages.{
  OccupationType, KycDocType, RegistrationState, KycUploadStatus, Registration, PresignedUpload,
  StartRegistrationResponse, StartRegistrationOutput, UploadedObject, Confirmation, KycObjectStatus,
  ConfirmRegistrationKycResponse, ConfirmRegistrationKycOutput, Activation, Activated, Registrar,
  RegistrarCall, student, employee, self_employed, unemployed, retired, other_occupation, id_front,
  selfie, other_document, started, contact_verified, consented, activated, rejected, other_state,
  pending, confirmed, other_status, start_of, confirm_of, activate_of,
}

unfoldable pub map_occupation : Text → OccupationType
map_occupation s =
    let t = to_lower (trim_space s) in
    if text_eq t (lit "student")
    then student
    else if text_eq t (lit "employee")
    then employee
    else if text_eq t (lit "self_employed")
    then self_employed
    else if text_eq t (lit "unemployed")
    then unemployed
    else if text_eq t (lit "retired")
    then retired
    else other_occupation (ℤ.pos 0)

unfoldable pub map_doc_type_in : Text → KycDocType
map_doc_type_in s =
    let t = to_lower (trim_space s) in
    if text_eq t (lit "id_front")
    then id_front
    else if text_eq t (lit "selfie")
    then selfie
    else other_document (ℤ.pos 0)

unfoldable pub map_doc_type_out : KycDocType → Text
map_doc_type_out id_front = lit "id_front"
map_doc_type_out selfie = lit "selfie"
map_doc_type_out (other_document n) = lit "unspecified"

unfoldable pub map_reg_state_out : RegistrationState → Text
map_reg_state_out started = lit "started"
map_reg_state_out contact_verified = lit "contact_verified"
map_reg_state_out consented = lit "consented"
map_reg_state_out activated = lit "activated"
map_reg_state_out rejected = lit "rejected"
map_reg_state_out (other_state n) = lit "unspecified"

unfoldable pub map_upload_status_out : KycUploadStatus → Text
map_upload_status_out pending = lit "pending"
map_upload_status_out confirmed = lit "confirmed"
map_upload_status_out (other_status n) = lit "unspecified"

module _ (U : Registrar) where
  abbrev pub Wire : Type 0
  Wire = Line U.Env (RegistrarCall U.Float)

  abbrev pub formatted : Option Time → Text
  formatted none = []
  formatted (some t) = U.time_format t

  abbrev pub registration_request : Registration U.Float Text → Registration U.Float OccupationType
  registration_request input = record {
    channel = input.channel;
    national_id = input.national_id;
    national_id_issue_date = input.national_id_issue_date;
    fingerprint_code = input.fingerprint_code;
    monthly_income = input.monthly_income;
    occupation_type = map_occupation input.occupation_type;
    email = input.email;
    phone = input.phone;
    id_front_content_type = trim_space input.id_front_content_type;
    selfie_content_type = trim_space input.selfie_content_type;
  }

  abbrev pub with_doc_type : {D E : Type 0} → (D → E) → PresignedUpload D → PresignedUpload E
  with_doc_type f u = record {
    doc_type = f u.doc_type;
    bucket = u.bucket;
    key = u.key;
    upload_url = u.upload_url;
    headers = u.headers;
    max_bytes = u.max_bytes;
    content_type = u.content_type;
    expires_in_seconds = u.expires_in_seconds;
  }

  abbrev pub registration_output : StartRegistrationResponse → StartRegistrationOutput
  registration_output res = record {
    registration_id = res.registration_id;
    state = map_reg_state_out res.state;
    created_at = formatted res.created_at;
    uploads = map (with_doc_type map_doc_type_out) res.uploads;
  }

  -- `IdentityClient.StartRegistration`
  unfoldable pub start_registration :
      Context → Registration U.Float Text → M Wire StartRegistrationOutput
  start_registration ctx input =
      let md = inject_outgoing ctx in
      let req = registration_request input in
      rpc (start_of md req) (U.start_registration md req) >>= λ res. pure (registration_output res)

  abbrev pub object_request : UploadedObject Text → UploadedObject KycDocType
  object_request o = record {
    doc_type = map_doc_type_in o.doc_type;
    bucket = o.bucket;
    key = o.key;
    etag = o.etag;
    size_bytes = o.size_bytes;
    content_type = o.content_type;
  }

  abbrev pub confirmation_request : Confirmation Text → Confirmation KycDocType
  confirmation_request input = record {
    registration_id = input.registration_id;
    objects = map object_request input.objects;
    channel = input.channel;
  }

  abbrev pub status_output :
      KycObjectStatus KycDocType KycUploadStatus Text → KycObjectStatus Text Text Text
  status_output st = record {
    doc_type = map_doc_type_out st.doc_type;
    status = map_upload_status_out st.status;
    bucket = st.bucket;
    key = st.key;
    etag = st.etag;
  }

  abbrev pub confirmation_output : ConfirmRegistrationKycResponse → ConfirmRegistrationKycOutput
  confirmation_output res = record {
    registration_id = res.registration_id;
    state = map_reg_state_out res.state;
    statuses = map status_output res.statuses;
    confirmed_at = formatted res.confirmed_at;
  }

  -- `IdentityClient.ConfirmRegistrationKyc`
  unfoldable pub confirm_registration_kyc :
      Context → Confirmation Text → M Wire ConfirmRegistrationKycOutput
  confirm_registration_kyc ctx input =
      let md = inject_outgoing ctx in
      let req = confirmation_request input in
      rpc (confirm_of md req) (U.confirm_registration_kyc md req) >>= λ res.
      pure (confirmation_output res)

  abbrev pub activation_output : Activated RegistrationState → Activated Text
  activation_output res = record {
    registration_id = res.registration_id;
    customer_id = res.customer_id;
    state = map_reg_state_out res.state;
    primary_account_id = res.primary_account_id;
    activation_ref = res.activation_ref;
  }

  abbrev pub activation_request : Activation (Option Bool) → Bool → Activation Bool
  activation_request input terms = record {
    registration_id = input.registration_id;
    channel = input.channel;
    full_name = input.full_name;
    tin = input.tin;
    birth_date = input.birth_date;
    country = input.country;
    email = input.email;
    phone = input.phone;
    accepted_terms = terms;
  }

  abbrev pub activated_with :
      Result (Activated RegistrationState) × Wire → Outcome (Activated Text) × Wire
  activated_with (ok res, w) = (returned (activation_output res), w)
  activated_with (err e, w) = (failed e, w)

  abbrev pub activate_terms :
      Context → Activation (Option Bool) → Option Bool → Wire → Outcome (Activated Text) × Wire
  activate_terms ctx input none w = (panicked, w)
  activate_terms ctx input (some terms) w =
      let md = inject_outgoing ctx in
      let req = activation_request input terms in
      activated_with (rpc (activate_of md req) (U.activate_registration md req) w)

  -- `IdentityClient.ActivateRegistration`, which reads the terms through their pointer.
  unfoldable pub activate_registration :
      Context → Activation (Option Bool) → Wire → Outcome (Activated Text) × Wire
  activate_registration ctx input w = activate_terms ctx input input.accepted_terms w
