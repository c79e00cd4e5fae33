-- ===== src/Bff/Onboarding/Messages.antt =====
-- The types of bff/internal/client/ports/identity.go for onboarding, the messages of the service,
-- and the service as a parameter.
use microservice_workspace.Base.{Bool, Option, List}
use microservice_workspace.Base.Int.{ℤ}
use microservice_workspace.Base.Text.{Text}
use microservice_workspace.Base.Result.{Result}
use microservice_workspace.Domain.{Time}

-- The enumerations of the protobuf file, which are open: other numbers, and the one for
-- "unspecified", are `other`.
pub data OccupationType : Type 0 where
  student employee self_employed unemployed retired : OccupationType
  other_occupation : ℤ → OccupationType

pub data KycDocType : Type 0 where
  id_front selfie : KycDocType
  other_document : ℤ → KycDocType

pub data RegistrationState : Type 0 where
  started contact_verified consented activated rejected : RegistrationState
  other_state : ℤ → RegistrationState

pub data KycUploadStatus : Type 0 where
  pending confirmed : KycUploadStatus
  other_status : ℤ → KycUploadStatus

-- `StartRegistrationInput`, and the request, whose occupation is an enumeration.
pub record Registration (F O : Type 0) : Type 0 where
  pub channel : Text
  pub national_id : Text
  pub national_id_issue_date : Text
  pub fingerprint_code : Text
  pub monthly_income : F
  pub occupation_type : O
  pub email : Text
  pub phone : Text
  pub id_front_content_type : Text
  pub selfie_content_type : Text

-- `PresignedUpload` of the port, of the API, and of the service, by the type of documents; a header
-- is its name and value.
pub record PresignedUpload (D : Type 0) : Type 0 where
  pub doc_type : D
  pub bucket : Text
  pub key : Text
  pub upload_url : Text
  pub headers : List (Text × Text)
  pub max_bytes : ℤ
  pub content_type : Text
  pub expires_in_seconds : ℤ

pub record StartRegistrationResponse : Type 0 where
  pub registration_id : Text
  pub state : RegistrationState
  pub created_at : Option Time
  pub uploads : List (PresignedUpload KycDocType)

-- An absent time is the empty text.
pub record StartRegistrationOutput : Type 0 where
  pub registration_id : Text
  pub state : Text
  pub created_at : Text
  pub uploads : List (PresignedUpload Text)

-- `UploadedObject` of the port and of the service.
pub record UploadedObject (D : Type 0) : Type 0 where
  pub doc_type : D
  pub bucket : Text
  pub key : Text
  pub etag : Text
  pub size_bytes : ℤ
  pub content_type : Text

-- `ConfirmRegistrationKycInput` and the request.
pub record Confirmation (D : Type 0) : Type 0 where
  pub registration_id : Text
  pub objects : List (UploadedObject D)
  pub channel : Text

pub record KycObjectStatus (D S E : Type 0) : Type 0 where
  pub doc_type : D
  pub status : S
  pub bucket : Text
  pub key : Text
  pub etag : E

pub record ConfirmRegistrationKycResponse : Type 0 where
  pub registration_id : Text
  pub state : RegistrationState
  pub statuses : List (KycObjectStatus KycDocType KycUploadStatus Text)
  pub confirmed_at : Option Time

pub record ConfirmRegistrationKycOutput : Type 0 where
  pub registration_id : Text
  pub state : Text
  pub statuses : List (KycObjectStatus Text Text Text)
  pub confirmed_at : Text

-- `ActivateRegistrationInput`, in which the accepted terms are optional, and the request.
pub record Activation (B : Type 0) : Type 0 where
  pub registration_id : Text
  pub channel : Text
  pub full_name : Text
  pub tin : Text
  pub birth_date : Text
  pub country : Text
  pub email : Text
  pub phone : Text
  pub accepted_terms : B

-- What is read of `ActivateRegistrationOutput`, and of the response.
pub record Activated (S : Type 0) : Type 0 where
  pub registration_id : Text
  pub customer_id : Text
  pub state : S
  pub primary_account_id : Text
  pub activation_ref : Text

-- The service, and the RFC 3339 form of a time to the second.
pub record Registrar : Type 1 where
  pub Env : Type 0
  pub Float : Type 0
  pub time_format : Time → Text
  pub time_parse : Text → Result Time
  pub start_registration :
      List (Text × Text)
      → Registration Float OccupationType
      → Env
      → Result StartRegistrationResponse × Env
  pub confirm_registration_kyc :
      List (Text × Text)
      → Confirmation KycDocType
      → Env
      → Result ConfirmRegistrationKycResponse × Env
  pub activate_registration :
      List (Text × Text) → Activation Bool → Env → Result (Activated RegistrationState) × Env

pub data RegistrarCall (F : Type 0) : Type 0 where
  start_of : List (Text × Text) → Registration F OccupationType → RegistrarCall F
  confirm_of : List (Text × Text) → Confirmation KycDocType → RegistrarCall F
  activate_of : List (Text × Text) → Activation Bool → RegistrarCall F
