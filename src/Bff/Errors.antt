-- ===== src/Bff/Errors.antt =====
-- Errors as the client sees them: bff/internal/api/rest/httperr/httperr.go.
use mathlib.Core.Bool.{Bool, true, false}
use microservice_workspace.Base.{ℕ, Option, none, some, List}
use microservice_workspace.Base.Text.{Text, lit}
use microservice_workspace.Base.Result.{
  Code, Error, status, invalid_argument, failed_precondition, out_of_range, unauthenticated,
  permission_denied, not_found, already_exists, aborted, unavailable, deadline_exceeded,
}
use microservice_workspace.Bff.Http.{Writer, set_header, write_header}

-- The details, by name.
abbrev pub Details : Type 0
Details = List (Text × Text)

pub record AppError : Type 0 where
  pub http_status : ℕ
  pub public_code : Text
  pub public_msg : Text
  pub public_det : Option Details
  pub cause : Option Error

-- An `error` that a handler returns: one of the gateway's own, one of another service, or one that
-- wraps another with a text.
pub data Failure : Type 0 where
  app : AppError → Failure
  upstream : Error → Failure
  wrapping : Text → Failure → Failure

abbrev pub new : ℕ → Text → Text → AppError
new code public msg = record {
  http_status = code;
  public_code = public;
  public_msg = msg;
  public_det = none;
  cause = none;
}

abbrev pub with_cause : Error → AppError → AppError
with_cause e a = record a { cause = some e }

-- The errors that the package offers (`BadRequest()` and so on).
pub data Common : Type 0 where
  bad_request unauthorized forbidden not_found_error conflict upstream_error internal_error : Common

unfoldable pub common : Common → AppError
common bad_request = new 400 (lit "BAD_REQUEST") (lit "Invalid request")
common unauthorized = new 401 (lit "UNAUTHORIZED") (lit "Unauthorized")
common forbidden = new 403 (lit "FORBIDDEN") (lit "Forbidden")
common not_found_error = new 404 (lit "NOT_FOUND") (lit "Not found")
common conflict = new 409 (lit "CONFLICT") (lit "Conflict")
common upstream_error = new 502 (lit "UPSTREAM_ERROR") (lit "Upstream service error")
common internal_error = new 500 (lit "INTERNAL") (lit "Internal server error")

unfoldable pub common_of : Code → Common
common_of invalid_argument = bad_request
common_of failed_precondition = bad_request
common_of out_of_range = bad_request
common_of unauthenticated = unauthorized
common_of permission_denied = forbidden
common_of not_found = not_found_error
common_of already_exists = conflict
common_of aborted = conflict
common_of unavailable = upstream_error
common_of deadline_exceeded = upstream_error
common_of c = internal_error

unfoldable pub map_grpc : Error → AppError
map_grpc (status c message) = with_cause (status c message) (common (common_of c))
map_grpc e = with_cause e (common internal_error)

-- `errors.As` and `status.FromError` look through wrapping errors.
unfoldable pub normalize : Failure → AppError
normalize (app a) = a
normalize (upstream e) = map_grpc e
normalize (wrapping text f) = normalize f

-- The body of the response.
pub record ErrorBody : Type 0 where
  pub code : Text
  pub message : Text
  pub details : Option Details

abbrev pub shown_details : Bool → AppError → Option Details
shown_details true a = a.public_det
shown_details false a = none

abbrev pub body_of : Bool → AppError → ErrorBody
body_of debug a = record {
  code = a.public_code;
  message = a.public_msg;
  details = shown_details debug a;
}

-- `encode` is the encoder of package json.
unfoldable pub write : (ErrorBody → Text) → Failure → Bool → Writer → Writer
write encode f debug w =
    let a = normalize f in
    record (write_header a.http_status
      (set_header (lit "Content-Type") (lit "application/json; charset=utf-8") w)) {
        body = encode (body_of debug a);
      }
