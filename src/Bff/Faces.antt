-- ===== src/Bff/Faces.antt =====
-- What an error of another service shows to the client.
use mathlib.Core.Path.{◌≡◌, refl, ap, ◌∙◌}
use microservice_workspace.Base.{Option}
use microservice_workspace.Bff.Errors.{Details}
use mathlib.Core.Bool.{Bool, true, false}
use microservice_workspace.Base.{none}
use microservice_workspace.Base.Text.{Text, lit}
use microservice_workspace.Base.Result.{Error, status, record_not_found, plain}
use microservice_workspace.Bff.Http.{Writer, write_header, set_header}
use microservice_workspace.Bff.Errors.{
  AppError, Failure, app, upstream, wrapping, normalize, map_grpc, common_of, common, Common,
  bad_request, unauthorized, forbidden, not_found_error, conflict, upstream_error, internal_error,
  body_of, write, with_cause, ErrorBody,
}

-- No error of the gateway's own is in the chain.
abbrev pub is_foreign : Failure → Bool
is_foreign (app a) = false
is_foreign (upstream e) = true
is_foreign (wrapping text f) = is_foreign f

foreign-common :
    (f : Failure)
    → is_foreign f ≡ true
    → (k : Common) × (e : Error) × (normalize f ≡ with_cause e (common k))
unfolding normalize map_grpc
foreign-common (app a) h = cc
foreign-common (upstream (status c message)) h = (common_of c, status c message, refl)
foreign-common (upstream record_not_found) h = (internal_error, record_not_found, refl)
foreign-common (upstream (plain t)) h = (internal_error, plain t, refl)
foreign-common (wrapping text f) h = foreign-common f h

common-no_details : (k : Common) → (common k).public_det ≡ none
unfolding common
common-no_details bad_request = refl
common-no_details unauthorized = refl
common-no_details forbidden = refl
common-no_details not_found_error = refl
common-no_details conflict = refl
common-no_details upstream_error = refl
common-no_details internal_error = refl

common-body :
    (k : Common) (e : Error) (debug : Bool)
    → body_of debug (with_cause e (common k)) ≡ body_of false (common k)
common-body k e true =
    ap (λ (d : Option Details). record (body_of false (common k)) { details = d })
      (common-no_details k)
common-body k e false = refl

-- An error without an error of the gateway's own in its chain is answered as one of the seven
-- common errors, with no details, whether the gateway debugs or not: nothing of the error's text
-- is shown.
pub write-common :
    (encode : ErrorBody → Text) (f : Failure) (debug : Bool) (w : Writer)
    → is_foreign f ≡ true
    → (k : Common) × (write encode f debug w ≡ write encode (app (common k)) false w)
unfolding write normalize
write-common encode f debug w h =
    let (k, e, n) = foreign-common f h in
    (
      k,
      ap (λ a. shown encode a debug w) n
          ∙ ap (λ b. record (headed (common k) w) { body = encode b }) (common-body k e debug),
    )
  where
    headed : AppError → Writer → Writer
    headed a w =
        write_header a.http_status
          (set_header (lit "Content-Type") (lit "application/json; charset=utf-8") w)

    shown : (ErrorBody → Text) → AppError → Bool → Writer → Writer
    shown encode a debug w = record (headed a w) { body = encode (body_of debug a) }
