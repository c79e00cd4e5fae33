-- ===== src/Validation/Fields.antt =====
-- micro/ledger/internal/infra/in/grpc/validation/validation.go: one function for each field. A
-- regular expression is the test of texts that it stands for.
use microservice_workspace.Base.{
  ℕ, ◌+◌, ◌*◌, ◌^◌, Bool, true, false, ◌&&◌, ◌||◌, [], ◌∷◌, ◌++◌, length, any, all, leb, ltb, ◌==◌,
  if◌then◌else◌, ◌-◌, Option, none, some,
}
use microservice_workspace.Base.Int.{ℤ, is_neg, to_ℕ, positive_or}
use microservice_workspace.Base.Text.{
  Text, lit, is_empty, trim_space, to_upper, to_lower, is_upper, is_lower, is_digit, is_alnum,
}
use microservice_workspace.Base.Result.{
  Error, status, Result, ok, err, and_then, invalid_argument, permission_denied,
}
use microservice_workspace.Domain.{Time, Uuid}
use microservice_workspace.Domain.External.{External}

-- `Invalid`, `Forbidden`
abbrev pub invalid : Text → Error
invalid msg = status invalid_argument msg

abbrev pub forbidden : Text → Error
forbidden msg = status permission_denied msg

abbrev pub is_control : ℕ → Bool
is_control c = leb c 0x1f || c == 0x7f

unfoldable pub has_control_chars : Text → Bool
has_control_chars s = any is_control s

-- `maxLen > 0 && utf8.RuneCountInString(s) > maxLen`
abbrev pub too_long : Text → ℕ → Bool
too_long s max_len = ltb 0 max_len && ltb max_len (length s)

-- The tests that both functions make of a trimmed text that is not empty.
abbrev pub check_trimmed : Text → Text → ℕ → Result Text
check_trimmed s field max_len =
    if has_control_chars s
    then err (invalid (field ++ lit " contains invalid characters"))
    else (if too_long s max_len then err (invalid (field ++ lit " too long")) else ok s)

unfoldable pub require_non_blank : Text → Text → ℕ → Result Text
require_non_blank raw field max_len =
    if is_empty raw
    then err (invalid (field ++ lit " is required"))
    else (if is_empty (trim_space raw)
        then err (invalid (field ++ lit " is required"))
        else check_trimmed (trim_space raw) field max_len)

unfoldable pub optional_trim : Text → Text → ℕ → Result Text
optional_trim raw field max_len =
    if is_empty raw
    then ok []
    else (if is_empty (trim_space raw) then ok [] else check_trimmed (trim_space raw) field max_len)

-- `^[A-Z]{3}$`
unfoldable pub re_currency : Text → Bool
re_currency s = length s == 3 && all is_upper s

unfoldable pub require_currency : Text → Result Text
require_currency raw = and_then (require_non_blank raw (lit "currency") 3) λ s.
    if re_currency (to_upper s)
    then ok (to_upper s)
    else err (invalid (lit "currency must be ISO-4217 (e.g., USD)"))

abbrev pub is_key_char : ℕ → Bool
is_key_char c = is_alnum c || c == b'.' || c == b'_' || c == b':' || c == b'-'

-- `^[A-Za-z0-9][A-Za-z0-9._:-]{7,127}$`
unfoldable pub re_idem : Text → Bool
re_idem [] = false
re_idem (c ∷ s) = is_alnum c && all is_key_char s && leb 7 (length s) && leb (length s) 127

unfoldable pub require_idempotency_key : Text → Text → Result Text
require_idempotency_key raw field =
    and_then (require_non_blank raw field 128)
      λ s. if re_idem s then ok s else err (invalid (field ++ lit " invalid"))

abbrev pub is_actor_char : ℕ → Bool
is_actor_char c =
    is_alnum c || c == b':' || c == b'_' || c == b'@' || c == b'.' || c == b'/' || c == b'-'

-- `^[A-Za-z0-9:_@./-]{1,200}$`
unfoldable pub re_actor : Text → Bool
re_actor s = all is_actor_char s && leb 1 (length s) && leb (length s) 200

unfoldable pub require_actor : Text → Result Text
require_actor raw =
    and_then (require_non_blank raw (lit "initiated_by") 200)
      λ s. if re_actor s then ok s else err (invalid (lit "initiated_by invalid"))

-- `^[A-Za-z0-9:_@./#-]{1,140}$`
unfoldable pub re_safe_ref : Text → Bool
re_safe_ref s = all (λ c. is_actor_char c || c == b'#') s && leb 1 (length s) && leb (length s) 140

unfoldable pub optional_external_ref : Text → Result Text
optional_external_ref raw = and_then (optional_trim raw (lit "external_ref") 140) λ s.
    if is_empty s
    then ok []
    else (if re_safe_ref s then ok s else err (invalid (lit "external_ref invalid")))

-- `^[a-z0-9_]{2,64}$`
unfoldable pub re_reason : Text → Bool
re_reason s =
    all (λ c. is_lower c || is_digit c || c == b'_') s && leb 2 (length s) && leb (length s) 64

unfoldable pub optional_reason : Text → Result Text
optional_reason raw = and_then (optional_trim raw (lit "reason") 64) λ s.
    if is_empty s
    then ok []
    else (if re_reason (to_lower s) then ok (to_lower s) else err (invalid (lit "reason invalid")))

-- `(?:\.\d{1,6})?$`
unfoldable pub re_fraction : Text → Bool
re_fraction [] = true
re_fraction (c ∷ s) = c == b'.' && all is_digit s && leb 1 (length s) && leb (length s) 6

-- What follows a first digit from 1 to 9: at most `n` more digits, then the fraction.
unfoldable pub re_digits : ℕ → Text → Bool
re_digits n [] = true
re_digits ℕ.zero (c ∷ s) = re_fraction (c ∷ s)
re_digits (ℕ.suc n) (c ∷ s) = if is_digit c then re_digits n s else re_fraction (c ∷ s)

-- `^(?:0|[1-9]\d{0,19})(?:\.\d{1,6})?$`
unfoldable pub re_amount : Text → Bool
re_amount [] = false
re_amount (c ∷ s) =
    if c == b'0' then re_fraction s else (if is_digit c then re_digits 19 s else false)

unfoldable pub require_decimal_amount : Text → Text → Result Text
require_decimal_amount raw field = and_then (require_non_blank raw field 32) λ s.
    if re_amount s
    then ok s
    else err (invalid (field ++ lit " must be a decimal string (max 20,6)"))

-- A protobuf timestamp: seconds and nanoseconds, seconds counted from year 1 here, so that a
-- timestamp before it is not valid. 9999-12-31T23:59:59Z is the last valid second.
pub record Timestamp : Type 0 where
  pub seconds : ℕ
  pub nanos : ℕ

abbrev pub last_second : ℕ
last_second = 315537897599

-- `ts.IsValid()`
abbrev pub is_valid : Timestamp → Bool
is_valid ts = leb ts.seconds last_second && ltb ts.nanos (10 ^ 9)

-- `ts.AsTime().UTC()`
abbrev pub as_time : Timestamp → Time
as_time ts = ts.seconds * 10 ^ 9 + ts.nanos

-- The first instant of 2000 and of 2101: `t.Year() < 2000`, `t.Year() > 2100`.
abbrev pub year_2000 : Time
year_2000 = 63082281600 * 10 ^ 9

abbrev pub year_2101 : Time
year_2101 = 66269577600 * 10 ^ 9

unfoldable pub require_timestamp : Option Timestamp → Text → Result Time
require_timestamp none field = err (invalid (field ++ lit " is required"))
require_timestamp (some ts) field =
    if is_valid ts
    then (if ltb (as_time ts) year_2000 || leb year_2101 (as_time ts)
        then err (invalid (field ++ lit " out of range"))
        else ok (as_time ts))
    else err (invalid (field ++ lit " invalid"))

-- `time.Hour`, and a window of days.
abbrev pub days : ℕ → Time
days n = n * 24 * 3600 * 10 ^ 9

unfoldable pub validate_time_window : Time → Time → Time → Result (Unit {0})
validate_time_window from to max_range =
    if ltb to from
    then err (invalid (lit "to must be >= from"))
    else (if ltb 0 max_range && ltb max_range (to - from)
        then err (invalid (lit "time range too large"))
        else ok tt)

-- The page after the test: 1-based pages are corrected, 0-based ones refused if negative.
abbrev pub normalize_page : ℤ → Bool → Result ℕ
normalize_page page true = ok (positive_or page 1)
normalize_page page false =
    if is_neg page then err (invalid (lit "page must be >= 0")) else ok (to_ℕ page)

unfoldable pub normalize_page_size : ℤ → ℤ → ℕ → Bool → Result (ℕ × ℕ)
normalize_page_size page size max_size one_based = and_then (normalize_page page one_based) λ p.
    if ltb max_size (positive_or size 50)
    then err (invalid (lit "size max"))
    else ok (p, positive_or size 50)

module _ (X : External) where
  unfoldable pub require_uuid : Text → Text → Result Uuid
  require_uuid raw field = and_then (require_non_blank raw field 64) λ s. elim (X.uuid_parse s) [
    | ok id ↦ ok id
    | err e ↦ err (invalid (field ++ lit " must be a UUID"))
  ]
