-- ===== src/Security/Messages.antt =====
-- micro/ledger/internal/infra/in/grpc/middleware/error_interceptor.go: what a caller learns of an
-- error. The correlation identifier and the server's own log are not part of the answer.
use microservice_workspace.Base.{
  ℕ, zero, suc, ◌+◌, ◌-◌, ◌≤◌, ◌≡◌, inl, inr, refl, Bool, true, false, not, ◌||◌, [], ◌∷◌, ◌++◌,
  length, select, leb, ltb, if◌then◌else◌, ◌==◌, arith, Bool-cases, length-append, ◌≢◌, All,
}
use microservice_workspace.Base.Text.{Text, lit, is_empty, text_eq, trim_space, to_lower}
use microservice_workspace.Base.Result.{
  Code, Error, status, plain, record_not_found, Result, ok, err,
}

-- What a handler does: it returns, fails, or panics.
pub data Outcome (A : Type 0) : Type 0 where
  returned : A → Outcome A
  failed : Error → Outcome A
  panicked : Outcome A

unfoldable pub is_local : Text → Bool
is_local env =
    let e = trim_space (to_lower env) in
    is_empty e || text_eq e (lit "local") || text_eq e (lit "dev")

-- The bytes of a code point in UTF-8.
unfoldable pub width : ℕ → ℕ
width c = if ltb c 0x80 then 1 else if ltb c 0x800 then 2 else if ltb c 0x10000 then 3 else 4

unfoldable pub bytes : Text → ℕ
bytes [] = 0
bytes (c ∷ s) = width c + bytes s

abbrev pub replicate : ℕ → ℕ → Text
replicate zero c = []
replicate (suc n) c = c ∷ replicate n c

-- The first `n` bytes. Bytes of a code point that is cut in two become U+FFFD each.
unfoldable pub cut : ℕ → Text → Text
cut n [] = []
cut n (c ∷ s) =
    let rest = cut (n - width c) s in if leb (width c) n then c ∷ rest else replicate n 0xfffd

abbrev pub is_plain : ℕ → Bool
is_plain c = not (leb c 0x1f || c == 0x7f)

abbrev pub max_bytes : ℕ
max_bytes = 160

unfoldable pub shortened : Text → Text
shortened s = if ltb max_bytes (bytes s) then cut max_bytes s ++ (0x2026 ∷ []) else s

unfoldable pub safe_msg : Text → Text
safe_msg s =
    if is_empty (trim_space s) then lit "error" else select is_plain (shortened (trim_space s))

-- The codes whose message is passed on.
unfoldable pub is_expected : Code → Bool
is_expected Code.invalid_argument = true
is_expected Code.unauthenticated = true
is_expected Code.permission_denied = true
is_expected Code.not_found = true
is_expected Code.already_exists = true
is_expected Code.failed_precondition = true
is_expected Code.resource_exhausted = true
is_expected Code.canceled = true
is_expected Code.deadline_exceeded = true
is_expected c = false

abbrev pub internal_error : Error
internal_error = status Code.internal (lit "internal")

unfoldable pub sanitize_status_error : Text → Code → Text → Error
sanitize_status_error env code msg =
    if is_local env
    then status code msg
    else (if is_expected code then status code (safe_msg msg) else internal_error)

abbrev pub detail : Bool → Text → Error
detail true t = status Code.internal (lit "internal: " ++ t)
detail false t = internal_error

unfoldable pub respond_error : Text → Error → Error
respond_error env (status code msg) = sanitize_status_error env code msg
respond_error env (plain t) = detail (is_local env) t
respond_error env record_not_found = detail (is_local env) (lit "record not found")

-- `NewUnaryErrorInterceptor`
unfoldable pub respond : {A : Type 0} → Text → Outcome A → Result A
respond env (returned a) = ok a
respond env (failed e) = err (respond_error env e)
respond env panicked = err internal_error

width-positive : (c : ℕ) → 1 ≤ width c
unfolding width
width-positive c = ground arith

length-bytes : (s : Text) → length s ≤ bytes s
unfolding bytes
length-bytes [] = omega arith
length-bytes (c ∷ s) = omega (arith, length-bytes s, width-positive c)

length-replicate : (n c : ℕ) → length (replicate n c) ≡ n
length-replicate zero c = refl
length-replicate (suc n) c = omega (arith, length-replicate n c)

length-cut : (n : ℕ) (s : Text) → length (cut n s) ≤ n
unfolding cut
length-cut n [] = omega arith
length-cut n (c ∷ s) = elim (Bool-cases (leb (width c) n)) [
  | inl e ↦ rw e (ground (arith, length-cut (n - width c) s, width-positive c))
  | inr e ↦ rw e (omega (arith, length-replicate n 0xfffd))
]

length-select : (p : ℕ → Bool) (s : Text) → length (select p s) ≤ length s
length-select p [] = omega arith
length-select p (c ∷ s) = ground (arith, length-select p s)

length-shortened : (s : Text) → length (shortened s) ≤ 161
unfolding shortened
length-shortened s = elim (Bool-cases (ltb max_bytes (bytes s))) [
  | inl e ↦
      rw e (omega (arith, length-append (cut max_bytes s) (0x2026 ∷ []), length-cut max_bytes s))
  | inr e ↦ rw e (ground (arith, length-bytes s))
]

-- No control character of ASCII: not below the space, and not DEL.
abbrev pub IsNoControl : ℕ → Type 0
IsNoControl c = (0x20 ≤ c) × (c ≢ 0x7f)

is_plain-IsNoControl : (c : ℕ) → is_plain c ≡ true → IsNoControl c
is_plain-IsNoControl c h = (ground arith, λ e. ground arith)

select-plain : (s : Text) → All IsNoControl (select is_plain s)
select-plain [] = tt
select-plain (c ∷ s) = elim (Bool-cases (is_plain c)) [
  | inl e ↦ rw e (is_plain-IsNoControl c e, select-plain s)
  | inr e ↦ rw e (select-plain s)
]

-- Short, and without control characters of ASCII.
pub record IsClean (t : Text) : Type 0 where
  pub short : length t ≤ 161
  pub printable : All IsNoControl t

error-All : All IsNoControl (lit "error")
unfolding lit
error-All = select-plain (lit "error")

safe_msg-IsClean : (s : Text) → IsClean (safe_msg s)
unfolding safe_msg lit
safe_msg-IsClean s = elim (Bool-cases (is_empty (trim_space s))) [
  | inl e ↦ rw e (record { short = omega arith; printable = error-All })
  | inr e ↦ rw e (record {
    short =
        omega (
          arith,
          length-select is_plain (shortened (trim_space s)),
          length-shortened (trim_space s),
        );
    printable = select-plain (shortened (trim_space s));
  })
]

-- What a caller may learn of a failure: the fixed internal error, or the cleaned message of a
-- status with an expected code, which is then what the handler answered.
pub data IsDiscreet {A : Type 0} (o : Outcome A) (e : Error) : Type 0 where
  hidden : e ≡ internal_error → IsDiscreet o e
  cleaned :
      (code : Code) (msg : Text)
      → o ≡ failed (status code msg)
      → is_expected code ≡ true
      → e ≡ status code (safe_msg msg)
      → IsClean (safe_msg msg)
      → IsDiscreet o e

abbrev pub Discreet : {A : Type 0} → Outcome A → Result A → Type 0
Discreet o (ok a) = o ≡ returned a
Discreet o (err e) = IsDiscreet o e

-- Outside local environments a caller sees either what the handler returned, or the fixed internal
-- error, or a status with an expected code whose message has at most 161 characters, none of them a
-- control character of ASCII. Nothing of any other error or of a panic is shown.
pub respond-Discreet :
    {A : Type 0} (env : Text) (o : Outcome A) → is_local env ≡ false → Discreet o (respond env o)
unfolding respond respond_error sanitize_status_error
respond-Discreet env (returned a) h = refl
respond-Discreet env (failed (status code msg)) h = elim (Bool-cases (is_expected code)) [
  | inl e ↦ rw (h, e) (cleaned code msg refl e refl (safe_msg-IsClean msg))
  | inr e ↦ rw (h, e) (hidden refl)
]
respond-Discreet env (failed (plain t)) h = rw h (hidden refl)
respond-Discreet env (failed record_not_found) h = rw h (hidden refl)
respond-Discreet env panicked h = hidden refl
