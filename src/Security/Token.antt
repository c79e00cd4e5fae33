-- ===== src/Security/Token.antt =====
-- micro/ledger/internal/infra/security/jwt/validator.go: the checks on a bearer token after the
-- package golang-jwt has verified it. The keys are fetched over HTTP and cached; fetching, parsing
-- and the signature are the parameter `parse`, which answers with the claims of the token.
use microservice_workspace.Base.{
  ◌==◌, ◌+◌, ◌-◌, refl, ◌≡◌, ◌≤◌, inl, inr, Bool, true, false, not, ◌&&◌, Option, none, some, List,
  any, drop, if◌then◌else◌, ltb, arith, Bool-cases, ℕ,
}
use microservice_workspace.Base.Int.{pos, negsuc, ℤ, is_nonpos}
use microservice_workspace.Base.{◌*◌, ◌^◌, [], ◌∷◌}
use microservice_workspace.Base.Text.{
  Text, lit, is_empty, text_eq, has_prefix, trim_space, to_lower,
}
use microservice_workspace.Base.Result.{
  Error, plain, Result, ok, err, M, Post, Post-bind, ◌>>=◌, ◌>>◌, pure, raise, raise_if,
}
use mathlib.Core.Path.{subst, sym}
use microservice_workspace.Base.Result.{Post-weaken}
use microservice_workspace.Domain.{Time, Actor}
use microservice_workspace.Domain.External.{External}
use microservice_workspace.Store.{World}
use microservice_workspace.Store.Calls.{time_now}

-- A claim whose type the validator tests: a string; `[]any`, with none for what is no string in
-- it; `[]string`; a float64, of which only the integer part is used; a json.Number; anything else.
pub data Value : Type 0 where
  string : Text → Value
  array : List (Option Text) → Value
  strings : List Text → Value
  float : ℤ → Value
  number : ℤ → Value
  other : Value

-- The claims of a verified token that the validator reads.
pub record MapClaims : Type 0 where
  pub iss : Text
  pub aud : Value
  pub exp : Value
  pub sub : Text
  pub groups : Value
  pub custom_customer_id : Text
  pub customer_id : Text
  pub amr : Value

pub record Claims : Type 0 where
  pub actor : Actor
  pub issuer : Text
  pub audience : List Text
  pub expires_at : Option Time

pub record Validator (X : External) : Type 0 where
  pub issuer : Text
  pub audience : Text
  pub parse : Text → X.Env → Result MapClaims × X.Env

abbrev pub missing_token : Error
missing_token = plain (lit "missing bearer token")

abbrev pub invalid_token : Error
invalid_token = plain (lit "invalid token")

abbrev pub invalid_issuer : Error
invalid_issuer = plain (lit "invalid issuer")

abbrev pub invalid_audience : Error
invalid_audience = plain (lit "invalid audience")

-- `if s, ok := x.(string); ok && s != ""`
abbrev pub nonempty_strings : List (Option Text) → List Text
nonempty_strings [] = []
nonempty_strings (none ∷ xs) = nonempty_strings xs
nonempty_strings (some [] ∷ xs) = nonempty_strings xs
nonempty_strings (some (c ∷ s) ∷ xs) = (c ∷ s) ∷ nonempty_strings xs

abbrev pub one_string : Text → List Text
one_string [] = []
one_string (c ∷ s) = (c ∷ s) ∷ []

unfoldable pub extract_audience : Value → List Text
extract_audience (string t) = one_string t
extract_audience (array xs) = nonempty_strings xs
extract_audience (strings ts) = []
extract_audience (float n) = []
extract_audience (number n) = []
extract_audience other = []

unfoldable pub extract_string_array : Value → List Text
extract_string_array (string t) = one_string t
extract_string_array (array xs) = nonempty_strings xs
extract_string_array (strings ts) = ts
extract_string_array (float n) = []
extract_string_array (number n) = []
extract_string_array other = []

-- 1970 in seconds from the start of year 1.
abbrev pub unix_seconds : ℕ
unix_seconds = 62135596800

-- `time.Unix(n, 0)`, none for the zero time. A time before year 1 counts as its start: it is past
-- as well.
abbrev pub unix : ℤ → Option Time
unix (pos n) = some ((unix_seconds + n) * 10 ^ 9)
unix (negsuc n) = if n + 1 == unix_seconds then none else some ((unix_seconds - (n + 1)) * 10 ^ 9)

unfoldable pub extract_time : Value → Option Time
extract_time (float n) = unix n
extract_time (number n) = if is_nonpos n then none else unix n
extract_time (string t) = none
extract_time (array xs) = none
extract_time (strings ts) = none
extract_time other = none

unfoldable pub claims_of : MapClaims → Claims
claims_of mc = record {
  actor = record {
    subject = mc.sub;
    customer_id = if is_empty mc.custom_customer_id then mc.customer_id else mc.custom_customer_id;
    roles = extract_string_array mc.groups;
    mfa = any (λ x. text_eq (to_lower x) (lit "mfa")) (extract_string_array mc.amr);
  };
  issuer = mc.iss;
  audience = extract_audience mc.aud;
  expires_at = extract_time mc.exp;
}

module _ (X : External) (v : Validator X) where
  -- `parser.ParseWithClaims`
  abbrev pub parsed : Text → M (World X) (Result MapClaims)
  parsed token w = let (r, env') = v.parse token w.env in (ok r, record w { env = env' })

  abbrev pub claims_or_invalid : Result MapClaims → M (World X) MapClaims
  claims_or_invalid (ok mc) = pure mc
  claims_or_invalid (err e) = raise invalid_token

  abbrev wrong_issuer : Text → Bool
  wrong_issuer iss = not (is_empty v.issuer) && not (text_eq iss v.issuer)

  abbrev wrong_audience : List Text → Bool
  wrong_audience auds = not (is_empty v.audience) && not (any (text_eq v.audience) auds)

  -- `!exp.IsZero() && time.Now().UTC().After(exp)`
  unfoldable pub check_expiry : Option Time → M (World X) (Unit {0})
  check_expiry none = pure tt
  check_expiry (some exp) = time_now X >>= λ now. raise_if (ltb exp now) invalid_token

  -- Audience and expiry; before them, the issuer.
  abbrev pub audience_and_expiry : MapClaims → M (World X) Claims
  audience_and_expiry mc =
      raise_if (wrong_audience (extract_audience mc.aud)) invalid_audience
      >> (check_expiry (extract_time mc.exp) >> pure (claims_of mc))

  abbrev pub checked : MapClaims → M (World X) Claims
  checked mc = raise_if (wrong_issuer mc.iss) invalid_issuer >> audience_and_expiry mc

  -- Of a token that is not empty.
  unfoldable pub parse_and_check : Text → M (World X) Claims
  parse_and_check token = parsed token >>= λ r. claims_or_invalid r >>= checked

  unfoldable pub validate_token : Text → M (World X) Claims
  validate_token token = raise_if (is_empty token) missing_token >> parse_and_check token

  abbrev pub after_prefix : Text → M (World X) Claims
  after_prefix raw =
      raise_if (not (has_prefix (to_lower raw) (lit "bearer "))) missing_token
      >> validate_token (trim_space (drop 7 raw))

  unfoldable pub validate_bearer : Text → M (World X) Claims
  validate_bearer header =
      raise_if (is_empty (trim_space header)) missing_token >> after_prefix (trim_space header)

  -- Not past its expiry when the clock is read at `at`.
  abbrev pub IsFresh : X.Env → Option Time → Type 0
  IsFresh at none = Unit
  IsFresh at (some exp) = (X.time_now at).0 ≤ exp

  -- The token, parsed at `at`, has the claims, is from the issuer and for the audience that the
  -- validator is for, if it is for any, and has not expired by the clock right after.
  pub record IsTrusted (token : Text) (at : X.Env) (c : Claims) : Type 0 where
    pub verified : MapClaims
    pub parsed_as : (v.parse token at).0 ≡ ok verified
    pub same_claims : c ≡ claims_of verified
    pub issuer_ok : wrong_issuer c.issuer ≡ false
    pub audience_ok : wrong_audience c.audience ≡ false
    pub fresh : IsFresh (v.parse token at).1 c.expires_at

  -- The token stands in the header, after the word Bearer.
  pub record IsBearer (header token : Text) : Type 0 where
    pub prefixed : has_prefix (to_lower (trim_space header)) (lit "bearer ") ≡ true
    pub rest : token ≡ trim_space (drop 7 (trim_space header))

  abbrev Anything : Error → World X → Type 0
  Anything e w = Unit

  guarded_by :
      {A : Type 0} (Q : A → World X → Type 0) (b : Bool) (e : Error) (k : M (World X) A)
      (w : World X)
      → (b ≡ false → Post Q Anything (k w))
      → Post Q Anything ((raise_if b e >> k) w)
  guarded_by Q true e k w h = tt
  guarded_by Q false e k w h = h refl

  check_expiry-IsFresh :
      (exp : Option Time) (w : World X)
      → Post (λ _ _. IsFresh w.env exp) Anything (check_expiry exp w)
  unfolding check_expiry time_now
  check_expiry-IsFresh none w = tt
  check_expiry-IsFresh (some exp) w = elim (Bool-cases (ltb exp (X.time_now w.env).0)) [
    | inl e ↦ rw e tt
    | inr e ↦ rw e (ground arith)
  ]

  checked-IsTrusted :
      (token : Text) (at : X.Env) (r : Result MapClaims) (w : World X)
      → (v.parse token at).0 ≡ r
      → (v.parse token at).1 ≡ w.env
      → Post (λ c _. IsTrusted token at c) Anything ((claims_or_invalid r >>= checked) w)
  unfolding claims_of
  checked-IsTrusted token at (err e) w p q = tt
  checked-IsTrusted token at (ok mc) w p q =
      guarded_by (λ c _. IsTrusted token at c) (wrong_issuer mc.iss) invalid_issuer
        (audience_and_expiry mc) w
        λ i.
          guarded_by (λ c _. IsTrusted token at c) (wrong_audience (extract_audience mc.aud))
            invalid_audience (check_expiry (extract_time mc.exp) >> pure (claims_of mc)) w
            λ a.
              Post-bind (λ _ _. IsFresh w.env (extract_time mc.exp)) (λ c _. IsTrusted token at c)
                Anything (check_expiry (extract_time mc.exp)) (λ _. pure (claims_of mc)) w
                (check_expiry-IsFresh (extract_time mc.exp) w)
                λ _ _ f.
                  let t : IsTrusted token at (claims_of mc) = record {
                    verified = mc;
                    parsed_as = p;
                    same_claims = refl;
                    issuer_ok = i;
                    audience_ok = a;
                    fresh = subst (λ e. IsFresh e (extract_time mc.exp)) (sym q) f;
                  } in
                  t

  parse_and_check-IsTrusted :
      (token : Text) (w : World X)
      → Post (λ c _. IsTrusted token w.env c) Anything (parse_and_check token w)
  unfolding parse_and_check
  parse_and_check-IsTrusted token w =
      let (r, env') = v.parse token w.env in
      checked-IsTrusted token w.env r (record w { env = env' }) refl refl

  validate_token-IsTrusted :
      (token : Text) (w : World X)
      → Post (λ c _. IsTrusted token w.env c) Anything (validate_token token w)
  unfolding validate_token
  validate_token-IsTrusted token w =
      guarded_by (λ c _. IsTrusted token w.env c) (is_empty token) missing_token
        (parse_and_check token) w λ _. parse_and_check-IsTrusted token w

  -- The header holds a trusted token with these claims, when it is looked at in `at`.
  abbrev pub HoldsTrusted : Text → X.Env → Claims → Type 0
  HoldsTrusted header at c = (token : Text) × IsBearer header token × IsTrusted token at c

  -- A header that the validator accepts holds a token after the word Bearer; the claims are those
  -- that this token parses to, they are of the validator's issuer and for its audience, and they
  -- have not expired by the clock that is read right after the token is parsed.
  pub validate_bearer-IsTrusted :
      (header : Text) (w : World X)
      → Post (λ c _. HoldsTrusted header w.env c) (λ _ _. Unit) (validate_bearer header w)
  unfolding validate_bearer
  validate_bearer-IsTrusted header w =
      let raw = trim_space header in
      let token = trim_space (drop 7 raw) in
      let Q : Claims → World X → Type 0 = λ c _. HoldsTrusted header w.env c in
      guarded_by Q (is_empty raw) missing_token (after_prefix raw) w λ _.
        guarded_by Q (not (has_prefix (to_lower raw) (lit "bearer "))) missing_token
          (validate_token token) w
          λ p.
            Post-weaken (λ c _. IsTrusted token w.env c) Q Anything (λ _ _. Unit)
              (validate_token token w) (validate_token-IsTrusted token w)
              (λ c _ t. (
                token,
                record {
                  prefixed = not_false (has_prefix (to_lower raw) (lit "bearer ")) p;
                  rest = refl;
                },
                t,
              ))
              (λ _ _ _. tt)
    where
      not_false : (b : Bool) → not b ≡ false → b ≡ true
      not_false true h = refl
      not_false false h = cc
