-- ===== src/Base/Result.antt =====
-- Errors as values: the `error` results of the Go code, a state and exception monad for code with
-- effects, and its rules for postconditions.
use mathlib.Core.Path.{ap, subst, ◌≡◌, refl}
use mathlib.Core.Bool.{Bool, true, false}
use microservice_workspace.Base.Text.{Text}

-- The gRPC codes (google.golang.org/grpc/codes).
pub data Code : Type 0 where
  canceled unknown invalid_argument deadline_exceeded not_found already_exists : Code
  permission_denied resource_exhausted failed_precondition aborted out_of_range : Code
  unimplemented internal unavailable data_loss unauthenticated : Code

-- A Go `error`: a gRPC status, gorm.ErrRecordNotFound, which the code recognises by errors.Is, or
-- any other error, of which only the text is used.
pub data Error : Type 0 where
  status : Code → Text → Error
  record_not_found : Error
  plain : Text → Error

pub data Result {ℓ} (A : Type ℓ) : Type ℓ where
  ok : A → Result A
  err : Error → Result A

-- `if err != nil { return ..., err }` between pure steps.
unfoldable pub and_then {ℓ κ} : {A : Type ℓ} {B : Type κ} → Result A → (A → Result B) → Result B
and_then (ok a) f = f a
and_then (err e) f = err e

pub and_then-eq-ok {ℓ κ} :
    {A : Type ℓ} {B : Type κ} (m : Result A) (f : A → Result B) {b : B}
    → and_then m f ≡ ok b
    → (a : A) × (m ≡ ok a) × (f a ≡ ok b)
unfolding and_then
and_then-eq-ok (ok a) f h = (a, refl, h)
and_then-eq-ok (err e) f h = cc

-- Code with effects on a world `W`. The world comes back after an error too.
abbrev pub M : Type 0 → Type 0 → Type 0
M W A = W → Result A × W

infixl 5 ◌>>=◌ ◌>>◌
abbrev pub ◌>>=◌ : {W A B : Type 0} → M W A → (A → M W B) → M W B
◌>>=◌ m f w = let (r, w') = m w in elim r [ ok a ↦ f a w' | err e ↦ (err e, w') ]

abbrev pub ◌>>◌ : {W A B : Type 0} → M W A → M W B → M W B
m >> k = m >>= λ _. k

module _ {W A : Type 0} where
  abbrev pub pure : A → M W A
  pure a w = (ok a, w)

  abbrev pub raise : Error → M W A
  raise e w = (err e, w)

  -- A pure result as an action.
  abbrev pub from_result : Result A → M W A
  from_result r w = (r, w)

  -- The outcome of an action as a value: `x, err := m`, and `_ = m`.
  abbrev pub attempt : M W A → M W (Result A)
  attempt m w = let (r, w') = m w in (ok r, w')

  -- What holds of the result and the world after an action: `Q` if it returned, `E` if it failed.
  abbrev pub Post : (A → W → Type 0) → (Error → W → Type 0) → Result A × W → Type 0
  Post Q E (ok a, w) = Q a w
  Post Q E (err e, w) = E e w

abbrev pub raise_if : {W : Type 0} → Bool → Error → M W (Unit {0})
raise_if true e w = (err e, w)
raise_if false e w = (ok tt, w)

module _ {W A B : Type 0} where
  pub Post-bind :
      (R : A → W → Type 0) (Q : B → W → Type 0) (E : Error → W → Type 0) (m : M W A) (f : A → M W B)
      (w : W)
      → Post R E (m w)
      → ((a : A) (w' : W) → R a w' → Post Q E (f a w'))
      → Post Q E ((m >>= f) w)
  Post-bind R Q E m f w h k = go (m w) h
    where
      go :
          (r : Result A × W)
          → Post R E r
          → Post Q E (let (r', w') = r in elim r' [ ok a ↦ f a w' | err e ↦ (err e, w') ])
      go (ok a, w') g = k a w' g
      go (err e, w') g = g

module _ {W A : Type 0} where
  pub Post-weaken :
      (Q Q' : A → W → Type 0) (E E' : Error → W → Type 0) (r : Result A × W)
      → Post Q E r
      → ((a : A) (w : W) → Q a w → Q' a w)
      → ((e : Error) (w : W) → E e w → E' e w)
      → Post Q' E' r
  Post-weaken Q Q' E E' (ok a, w) h f g = f a w h
  Post-weaken Q Q' E E' (err e, w) h f g = g e w h

  -- A property of the world alone, which holds however the action ended.
  pub Post-world : (P : W → Type 0) (r : Result A × W) → Post (λ _ w. P w) (λ _ w. P w) r → P r.1
  Post-world P (ok a, w) h = h
  Post-world P (err e, w) h = h

-- What holds of a result that is not an error.
abbrev pub Ensures {ℓ κ} : {A : Type ℓ} → (A → Type κ) → Result A → Type κ
Ensures P (ok a) = P a
Ensures P (err e) = Unit

pub Ensures-and_then {ℓ κ} :
    {A B : Type ℓ} {P : A → Type κ} (Q : B → Type κ) (m : Result A) (f : A → Result B)
    → Ensures P m
    → ((a : A) → P a → Ensures Q (f a))
    → Ensures Q (and_then m f)
unfolding and_then
Ensures-and_then Q (ok a) f h k = k a h
Ensures-and_then Q (err e) f h k = tt

-- A step of which nothing needs to be known.
pub Ensures-any {ℓ κ} :
    {A B : Type ℓ} (Q : B → Type κ) (m : Result A) (f : A → Result B)
    → ((a : A) → Ensures Q (f a))
    → Ensures Q (and_then m f)
unfolding and_then
Ensures-any Q (ok a) f k = k a
Ensures-any Q (err e) f k = tt

-- What an action ensures of the values it returns, for one that it did return.
pub Post-ok :
    {W A : Type 0} (P : A → Type 0) (E : Error → W → Type 0) (p : Result A × W) (a : A)
    → Post (λ b _. P b) E p
    → p.0 ≡ ok a
    → P a
Post-ok P E (ok b, w) a h e = subst P (cc) h
Post-ok P E (err f, w) a h e = cc

-- A chain whose first action is known to return.
pub bind-eq :
    {W A B : Type 0} (m : M W A) (f : A → M W B) (w : W) (a : A) (v : W)
    → m w ≡ (ok a, v)
    → (m >>= f) w ≡ f a v
bind-eq {W} {A} {B} m f w a v h =
    ap
      (λ (p : Result A × W). elim (p.0) as (λ _. Result B × W) [
        | ok b ↦ f b p.1
        | err e ↦ (err e, p.1)
      ])
      h

-- Two facts on the same outcome.
pub Post-both :
    {W A : Type 0} (Q Q' : A → W → Type 0) (E : Error → W → Type 0) (r : Result A × W)
    → Post Q E r
    → Post Q' (λ _ _. Unit) r
    → Post (λ a w. Q a w × Q' a w) E r
Post-both Q Q' E (ok a, w) h k = (h, k)
Post-both Q Q' E (err e, w) h k = h

pub Post-any :
    {W A : Type 0} (Q : A → W → Type 0) (r : Result A × W)
    → ((a : A) (w : W) → Q a w)
    → Post Q (λ _ _. Unit) r
Post-any Q (ok a, w) h = h a w
Post-any Q (err e, w) h = tt
