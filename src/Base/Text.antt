-- ===== src/Base/Text.antt =====
-- Go strings that the program walks or compares, as lists of code points, and what the source
-- uses of the packages strings and unicode. A literal is written `lit "..."`; `lit` is shut, so
-- that proofs treat a literal as a name.
use Prim.Native.Nat.{ℕ, ◌+◌, ◌-◌}
use Prim.Native.Char.{code}
use Prim.Native.String.{String}
use mathlib.Core.Path.{◌≡◌, refl}
use mathlib.Core.Logic.{◌↔◌}
use mathlib.Core.Bool.{Bool, true, false, ◌&&◌, ◌||◌}
use mathlib.Core.List.{List, [], ◌∷◌, map}
use native.Mathlib.Omega.{arith}
use microservice_workspace.Base.Tests.{leb, ◌==◌, if◌then◌else◌}

abbrev pub Text : Type 0
Text = List ℕ

abbrev pub codes : String → Text
codes String.[] = []
codes (String.◌∷◌ c s) = code c ∷ codes s

unfoldable pub lit : String → Text
lit s = codes s

-- `s == ""`
abbrev pub is_empty : Text → Bool
is_empty [] = true
is_empty (c ∷ s) = false

-- `s == t`
abbrev pub text_eq : Text → Text → Bool
text_eq [] [] = true
text_eq [] (d ∷ t) = false
text_eq (c ∷ s) [] = false
text_eq (c ∷ s) (d ∷ t) = c == d && text_eq s t

pub text_eq_iff : (s t : Text) → (text_eq s t ≡ true) ↔ (s ≡ t)
text_eq_iff [] [] = ground arith
text_eq_iff [] (d ∷ t) = ground arith
text_eq_iff (c ∷ s) [] = ground arith
text_eq_iff (c ∷ s) (d ∷ t) = ground (arith, text_eq_iff s t)

pub text_eq_refl : (s : Text) → text_eq s s ≡ true
text_eq_refl s = (text_eq_iff s s).1 refl

-- `strings.HasPrefix s p`
abbrev pub has_prefix : Text → Text → Bool
has_prefix s [] = true
has_prefix [] (d ∷ p) = false
has_prefix (c ∷ s) (d ∷ p) = c == d && has_prefix s p

-- `strings.Contains s p`
abbrev pub contains : Text → Text → Bool
contains [] p = has_prefix [] p
contains (c ∷ s) p = has_prefix (c ∷ s) p || contains s p

abbrev pub between : ℕ → ℕ → ℕ → Bool
between lo hi c = leb lo c && leb c hi

-- `unicode.IsSpace`
unfoldable pub is_space : ℕ → Bool
is_space c =
    between 0x9 0xd c
    || c == 0x20
    || c == 0x85
    || c == 0xa0
    || c == 0x1680
    || between 0x2000 0x200a c
    || c == 0x2028
    || c == 0x2029
    || c == 0x202f
    || c == 0x205f
    || c == 0x3000

unfoldable pub trim_left : Text → Text
trim_left [] = []
trim_left (c ∷ s) = if is_space c then trim_left s else c ∷ s

-- Drops trailing spaces.
unfoldable pub trim_right : Text → Text
trim_right [] = []
trim_right (c ∷ s) = let r = trim_right s in if is_empty r && is_space c then [] else c ∷ r

-- `strings.TrimSpace`
unfoldable pub trim_space : Text → Text
trim_space s = trim_right (trim_left s)

-- `unicode.ToUpper` where the result can be ASCII: a to z, U+0131 and U+017F. Other code points
-- have no ASCII upper case and are left as they are, since every caller tests the result against
-- an ASCII class.
unfoldable pub rune_to_upper : ℕ → ℕ
rune_to_upper c =
    if between b'a' b'z' c
    then c - 32
    else if c == 0x131
    then b'I'
    else if c == 0x17f
    then b'S'
    else c

-- `unicode.ToLower` likewise: A to Z, U+0130 and U+212A have an ASCII lower case.
unfoldable pub rune_to_lower : ℕ → ℕ
rune_to_lower c =
    if between b'A' b'Z' c
    then c + 32
    else if c == 0x130
    then b'i'
    else if c == 0x212a
    then b'k'
    else c

unfoldable pub to_upper : Text → Text
unfolding rune_to_upper
to_upper s = map rune_to_upper s

unfoldable pub to_lower : Text → Text
unfolding rune_to_lower
to_lower s = map rune_to_lower s

abbrev pub is_digit : ℕ → Bool
is_digit c = between b'0' b'9' c

abbrev pub is_upper : ℕ → Bool
is_upper c = between b'A' b'Z' c

abbrev pub is_lower : ℕ → Bool
is_lower c = between b'a' b'z' c

abbrev pub is_alnum : ℕ → Bool
is_alnum c = is_upper c || is_lower c || is_digit c
