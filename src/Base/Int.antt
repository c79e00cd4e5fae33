-- ===== src/Base/Int.antt =====
-- Signed integers over the native numbers, for the page numbers and sizes of requests.
use Prim.Native.Nat.{ℕ, zero, suc, ◌-◌, ◌%◌, ◌^◌}
use microservice_workspace.Base.Tests.{ltb, if◌then◌else◌}
use mathlib.Core.Bool.{Bool, true, false}

-- `negsuc n` is -(n + 1).
pub data ℤ : Type 0 where
  pos : ℕ → ℤ
  negsuc : ℕ → ℤ

-- `n <= 0`, `n < 0`
abbrev pub is_nonpos : ℤ → Bool
is_nonpos (pos zero) = true
is_nonpos (pos (suc n)) = false
is_nonpos (negsuc n) = true

abbrev pub is_neg : ℤ → Bool
is_neg (pos n) = false
is_neg (negsuc n) = true

-- The value of a number that is not negative.
abbrev pub to_ℕ : ℤ → ℕ
to_ℕ (pos n) = n
to_ℕ (negsuc n) = 0

-- `if n <= 0 { n = d }`
abbrev pub positive_or : ℤ → ℕ → ℕ
positive_or (pos zero) d = d
positive_or (pos (suc n)) d = suc n
positive_or (negsuc n) d = d

-- A conversion to int32, which keeps the low 32 bits.
abbrev pub of_word : ℕ → ℤ
of_word n = if ltb n (2 ^ 31) then pos n else negsuc (2 ^ 32 - 1 - n)

unfoldable pub int32 : ℤ → ℤ
int32 (pos n) = of_word (n % 2 ^ 32)
int32 (negsuc n) = of_word (2 ^ 32 - 1 - n % 2 ^ 32)
