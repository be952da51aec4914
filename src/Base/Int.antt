-- ===== src/Base/Int.antt =====
-- Signed integers, of which the program tests the sign, and Go's division and narrowing of them.
use Prim.Native.Nat.{ℕ, zero, suc, ◌-◌, ◌/◌, ◌%◌}
use mathlib.Core.Bool.{Bool, true, false}
use yatai_deployment.Base.Tests.{ltb, if◌then◌else◌}

-- `negsuc n` is -(n + 1).
pub data ℤ : Type 0 where
  pos : ℕ → ℤ
  negsuc : ℕ → ℤ

-- `x > 0`
abbrev pub is_positive : ℤ → Bool
is_positive (pos zero) = false
is_positive (pos (suc n)) = true
is_positive (negsuc n) = false

abbrev pub neg : ℕ → ℤ
neg zero = pos zero
neg (suc n) = negsuc n

-- `x / 2`, which rounds towards 0.
abbrev pub half : ℤ → ℤ
half (pos n) = pos (n / 2)
half (negsuc n) = neg (suc n / 2)

-- The signed reading of the 32 bits of a number.
abbrev signed32 : ℕ → ℤ
signed32 n = if ltb n (2147483648) then pos n else negsuc (4294967296 - 1 - n)

-- `int32(x)`, which keeps the lowest 32 bits.
unfoldable pub int32 : ℤ → ℤ
int32 (pos n) = signed32 (n % 4294967296)
int32 (negsuc n) = signed32 (4294967296 - 1 - n % 4294967296)
