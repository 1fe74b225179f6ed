-- ===== src/Prelude/Int.antt =====
-- Signed numbers over the native ℕ, for the C ints that take a negative value.
use Prim.Native.Nat.{ℕ, suc, ◌-◌, ◌%◌, ◌^◌}
use mathlib.Core.Bool.{Bool, true, false}
use openr.Prelude.Tests.{ltb, leb, if◌then◌else◌}

-- `negsuc n` is -(n + 1).
pub data ℤ : Type 0 where
  pos : ℕ → ℤ
  negsuc : ℕ → ℤ

abbrev pub pos_part : ℤ → ℕ
pos_part (pos n) = n
pos_part (negsuc n) = 0

abbrev pub neg_part : ℤ → ℕ
neg_part (pos n) = 0
neg_part (negsuc n) = suc n

-- a - b, as an integer.
abbrev pub sub_ℕ : ℕ → ℕ → ℤ
sub_ℕ a b = if leb b a then pos (a - b) else negsuc (b - a - 1)

-- The integer is above 0.
abbrev pub is_positive : ℤ → Bool
is_positive (pos n) = ltb 0 n
is_positive (negsuc n) = false

-- The integer as a C condition.
abbrev pub int_nonzero : ℤ → Bool
int_nonzero (pos n) = ltb 0 n
int_nonzero (negsuc n) = true

-- The cast `(uint32_t)` of an int.
abbrev pub to_u32 : ℤ → ℕ
to_u32 (pos n) = n
to_u32 (negsuc n) = 2 ^ 32 - suc n

-- The 32 bits `n` as an int.
abbrev pub i32_of : ℕ → ℤ
i32_of n = if ltb n (2 ^ 31) then pos n else negsuc (2 ^ 32 - 1 - n)

-- The integer as it is stored in an int of 32 bits.
abbrev pub to_i32 : ℤ → ℤ
to_i32 (pos n) = i32_of (n % 2 ^ 32)
to_i32 (negsuc n) = i32_of (2 ^ 32 - 1 - n % 2 ^ 32)
