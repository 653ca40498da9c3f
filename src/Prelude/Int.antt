-- ===== src/Prelude/Int.antt =====
-- Signed integers over the native numbers, and their two's complement patterns.
use x_kbengine.Prelude.Tests.{ltb, if◌then◌else◌}
use mathlib.Core.Bool.{Bool, true, false}
use Prim.Native.Nat.{ℕ, zero, suc, ◌-◌, ◌^◌}

-- `negsuc n` is -(n + 1).
pub data ℤ : Type 0 where
  pos : ℕ → ℤ
  negsuc : ℕ → ℤ

-- The bit pattern of a signed integer of `2 ^ w` values.
abbrev pub to_pattern : ℕ → ℤ → ℕ
to_pattern w (pos n) = n
to_pattern w (negsuc n) = 2 ^ w - 1 - n

abbrev pub of_pattern : ℕ → ℕ → ℤ
of_pattern w n = if ltb n (2 ^ (w - 1)) then pos n else negsuc (2 ^ w - 1 - n)

abbrev pub pos_part : ℤ → ℕ
pos_part (pos n) = n
pos_part (negsuc n) = 0

-- `++` and `--` on an `int` that does not overflow.
abbrev pub increment : ℤ → ℤ
increment (pos n) = pos (suc n)
increment (negsuc zero) = pos 0
increment (negsuc (suc n)) = negsuc n

abbrev pub decrement : ℤ → ℤ
decrement (pos zero) = negsuc 0
decrement (pos (suc n)) = pos n
decrement (negsuc n) = negsuc (suc n)

abbrev pub is_zero : ℤ → Bool
is_zero (pos zero) = true
is_zero (pos (suc n)) = false
is_zero (negsuc n) = false
