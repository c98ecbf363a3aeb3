-- ===== src/Prelude/Int.antt =====
-- Go's signed `int` and `int64`: the integers from -2^63 up to 2^63 - 1, with wrap-around.
use Prim.Native.Nat.{ℕ, zero, suc, ◌+◌, ◌-◌, ◌%◌, ◌^◌}
use go_task_flow.Prelude.Tests.{ltb, if◌then◌else◌}

-- `negsuc n` is -(n + 1).
pub data ℤ : Type 0 where
  pos : ℕ → ℤ
  negsuc : ℕ → ℤ

-- The 64-bit pattern of a natural number, read as a signed integer.
unfoldable pub int64 : ℕ → ℤ
int64 n = let m = n % 2 ^ 64 in if ltb m (2 ^ 63) then pos m else negsuc (2 ^ 64 - 1 - m)

-- The 32-bit pattern of a signed integer, as the conversion to int32 keeps it.
unfoldable pub bits32 : ℤ → ℕ
bits32 (pos n) = n % 2 ^ 32
bits32 (negsuc n) = 2 ^ 32 - 1 - n % 2 ^ 32

-- n + 1 on `int`.
unfoldable pub add_one : ℤ → ℤ
unfolding int64
add_one (pos n) = int64 (n + 1)
add_one (negsuc zero) = pos 0
add_one (negsuc (suc n)) = negsuc n

-- -n.
unfoldable pub neg : ℕ → ℤ
neg zero = pos 0
neg (suc n) = negsuc n
