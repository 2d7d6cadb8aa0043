-- ===== src/Base/Int.antt =====
-- Signed integers: the two's complement reading of a word.
use Prim.Native.Nat.{ℕ, ◌-◌, ◌^◌}
use nabla.Base.Tests.{ltb, if◌then◌else◌}

-- `negsuc n` is -(n + 1).
pub data ℤ : Type 0 where
  pos : ℕ → ℤ
  negsuc : ℕ → ℤ

-- `x.max(0) as usize`, which is also the number of rounds of `for _ in 0..x`.
abbrev pub pos_part : ℤ → ℕ
pos_part (pos n) = n
pos_part (negsuc n) = 0

-- The value of the bit pattern `u` as a signed integer of `bits` bits.
abbrev pub signed : ℕ → ℕ → ℤ
signed bits u = if ltb u (2 ^ (bits - 1)) then pos u else negsuc (2 ^ bits - u - 1)
