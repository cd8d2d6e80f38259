-- ===== src/Base/Int.antt =====
-- Signed integers over the native numbers: what a bit pattern of Go's int32 or int64 stands for.
use Prim.Native.Nat.{ℕ, ◌-◌, ◌^◌}
use mcgv.Base.Tests.{ltb, if◌then◌else◌}

-- `negsuc n` is -(n + 1).
pub data ℤ : Type 0 where
  pos : ℕ → ℤ
  negsuc : ℕ → ℤ

-- The value of a two's complement pattern of `w` bits.
abbrev pub signed : ℕ → ℕ → ℤ
signed w n = if ltb n (2 ^ (w - 1)) then pos n else negsuc (2 ^ w - n - 1)
