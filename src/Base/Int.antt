-- ===== src/Base/Int.antt =====
-- Python's unbounded signed integers, as a request body carries them, and the 32-bit columns that
-- they are written to.
use retail_ops_microservices.Base.Tests.{ltb, leb, if◌then◌else◌}
use Prim.Native.Nat.{ℕ, ◌^◌, ◌-◌}
use mathlib.Core.Bool.{Bool}
use mathlib.Core.Option.{Option, none, some}

-- `negsuc n` is -(n + 1).
pub data ℤ : Type 0 where
  pos : ℕ → ℤ
  negsuc : ℕ → ℤ

-- `Field(ge=0)`: the value, if it is accepted.
abbrev pub non_negative : ℤ → Option ℕ
non_negative (pos n) = some n
non_negative (negsuc n) = none

-- `Field(gt=0)`
abbrev pub positive : ℤ → Option ℕ
positive (pos n) = if ltb 0 n then some n else none
positive (negsuc n) = none

-- The largest value of an `sa.Integer` column.
abbrev pub int32_max : ℕ
int32_max = 2 ^ 31 - 1

abbrev pub fits_int32 : ℕ → Bool
fits_int32 n = leb n int32_max
