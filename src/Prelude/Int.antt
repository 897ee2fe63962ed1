-- ===== src/Prelude/Int.antt =====
-- Signed integers over the native numbers, and the range of Go's 64-bit ones.
use Prim.Native.Nat.{ℕ, ◌-◌, ◌^◌}
use mathlib.Core.Bool.{Bool, true, false}
use package.flo_mimi.Prelude.Tests.{leb, ltb, if◌then◌else◌}

-- `negsuc n` is -(n + 1).
pub data ℤ : Type 0 where
  pos : ℕ → ℤ
  negsuc : ℕ → ℤ

-- -n
abbrev pub neg : ℕ → ℤ
neg n = if leb n 0 then pos 0 else negsuc (n - 1)

abbrev pub min_int64 : ℤ
min_int64 = negsuc (2 ^ 63 - 1)

-- Whether a magnitude with a sign is in the range of an int64.
abbrev pub fits_int64 : Bool → ℕ → Bool
fits_int64 true n = leb n (2 ^ 63)
fits_int64 false n = ltb n (2 ^ 63)

abbrev pub signed : Bool → ℕ → ℤ
signed true n = neg n
signed false n = pos n

-- Whether an integer is in the range of an int32, that of the database's type integer.
abbrev pub fits_int32 : ℤ → Bool
fits_int32 (pos n) = ltb n (2 ^ 31)
fits_int32 (negsuc n) = ltb n (2 ^ 31)
