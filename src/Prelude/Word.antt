-- ===== src/Prelude/Word.antt =====
-- C's fixed-width integers: unsigned values are native numbers below 2 ^ w, signed values are
-- integers, and a cast between the two is reduction modulo 2 ^ w in two's complement.
use Prim.Native.Nat.{ℕ, ◌-◌, ◌%◌, ◌^◌, ◌<◌}
use mathlib.Core.Path.{◌≡◌}
use native.Mathlib.Omega.{arith}
use incubator_age.Prelude.Tests.{ltb, if◌then◌else◌}
use incubator_age.Prelude.Int.{ℤ, pos, negsuc, ◌≤ℤ◌}

-- (uint64) x
abbrev pub to_uint64 : ℤ → ℕ
to_uint64 (pos n) = n % 2 ^ 64
to_uint64 (negsuc n) = 2 ^ 64 - 1 - n % 2 ^ 64

-- (int64) u
abbrev pub to_int64 : ℕ → ℤ
to_int64 u = let w = u % 2 ^ 64 in if ltb w (2 ^ 63) then pos w else negsuc (2 ^ 64 - 1 - w)

-- (int32) u
abbrev pub to_int32 : ℕ → ℤ
to_int32 u = let w = u % 2 ^ 32 in if ltb w (2 ^ 31) then pos w else negsuc (2 ^ 32 - 1 - w)

-- (uint32) x
abbrev pub to_uint32 : ℤ → ℕ
to_uint32 (pos n) = n % 2 ^ 32
to_uint32 (negsuc n) = 2 ^ 32 - 1 - n % 2 ^ 32

-- Signed arithmetic on int64, where it leaves the range (PostgreSQL builds with -fwrapv).
abbrev pub wrap_int64 : ℤ → ℤ
wrap_int64 x = to_int64 (to_uint64 x)

-- x fits in an int64.
pub record IsInt64 (x : ℤ) : Type 0 where
  pub above : negsuc (2 ^ 63 - 1) ≤ℤ x
  pub below : x ≤ℤ pos (2 ^ 63 - 1)

pub to_int64-to_uint64 : (x : ℤ) → IsInt64 x → to_int64 (to_uint64 x) ≡ x
to_int64-to_uint64 (pos n) h = ground arith
to_int64-to_uint64 (negsuc n) h = ground arith

pub to_uint64-to_int64 : (u : ℕ) → u < 2 ^ 64 → to_uint64 (to_int64 u) ≡ u
to_uint64-to_int64 u h = ground arith

pub to_uint64-lt : (x : ℤ) → to_uint64 x < 2 ^ 64
to_uint64-lt (pos n) = omega arith
to_uint64-lt (negsuc n) = omega arith
