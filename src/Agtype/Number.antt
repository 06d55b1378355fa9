-- ===== src/Agtype/Number.antt =====
-- float8 values as IEEE 754 patterns: C's isnan, <, > and ==, the cast from int64, and
-- compare_two_floats_orderability of agtype_util.c.
pub mod FloatOrder
use incubator_age.Prelude.{
  ℕ, zero, suc, ◌≡◌, refl, ◌+◌, ◌-◌, ◌*◌, ◌/◌, ◌%◌, ◌^◌, Bool, true, false, not, ◌&&◌, ◌||◌, ltb,
  leb, ◌==◌, if◌then◌else◌,
}
use incubator_age.Prelude.Int.{ℤ, pos, negsuc, sub_ℕ, ltb_ℤ, eqb_ℤ}

-- isnan: all exponent bits, and some bit of the fraction
unfoldable pub isnan : ℕ → Bool
isnan f = (f / 2 ^ 52 % 2 ^ 11 == 2047) && not (f % 2 ^ 52 == 0)

-- The place of a number that is no NaN: its magnitude bits with its sign. The two zeros agree.
unfoldable pub float_place : ℕ → ℤ
float_place f = if f / 2 ^ 63 % 2 == 0 then pos (f % 2 ^ 63) else sub_ℕ 0 (f % 2 ^ 63)

-- lhs < rhs and lhs == rhs, false where one is NaN
unfoldable pub float_lt : ℕ → ℕ → Bool
float_lt a b = not (isnan a) && not (isnan b) && ltb_ℤ (float_place a) (float_place b)

unfoldable pub float_eq : ℕ → ℕ → Bool
float_eq a b = not (isnan a) && not (isnan b) && eqb_ℤ (float_place a) (float_place b)

unfoldable pub compare_two_floats_orderability : ℕ → ℕ → ℤ
compare_two_floats_orderability lhs rhs =
    if isnan lhs
    then (if isnan rhs then pos 0 else pos 1)
    else if isnan rhs
    then negsuc 0
    else if float_lt rhs lhs
    then pos 1
    else if float_lt lhs rhs
    then negsuc 0
    else pos 0

-- The position of the highest bit of m, below 2 ^ fuel.
highest_bit : ℕ → ℕ → ℕ
highest_bit zero m = 0
highest_bit (suc fuel) m = let rest = highest_bit fuel (m / 2) in if ltb m 2 then 0 else rest + 1

-- A magnitude m > 0 as a double: 53 bits of it, rounded to nearest, ties to even. A carry out of
-- the fraction goes into the exponent.
float_of_magnitude : ℕ → ℕ
unfolding highest_bit
float_of_magnitude m =
    let e = highest_bit 64 m in
    let exact = m * 2 ^ (52 - e) in
    let ulp = 2 ^ (e - 52) in
    let q = m / ulp in
    let r = m % ulp in
    let up = if ltb ulp (2 * r) || ((2 * r == ulp) && (q % 2 == 1)) then 1 else 0 in
    let significand = if leb e 52 then exact else q + up in
    (e + 1023) * 2 ^ 52 + significand - 2 ^ 52

-- (float8) i
unfoldable pub int_to_float8 : ℤ → ℕ
unfolding float_of_magnitude
int_to_float8 (pos zero) = 0
int_to_float8 (pos (suc n)) = float_of_magnitude (suc n)
int_to_float8 (negsuc n) = 2 ^ 63 + float_of_magnitude (suc n)

-- 1 is 0x3FF0…, -2^53-1 rounds to -2^53, and the largest int64 to 2^63.
cast_runs :
    (int_to_float8 (pos 1) ≡ 0x3FF0000000000000)
    × (int_to_float8 (negsuc (2 ^ 53)) ≡ 0xC340000000000000)
    × (int_to_float8 (pos (2 ^ 63 - 1)) ≡ 0x43E0000000000000)
unfolding int_to_float8
cast_runs = (refl, refl, refl)
