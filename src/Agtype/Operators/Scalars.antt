-- ===== src/Agtype/Operators/Scalars.antt =====
-- The arithmetic operators of agtype_ops.c on the values of two scalars, and is_decimal_needed and
-- check_string_length of agtype.c. Of `Invalid input parameter types for agtype_…` the operator's
-- name is left out. `-x` on a double flips its sign bit.
use incubator_age.Prelude.{
  ℕ, ◌+◌, ◌-◌, ◌^◌, Bool, true, false, ◌&&◌, ◌||◌, List, [], ◌∷◌, ◌++◌, length, ltb, leb, ◌==◌,
  if◌then◌else◌,
}
use incubator_age.Prelude.Int.{ℤ, pos, negsuc, eqb_ℤ, ◌+ℤ◌, ◌-ℤ◌, ◌*ℤ◌, div_ℤ, mod_ℤ}
use incubator_age.Prelude.Word.{wrap_int64}
use incubator_age.Postgres.{Postgres, Arithmetic}
use incubator_age.Result.{
  Result, ok, err, ◌>>=◌, division_by_zero, invalid_parameter_types, integer_trap, string_too_long,
}
use incubator_age.Agtype.{AgtypeValue, string, numeric, integer, float}
use incubator_age.Agtype.Entry.{offlenmask}
use incubator_age.Agtype.Number.{int_to_float8, float_eq}
use incubator_age.Agtype.Compare.{
  is_numeric_result, get_numeric_datum_from_agtype_value, is_int_or_float, is_numeric_type,
}

abbrev is_digit : ℕ → Bool
is_digit c = leb b'0' c && leb c b'9'

-- the loop from numstr[i] on
abbrev pub all_digits : List ℕ → Bool
all_digits [] = true
all_digits (c ∷ cs) = let rest = all_digits cs in if is_digit c then rest else false

unfoldable pub is_decimal_needed : List ℕ → Bool
is_decimal_needed [] = true
is_decimal_needed (c ∷ cs) = if c == b'-' then all_digits cs else all_digits (c ∷ cs)

unfoldable pub check_string_length : ℕ → Result ℕ
check_string_length len = if ltb offlenmask len then err string_too_long else ok len

unfoldable pub concat_to_agtype_string : List ℕ → List ℕ → Result AgtypeValue
unfolding check_string_length
concat_to_agtype_string lhs rhs = do
  len ← check_string_length (length lhs + length rhs)
  ok (string (lhs ++ rhs))

-- A type without a text gives NULL with the length 0.
unfoldable pub get_string_from_agtype_value : Arithmetic → AgtypeValue → List ℕ
unfolding is_decimal_needed
get_string_from_agtype_value ar (integer i) = ar.int8out i
get_string_from_agtype_value ar (float f) =
    let text = ar.float8out f in if is_decimal_needed text then text ++ b'.' ∷ b'0' ∷ [] else text
get_string_from_agtype_value ar (string s) = s
get_string_from_agtype_value ar (numeric n) = ar.numeric_out n
get_string_from_agtype_value ar _ = []

abbrev pub is_string_type : AgtypeValue → Bool
is_string_type (string _) = true
is_string_type _ = false

-- INTEGER, FLOAT, NUMERIC or STRING
abbrev pub has_text : AgtypeValue → Bool
has_text v = is_int_or_float v || is_numeric_type v || is_string_type v

-- x == 0 on doubles
abbrev pub float_is_zero : ℕ → Bool
float_is_zero f = float_eq f 0

unfoldable pub float_neg : ℕ → ℕ
float_neg f = if ltb f (2 ^ 63) then f + 2 ^ 63 else f - 2 ^ 63

-- C's integer / and %: without a zero check the processor traps on 0; and on the least int64
-- by -1, whose quotient is out of range.
traps : ℤ → ℤ → Bool
traps a b = eqb_ℤ b (pos 0) || (eqb_ℤ a (negsuc (2 ^ 63 - 1)) && eqb_ℤ b (negsuc 0))

unfoldable pub int_div : ℤ → ℤ → Result ℤ
unfolding traps
int_div a b = if traps a b then err integer_trap else ok (div_ℤ a b)

unfoldable pub int_mod : ℤ → ℤ → Result ℤ
unfolding traps
int_mod a b = if traps a b then err integer_trap else ok (mod_ℤ a b)

module _ (pg : Postgres) (ar : Arithmetic) where
  -- the branch for numerics and the last one
  unfoldable pub numeric_result :
      (List ℕ → List ℕ → Result (List ℕ)) → AgtypeValue → AgtypeValue → Result AgtypeValue
  numeric_result op lhs rhs =
      if is_numeric_result lhs rhs
      then (do
        num ←
            op (get_numeric_datum_from_agtype_value pg lhs)
              (get_numeric_datum_from_agtype_value pg rhs)
        ok (numeric num))
      else err invalid_parameter_types

  -- from `Both are integers` on
  unfoldable pub add_numbers : AgtypeValue → AgtypeValue → Result AgtypeValue
  unfolding numeric_result
  add_numbers (integer a) (integer b) = ok (integer (wrap_int64 (a +ℤ b)))
  add_numbers (float a) (float b) = ok (float (ar.float_add a b))
  add_numbers (float a) (integer b) = ok (float (ar.float_add a (int_to_float8 b)))
  add_numbers (integer a) (float b) = ok (float (ar.float_add (int_to_float8 a) b))
  add_numbers a b = numeric_result ar.numeric_add a b

  unfoldable pub add_values : AgtypeValue → AgtypeValue → Result AgtypeValue
  unfolding add_numbers concat_to_agtype_string get_string_from_agtype_value
  add_values a b =
      if (is_string_type a || is_string_type b) && (has_text a || has_text b)
      then concat_to_agtype_string (get_string_from_agtype_value ar a)
          (get_string_from_agtype_value ar b)
      else add_numbers a b

  unfoldable pub sub_values : AgtypeValue → AgtypeValue → Result AgtypeValue
  unfolding numeric_result
  sub_values (integer a) (integer b) = ok (integer (wrap_int64 (a -ℤ b)))
  sub_values (float a) (float b) = ok (float (ar.float_sub a b))
  sub_values (float a) (integer b) = ok (float (ar.float_sub a (int_to_float8 b)))
  sub_values (integer a) (float b) = ok (float (ar.float_sub (int_to_float8 a) b))
  sub_values a b = numeric_result ar.numeric_sub a b

  unfoldable pub neg_value : AgtypeValue → Result AgtypeValue
  unfolding float_neg
  neg_value (integer a) = ok (integer (wrap_int64 (pos 0 -ℤ a)))
  neg_value (float a) = ok (float (float_neg a))
  neg_value (numeric n) = do num ← ar.numeric_uminus n; ok (numeric num)
  neg_value _ = err invalid_parameter_types

  unfoldable pub mul_values : AgtypeValue → AgtypeValue → Result AgtypeValue
  unfolding numeric_result
  mul_values (integer a) (integer b) = ok (integer (wrap_int64 (a *ℤ b)))
  mul_values (float a) (float b) = ok (float (ar.float_mul a b))
  mul_values (float a) (integer b) = ok (float (ar.float_mul a (int_to_float8 b)))
  mul_values (integer a) (float b) = ok (float (ar.float_mul (int_to_float8 a) b))
  mul_values a b = numeric_result ar.numeric_mul a b

  unfoldable pub div_values : AgtypeValue → AgtypeValue → Result AgtypeValue
  unfolding numeric_result int_div
  div_values (integer a) (integer b) =
      if eqb_ℤ b (pos 0) then err division_by_zero else do q ← int_div a b; ok (integer q)
  div_values (float a) (float b) =
      if float_is_zero b then err division_by_zero else ok (float (ar.float_div a b))
  div_values (float a) (integer b) =
      if eqb_ℤ b (pos 0)
      then err division_by_zero
      else ok (float (ar.float_div a (int_to_float8 b)))
  div_values (integer a) (float b) =
      if float_is_zero b
      then err division_by_zero
      else ok (float (ar.float_div (int_to_float8 a) b))
  div_values a b = numeric_result ar.numeric_div a b

  unfoldable pub mod_values : AgtypeValue → AgtypeValue → Result AgtypeValue
  unfolding numeric_result int_mod
  mod_values (integer a) (integer b) = do r ← int_mod a b; ok (integer r)
  mod_values (float a) (float b) = ok (float (ar.fmod a b))
  mod_values (float a) (integer b) = ok (float (ar.fmod a (int_to_float8 b)))
  mod_values (integer a) (float b) = ok (float (ar.fmod (int_to_float8 a) b))
  mod_values a b = numeric_result ar.numeric_mod a b

  unfoldable pub pow_values : AgtypeValue → AgtypeValue → Result AgtypeValue
  unfolding numeric_result
  pow_values (integer a) (integer b) = ok (float (ar.pow (int_to_float8 a) (int_to_float8 b)))
  pow_values (float a) (float b) = ok (float (ar.pow a b))
  pow_values (float a) (integer b) = ok (float (ar.pow a (int_to_float8 b)))
  pow_values (integer a) (float b) = ok (float (ar.pow (int_to_float8 a) b))
  pow_values a b = numeric_result ar.numeric_power a b
