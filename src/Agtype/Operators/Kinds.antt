-- ===== src/Agtype/Operators/Kinds.antt =====
-- Which values the arithmetic operators take, and the types of their results.
use incubator_age.Prelude.{
  ℕ, ◌≡◌, refl, Bool, true, false, ◌&&◌, ◌||◌, List, arith, ◌∙◌, if◌then◌else◌,
}
use incubator_age.Prelude.Int.{ℤ, pos, eqb_ℤ}
use incubator_age.Postgres.{Postgres, Arithmetic}
use incubator_age.Result.{Result, ok, err, ◌>>=◌, invalid_parameter_types, division_by_zero}
use incubator_age.Agtype.{
  AgtypeValue, numeric, integer, float, type_of, AgtypeValueType, integer_type, float_type,
  numeric_type,
}
use incubator_age.Agtype.Compare.{is_int_or_float, is_numeric_type, is_numeric_result}
use incubator_age.Agtype.Operators.Scalars.{
  add_values, add_numbers, sub_values, neg_value, mul_values, div_values, mod_values, pow_values,
  numeric_result, is_string_type, int_div, int_mod, float_is_zero,
}

abbrev pub is_number : AgtypeValue → Bool
is_number v = is_int_or_float v || is_numeric_type v

-- The type of a number, when the two of an operator are converted to one.
abbrev pub common_type : AgtypeValue → AgtypeValue → AgtypeValueType
common_type (integer _) (integer _) = integer_type
common_type (float _) (float _) = float_type
common_type (float _) (integer _) = float_type
common_type (integer _) (float _) = float_type
common_type _ _ = numeric_type

abbrev pub power_type : AgtypeValue → AgtypeValue → AgtypeValueType
power_type (integer _) (integer _) = float_type
power_type a b = common_type a b

-- a result, if there is one, is of the given type
abbrev pub HasType : AgtypeValueType → Result AgtypeValue → Type 0
HasType t (ok v) = type_of v ≡ t
HasType t (err _) = Unit

-- a result that stands behind a test or a bind
test-HasType :
    (t : AgtypeValueType) (b : Bool) (m n : Result AgtypeValue)
    → HasType t m
    → HasType t n
    → HasType t (if b then m else n)
test-HasType t true m n h k = h
test-HasType t false m n h k = k

bind-HasType :
    {A : Type 0} (t : AgtypeValueType) (m : Result A) (f : A → Result AgtypeValue)
    → ((a : A) → HasType t (f a))
    → HasType t (m >>= f)
bind-HasType t (ok a) f h = h a
bind-HasType t (err e) f h = tt

-- What an operator does on two operands: its result's type, and its error where one of them is no
-- number.
record Kinded (numbers : Bool) (t : AgtypeValueType) (m : Result AgtypeValue) : Type 0 where
  typed : HasType t m
  rejects : numbers ≡ false → m ≡ err invalid_parameter_types

on_numbers : {t : AgtypeValueType} {m : Result AgtypeValue} → HasType t m → Kinded true t m
on_numbers h = record { typed = h; rejects = λ e. absurd (cc e) }

float_kind : (f : ℕ) → Kinded true float_type (ok (float f))
float_kind f = on_numbers refl

integer_kind : (i : ℤ) → Kinded true integer_type (ok (integer i))
integer_kind i = on_numbers refl

integer_result-HasType : (m : Result ℤ) → HasType integer_type (m >>= λ i. ok (integer i))
integer_result-HasType m = bind-HasType integer_type m (λ i. ok (integer i)) (λ i. refl)

-- a division by zero, or a result
float_division :
    (zero : Bool) (f : ℕ)
    → Kinded true float_type (if zero then err division_by_zero else ok (float f))
float_division zero f =
    on_numbers (test-HasType float_type zero (err division_by_zero) (ok (float f)) tt refl)

integer_division :
    (zero : Bool) (m : Result ℤ)
    → Kinded true integer_type (if zero then err division_by_zero else (m >>= λ i. ok (integer i)))
integer_division zero m = on_numbers (
    test-HasType integer_type zero (err division_by_zero) (m >>= λ i. ok (integer i)) tt
      (integer_result-HasType m))

module _ (pg : Postgres) (ar : Arithmetic) where
  numeric_result-HasType :
      (op : List ℕ → List ℕ → Result (List ℕ)) (a b : AgtypeValue)
      → HasType numeric_type (numeric_result pg ar op a b)
  unfolding numeric_result
  numeric_result-HasType op a b =
      test-HasType numeric_type (is_numeric_result a b) _ _
        (bind-HasType numeric_type _ (λ n. ok (numeric n)) (λ n. refl)) tt

  numeric_result-rejects :
      (op : List ℕ → List ℕ → Result (List ℕ)) (a b : AgtypeValue)
      → (is_number a && is_number b) ≡ false
      → numeric_result pg ar op a b ≡ err invalid_parameter_types
  unfolding numeric_result is_numeric_result
  numeric_result-rejects op a b h = ground arith

  numeric_kind :
      (op : List ℕ → List ℕ → Result (List ℕ)) (a b : AgtypeValue)
      → Kinded (is_number a && is_number b) numeric_type (numeric_result pg ar op a b)
  numeric_kind op a b = record {
    typed = numeric_result-HasType op a b;
    rejects = numeric_result-rejects op a b;
  }

  add_numbers-Kinded :
      (a b : AgtypeValue)
      → Kinded (is_number a && is_number b) (common_type a b) (add_numbers pg ar a b)
  unfolding add_numbers
  add_numbers-Kinded (integer a) (integer b) = integer_kind _
  add_numbers-Kinded (float a) (float b) = float_kind _
  add_numbers-Kinded (float a) (integer b) = float_kind _
  add_numbers-Kinded (integer a) (float b) = float_kind _
  add_numbers-Kinded a b = numeric_kind ar.numeric_add a b

  sub_values-Kinded :
      (a b : AgtypeValue)
      → Kinded (is_number a && is_number b) (common_type a b) (sub_values pg ar a b)
  unfolding sub_values
  sub_values-Kinded (integer a) (integer b) = integer_kind _
  sub_values-Kinded (float a) (float b) = float_kind _
  sub_values-Kinded (float a) (integer b) = float_kind _
  sub_values-Kinded (integer a) (float b) = float_kind _
  sub_values-Kinded a b = numeric_kind ar.numeric_sub a b

  mul_values-Kinded :
      (a b : AgtypeValue)
      → Kinded (is_number a && is_number b) (common_type a b) (mul_values pg ar a b)
  unfolding mul_values
  mul_values-Kinded (integer a) (integer b) = integer_kind _
  mul_values-Kinded (float a) (float b) = float_kind _
  mul_values-Kinded (float a) (integer b) = float_kind _
  mul_values-Kinded (integer a) (float b) = float_kind _
  mul_values-Kinded a b = numeric_kind ar.numeric_mul a b

  div_values-Kinded :
      (a b : AgtypeValue)
      → Kinded (is_number a && is_number b) (common_type a b) (div_values pg ar a b)
  unfolding div_values
  div_values-Kinded (integer a) (integer b) = integer_division (eqb_ℤ b (pos 0)) (int_div a b)
  div_values-Kinded (float a) (float b) = float_division (float_is_zero b) _
  div_values-Kinded (float a) (integer b) = float_division (eqb_ℤ b (pos 0)) _
  div_values-Kinded (integer a) (float b) = float_division (float_is_zero b) _
  div_values-Kinded a b = numeric_kind ar.numeric_div a b

  mod_values-Kinded :
      (a b : AgtypeValue)
      → Kinded (is_number a && is_number b) (common_type a b) (mod_values pg ar a b)
  unfolding mod_values
  mod_values-Kinded (integer a) (integer b) = on_numbers (integer_result-HasType (int_mod a b))
  mod_values-Kinded (float a) (float b) = float_kind _
  mod_values-Kinded (float a) (integer b) = float_kind _
  mod_values-Kinded (integer a) (float b) = float_kind _
  mod_values-Kinded a b = numeric_kind ar.numeric_mod a b

  pow_values-Kinded :
      (a b : AgtypeValue)
      → Kinded (is_number a && is_number b) (power_type a b) (pow_values pg ar a b)
  unfolding pow_values
  pow_values-Kinded (integer a) (integer b) = float_kind _
  pow_values-Kinded (float a) (float b) = float_kind _
  pow_values-Kinded (float a) (integer b) = float_kind _
  pow_values-Kinded (integer a) (float b) = float_kind _
  pow_values-Kinded a b = numeric_kind ar.numeric_power a b

-- without a string, `+` adds
add_values-numbers :
    (pg : Postgres) (ar : Arithmetic) (a b : AgtypeValue)
    → (is_string_type a || is_string_type b) ≡ false
    → add_values pg ar a b ≡ add_numbers pg ar a b
unfolding add_values
add_values-numbers pg ar a b h = rw h refl

neg_value-rejects :
    (pg : Postgres) (ar : Arithmetic) (a : AgtypeValue)
    → is_number a ≡ false
    → neg_value pg ar a ≡ err invalid_parameter_types
unfolding neg_value
neg_value-rejects pg ar (integer a) h = absurd (cc h)
neg_value-rejects pg ar (float a) h = absurd (cc h)
neg_value-rejects pg ar (numeric a) h = absurd (cc h)
neg_value-rejects pg ar a h = refl

-- the error of each operator on two operands
abbrev pub RejectedBy : Postgres → Arithmetic → AgtypeValue → AgtypeValue → Type 0
RejectedBy pg ar a b =
    (add_values pg ar a b ≡ err invalid_parameter_types)
    × (sub_values pg ar a b ≡ err invalid_parameter_types)
    × (mul_values pg ar a b ≡ err invalid_parameter_types)
    × (div_values pg ar a b ≡ err invalid_parameter_types)
    × (mod_values pg ar a b ≡ err invalid_parameter_types)
    × (pow_values pg ar a b ≡ err invalid_parameter_types)

all-RejectedBy :
    (pg : Postgres) (ar : Arithmetic) (a b : AgtypeValue)
    → (is_string_type a || is_string_type b) ≡ false
    → (is_number a && is_number b) ≡ false
    → RejectedBy pg ar a b
all-RejectedBy pg ar a b s h = (
  add_values-numbers pg ar a b s ∙ (add_numbers-Kinded pg ar a b).rejects h,
  (sub_values-Kinded pg ar a b).rejects h,
  (mul_values-Kinded pg ar a b).rejects h,
  (div_values-Kinded pg ar a b).rejects h,
  (mod_values-Kinded pg ar a b).rejects h,
  (pow_values-Kinded pg ar a b).rejects h,
)

-- Where a value is no integer, float or numeric, each of `+`, `-`, `*`, `/`, `%` and `^` raises the
-- error for its parameter types, with the value on the left and on the right of any other, where
-- neither of the two is a string; and so does unary `-` on it.
pub arithmetic_errors :
    (pg : Postgres) (ar : Arithmetic) (a b : AgtypeValue)
    → is_number a ≡ false
    → is_string_type a ≡ false
    → is_string_type b ≡ false
    → RejectedBy pg ar a b
      × RejectedBy pg ar b a
      × (neg_value pg ar a ≡ err invalid_parameter_types)
arithmetic_errors pg ar a b h s t = (
  all-RejectedBy pg ar a b (ground arith) (ground arith),
  all-RejectedBy pg ar b a (ground arith) (ground arith),
  neg_value-rejects pg ar a h,
)
