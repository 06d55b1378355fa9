-- ===== src/Tests/Operating.antt =====
-- Instances of the theorems on the operators, and runs of them.
use incubator_age.Agtype.Compare.{compare_agtype_scalar_values}
use incubator_age.Agtype.Extended.{ag_deserialize_extended_type}
use incubator_age.Agtype.Fill.{fill_agtype_value}
use incubator_age.Agtype.Iterator.{agtype_iterator_init, agtype_iterator_next}
use incubator_age.Agtype.Container.{store_word, header, child, data_after}
use incubator_age.Prelude.{◌≡◌, refl, ◌≢◌, ◌⊎◌, [], ◌∷◌, ◌++◌, true, some, arith, ◌^◌, ◌-◌}
use incubator_age.Prelude.Int.{ℤ, pos, negsuc, ◌+ℤ◌, ◌-ℤ◌, ◌*ℤ◌, div_ℤ, mod_ℤ}
use incubator_age.Postgres.{Arithmetic}
use incubator_age.Result.{ok, err, ◌>>=◌, division_by_zero, integer_trap, invalid_parameter_types}
use incubator_age.Agtype.{string, integer, boolean}
use incubator_age.Agtype.Convert.{agtype_value_to_agtype}
use incubator_age.Agtype.Operators.Scalars.{
  add_values, sub_values, neg_value, mul_values, div_values, mod_values, pow_values,
}
use incubator_age.Agtype.Operators.Kinds.{arithmetic_errors, RejectedBy}
use incubator_age.Agtype.Operators.Integers.{Wraps, Divides, integer_arithmetic, integer_division}
use incubator_age.Agtype.Operators.Strings.{
  add_values-string, add_strings_assoc, string_or_error, operand_text,
}
use incubator_age.Agtype.Operators.Comparison.{Agree, agtype_btree_cmp-Agree}
use incubator_age.Agtype.Operators.Datums.{operators_on_datums}
use incubator_age.Agtype.Operators.Concat.{agtype_add}
use incubator_age.Agtype.Operators.{
  agtype_sub, agtype_neg, agtype_mul, agtype_div, agtype_mod, agtype_pow, agtype_eq, agtype_ne,
  agtype_lt, agtype_gt, agtype_le, agtype_ge, agtype_btree_cmp,
}
use incubator_age.Tests.Samples.{datum_of, int-Small, postgres, qsort_arg, deserialize}

-- Stand-ins: most of them return their first operand.
abbrev arithmetic : Arithmetic
arithmetic = record {
  float_add = λ a b. a;
  float_sub = λ a b. a;
  float_mul = λ a b. a;
  float_div = λ a b. a;
  fmod = λ a b. a;
  pow = λ a b. a;
  numeric_add = λ a b. ok a;
  numeric_sub = λ a b. ok a;
  numeric_mul = λ a b. ok a;
  numeric_div = λ a b. err division_by_zero;
  numeric_mod = λ a b. ok a;
  numeric_power = λ a b. ok a;
  numeric_uminus = λ a. ok a;
  int8out = λ i. b'7' ∷ [];
  float8out = λ f. b'1' ∷ [];
  numeric_out = λ n. b'2' ∷ [];
}

abbrev max_int64 : ℤ
max_int64 = pos (2 ^ 63 - 1)

-- 2^63 - 1 and 2, whose sum wraps and whose difference is exact
integer_arithmetic_example :
    Wraps
      (max_int64 +ℤ pos 2)
      (add_values postgres arithmetic (integer max_int64) (integer (pos 2)))
    × Wraps
        (max_int64 -ℤ pos 2)
        (sub_values postgres arithmetic (integer max_int64) (integer (pos 2)))
    × Wraps
        (max_int64 *ℤ pos 2)
        (mul_values postgres arithmetic (integer max_int64) (integer (pos 2)))
    × Wraps (pos 0 -ℤ max_int64) (neg_value postgres arithmetic (integer max_int64))
integer_arithmetic_example = integer_arithmetic postgres arithmetic max_int64 (pos 2)

-- -7 by 2
integer_division_example :
    ((pos 2 ≡ pos 0)
      × (div_values postgres arithmetic (integer (negsuc 6)) (integer (pos 2))
          ≡ err division_by_zero)
      × (mod_values postgres arithmetic (integer (negsuc 6)) (integer (pos 2)) ≡ err integer_trap))
    ⊎ (((negsuc 6 ≡ negsuc (2 ^ 63 - 1)) × (pos 2 ≡ negsuc 0))
        × (div_values postgres arithmetic (integer (negsuc 6)) (integer (pos 2)) ≡ err integer_trap)
        × (mod_values postgres arithmetic (integer (negsuc 6)) (integer (pos 2))
            ≡ err integer_trap))
    ⊎ ((pos 2 ≢ pos 0)
        × (q : ℤ) × (r : ℤ) × Divides (negsuc 6) (pos 2) q r
        × (div_values postgres arithmetic (integer (negsuc 6)) (integer (pos 2)) ≡ ok (integer q))
        × (mod_values postgres arithmetic (integer (negsuc 6)) (integer (pos 2)) ≡ ok (integer r)))
integer_division_example = integer_division postgres arithmetic (negsuc 6) (pos 2)

divisions :
    (div_values postgres arithmetic (integer (negsuc 6)) (integer (pos 2))
      ≡ ok (integer (negsuc 2)))
    × (mod_values postgres arithmetic (integer (negsuc 6)) (integer (pos 2))
        ≡ ok (integer (negsuc 0)))
    × (mod_values postgres arithmetic (integer (pos 7)) (integer (negsuc 1)) ≡ ok (integer (pos 1)))
unfolding div_values mod_values div_ℤ mod_ℤ
divisions = (refl, refl, refl)

arithmetic_errors_example :
    RejectedBy postgres arithmetic (boolean true) (integer (pos 1))
    × RejectedBy postgres arithmetic (integer (pos 1)) (boolean true)
    × (neg_value postgres arithmetic (boolean true) ≡ err invalid_parameter_types)
arithmetic_errors_example =
    arithmetic_errors postgres arithmetic (boolean true) (integer (pos 1)) refl refl refl

-- 'a' + true is 'a'
add_values-string_example :
    add_values postgres arithmetic (string (b'a' ∷ [])) (boolean true)
    ≡ string_or_error
        (operand_text arithmetic (string (b'a' ∷ [])) ++ operand_text arithmetic (boolean true))
add_values-string_example =
    add_values-string postgres arithmetic (string (b'a' ∷ [])) (boolean true) refl

add_strings_assoc_example :
    ((add_values postgres arithmetic (string (b'a' ∷ [])) (string []) >>= λ xy.
    add_values postgres arithmetic xy (string (b'c' ∷ [])))
      ≡ string_or_error (b'a' ∷ [] ++ [] ++ b'c' ∷ []))
    × ((add_values postgres arithmetic (string []) (string (b'c' ∷ [])) >>= λ yz.
          add_values postgres arithmetic (string (b'a' ∷ [])) yz)
        ≡ string_or_error (b'a' ∷ [] ++ [] ++ b'c' ∷ []))
add_strings_assoc_example = add_strings_assoc postgres arithmetic (b'a' ∷ []) [] (b'c' ∷ [])

written :
    (agtype_value_to_agtype (integer (pos 1)) ≡ ok (datum_of 1))
    × (agtype_value_to_agtype (integer (pos 2)) ≡ ok (datum_of 2))
unfolding agtype_value_to_agtype store_word
written = (refl, refl)

agtype_btree_cmp-Agree_example :
    Agree
      (agtype_btree_cmp postgres deserialize 9 (some (datum_of 1)) (some (datum_of 2)))
      (agtype_eq postgres deserialize 9 (datum_of 1) (datum_of 2))
      (agtype_ne postgres deserialize 9 (datum_of 1) (datum_of 2))
      (agtype_lt postgres deserialize 9 (datum_of 1) (datum_of 2))
      (agtype_gt postgres deserialize 9 (datum_of 1) (datum_of 2))
      (agtype_le postgres deserialize 9 (datum_of 1) (datum_of 2))
      (agtype_ge postgres deserialize 9 (datum_of 1) (datum_of 2))
agtype_btree_cmp-Agree_example =
    agtype_btree_cmp-Agree postgres deserialize 9 (datum_of 1) (datum_of 2)

compared : agtype_lt postgres deserialize 9 (datum_of 1) (datum_of 2) ≡ ok true
unfolding agtype_lt agtype_iterator_init header agtype_iterator_next fill_agtype_value child
    ag_deserialize_extended_type data_after compare_agtype_scalar_values
compared = refl

operators_on_datums_example :
    (agtype_add postgres qsort_arg deserialize arithmetic (datum_of 1) (datum_of 2) ≡ (
      add_values postgres arithmetic (integer (pos 1)) (integer (pos 2))
      >>= agtype_value_to_agtype))
    × (agtype_sub postgres arithmetic deserialize (datum_of 1) (datum_of 2) ≡ (
        sub_values postgres arithmetic (integer (pos 1)) (integer (pos 2))
        >>= agtype_value_to_agtype))
    × (agtype_mul postgres arithmetic deserialize (datum_of 1) (datum_of 2) ≡ (
        mul_values postgres arithmetic (integer (pos 1)) (integer (pos 2))
        >>= agtype_value_to_agtype))
    × (agtype_div postgres arithmetic deserialize (datum_of 1) (datum_of 2) ≡ (
        div_values postgres arithmetic (integer (pos 1)) (integer (pos 2))
        >>= agtype_value_to_agtype))
    × (agtype_mod postgres arithmetic deserialize (datum_of 1) (datum_of 2) ≡ (
        mod_values postgres arithmetic (integer (pos 1)) (integer (pos 2))
        >>= agtype_value_to_agtype))
    × (agtype_pow postgres arithmetic deserialize (datum_of 1) (datum_of 2) ≡ (
        pow_values postgres arithmetic (integer (pos 1)) (integer (pos 2))
        >>= agtype_value_to_agtype))
    × (agtype_neg postgres arithmetic deserialize (datum_of 1)
        ≡ (neg_value postgres arithmetic (integer (pos 1)) >>= agtype_value_to_agtype))
operators_on_datums_example =
    operators_on_datums postgres arithmetic qsort_arg 2 (integer (pos 1)) (integer (pos 2))
      (datum_of 1) (datum_of 2) (int-Small 1 (omega arith)) (int-Small 2 (omega arith)) written.0
      written.1
