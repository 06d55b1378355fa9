-- ===== src/Tests/Accessing.antt =====
-- Instances of the theorems on the access operators.
use incubator_age.Agtype.Matches.Laws.{StrncmpLaws, Decides, starts_and_ends_with}
use incubator_age.Agtype.Matches.{agtype_string_match_starts_with, agtype_string_match_ends_with}
use incubator_age.Agtype.Text.{same_bytes, same_bytes_eq, same_bytes_refl}
use incubator_age.Postgres.{CStrings}
use incubator_age.Prelude.{
  ℕ, ◌≡◌, refl, List, [], ◌∷◌, some, drop, take, false, arith, get_elem?, zero, suc, Bool, true,
  length, if◌then◌else◌, ◌++◌, ◌≤◌, ap, sym, ◌∙◌, none,
}
use mathlib.Core.Option.{some-injective}
use mathlib.Core.Path.{subst}
use incubator_age.Prelude.Int.{pos, negsuc}
use incubator_age.Result.{ok, err, must_be_container}
use incubator_age.Agtype.{
  AgtypeValue, integer, array, Elems, nil, cons, elem_list, elems_of, string,
}
use incubator_age.Agtype.Container.{store_word}
use incubator_age.Agtype.Convert.{convert_to_agtype, agtype_value_to_agtype}
use incubator_age.Agtype.Convert.RoundTrip.{Storable}
use incubator_age.Agtype.Operators.Datums.{Small}
use incubator_age.Agtype.Access.{agtype_access_operator, agtype_access_slice, to_agtype}
use incubator_age.Agtype.Access.Elements.{access_list-element}
use incubator_age.Agtype.Access.Slices.{access_slice-take}
use incubator_age.Agtype.Access.Scalars.{scalar_as_list}
use incubator_age.Tests.Samples.{datum_of, int-Small, postgres, qsort_arg, deserialize}

-- [1, 2], and what convert_to_agtype writes for it
abbrev one_two : Elems
one_two = cons (integer (pos 1)) (cons (integer (pos 2)) nil)

abbrev one_two_datum : List ℕ
one_two_datum =
    0 ∷ 0 ∷ 0 ∷ 0 ∷ 2 ∷ 0 ∷ 0 ∷ 0x40 ∷ 12 ∷ 0 ∷ 0 ∷ 0xf0 ∷ 12 ∷ 0 ∷ 0 ∷ 0x70 ∷ 0 ∷ 0 ∷ 0 ∷ 0 ∷ 1 ∷ 0
    ∷ 0 ∷ 0 ∷ 0 ∷ 0 ∷ 0 ∷ 0 ∷ 0 ∷ 0 ∷ 0 ∷ 0 ∷ 2 ∷ 0 ∷ 0 ∷ 0 ∷ 0 ∷ 0 ∷ 0 ∷ 0 ∷ []

one_two-written : convert_to_agtype (array one_two false) ≡ ok one_two_datum
unfolding convert_to_agtype store_word
one_two-written = refl

-- the datum of -1
abbrev minus_one_datum : List ℕ
minus_one_datum =
    1 ∷ 0 ∷ 0 ∷ 0x50 ∷ 12 ∷ 0 ∷ 0 ∷ 0xf0 ∷ 0 ∷ 0 ∷ 0 ∷ 0 ∷ 255 ∷ 255 ∷ 255 ∷ 255 ∷ 255 ∷ 255 ∷ 255
    ∷ 255 ∷ []

minus_one-written : agtype_value_to_agtype (integer (negsuc 0)) ≡ ok minus_one_datum
unfolding agtype_value_to_agtype store_word
minus_one-written = refl

zero-written : agtype_value_to_agtype (integer (pos 0)) ≡ ok (datum_of 0)
unfolding agtype_value_to_agtype store_word
zero-written = refl

one-written : agtype_value_to_agtype (integer (pos 1)) ≡ ok (datum_of 1)
unfolding agtype_value_to_agtype store_word
one-written = refl

two-written : agtype_value_to_agtype (integer (pos 2)) ≡ ok (datum_of 2)
unfolding agtype_value_to_agtype store_word
two-written = refl

minus_one-Small : Small postgres (integer (negsuc 0))
minus_one-Small = record {
  plain = tt;
  storable = record { above = omega arith; below = omega arith };
  weight = omega arith;
}

one_two-Storable :
    (i : ℕ) (v : AgtypeValue) → get_elem? (elem_list one_two) i ≡ some v → Storable postgres v
one_two-Storable zero v e =
    subst (λ x. Storable postgres x) (some-injective _ _ e) (int-Small 1 (omega arith)).storable
one_two-Storable (suc zero) v e =
    subst (λ x. Storable postgres x) (some-injective _ _ e) (int-Small 2 (omega arith)).storable
one_two-Storable (suc (suc i)) v e = absurd (cc e)

-- [1, 2][-1]
access_list-element_example :
    agtype_access_operator postgres deserialize
      (some (drop 4 one_two_datum) ∷ some minus_one_datum ∷ [])
    ≡ to_agtype (some (integer (pos 2)))
access_list-element_example =
    access_list-element postgres qsort_arg 2 one_two one_two_datum (negsuc 0) minus_one_datum
      (some (integer (pos 2))) (tt, (tt, tt)) (omega arith) one_two-written minus_one-Small
      minus_one-written refl (int-Small 2 (omega arith)).storable

-- [1, 2][-1..2]
access_slice-take_example :
    agtype_access_slice postgres qsort_arg deserialize
      (some (drop 4 one_two_datum))
      (some minus_one_datum)
      (some (datum_of 2))
    ≡ to_agtype (some (array (elems_of (take 1 (drop 1 (elem_list one_two)))) false))
access_slice-take_example =
    access_slice-take postgres qsort_arg 2 one_two one_two_datum (negsuc 0) (pos 2) minus_one_datum
      (datum_of 2) (tt, (tt, tt)) (omega arith) (omega arith) (omega arith) one_two-Storable
      one_two-written minus_one-Small (int-Small 2 (omega arith)) minus_one-written two-written

-- 1[-1][NULL], and [1, 2][0][0]
scalar_as_list_example :
    (agtype_access_operator postgres deserialize
        (some (datum_of 1) ∷ some minus_one_datum ∷ none ∷ [])
      ≡ err must_be_container)
    × (agtype_access_operator postgres deserialize
          (some (drop 4 one_two_datum) ∷ some (datum_of 0) ∷ some (datum_of 0) ∷ [])
        ≡ ok (some (datum_of 1)))
scalar_as_list_example =
    scalar_as_list postgres qsort_arg 2 one_two one_two_datum (pos 0) (datum_of 0) (datum_of 0)
      (datum_of 1) (integer (pos 1)) (some minus_one_datum) (none ∷ []) (tt, (tt, tt)) (omega arith)
      one_two-written (int-Small 0 (omega arith)) zero-written (int-Small 0 (omega arith))
      zero-written refl (int-Small 1 (omega arith)) one-written

-- strncmp as the laws ask, and strstr
abbrev starts_at : List ℕ → List ℕ → Bool
starts_at [] b = same_bytes [] b
starts_at (x ∷ a) b = if same_bytes (take (length b) (x ∷ a)) b then true else starts_at a b

abbrev c_strings : CStrings
c_strings = record { same_start = λ a b n. same_bytes (take n a) (take n b); found_in = starts_at }

c_strings-StrncmpLaws : StrncmpLaws c_strings
c_strings-StrncmpLaws = record {
  compares = λ a b n ta tb fa fb. (
    same_bytes_eq (take n a) (take n b),
    λ e. ap (λ t. same_bytes (take n a) t) (sym e) ∙ same_bytes_refl (take n a),
  );
}

abbrev string_datum : List ℕ → List ℕ
string_datum s = 1 ∷ 0 ∷ 0 ∷ 0x50 ∷ length s ∷ 0 ∷ 0 ∷ 0x80 ∷ s

strings-written :
    (agtype_value_to_agtype (string (b'a' ∷ b'b' ∷ [])) ≡ ok (string_datum (b'a' ∷ b'b' ∷ [])))
    × (agtype_value_to_agtype (string (b'b' ∷ [])) ≡ ok (string_datum (b'b' ∷ [])))
unfolding agtype_value_to_agtype store_word
strings-written = (refl, refl)

string-Small : (s : List ℕ) → length s ≤ 9 → Small postgres (string s)
string-Small s h = record { plain = omega arith; storable = omega arith; weight = omega arith }

-- 'ab' STARTS WITH 'b', and ENDS WITH it
starts_and_ends_with_example :
    Decides
      (agtype_string_match_starts_with postgres deserialize c_strings
        (string_datum (b'a' ∷ b'b' ∷ []))
        (string_datum (b'b' ∷ [])))
      ((rest : List ℕ) × (b'a' ∷ b'b' ∷ [] ≡ (b'b' ∷ []) ++ rest))
    × Decides
        (agtype_string_match_ends_with postgres deserialize c_strings
          (string_datum (b'a' ∷ b'b' ∷ []))
          (string_datum (b'b' ∷ [])))
        ((before : List ℕ) × (b'a' ∷ b'b' ∷ [] ≡ before ++ b'b' ∷ []))
starts_and_ends_with_example =
    starts_and_ends_with postgres qsort_arg 2 c_strings (b'a' ∷ b'b' ∷ []) (b'b' ∷ [])
      (string_datum (b'a' ∷ b'b' ∷ [])) (string_datum (b'b' ∷ [])) c_strings-StrncmpLaws
      (omega arith, (omega arith, tt)) (omega arith, tt)
      (string-Small (b'a' ∷ b'b' ∷ []) (omega arith)) (string-Small (b'b' ∷ []) (omega arith))
      strings-written.0 strings-written.1
