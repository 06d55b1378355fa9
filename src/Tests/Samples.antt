-- ===== src/Tests/Samples.antt =====
-- A concrete instance of PostgreSQL's functions, and values to run the model on. A numeric datum
-- here is a one-byte length with as many bytes in all, ordered by its second byte.
use incubator_age.Agtype.Operators.Datums.{Small}
use incubator_age.Prelude.{ℕ, Bool, false, List, [], ◌∷◌, ltb, if◌then◌else◌, ◌≤◌, arith}
use incubator_age.Prelude.Int.{ℤ, pos, negsuc, ltb_ℤ}
use incubator_age.Postgres.{Postgres}
use incubator_age.Agtype.{Pair, integer}
use incubator_age.Agtype.Sort.{QsortArg}
use incubator_age.Agtype.Text.{length_compare_agtype_string_value, same_bytes}
use incubator_age.Agtype.Fill.{Deserialize}
use incubator_age.Agtype.Extended.{ag_deserialize_extended_type}

abbrev first_or_zero : List ℕ → ℕ
first_or_zero [] = 0
first_or_zero (b ∷ _) = b

abbrev second_or_zero : List ℕ → ℕ
second_or_zero [] = 0
second_or_zero (_ ∷ bytes) = first_or_zero bytes

abbrev pub postgres : Postgres
postgres = record {
  varsize = first_or_zero;
  max_alloc_size = 0x3fffffff;
  numeric_cmp = λ a b.
      if ltb (second_or_zero a) (second_or_zero b)
      then negsuc 0
      else if ltb (second_or_zero b) (second_or_zero a)
      then pos 1
      else pos 0;
  numeric_eq = same_bytes;
  int8_numeric = λ i. elim i [ pos n ↦ 2 ∷ n ∷ [] | negsuc _ ↦ 2 ∷ 0 ∷ [] ];
  float8_numeric = λ f. 2 ∷ f ∷ [];
  varstr_cmp = length_compare_agtype_string_value;
  hash_any = λ _. 1;
  hash_numeric = λ _. 2;
  hashint8 = λ _. 3;
  hashfloat8 = λ _. 4;
}

-- insertion sort, with a last pass over the neighbours
abbrev pub insert_pair : (Pair → Pair → Bool → ℤ × Bool) → Pair → List Pair → List Pair
insert_pair cmp p [] = p ∷ []
insert_pair cmp p (q ∷ qs) =
    let rest = insert_pair cmp p qs in
    if ltb_ℤ (cmp p q false).0 (pos 0) then p ∷ q ∷ qs else q ∷ rest

abbrev pub sort_by : (Pair → Pair → Bool → ℤ × Bool) → List Pair → List Pair
sort_by cmp [] = []
sort_by cmp (p ∷ ps) = insert_pair cmp p (sort_by cmp ps)

abbrev pub check_neighbours : (Pair → Pair → Bool → ℤ × Bool) → List Pair → Bool → Bool
check_neighbours cmp [] b = b
check_neighbours cmp (p ∷ []) b = b
check_neighbours cmp (p ∷ q ∷ r) b = check_neighbours cmp (q ∷ r) (cmp p q b).1

abbrev pub qsort_arg : QsortArg
qsort_arg cmp l b = (sort_by cmp l, check_neighbours cmp (sort_by cmp l) b)

abbrev pub deserialize : Deserialize
deserialize = ag_deserialize_extended_type postgres qsort_arg 3

-- the datum of a number below 256: the headers of a raw array and of an extended type, and a word
abbrev pub datum_of : ℕ → List ℕ
datum_of n =
    1 ∷ 0 ∷ 0 ∷ 0x50 ∷ 12 ∷ 0 ∷ 0 ∷ 0xf0 ∷ 0 ∷ 0 ∷ 0 ∷ 0 ∷ n ∷ 0 ∷ 0 ∷ 0 ∷ 0 ∷ 0 ∷ 0 ∷ 0 ∷ []

pub int-Small : (n : ℕ) → n ≤ 9 → Small postgres (integer (pos n))
int-Small n h = record {
  plain = tt;
  storable = record { above = omega arith; below = omega arith };
  weight = omega arith;
}
