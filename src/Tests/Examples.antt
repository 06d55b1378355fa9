-- ===== src/Tests/Examples.antt =====
-- Instances of the theorems at concrete inputs.
use incubator_age.Prelude.{
  ℕ, zero, suc, ◌<◌, ◌≡◌, ◌⊎◌, refl, true, false, Option, some, List, [], ◌∷◌, arith, inl, inr,
  drop, length, ◌≤◌, ◌+◌,
}
use incubator_age.Prelude.Int.{pos, negsuc}
use incubator_age.Result.{ok}
use incubator_age.Agtype.{
  AgtypeValue, string, integer, boolean, vertex, array, object, Elems, nil, cons, Pairs, end, pair,
  pair_list,
}
use incubator_age.Agtype.Find.{get_ith_agtype_value_from_container}
use incubator_age.Agtype.Extended.{ag_deserialize_extended_type}
use incubator_age.Agtype.Convert.{Buffer, convert_to_agtype, convert_agtype_value}
use incubator_age.Agtype.Convert.Arrays.{array_round_trip}
use incubator_age.Agtype.Convert.Total.{weight, convert_to_agtype-Succeeds}
use incubator_age.Agtype.Convert.Composites.{Undercounted, composite-Undercounted}
use incubator_age.Prelude.Word.{IsInt64}
use incubator_age.Agtype.Entry.{has_off, offlenfld}
use incubator_age.Agtype.Text.{length_compare_agtype_string_value}
use incubator_age.Agtype.Text.Order.{Before}
use incubator_age.Agtype.Container.{child, get_agtype_offset, get_agtype_length}
use incubator_age.Agtype.Container.Offsets.{start, Encodes, offset_and_length}
use incubator_age.Agtype.Convert.Layout.{Appended}
use incubator_age.Agtype.Convert.Appends.{convert_value-Appended}
use incubator_age.Agtype.Find.{search_loop, find_agtype_value_from_container}
use incubator_age.Agtype.Sort.Unique.{Ascending}
use incubator_age.Agtype.Convert.Lookup.{object_round_trip}
use incubator_age.Agtype.Find.Search.{AscendingKeys, Located, search_loop_finds}
use incubator_age.Tests.Samples.{postgres, qsort_arg}

abbrev three : Elems
three = cons (string (97 ∷ [])) (cons (integer (negsuc 4)) (cons (boolean true) nil))

abbrev friend : AgtypeValue
friend = vertex (pair (105 ∷ 100 ∷ []) (integer (pos 7)) 0 end)

abbrev three_bytes : Buffer
three_bytes =
    0 ∷ 0 ∷ 0 ∷ 0 ∷ 3 ∷ 0 ∷ 0 ∷ 64 ∷ 1 ∷ 0 ∷ 0 ∷ 128 ∷ 15 ∷ 0 ∷ 0 ∷ 112 ∷ 0 ∷ 0 ∷ 0 ∷ 48 ∷ 97 ∷ 0
    ∷ 0 ∷ 0 ∷ 0 ∷ 0 ∷ 0 ∷ 0 ∷ 251 ∷ 255 ∷ 255 ∷ 255 ∷ 255 ∷ 255 ∷ 255 ∷ 255 ∷ []

minus_five : IsInt64 (negsuc 4)
minus_five = record { above = omega arith; below = omega arith }

array_round_trip_example :
    (out : Buffer) × (convert_to_agtype (array three false) ≡ ok out)
    × (get_ith_agtype_value_from_container postgres
          (ag_deserialize_extended_type postgres qsort_arg 1)
          (drop 4 out)
          1
        ≡ ok (some (integer (negsuc 4))))
array_round_trip_example =
    array_round_trip postgres qsort_arg 0 three false 1 (integer (negsuc 4))
      (omega arith, (tt, (tt, tt))) (omega arith) refl minus_five

convert_to_agtype-Succeeds_example :
    (out : Buffer) × (convert_to_agtype (array three false) ≡ ok out)
    × (length out ≤ 4 + weight (array three false))
    × (length out < 0x3fffffff)
convert_to_agtype-Succeeds_example =
    convert_to_agtype-Succeeds (array three false) (omega arith, (tt, (tt, tt))) (omega arith)

abbrev friend_bytes : Buffer
friend_bytes =
    1 ∷ 0 ∷ 0 ∷ 0 ∷ 2 ∷ 0 ∷ 0 ∷ 0 ∷ 1 ∷ 0 ∷ 0 ∷ 32 ∷ 2 ∷ 0 ∷ 0 ∷ 128 ∷ 14 ∷ 0 ∷ 0 ∷ 112 ∷ 105 ∷ 100
    ∷ 0 ∷ 0 ∷ 0 ∷ 0 ∷ 0 ∷ 0 ∷ 7 ∷ 0 ∷ 0 ∷ 0 ∷ 0 ∷ 0 ∷ 0 ∷ 0 ∷ []

friend_is_written : convert_agtype_value friend (1 ∷ []) ≡ ok (1879048224, friend_bytes)
unfolding convert_agtype_value incubator_age.Agtype.Container.store_word
friend_is_written = refl

composite-Undercounted_example : Undercounted (1 ∷ []) 1879048224 friend_bytes
composite-Undercounted_example =
    composite-Undercounted friend (1 ∷ []) 1879048224 friend_bytes (omega arith, tt, tt)
      (omega arith) friend_is_written

word_is_written : convert_agtype_value (string (97 ∷ 98 ∷ [])) (1 ∷ []) ≡ ok (2, 1 ∷ 97 ∷ 98 ∷ [])
unfolding convert_agtype_value
word_is_written = refl

convert_value-Appended_example : Appended (1 ∷ []) 2 (1 ∷ 97 ∷ 98 ∷ [])
convert_value-Appended_example =
    convert_value-Appended (string (97 ∷ 98 ∷ [])) (1 ∷ []) 2 (1 ∷ 97 ∷ 98 ∷ []) (omega arith)
      word_is_written

abbrev two_keys : ℕ → List ℕ
two_keys zero = 98 ∷ []
two_keys (suc _) = 97 ∷ 97 ∷ []

two_keys-AscendingKeys : AscendingKeys two_keys 2
unfolding length_compare_agtype_string_value
two_keys-AscendingKeys = record { before = ascending }
  where
    ascending : (i j : ℕ) → i < j → j < 2 → Before (two_keys i) (two_keys j)
    ascending zero zero h k = absurd (omega arith)
    ascending zero (suc j) h k = refl
    ascending (suc i) j h k = absurd (omega arith)

search_loop_finds_example :
    (r : Option ℕ) × (search_loop two_keys (97 ∷ 97 ∷ []) 3 0 2 ≡ ok r)
    × Located two_keys (97 ∷ 97 ∷ []) 2 r
search_loop_finds_example = search_loop_finds two_keys (97 ∷ 97 ∷ []) 2 two_keys-AscendingKeys

-- the lengths of the items of `three`
abbrev three_lengths : ℕ → ℕ
three_lengths zero = 1
three_lengths (suc zero) = 15
three_lengths (suc (suc _)) = 0

three-Encodes : Encodes (child (drop 4 three_bytes)) three_lengths 3
unfolding child
three-Encodes = record { at = encoded }
  where
    encoded :
        (i : ℕ)
        → i < 3
        → (has_off (child (drop 4 three_bytes) i) ≡ true)
            × (offlenfld (child (drop 4 three_bytes) i) ≡ start three_lengths (suc i))
          ⊎ (has_off (child (drop 4 three_bytes) i) ≡ false)
            × (offlenfld (child (drop 4 three_bytes) i) ≡ three_lengths i)
    encoded zero h = inl (refl, refl)
    encoded (suc zero) h = inr (refl, refl)
    encoded (suc (suc zero)) h = inr (refl, refl)
    encoded (suc (suc (suc i))) h = absurd (omega arith)

offset_and_length_example :
    (get_agtype_offset (drop 4 three_bytes) 2 ≡ start three_lengths 2)
    × (get_agtype_length (drop 4 three_bytes) 2 ≡ three_lengths 2)
offset_and_length_example =
    offset_and_length (drop 4 three_bytes) three_lengths 3 2 three-Encodes (omega arith)
      (omega arith)

-- the keys b and aa
abbrev two_pairs : Pairs
two_pairs = pair (98 ∷ []) (integer (negsuc 4)) 0 (pair (97 ∷ 97 ∷ []) (string (120 ∷ [])) 1 end)

two_pairs-Ascending : Ascending (pair_list two_pairs)
unfolding length_compare_agtype_string_value
two_pairs-Ascending = ((refl, tt), (tt, tt))

object_round_trip_example :
    (out : Buffer) × (convert_to_agtype (object two_pairs) ≡ ok out)
    × (find_agtype_value_from_container postgres
          (ag_deserialize_extended_type postgres qsort_arg 1)
          (drop 4 out)
          false
          true
          (string (97 ∷ 97 ∷ []))
        ≡ ok (some (string (120 ∷ []))))
object_round_trip_example =
    object_round_trip postgres qsort_arg 0 two_pairs 1
      (record { key = 97 ∷ 97 ∷ []; value = string (120 ∷ []); order = 1 })
      (omega arith, tt, (omega arith, omega arith, tt)) (omega arith) two_pairs-Ascending refl
      (omega arith)
