-- ===== src/Tests/Orders.antt =====
-- Instances of the theorems on orders, on the pairs of an object, on hashes and on graphids.
use incubator_age.Agtype.Compare.Priority.{by_type-order, earlier, together, priority_order}
use incubator_age.Prelude.{
  ℕ, ◌≡◌, ◌⊎◌, ◌↔◌, refl, true, false, not, List, [], ◌∷◌, arith, if◌then◌else◌, ltb, ◌||◌, ◌&&◌,
  ◌==◌, ◌^◌,
}
use incubator_age.Prelude.Int.{ℤ, pos, negsuc, opposite, ◌<ℤ◌, ◌≤ℤ◌}
use incubator_age.Result.{ok, err, label_id_out_of_range, entry_id_out_of_range}
use incubator_age.Agtype.{
  AgtypeValue, null, string, numeric, integer, float, boolean, Pair, edge_type, path_type,
  null_type, string_type,
}
use incubator_age.Agtype.Text.{length_compare_agtype_string_value}
use incubator_age.Agtype.Text.Order.{Before, key_total_order}
use incubator_age.Agtype.Sort.{DistinctOrders, uniqueify_pairs}
use incubator_age.Agtype.Sort.Unique.{Ascending, uniqueify_pairs-Ascending}
use incubator_age.Agtype.Sort.LastWins.{first_pair, last_pair, first_pair-uniqueify_pairs}
use incubator_age.Agtype.Number.{isnan, float_eq, compare_two_floats_orderability}
use incubator_age.Agtype.Number.FloatOrder.{floats_total_order}
use incubator_age.Agtype.Equal.{equals_agtype_scalar_value}
use incubator_age.Agtype.Compare.{compare_agtype_scalar_values, by_type}
use incubator_age.Agtype.Compare.Scalars.{
  ComparisonLaws, compare_scalars-swap, exact-Opposed, Opposed,
}
use incubator_age.Agtype.Hash.{agtype_hash_scalar_value, HashLaws, equal_scalars-hash}
use incubator_age.Graphid.{
  graphid_eq, graphid_ne, graphid_lt, graphid_gt, graphid_le, graphid_ge, graphid_btree_cmp,
  graphid_btree_fast_cmp, make_graphid, get_graphid_label_id, get_graphid_entry_id,
}
use incubator_age.Graphid.Fields.{make_graphid_fields, make_graphid_errors}
use incubator_age.Graphid.Order.{btree_cmp_decides, btree_cmp_total_order, lt-make_graphid}
use incubator_age.Tests.Samples.{postgres, qsort_arg}
use incubator_age.Tests.Sorting.{qsort_arg-SortsPairs}

-- the keys b, a and b again
abbrev three_pairs : List Pair
three_pairs =
    record { key = 98 ∷ []; value = null; order = 0 }
    ∷ record { key = 97 ∷ []; value = boolean true; order = 1 }
    ∷ record { key = 98 ∷ []; value = integer (pos 5); order = 2 }
    ∷ []

three_pairs-DistinctOrders : DistinctOrders three_pairs
three_pairs-DistinctOrders = (
  (λ e. absurd (omega arith), (λ e. absurd (omega arith), tt)),
  ((λ e. absurd (omega arith), tt), (tt, tt)),
)

uniqueify_pairs-Ascending_example : Ascending (uniqueify_pairs qsort_arg three_pairs)
uniqueify_pairs-Ascending_example =
    uniqueify_pairs-Ascending qsort_arg three_pairs qsort_arg-SortsPairs three_pairs-DistinctOrders

first_pair-uniqueify_pairs_example :
    first_pair (98 ∷ []) (uniqueify_pairs qsort_arg three_pairs) ≡ last_pair (98 ∷ []) three_pairs
first_pair-uniqueify_pairs_example =
    first_pair-uniqueify_pairs qsort_arg three_pairs (98 ∷ []) qsort_arg-SortsPairs
      (refl, (refl, (refl, tt)))

abbrev key_b : List ℕ
key_b = 98 ∷ []

abbrev key_aa : List ℕ
key_aa = 97 ∷ 97 ∷ []

abbrev key_ab : List ℕ
key_ab = 97 ∷ 98 ∷ []

key_total_order_example :
    (length_compare_agtype_string_value key_b key_b ≡ pos 0)
    × (length_compare_agtype_string_value key_b key_aa ≡ pos 0 → key_b ≡ key_aa)
    × (length_compare_agtype_string_value key_aa key_b
        ≡ opposite (length_compare_agtype_string_value key_b key_aa))
    × (Before key_b key_aa → Before key_aa key_ab → Before key_b key_ab)
key_total_order_example = key_total_order key_b key_aa key_ab

-- 1.0, 2.0 and a NaN
abbrev one : ℕ
one = 0x3FF0000000000000

abbrev two : ℕ
two = 0x4000000000000000

abbrev nan : ℕ
nan = 0x7FF8000000000000

floats_total_order_example :
    ((compare_two_floats_orderability one two ≡ pos 0)
      ↔ ((isnan one ≡ true) × (isnan two ≡ true) ⊎ (float_eq one two ≡ true)))
    × (compare_two_floats_orderability two one ≡ opposite (compare_two_floats_orderability one two))
    × (compare_two_floats_orderability one two ≡ negsuc 0
        → compare_two_floats_orderability two nan ≡ negsuc 0
        → compare_two_floats_orderability one nan ≡ negsuc 0)
    × (isnan one ≡ false → isnan two ≡ true → compare_two_floats_orderability one two ≡ negsuc 0)
floats_total_order_example = floats_total_order one two nan

postgres-ComparisonLaws : ComparisonLaws postgres
postgres-ComparisonLaws = record {
  numerics = λ a b. exact-Opposed _ _ (ground arith);
  strings = λ a b. exact-Opposed _ _ (key_total_order a b b).2;
}

int_below_float :
    compare_agtype_scalar_values postgres (integer (pos 1)) (float two) ≡ ok (negsuc 0)
unfolding compare_agtype_scalar_values compare_two_floats_orderability isnan
    incubator_age.Agtype.Number.int_to_float8 incubator_age.Agtype.Number.float_lt
    incubator_age.Agtype.Number.float_place
int_below_float = refl

compare_scalars-swap_example :
    (s : ℤ) × (compare_agtype_scalar_values postgres (float two) (integer (pos 1)) ≡ ok s)
    × Opposed (negsuc 0) s
compare_scalars-swap_example =
    compare_scalars-swap postgres (integer (pos 1)) (float two) (negsuc 0) postgres-ComparisonLaws
      int_below_float

by_type-order_example :
    (by_type edge_type path_type
      ≡ (if earlier priority_order edge_type path_type then negsuc 0 else pos 1))
    × ((by_type path_type edge_type ≡ opposite (by_type edge_type path_type))
        ↔ (together priority_order edge_type path_type ≡ false))
by_type-order_example = by_type-order edge_type path_type

postgres-HashLaws : HashLaws postgres
postgres-HashLaws = record { numerics = λ a b e. refl; floats = λ a b e. refl }

-- minus zero and zero
zeros_equal : equals_agtype_scalar_value postgres (float (2 ^ 63)) (float 0) ≡ ok true
unfolding equals_agtype_scalar_value float_eq isnan incubator_age.Agtype.Number.float_place
zeros_equal = refl

equal_scalars-hash_example :
    (h : ℕ) × (agtype_hash_scalar_value postgres (float (2 ^ 63)) 7 ≡ ok h)
    × (agtype_hash_scalar_value postgres (float 0) 7 ≡ ok h)
equal_scalars-hash_example =
    equal_scalars-hash postgres (float (2 ^ 63)) (float 0) 7 postgres-HashLaws tt zeros_equal

make_graphid_fields_example :
    (gid : ℤ) × (make_graphid (pos 40000) (pos 12) ≡ ok gid)
    × (get_graphid_label_id gid ≡ pos 40000)
    × (get_graphid_entry_id gid ≡ pos 12)
make_graphid_fields_example =
    make_graphid_fields 40000 12 (omega arith) (omega arith) (omega arith) (omega arith)

make_graphid_errors_example :
    ((pos 65536 <ℤ pos 1) ⊎ (pos 65535 <ℤ pos 65536)
      → make_graphid (pos 65536) (pos 0) ≡ err label_id_out_of_range)
    × (pos 1 ≤ℤ pos 65536
        → pos 65536 ≤ℤ pos 65535
        → (pos 0 <ℤ pos 1) ⊎ (pos 281474976710655 <ℤ pos 0)
        → make_graphid (pos 65536) (pos 0) ≡ err entry_id_out_of_range)
make_graphid_errors_example = make_graphid_errors (pos 65536) (pos 0)

btree_cmp_decides_example :
    ((graphid_btree_cmp (pos 3) (negsuc 4) ≡ pos 1) ↔ (graphid_gt (pos 3) (negsuc 4) ≡ true))
    × ((graphid_btree_cmp (pos 3) (negsuc 4) ≡ negsuc 0) ↔ (graphid_lt (pos 3) (negsuc 4) ≡ true))
    × ((graphid_btree_cmp (pos 3) (negsuc 4) ≡ pos 0) ↔ (graphid_eq (pos 3) (negsuc 4) ≡ true))
    × ((graphid_eq (pos 3) (negsuc 4) ≡ true) ↔ (pos 3 ≡ negsuc 4))
    × (graphid_ne (pos 3) (negsuc 4) ≡ not (graphid_eq (pos 3) (negsuc 4)))
    × (graphid_le (pos 3) (negsuc 4) ≡ not (graphid_gt (pos 3) (negsuc 4)))
    × (graphid_ge (pos 3) (negsuc 4) ≡ not (graphid_lt (pos 3) (negsuc 4)))
    × (graphid_btree_fast_cmp (pos 3) (negsuc 4) ≡ graphid_btree_cmp (pos 3) (negsuc 4))
btree_cmp_decides_example = btree_cmp_decides (pos 3) (negsuc 4)

btree_cmp_total_order_example :
    (graphid_btree_cmp (pos 3) (negsuc 4) ≡ opposite (graphid_btree_cmp (negsuc 4) (pos 3)))
    × (graphid_btree_cmp (negsuc 4) (pos 3) ≡ pos 0 → negsuc 4 ≡ pos 3)
    × (graphid_btree_cmp (negsuc 4) (pos 3) ≡ negsuc 0
        → graphid_btree_cmp (pos 3) (pos 9) ≡ negsuc 0
        → graphid_btree_cmp (negsuc 4) (pos 9) ≡ negsuc 0)
btree_cmp_total_order_example = btree_cmp_total_order (negsuc 4) (pos 3) (pos 9)

abbrev low_id : ℤ
low_id = pos 281474976710660

abbrev high_id : ℤ
high_id = negsuc 9223090561878065147

low_id_is : make_graphid (pos 1) (pos 4) ≡ ok low_id
unfolding make_graphid incubator_age.Graphid.label_id_is_valid
    incubator_age.Graphid.entry_id_is_valid
low_id_is = refl

high_id_is : make_graphid (pos 32769) (pos 4) ≡ ok high_id
unfolding make_graphid incubator_age.Graphid.label_id_is_valid
    incubator_age.Graphid.entry_id_is_valid
high_id_is = refl

lt-make_graphid_example : graphid_lt low_id high_id ≡ (
    if ltb 1 32768 && not (ltb 32769 32768)
    then false
    else if ltb 32769 32768 && not (ltb 1 32768)
    then true
    else ltb 1 32769 || (1 == 32769 && ltb 4 4))
lt-make_graphid_example = lt-make_graphid 1 32769 4 4 low_id_is high_id_is
