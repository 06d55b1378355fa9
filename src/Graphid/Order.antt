-- ===== src/Graphid/Order.antt =====
-- The comparison operators and the B-tree comparators of graphid.c.
use incubator_age.Prelude.{
  ◌≤◌, ◌≡◌, ◌↔◌, ℕ, true, false, not, if◌then◌else◌, arith, ltb, ◌||◌, ◌&&◌, ◌==◌,
}
use incubator_age.Prelude.Int.{ℤ, pos, negsuc, opposite}
use incubator_age.Graphid.{
  graphid_eq, graphid_ne, graphid_lt, graphid_gt, graphid_le, graphid_ge, graphid_btree_cmp,
  graphid_btree_fast_cmp, make_graphid, label_id_max, entry_id_max,
}
use incubator_age.Graphid.Fields.{packed, packed_of_ok}
use incubator_age.Result.{ok}

-- The comparator's sign decides all six operators: it is 1 exactly on `>`, -1 exactly on `<` and 0
-- exactly on `=`, which is equality of the identifiers; `<>`, `<=` and `>=` are the negations of
-- `=`, `>` and `<`; and the sort-support comparator returns the same number.
pub btree_cmp_decides :
    (a b : ℤ)
    → ((graphid_btree_cmp a b ≡ pos 1) ↔ (graphid_gt a b ≡ true))
      × ((graphid_btree_cmp a b ≡ negsuc 0) ↔ (graphid_lt a b ≡ true))
      × ((graphid_btree_cmp a b ≡ pos 0) ↔ (graphid_eq a b ≡ true))
      × ((graphid_eq a b ≡ true) ↔ (a ≡ b))
      × (graphid_ne a b ≡ not (graphid_eq a b))
      × (graphid_le a b ≡ not (graphid_gt a b))
      × (graphid_ge a b ≡ not (graphid_lt a b))
      × (graphid_btree_fast_cmp a b ≡ graphid_btree_cmp a b)
unfolding graphid_eq graphid_ne graphid_lt graphid_gt graphid_le graphid_ge graphid_btree_cmp
    graphid_btree_fast_cmp
btree_cmp_decides a b = (
  ground arith,
  ground arith,
  ground arith,
  ground arith,
  ground arith,
  ground arith,
  ground arith,
  ground arith,
)

-- The comparator is that of a total order: swapping the arguments swaps the sign, two ids that
-- compare as 0 are one id, and being below is transitive.
pub btree_cmp_total_order :
    (a b c : ℤ)
    → (graphid_btree_cmp b a ≡ opposite (graphid_btree_cmp a b))
      × (graphid_btree_cmp a b ≡ pos 0 → a ≡ b)
      × (graphid_btree_cmp a b ≡ negsuc 0
          → graphid_btree_cmp b c ≡ negsuc 0
          → graphid_btree_cmp a c ≡ negsuc 0)
unfolding graphid_btree_cmp
btree_cmp_total_order a b c = (ground arith, λ h. ground arith, λ h k. ground arith)

lt-packed :
    (l l' e e' : ℕ)
    → l ≤ label_id_max
    → l' ≤ label_id_max
    → e ≤ entry_id_max
    → e' ≤ entry_id_max
    → graphid_lt (packed l e) (packed l' e') ≡ (
        if ltb l 32768 && not (ltb l' 32768)
        then false
        else if ltb l' 32768 && not (ltb l 32768)
        then true
        else ltb l l' || (l == l' && ltb e e'))
unfolding graphid_lt packed
lt-packed l l' e e' hl hl' he he' = ground arith

-- The order of two identifiers that make_graphid builds: those of the labels above 32767 are
-- negative and come first; among labels on the same side the label ids decide, and within one
-- label the entry ids.
pub lt-make_graphid :
    (l l' e e' : ℕ) {g g' : ℤ}
    → make_graphid (pos l) (pos e) ≡ ok g
    → make_graphid (pos l') (pos e') ≡ ok g'
    → graphid_lt g g' ≡ (
        if ltb l 32768 && not (ltb l' 32768)
        then false
        else if ltb l' 32768 && not (ltb l 32768)
        then true
        else ltb l l' || (l == l' && ltb e e'))
lt-make_graphid l l' e e' h h' =
    let p = packed_of_ok l e h in
    let q = packed_of_ok l' e' h' in rw (p.2, q.2) (lt-packed l l' e e' p.0 q.0 p.1 q.1)
