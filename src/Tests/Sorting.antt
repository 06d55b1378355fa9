-- ===== src/Tests/Sorting.antt =====
-- The insertion sort of the sample instance, and what the code relies on of PostgreSQL's qsort_arg.
use incubator_age.Prelude.{
  ◌≡◌, ◌≢◌, refl, ap, sym, ◌∙◌, true, false, List, [], ◌∷◌, ◌⊎◌, inl, inr, ◌↔◌, arith, Bool-cases,
}
use incubator_age.Prelude.Int.{pos, ltb_ℤ, eqb_ℤ}
use incubator_age.Agtype.{Pair}
use incubator_age.Agtype.Text.{length_compare_agtype_string_value}
use incubator_age.Agtype.Text.Order.{key_total_order, key_cmp_cases}
use incubator_age.Agtype.Sort.{
  length_compare_agtype_pair, All, In, PairBefore, Sorted, DistinctOrders, Apart, SortsPairs,
}
use incubator_age.Tests.Samples.{insert_pair, sort_by, check_neighbours, qsort_arg}

before_trans : (a b c : Pair) → PairBefore a b → PairBefore b c → PairBefore a c
unfolding length_compare_agtype_pair
before_trans a b c h k x = ground (
  arith,
  h x,
  k x,
  (key_total_order a.key b.key c.key).3,
  (key_total_order a.key b.key c.key).1,
  (key_total_order b.key c.key a.key).1,
)

below_before :
    (a b : Pair) → ltb_ℤ (length_compare_agtype_pair a b false).0 (pos 0) ≡ true → PairBefore a b
unfolding length_compare_agtype_pair
below_before a b h x = ground (arith, key_cmp_cases a.key b.key)

not_below_before :
    (a b : Pair)
    → a.order ≢ b.order
    → ltb_ℤ (length_compare_agtype_pair a b false).0 (pos 0) ≡ false
    → PairBefore b a
unfolding length_compare_agtype_pair
not_below_before a b n h x =
    ground (arith, key_cmp_cases a.key b.key, (key_total_order a.key b.key b.key).2)

All-trans :
    (a b : Pair) (l : List Pair) → PairBefore a b → All (PairBefore b) l → All (PairBefore a) l
All-trans a b [] h k = tt
All-trans a b (c ∷ l) h k = (before_trans a b c h k.0, All-trans a b l h k.1)

insert-All :
    (P : Pair → Type 0) (p : Pair) (l : List Pair)
    → P p
    → All P l
    → All P (insert_pair length_compare_agtype_pair p l)
insert-All P p [] h a = (h, tt)
insert-All P p (q ∷ l) h a =
    elim (Bool-cases (ltb_ℤ (length_compare_agtype_pair p q false).0 (pos 0))) [
      | inl t ↦ rw t (h, a)
      | inr t ↦ rw t (a.0, insert-All P p l h a.1)
    ]

insert-Sorted :
    (p : Pair) (l : List Pair)
    → All (λ q. p.order ≢ q.order) l
    → Sorted l
    → Sorted (insert_pair length_compare_agtype_pair p l)
insert-Sorted p [] n s = (tt, tt)
insert-Sorted p (q ∷ l) n s =
    elim (Bool-cases (ltb_ℤ (length_compare_agtype_pair p q false).0 (pos 0))) [
      | inl t ↦ let b = below_before p q t in rw t ((b, All-trans p q l b s.0), s)
      | inr t ↦ rw t (
        insert-All (PairBefore q) p l (not_below_before p q n.0 t) s.0,
        insert-Sorted p l n.1 s.1,
      )
    ]

sort-All :
    (P : Pair → Type 0) (l : List Pair) → All P l → All P (sort_by length_compare_agtype_pair l)
sort-All P [] a = tt
sort-All P (p ∷ l) a = insert-All P p (sort_by length_compare_agtype_pair l) a.0 (sort-All P l a.1)

sort-Sorted : (l : List Pair) → DistinctOrders l → Sorted (sort_by length_compare_agtype_pair l)
sort-Sorted [] d = tt
sort-Sorted (p ∷ l) d =
    insert-Sorted p (sort_by length_compare_agtype_pair l) (sort-All (λ q. p.order ≢ q.order) l d.0)
      (sort-Sorted l d.1)

insert-In :
    (x p : Pair) (l : List Pair)
    → (In x (insert_pair length_compare_agtype_pair p l) → (x ≡ p) ⊎ In x l)
      × ((x ≡ p) ⊎ In x l → In x (insert_pair length_compare_agtype_pair p l))
insert-In x p [] = ((λ i. i), (λ i. i))
insert-In x p (q ∷ l) = elim (Bool-cases (ltb_ℤ (length_compare_agtype_pair p q false).0 (pos 0))) [
  | inl t ↦ rw t ((λ i. i), (λ i. i))
  | inr t ↦
      let r = insert-In x p l in
      rw t (
        (λ i. elim i [
          | inl e ↦ inr (inl e)
          | inr j ↦ elim (r.0 j) [ inl e ↦ inl e | inr k ↦ inr (inr k) ]
        ]),
        (λ i. elim i [
          | inl e ↦ inr (r.1 (inl e))
          | inr j ↦ elim j [ inl e ↦ inl e | inr k ↦ inr (r.1 (inr k)) ]
        ]),
      )
]

sort-In : (l : List Pair) (x : Pair) → In x (sort_by length_compare_agtype_pair l) ↔ In x l
sort-In [] x = ((λ i. i), (λ i. i))
sort-In (p ∷ l) x =
    let r = insert-In x p (sort_by length_compare_agtype_pair l) in
    let s = sort-In l x in
    (
      (λ i. elim (r.0 i) [ inl e ↦ inl e | inr j ↦ inr (s.0 j) ]),
      (λ i. elim i [ inl e ↦ r.1 (inl e) | inr j ↦ r.1 (inr (s.1 j)) ]),
    )

flag_stays : (l : List Pair) → check_neighbours length_compare_agtype_pair l true ≡ true
unfolding length_compare_agtype_pair
flag_stays [] = refl
flag_stays (p ∷ []) = refl
flag_stays (p ∷ q ∷ l) =
    elim (Bool-cases (eqb_ℤ (length_compare_agtype_string_value p.key q.key) (pos 0))) [
      | inl t ↦ rw t (flag_stays (q ∷ l))
      | inr t ↦ rw t (flag_stays (q ∷ l))
    ]

flag-Apart : (l : List Pair) → check_neighbours length_compare_agtype_pair l false ≡ false → Apart l
unfolding length_compare_agtype_pair
flag-Apart [] h = tt
flag-Apart (p ∷ []) h = tt
flag-Apart (p ∷ q ∷ l) h =
    elim (Bool-cases (eqb_ℤ (length_compare_agtype_string_value p.key q.key) (pos 0))) [
      | inl t ↦
          let set : check_neighbours length_compare_agtype_pair (p ∷ q ∷ l) false ≡ true =
            rw t (flag_stays (q ∷ l)) in
          absurd (cc (h, set))
      | inr t ↦
          let kept : check_neighbours length_compare_agtype_pair (p ∷ q ∷ l) false
              ≡ check_neighbours length_compare_agtype_pair (q ∷ l) false =
            rw t refl in
          (λ e. cc (t, ap (λ x. eqb_ℤ x (pos 0)) e), flag-Apart (q ∷ l) (sym kept ∙ h))
    ]

pub qsort_arg-SortsPairs : SortsPairs qsort_arg
qsort_arg-SortsPairs = record {
  sorted = sort-Sorted;
  same_pairs = sort-In;
  neighbours = λ l h. flag-Apart (sort_by length_compare_agtype_pair l) h;
}
