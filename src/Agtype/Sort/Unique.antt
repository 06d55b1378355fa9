-- ===== src/Agtype/Sort/Unique.antt =====
-- The keys that uniqueify_agtype_object leaves.
use incubator_age.Prelude.{
  ℕ, ◌≡◌, refl, ap, sym, false, List, [], ◌∷◌, ◌⊎◌, ◌↔◌, inl, inr, arith, Bool-cases,
}
use incubator_age.Prelude.Int.{pos}
use incubator_age.Agtype.{Pair}
use incubator_age.Agtype.Text.{length_compare_agtype_string_value}
use incubator_age.Agtype.Text.Order.{Before, key_total_order}
use incubator_age.Agtype.Sort.{
  QsortArg, unique_loop, unique, uniqueify_pairs, All, In, PairBefore, Sorted, DistinctOrders,
  Apart, SortsPairs, length_compare_agtype_pair,
}
use incubator_age.Agtype.Sort.Order.{Before-cases}

-- Every key comes before all later ones.
abbrev pub Ascending : List Pair → Type 0
Ascending [] = Unit
Ascending (p ∷ ps) = All (λ q. Before p.key q.key) ps × Ascending ps

All-imp : {P Q : Pair → Type 0} → ((p : Pair) → P p → Q p) → (l : List Pair) → All P l → All Q l
All-imp f [] a = tt
All-imp f (p ∷ l) (h, a) = (f p h, All-imp f l a)

-- Keys equal to k, or after it.
abbrev AtLeast : List ℕ → Pair → Type 0
AtLeast k p = (p.key ≡ k) ⊎ Before k p.key

Before-AtLeast : (j k : List ℕ) (p : Pair) → Before j k → AtLeast k p → Before j p.key
Before-AtLeast j k p h (inl e) = rw e h
Before-AtLeast j k p h (inr b) = (key_total_order j k p.key).3 h b

AtLeast-Before : (j k : List ℕ) (p : Pair) → Before j k → AtLeast k p → AtLeast j p
AtLeast-Before j k p h a = inr (Before-AtLeast j k p h a)

-- the two outcomes of a comparison in sorted order
step_cases :
    (a b : Pair)
    → PairBefore a b
    → (length_compare_agtype_string_value b.key a.key ≡ pos 0) × (b.key ≡ a.key)
      ⊎ (length_compare_agtype_string_value b.key a.key ≡ pos 1) × Before a.key b.key
step_cases a b h = elim (Before-cases a b h) [
  | inl e ↦ inr (rw ((key_total_order a.key b.key a.key).2, e), e)
  | inr e ↦ inl (rw e.0 ((key_total_order b.key b.key b.key).0), sym e.0)
]

unique_loop-AtLeast :
    (p : Pair) (l : List Pair) → Sorted (p ∷ l) → All (AtLeast p.key) (unique_loop p l)
unfolding unique_loop
unique_loop-AtLeast p [] s = (inl refl, tt)
unique_loop-AtLeast p (q ∷ l) s = elim (step_cases p q s.0.0) [
  | inl e ↦ rw e.0 (unique_loop-AtLeast p l (s.0.1, s.1.1))
  | inr e ↦ rw e.0 (
    inl refl,
    All-imp (λ r. AtLeast-Before p.key q.key r e.1) (unique_loop q l) (unique_loop-AtLeast q l s.1),
  )
]

unique_loop-Ascending : (p : Pair) (l : List Pair) → Sorted (p ∷ l) → Ascending (unique_loop p l)
unfolding unique_loop
unique_loop-Ascending p [] s = (tt, tt)
unique_loop-Ascending p (q ∷ l) s = elim (step_cases p q s.0.0) [
  | inl e ↦ rw e.0 (unique_loop-Ascending p l (s.0.1, s.1.1))
  | inr e ↦ rw e.0 (
    All-imp (λ r. Before-AtLeast p.key q.key r e.1) (unique_loop q l) (unique_loop-AtLeast q l s.1),
    unique_loop-Ascending q l s.1,
  )
]

unique-Ascending : (l : List Pair) → Sorted l → Ascending (unique l)
unfolding unique
unique-Ascending [] s = tt
unique-Ascending (p ∷ l) s = unique_loop-Ascending p l s

-- Without equal neighbours the loop drops nothing.
unique_loop-Apart :
    (p : Pair) (l : List Pair) → Sorted (p ∷ l) → Apart (p ∷ l) → unique_loop p l ≡ p ∷ l
unfolding unique_loop
unique_loop-Apart p [] s a = refl
unique_loop-Apart p (q ∷ l) s a = elim (step_cases p q s.0.0) [
  | inl e ↦ absurd (a.0 (rw e.1 ((key_total_order p.key p.key p.key).0)))
  | inr e ↦ rw e.0 (ap (λ r. p ∷ r) (unique_loop-Apart q l s.1 a.1))
]

pub unique-Apart : (l : List Pair) → Sorted l → Apart l → unique l ≡ l
unfolding unique
unique-Apart [] s a = refl
unique-Apart (p ∷ l) s a = unique_loop-Apart p l s a

-- a sorted array of the same pairs, of which the loop makes the result
pub record Uniqueified (qsort_arg : QsortArg) (l : List Pair) : Type 0 where
  pub array : List Pair
  pub sorted : Sorted array
  pub same_pairs : (p : Pair) → In p array ↔ In p l
  pub result : uniqueify_pairs qsort_arg l ≡ unique array

pub uniqueified :
    (qsort_arg : QsortArg) (l : List Pair)
    → SortsPairs qsort_arg
    → DistinctOrders l
    → Uniqueified qsort_arg l
unfolding uniqueify_pairs
uniqueified qsort_arg [] sorts d = record {
  array = [];
  sorted = tt;
  same_pairs = λ p. ((λ i. i), (λ i. i));
  result = refl;
}
uniqueified qsort_arg (p ∷ []) sorts d = record {
  array = p ∷ [];
  sorted = (tt, tt);
  same_pairs = λ p. ((λ i. i), (λ i. i));
  result = refl;
}
uniqueified qsort_arg (p ∷ q ∷ r) sorts d =
    let l = p ∷ q ∷ r in
    let s = sorts.sorted l d in
    record {
      array = (qsort_arg length_compare_agtype_pair l false).0;
      sorted = s;
      same_pairs = sorts.same_pairs l;
      result = elim (Bool-cases ((qsort_arg length_compare_agtype_pair l false).1)) [
        | inl t ↦ ground arith
        | inr f ↦ ground (arith, unique-Apart _ s (sorts.neighbours l f))
      ];
    }

-- With a qsort_arg that sorts, the keys that uniqueify_agtype_object leaves are strictly
-- ascending, for all pairs whose order fields are distinct.
pub uniqueify_pairs-Ascending :
    (qsort_arg : QsortArg) (l : List Pair)
    → SortsPairs qsort_arg
    → DistinctOrders l
    → Ascending (uniqueify_pairs qsort_arg l)
uniqueify_pairs-Ascending qsort_arg l sorts d =
    let u = uniqueified qsort_arg l sorts d in rw u.result (unique-Ascending u.array u.sorted)
