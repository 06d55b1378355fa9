-- ===== src/Agtype/Sort.antt =====
-- length_compare_agtype_pair and uniqueify_agtype_object of agtype_util.c: the pairs of an object
-- are sorted by key and the duplicates dropped. PostgreSQL's qsort_arg is a parameter.
pub mod Order
pub mod Unique
pub mod LastWins
use incubator_age.Prelude.{
  ℕ, ◌<◌, ◌≢◌, ◌≡◌, Bool, true, false, List, [], ◌∷◌, ltb, length, ◌⊎◌, ◌↔◌, if◌then◌else◌,
}
use incubator_age.Prelude.Int.{ℤ, pos, negsuc, eqb_ℤ}
use incubator_age.Agtype.{Pair, Pairs, pair_list, pairs_of}
use incubator_age.Agtype.Text.{length_compare_agtype_string_value}

-- The result, and *binequal after the call.
unfoldable pub length_compare_agtype_pair : Pair → Pair → Bool → ℤ × Bool
length_compare_agtype_pair pa pb binequal =
    let res = length_compare_agtype_string_value pa.key pb.key in
    if eqb_ℤ res (pos 0)
    then (if ltb pb.order pa.order then negsuc 0 else pos 1, true)
    else (res, binequal)

-- qsort_arg(base, n, size, cmp, arg): the sorted array and the final value of *arg.
abbrev pub QsortArg : Type 0
QsortArg = (Pair → Pair → Bool → ℤ × Bool) → List Pair → Bool → List Pair × Bool

-- The loop over the sorted pairs: `res` is the last pair kept, the list holds those from ptr on.
unfoldable pub unique_loop : Pair → List Pair → List Pair
unique_loop res [] = res ∷ []
unique_loop res (ptr ∷ rest) =
    let skipped = unique_loop res rest in
    let copied = res ∷ unique_loop ptr rest in
    if eqb_ℤ (length_compare_agtype_string_value ptr.key res.key) (pos 0) then skipped else copied

unfoldable pub unique : List Pair → List Pair
unfolding unique_loop
unique [] = []
unique (p ∷ ps) = unique_loop p ps

unfoldable pub uniqueify_pairs : QsortArg → List Pair → List Pair
unfolding unique
uniqueify_pairs qsort_arg pairs =
    let (sorted, has_non_uniq) =
      if ltb 1 (length pairs)
      then qsort_arg length_compare_agtype_pair pairs false
      else (pairs, false) in
    if has_non_uniq then unique sorted else sorted

unfoldable pub uniqueify_agtype_object : QsortArg → Pairs → Pairs
unfolding uniqueify_pairs
uniqueify_agtype_object qsort_arg object = pairs_of (uniqueify_pairs qsort_arg (pair_list object))

abbrev pub All {ℓ} : (Pair → Type ℓ) → List Pair → Type ℓ
All P [] = Unit
All P (p ∷ ps) = P p × All P ps

abbrev pub In : Pair → List Pair → Type 0
In p [] = ⊥
In p (q ∷ qs) = (p ≡ q) ⊎ In p qs

-- The comparator puts a before b.
abbrev pub PairBefore : Pair → Pair → Type 0
PairBefore a b = (b' : Bool) → (length_compare_agtype_pair a b b').0 ≡ negsuc 0

abbrev pub Sorted : List Pair → Type 0
Sorted [] = Unit
Sorted (p ∷ ps) = All (PairBefore p) ps × Sorted ps

abbrev pub DistinctOrders : List Pair → Type 0
DistinctOrders [] = Unit
DistinctOrders (p ∷ ps) = All (λ q. p.order ≢ q.order) ps × DistinctOrders ps

abbrev pub Apart : List Pair → Type 0
Apart [] = Unit
Apart (p ∷ []) = Unit
Apart (p ∷ q ∷ r) = (length_compare_agtype_string_value p.key q.key ≢ pos 0) × Apart (q ∷ r)

-- What the code relies on of qsort_arg with this comparator, on pairs with distinct order fields:
-- it permutes the array into ascending order, and it compares neighbours of the result, since no
-- other comparison tells their order, so that equal neighbours set the flag.
pub record SortsPairs (qsort_arg : QsortArg) : Type 0 where
  pub sorted :
      (l : List Pair) → DistinctOrders l → Sorted (qsort_arg length_compare_agtype_pair l false).0
  pub same_pairs :
      (l : List Pair) (p : Pair) → In p (qsort_arg length_compare_agtype_pair l false).0 ↔ In p l
  pub neighbours :
      (l : List Pair)
      → (qsort_arg length_compare_agtype_pair l false).1 ≡ false
      → Apart (qsort_arg length_compare_agtype_pair l false).0
