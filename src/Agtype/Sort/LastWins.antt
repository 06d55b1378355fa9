-- ===== src/Agtype/Sort/LastWins.antt =====
-- Which of the pairs with one key uniqueify_agtype_object keeps.
use incubator_age.Prelude.{
  ℕ, suc, ◌<◌, ◌≤◌, ◌≢◌, ◌≡◌, refl, ap, sym, ◌∙◌, false, List, [], ◌∷◌, Option, none, some, ◌↔◌,
  inl, inr, arith, Bool-cases, if◌then◌else◌,
}
use incubator_age.Agtype.{Pair}
use incubator_age.Agtype.Text.{
  same_bytes, same_bytes_eq, same_bytes_refl, length_compare_agtype_string_value,
}
use incubator_age.Agtype.Text.Order.{key_total_order}
use incubator_age.Agtype.Sort.{
  QsortArg, unique_loop, unique, uniqueify_pairs, All, In, Sorted, PairBefore, DistinctOrders,
  SortsPairs,
}
use incubator_age.Agtype.Sort.Order.{Before-cases}
use incubator_age.Agtype.Sort.Unique.{uniqueified}

-- The first pair with key k, and the last one.
abbrev pub first_pair : List ℕ → List Pair → Option Pair
first_pair k [] = none
first_pair k (p ∷ ps) = if same_bytes p.key k then some p else first_pair k ps

abbrev or_else : Option Pair → Option Pair → Option Pair
or_else (some q) other = some q
or_else none other = other

abbrev pub last_pair : List ℕ → List Pair → Option Pair
last_pair k [] = none
last_pair k (p ∷ ps) = or_else (last_pair k ps) (if same_bytes p.key k then some p else none)

-- The order fields count up from n, as append_key writes them.
abbrev pub InOrder : ℕ → List Pair → Type 0
InOrder n [] = Unit
InOrder n (p ∷ ps) = (p.order ≡ n) × InOrder (suc n) ps

order-le : (n : ℕ) (l : List Pair) (p : Pair) → InOrder n l → In p l → n ≤ p.order
order-le n [] p o i = absurd i
order-le n (q ∷ l) p o (inl e) = rw e (omega arith)
order-le n (q ∷ l) p o (inr i) = omega (arith, order-le (suc n) l p o.1 i)

-- p has key k and no pair of the list with that key has a greater order
record IsLast (k : List ℕ) (l : List Pair) (p : Pair) : Type 0 where
  member : In p l
  key : p.key ≡ k
  greatest : (q : Pair) → In q l → q.key ≡ k → q.order ≤ p.order

abbrev IsAbsent : List ℕ → List Pair → Type 0
IsAbsent k l = (q : Pair) → In q l → q.key ≢ k

abbrev Finds : List ℕ → List Pair → Option Pair → Type 0
Finds k l none = IsAbsent k l
Finds k l (some p) = IsLast k l p

differs : (s t : List ℕ) → same_bytes s t ≡ false → s ≢ t
differs s t h e = cc (h, same_bytes_refl t, e)

only_itself :
    (k : List ℕ) (p : Pair) (l : List Pair)
    → IsAbsent k l
    → Finds k (p ∷ l) (if same_bytes p.key k then some p else none)
only_itself k p l f = elim (Bool-cases (same_bytes p.key k)) [
  | inl t ↦ rw t (record {
    member = inl refl;
    key = same_bytes_eq p.key k t;
    greatest = λ q i e. elim i [ inl j ↦ rw j (omega arith) | inr j ↦ absurd (f q j e) ];
  })
  | inr t ↦ rw t (λ q i e. elim i [
    | inl j ↦ differs p.key k t (ap (λ (r : Pair). r.key) (sym j) ∙ e)
    | inr j ↦ f q j e
  ])
]

later_wins :
    (k : List ℕ) (n : ℕ) (p : Pair) (l : List Pair) (r : Option Pair)
    → InOrder n (p ∷ l)
    → Finds k l r
    → Finds k (p ∷ l) (or_else r (if same_bytes p.key k then some p else none))
later_wins k n p l none o f = only_itself k p l f
later_wins k n p l (some q) o f = record {
  member = inr f.member;
  key = f.key;
  greatest = λ r i e. elim i [
    | inl j ↦ rw j (omega (arith, order-le (suc n) l q o.1 f.member, o.0))
    | inr j ↦ f.greatest r j e
  ];
}

last_pair-Finds : (k : List ℕ) (n : ℕ) (l : List Pair) → InOrder n l → Finds k l (last_pair k l)
last_pair-Finds k n [] o = λ q i. absurd i
last_pair-Finds k n (p ∷ l) o =
    later_wins k n p l (last_pair k l) o (last_pair-Finds k (suc n) l o.1)

All-at : (P : Pair → Type 0) (l : List Pair) (q : Pair) → All P l → In q l → P q
All-at P [] q a i = absurd i
All-at P (p ∷ l) q a (inl e) = rw e a.0
All-at P (p ∷ l) q a (inr i) = All-at P l q a.1 i

-- In sorted pairs those after p with its key have smaller orders.
order-lt_of_Sorted :
    (p q : Pair) (l : List Pair) → Sorted (p ∷ l) → In q l → p.key ≡ q.key → q.order ≤ p.order
order-lt_of_Sorted p q l s i e = elim (Before-cases p q (All-at (PairBefore p) l q s.0 i)) [
  | inl b ↦ absurd (
      cc (
        b,
        ap (λ k. length_compare_agtype_string_value k q.key) e,
        (key_total_order q.key q.key q.key).0,
      ))
  | inr b ↦ omega (arith, b.1)
]

first_step :
    (k : List ℕ) (p : Pair) (l : List Pair) (r : Option Pair)
    → same_bytes p.key k ≡ false
    → Finds k l r
    → Finds k (p ∷ l) r
first_step k p l none t f = λ q i e. elim i [
  | inl j ↦ differs p.key k t (ap (λ (r : Pair). r.key) (sym j) ∙ e)
  | inr j ↦ f q j e
]
first_step k p l (some q) t f = record {
  member = inr f.member;
  key = f.key;
  greatest = λ r i e. elim i [
    | inl j ↦ absurd (differs p.key k t (ap (λ (r : Pair). r.key) (sym j) ∙ e))
    | inr j ↦ f.greatest r j e
  ];
}

first_pair-Finds : (k : List ℕ) (l : List Pair) → Sorted l → Finds k l (first_pair k l)
first_pair-Finds k [] s = λ q i. absurd i
first_pair-Finds k (p ∷ l) s = elim (Bool-cases (same_bytes p.key k)) [
  | inl t ↦ rw t (record {
    member = inl refl;
    key = same_bytes_eq p.key k t;
    greatest = λ q i e. elim i [
      | inl j ↦ rw j (omega arith)
      | inr j ↦ order-lt_of_Sorted p q l s j (same_bytes_eq p.key k t ∙ sym e)
    ];
  })
  | inr t ↦ rw t (first_step k p l (first_pair k l) t (first_pair-Finds k l s.1))
]

-- positions tell the pairs apart
eq_of_order :
    (n : ℕ) (l : List Pair) (p q : Pair) → InOrder n l → In p l → In q l → p.order ≡ q.order → p ≡ q
eq_of_order n [] p q o i j e = absurd i
eq_of_order n (r ∷ l) p q o (inl i) (inl j) e = i ∙ sym j
eq_of_order n (r ∷ l) p q o (inl i) (inr j) e =
    absurd (omega (arith, order-le (suc n) l q o.1 j, o.0, ap (λ (r : Pair). r.order) i))
eq_of_order n (r ∷ l) p q o (inr i) (inl j) e =
    absurd (omega (arith, order-le (suc n) l p o.1 i, o.0, ap (λ (r : Pair). r.order) j))
eq_of_order n (r ∷ l) p q o (inr i) (inr j) e = eq_of_order (suc n) l p q o.1 i j e

Finds-unique :
    (k : List ℕ) (n : ℕ) (l s : List Pair) (a b : Option Pair)
    → InOrder n l
    → ((p : Pair) → In p s ↔ In p l)
    → Finds k s a
    → Finds k l b
    → a ≡ b
Finds-unique k n l s none none o m fa fb = refl
Finds-unique k n l s none (some q) o m fa fb = absurd (fa q ((m q).1 fb.member) fb.key)
Finds-unique k n l s (some p) none o m fa fb = absurd (fb p ((m p).0 fa.member) fa.key)
Finds-unique k n l s (some p) (some q) o m fa fb =
    let pl = (m p).0 fa.member in
    let qs = (m q).1 fb.member in
    ap some (
      eq_of_order n l p q o pl fb.member
        (omega (arith, fa.greatest q qs fb.key, fb.greatest p pl fa.key)))

first_pair-unique_loop :
    (k : List ℕ) (p : Pair) (l : List Pair) → first_pair k (unique_loop p l) ≡ first_pair k (p ∷ l)
unfolding unique_loop
first_pair-unique_loop k p [] = refl
first_pair-unique_loop k p (q ∷ l) = ground (
  arith,
  first_pair-unique_loop k p l,
  first_pair-unique_loop k q l,
  (key_total_order q.key p.key p.key).1,
  ap (λ j. same_bytes j k) {x = q.key} {y = p.key},
)

first_pair-unique : (k : List ℕ) (l : List Pair) → first_pair k (unique l) ≡ first_pair k l
unfolding unique
first_pair-unique k [] = refl
first_pair-unique k (p ∷ l) = first_pair-unique_loop k p l

later_orders :
    (p : Pair) (l : List Pair) (n m : ℕ)
    → p.order ≡ n
    → n < m
    → InOrder m l
    → All (λ q. p.order ≢ q.order) l
later_orders p [] n m e h o = tt
later_orders p (q ∷ l) n m e h o =
    (omega (arith, o.0), later_orders p l n (suc m) e (omega arith) o.1)

InOrder-DistinctOrders : (n : ℕ) (l : List Pair) → InOrder n l → DistinctOrders l
InOrder-DistinctOrders n [] o = tt
InOrder-DistinctOrders n (p ∷ l) o =
    (later_orders p l n (suc n) o.0 (omega arith) o.1, InOrder-DistinctOrders (suc n) l o.1)

-- With a qsort_arg that sorts, what uniqueify_agtype_object keeps for a key is the pair that was
-- appended last with that key, value and all, and it keeps no pair where there was none; the order
-- fields are the positions, as append_key writes them.
pub first_pair-uniqueify_pairs :
    (qsort_arg : QsortArg) (l : List Pair) (k : List ℕ)
    → SortsPairs qsort_arg
    → InOrder 0 l
    → first_pair k (uniqueify_pairs qsort_arg l) ≡ last_pair k l
first_pair-uniqueify_pairs qsort_arg l k sorts o =
    let u = uniqueified qsort_arg l sorts (InOrder-DistinctOrders 0 l o) in
    rw (u.result, first_pair-unique)
      (Finds-unique k 0 l u.array (first_pair k u.array) (last_pair k l) o u.same_pairs
        (first_pair-Finds k u.array u.sorted) (last_pair-Finds k 0 l o))
