-- ===== src/Agtype/Text/Order.antt =====
-- length_compare_agtype_string_value as an order of object keys.
use incubator_age.Prelude.{ℕ, ◌≡◌, ◌≢◌, ap, refl, List, [], ◌∷◌, length, arith, ◌⊎◌, inl, inr}
use incubator_age.Prelude.Int.{pos, negsuc, opposite}
use incubator_age.Agtype.Text.{memcmp, length_compare_agtype_string_value}

-- a comes before b.
abbrev pub Before : List ℕ → List ℕ → Type 0
Before a b = length_compare_agtype_string_value a b ≡ negsuc 0

memcmp_self : (a : List ℕ) → memcmp a a ≡ pos 0
unfolding memcmp
memcmp_self [] = refl
memcmp_self (x ∷ a) = ground (arith, memcmp_self a)

memcmp_eq : (a b : List ℕ) → length a ≡ length b → memcmp a b ≡ pos 0 → a ≡ b
unfolding memcmp
memcmp_eq [] [] n h = refl
memcmp_eq [] (y ∷ b) n h = absurd (omega arith)
memcmp_eq (x ∷ a) [] n h = absurd (omega arith)
memcmp_eq (x ∷ a) (y ∷ b) n h = ground (arith, memcmp_eq a b (omega arith))

memcmp_swap : (a b : List ℕ) → length a ≡ length b → memcmp b a ≡ opposite (memcmp a b)
unfolding memcmp
memcmp_swap [] [] n = refl
memcmp_swap [] (y ∷ b) n = absurd (omega arith)
memcmp_swap (x ∷ a) [] n = absurd (omega arith)
memcmp_swap (x ∷ a) (y ∷ b) n = ground (arith, memcmp_swap a b (omega arith))

memcmp_trans :
    (a b c : List ℕ)
    → length a ≡ length b
    → length b ≡ length c
    → memcmp a b ≡ negsuc 0
    → memcmp b c ≡ negsuc 0
    → memcmp a c ≡ negsuc 0
unfolding memcmp
memcmp_trans [] b c n m h k = cc
memcmp_trans (x ∷ a) [] c n m h k = absurd (omega arith)
memcmp_trans (x ∷ a) (y ∷ b) [] n m h k = absurd (omega arith)
memcmp_trans (x ∷ a) (y ∷ b) (z ∷ c) n m h k = ground (
  arith,
  memcmp_trans a b c (omega arith) (omega arith),
  memcmp_eq a b (omega arith),
  memcmp_eq b c (omega arith),
)

-- Two keys compare as 0 exactly when they are the same bytes, swapping the keys swaps the sign,
-- and coming before is transitive.
pub key_total_order :
    (a b c : List ℕ)
    → (length_compare_agtype_string_value a a ≡ pos 0)
      × (length_compare_agtype_string_value a b ≡ pos 0 → a ≡ b)
      × (length_compare_agtype_string_value b a ≡ opposite (length_compare_agtype_string_value a b))
      × (Before a b → Before b c → Before a c)
unfolding length_compare_agtype_string_value
key_total_order a b c = (
  ground (arith, memcmp_self a),
  λ h. ground (arith, memcmp_eq a b),
  ground (arith, memcmp_swap a b),
  λ h k. ground (arith, memcmp_trans a b c),
)

memcmp_cases :
    (a b : List ℕ) → (memcmp a b ≡ negsuc 0) ⊎ ((memcmp a b ≡ pos 0) ⊎ (memcmp a b ≡ pos 1))
unfolding memcmp
memcmp_cases [] b = inr (inl refl)
memcmp_cases (x ∷ a) [] = inr (inl refl)
memcmp_cases (x ∷ a) (y ∷ b) = ground (arith, memcmp_cases a b)

-- the three outcomes of a comparison
pub key_cmp_cases :
    (a b : List ℕ)
    → Before a b
      ⊎ ((length_compare_agtype_string_value a b ≡ pos 0)
          ⊎ (length_compare_agtype_string_value a b ≡ pos 1) × Before b a)
unfolding length_compare_agtype_string_value
key_cmp_cases a b = ground (arith, memcmp_cases a b, memcmp_swap a b)

pub Before-ne : (a b : List ℕ) → Before a b → a ≢ b
Before-ne a b h e =
    cc (h, ap (λ k. length_compare_agtype_string_value k b) e, (key_total_order b b b).0)
