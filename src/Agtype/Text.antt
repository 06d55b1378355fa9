-- ===== src/Agtype/Text.antt =====
-- length_compare_agtype_string_value of agtype_util.c: the order of object keys. Shorter keys come
-- first, and keys of one length are compared byte by byte.
pub mod Order
use incubator_age.Prelude.{
  ℕ, ◌≡◌, refl, Bool, true, false, ◌&&◌, List, [], ◌∷◌, ltb, length, ◌==◌, arith, if◌then◌else◌,
}
use incubator_age.Prelude.Int.{ℤ, pos, negsuc}

-- C's memcmp on two ranges of one length, with 1, 0 and -1 for its positive, zero and negative
-- results (the code reads the sign alone).
unfoldable pub memcmp : List ℕ → List ℕ → ℤ
memcmp [] _ = pos 0
memcmp (a ∷ s) [] = pos 0
memcmp (a ∷ s) (b ∷ t) =
    let rest = memcmp s t in if ltb b a then pos 1 else if ltb a b then negsuc 0 else rest

unfoldable pub length_compare_agtype_string_value : List ℕ → List ℕ → ℤ
unfolding memcmp
length_compare_agtype_string_value a b =
    if length a == length b
    then memcmp a b
    else if ltb (length b) (length a)
    then pos 1
    else negsuc 0

-- Two ranges of bytes of one length and with the same bytes.
unfoldable pub same_bytes : List ℕ → List ℕ → Bool
same_bytes [] [] = true
same_bytes [] (b ∷ t) = false
same_bytes (a ∷ s) [] = false
same_bytes (a ∷ s) (b ∷ t) = (a == b) && same_bytes s t

pub same_bytes_eq : (s t : List ℕ) → same_bytes s t ≡ true → s ≡ t
unfolding same_bytes
same_bytes_eq [] [] h = refl
same_bytes_eq [] (b ∷ t) h = cc
same_bytes_eq (a ∷ s) [] h = cc
same_bytes_eq (a ∷ s) (b ∷ t) h = ground (arith, same_bytes_eq s t)

pub same_bytes_refl : (s : List ℕ) → same_bytes s s ≡ true
unfolding same_bytes
same_bytes_refl [] = refl
same_bytes_refl (a ∷ s) = ground (arith, same_bytes_refl s)
