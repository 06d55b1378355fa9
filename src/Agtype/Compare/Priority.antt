-- ===== src/Agtype/Compare/Priority.antt =====
-- get_type_sort_priority of agtype_util.c, and the order of values of different types.
use incubator_age.Prelude.{
  ◌≡◌, ◌↔◌, refl, ap, sym, ◌∙◌, Bool, true, false, not, ◌&&◌, ◌||◌, List, [], ◌∷◌, ◌==◌, arith,
  if◌then◌else◌,
}
use incubator_age.Prelude.Int.{ℤ, pos, negsuc, eqb_ℤ, eq_of_eqb_ℤ, opposite}
use incubator_age.Agtype.{
  AgtypeValueType, type_code, null_type, string_type, numeric_type, integer_type, float_type,
  bool_type, vertex_type, edge_type, path_type, array_type, object_type, binary_type,
}
use incubator_age.Agtype.Compare.{by_type}

-- The types, the ones that sort first at the front; those of one list share a priority.
abbrev pub priority_order : List (List AgtypeValueType)
priority_order =
    (edge_type ∷ path_type ∷ binary_type ∷ [])
    ∷ (object_type ∷ [])
    ∷ (vertex_type ∷ [])
    ∷ (array_type ∷ [])
    ∷ (string_type ∷ [])
    ∷ (bool_type ∷ [])
    ∷ (numeric_type ∷ integer_type ∷ float_type ∷ [])
    ∷ (null_type ∷ [])
    ∷ []

abbrev pub among : List AgtypeValueType → AgtypeValueType → Bool
among [] a = false
among (b ∷ bs) a = (type_code a == type_code b) || among bs a

abbrev pub among_any : List (List AgtypeValueType) → AgtypeValueType → Bool
among_any [] a = false
among_any (g ∷ gs) a = among g a || among_any gs a

-- a stands in an earlier list than b
abbrev pub earlier : List (List AgtypeValueType) → AgtypeValueType → AgtypeValueType → Bool
earlier [] a b = false
earlier (g ∷ gs) a b = (among g a && among_any gs b) || earlier gs a b

-- a and b stand in one list
abbrev pub together : List (List AgtypeValueType) → AgtypeValueType → AgtypeValueType → Bool
together [] a b = false
together (g ∷ gs) a b = (among g a && among g b) || together gs a b

all_types : (AgtypeValueType → Bool) → Bool
all_types p =
    p null_type
    && (p string_type
        && (p numeric_type
            && (p integer_type
                && (p float_type
                    && (p bool_type
                        && (p vertex_type
                            && (p edge_type
                                && (p path_type
                                    && (p array_type && (p object_type && p binary_type))))))))))

at_type : (p : AgtypeValueType → Bool) (a : AgtypeValueType) → all_types p ≡ true → p a ≡ true
unfolding all_types
at_type p null_type h = ground arith
at_type p string_type h = ground arith
at_type p numeric_type h = ground arith
at_type p integer_type h = ground arith
at_type p float_type h = ground arith
at_type p bool_type h = ground arith
at_type p vertex_type h = ground arith
at_type p edge_type h = ground arith
at_type p path_type h = ground arith
at_type p array_type h = ground arith
at_type p object_type h = ground arith
at_type p binary_type h = ground arith

-- what by_type does with the two types
as_listed : AgtypeValueType → AgtypeValueType → Bool
unfolding by_type
as_listed a b = eqb_ℤ (by_type a b) (if earlier priority_order a b then negsuc 0 else pos 1)

swaps : AgtypeValueType → AgtypeValueType → Bool
unfolding by_type
swaps a b =
    if together priority_order a b
    then not (eqb_ℤ (by_type b a) (opposite (by_type a b)))
    else eqb_ℤ (by_type b a) (opposite (by_type a b))

all_listed : all_types (λ a. all_types (λ b. as_listed a b && swaps a b)) ≡ true
unfolding all_types as_listed swaps
all_listed = refl

listed : (a b : AgtypeValueType) → (as_listed a b && swaps a b) ≡ true
listed a b =
    at_type (λ b. as_listed a b && swaps a b) b
      (at_type (λ a. all_types (λ b. as_listed a b && swaps a b)) a all_listed)

first_true : (x y : Bool) → (x && y) ≡ true → x ≡ true
first_true true y h = refl
first_true false y h = h

second_true : (x y : Bool) → (x && y) ≡ true → y ≡ true
second_true true y h = h
second_true false y h = absurd (cc h)

eqb_ℤ-refl : (x : ℤ) → eqb_ℤ x x ≡ true
eqb_ℤ-refl x = ground arith

decides :
    (joined : Bool) (x y : ℤ)
    → (if joined then not (eqb_ℤ x y) else eqb_ℤ x y) ≡ true
    → (x ≡ y) ↔ (joined ≡ false)
decides true x y h = (
  λ e. absurd (ground (arith, h, ap (λ z. eqb_ℤ x z) (sym e) ∙ eqb_ℤ-refl x)),
  λ f. absurd (cc f),
)
decides false x y h = (λ e. refl, λ f. eq_of_eqb_ℤ x y h)

-- By type, a value is below another where its type stands earlier in this order, and above it
-- otherwise: edges, paths and binaries; objects; vertices; arrays; strings; Booleans; numerics,
-- integers and floats; nulls. So the order changes sign when the types are swapped exactly where
-- they do not stand together; edges and paths do.
pub by_type-order :
    (a b : AgtypeValueType)
    → (by_type a b ≡ (if earlier priority_order a b then negsuc 0 else pos 1))
      × ((by_type b a ≡ opposite (by_type a b)) ↔ (together priority_order a b ≡ false))
unfolding as_listed swaps
by_type-order a b =
    let checked = listed a b in
    (
      eq_of_eqb_ℤ _ _ (first_true (as_listed a b) (swaps a b) checked),
      decides (together priority_order a b) (by_type b a) (opposite (by_type a b))
          (second_true (as_listed a b) (swaps a b) checked),
    )
