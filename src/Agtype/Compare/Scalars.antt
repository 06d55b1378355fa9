-- ===== src/Agtype/Compare/Scalars.antt =====
-- compare_agtype_scalar_values when its arguments are swapped.
use mathlib.Core.Path.{subst}
use incubator_age.Prelude.{
  ℕ, zero, suc, ◌≡◌, refl, ap, sym, ◌∙◌, Bool, true, false, ◌&&◌, ◌||◌, List, ltb, ◌==◌, arith,
  if◌then◌else◌, Bool-cases, inl, inr,
}
use incubator_age.Prelude.Int.{ℤ, pos, negsuc, eqb_ℤ}
use incubator_age.Postgres.{Postgres}
use incubator_age.Result.{
  Result, ok, err, ◌>>=◌, ok_injective, scalar_type_compare, scalar_type_mismatch,
}
use incubator_age.Agtype.{
  AgtypeValue, null, string, numeric, integer, float, boolean, vertex, edge, path, array, object,
  binary, Pairs, Elems, nil, cons, num_elems, same_type,
}
use incubator_age.Prelude.Int.{opposite}
use incubator_age.Agtype.Number.{compare_two_floats_orderability, int_to_float8}
use incubator_age.Agtype.Number.FloatOrder.{floats_total_order}
use incubator_age.Agtype.Compare.{
  compare_agtype_scalar_values, compare_path_elements, cmp_mixed, cmp_ids, cmp_int, cmp_bool,
  object_id, is_numeric_result, get_numeric_datum_from_agtype_value,
}

-- what a C comparison says: -1, 0 or 1
abbrev pub sign : ℤ → ℤ
sign (pos zero) = pos 0
sign (pos (suc n)) = pos 1
sign (negsuc n) = negsuc 0

abbrev pub Opposed : ℤ → ℤ → Type 0
Opposed x y = sign y ≡ opposite (sign x)

-- The comparisons of PostgreSQL give the opposite order when their arguments are swapped. Only
-- the signs of their results are documented.
pub record ComparisonLaws (pg : Postgres) : Type 0 where
  pub numerics : (a b : List ℕ) → Opposed (pg.numeric_cmp a b) (pg.numeric_cmp b a)
  pub strings : (a b : List ℕ) → Opposed (pg.varstr_cmp a b) (pg.varstr_cmp b a)

opposite-Opposed : (x : ℤ) → Opposed x (opposite x)
opposite-Opposed (pos zero) = refl
opposite-Opposed (pos (suc n)) = refl
opposite-Opposed (negsuc n) = refl

pub exact-Opposed : (x y : ℤ) → y ≡ opposite x → Opposed x y
exact-Opposed x y e = ap sign e ∙ opposite-Opposed x

floats_swap :
    (a b : ℕ) → compare_two_floats_orderability b a ≡ opposite (compare_two_floats_orderability a b)
floats_swap a b = (floats_total_order a b b).1

cmp_int-swap : (a b : ℤ) → cmp_int b a ≡ opposite (cmp_int a b)
cmp_int-swap a b = ground arith

cmp_bool-swap : (a b : Bool) → cmp_bool b a ≡ opposite (cmp_bool a b)
cmp_bool-swap true true = refl
cmp_bool-swap true false = refl
cmp_bool-swap false true = refl
cmp_bool-swap false false = refl

-- What a comparison of b with a gives, where that of a with b succeeds.
Swapped : (Result ℤ) → Result ℤ → Type 0
Swapped m n = (r : ℤ) → m ≡ ok r → (s : ℤ) × (n ≡ ok s) × Opposed r s

Swapped-ok : (x y : ℤ) → Opposed x y → Swapped (ok x) (ok y)
unfolding Swapped
Swapped-ok x y o r h = (y, refl, subst (λ z. Opposed z y) (ok_injective h) o)

Swapped-exact : (x y : ℤ) → y ≡ opposite x → Swapped (ok x) (ok y)
Swapped-exact x y e = Swapped-ok x y (exact-Opposed x y e)

two_results :
    {A : Type 0} (f : A → A → ℤ) (m n : Result A)
    → ((x y : A) → f y x ≡ opposite (f x y))
    → Swapped (m >>= λ x. n >>= λ y. ok (f x y)) (n >>= λ y. m >>= λ x. ok (f y x))
unfolding Swapped
two_results f (ok x) (ok y) h r e = Swapped-exact (f x y) (f y x) (h x y) r e
two_results f (ok x) (err y) h r e = absurd (cc e)
two_results f (err x) n h r e = absurd (cc e)

cmp_ids-swap : (a b : Pairs) → Swapped (cmp_ids a b) (cmp_ids b a)
unfolding cmp_ids
cmp_ids-swap a b = two_results cmp_int (object_id a) (object_id b) cmp_int-swap

-- two values of different types, neither an integer with a float
abbrev cmp_numbers : Postgres → AgtypeValue → AgtypeValue → Result ℤ
cmp_numbers pg a b =
    if same_type a b
    then err scalar_type_compare
    else if is_numeric_result a b
    then ok (
        pg.numeric_cmp (get_numeric_datum_from_agtype_value pg a)
          (get_numeric_datum_from_agtype_value pg b))
    else err scalar_type_mismatch

numbers_swap :
    (pg : Postgres) (a b : AgtypeValue)
    → ComparisonLaws pg
    → Swapped (cmp_numbers pg a b) (cmp_numbers pg b a)
unfolding Swapped is_numeric_result
numbers_swap pg a b laws = elim (Bool-cases (same_type a b)) [
  | inl t ↦ rw t (λ r h. absurd (cc h))
  | inr f ↦
      let f' : same_type b a ≡ false = ground arith in
      elim (Bool-cases (is_numeric_result a b)) [
        | inl t ↦
            let t' : is_numeric_result b a ≡ true = ground arith in
            rw (f, f', t, t')
              (Swapped-ok _ _ (
                laws.numerics (get_numeric_datum_from_agtype_value pg a)
                  (get_numeric_datum_from_agtype_value pg b)))
        | inr g ↦ rw (f, g) (λ r h. absurd (cc h))
      ]
]

abbrev is_integer : AgtypeValue → Bool
is_integer (integer _) = true
is_integer _ = false

abbrev is_float : AgtypeValue → Bool
is_float (float _) = true
is_float _ = false

abbrev is_float_mix : AgtypeValue → AgtypeValue → Bool
is_float_mix a b = (is_integer a && is_float b) || (is_float a && is_integer b)

cmp_mixed-numbers :
    (pg : Postgres) (a b : AgtypeValue)
    → is_float_mix a b ≡ false
    → cmp_mixed pg a b ≡ cmp_numbers pg a b
unfolding cmp_mixed
cmp_mixed-numbers pg (integer a) (float b) h = absurd (cc h)
cmp_mixed-numbers pg (float a) (integer b) h = absurd (cc h)
cmp_mixed-numbers pg a b h = refl

cmp_mixed-swap :
    (pg : Postgres) (a b : AgtypeValue)
    → ComparisonLaws pg
    → Swapped (cmp_mixed pg a b) (cmp_mixed pg b a)
unfolding cmp_mixed Swapped
cmp_mixed-swap pg (integer a) (float b) laws = Swapped-exact _ _ (floats_swap (int_to_float8 a) b)
cmp_mixed-swap pg (float a) (integer b) laws = Swapped-exact _ _ (floats_swap a (int_to_float8 b))
cmp_mixed-swap pg a b laws = λ r h.
    let p = numbers_swap pg a b laws r (sym (cmp_mixed-numbers pg a b (ground arith)) ∙ h) in
    (p.0, cmp_mixed-numbers pg b a (ground arith) ∙ p.1, p.2)

length_swap :
    (n m : ℕ) (x y : Result ℤ)
    → (n ≡ m → Swapped x y)
    → Swapped
        (if n == m then x else ok (if ltb m n then pos 1 else negsuc 0))
        (if m == n then y else ok (if ltb n m then pos 1 else negsuc 0))
unfolding Swapped
length_swap n m x y h = elim (Bool-cases (n == m)) [
  | inl t ↦ let u : (m == n) ≡ true = ground arith in rw (t, u) (h (ground arith))
  | inr t ↦ let u : (m == n) ≡ false = ground arith in rw (t, u) (Swapped-exact _ _ (ground arith))
]

zero_of_Opposed : (x y : ℤ) → Opposed x y → eqb_ℤ y (pos 0) ≡ eqb_ℤ x (pos 0)
zero_of_Opposed (pos zero) (pos zero) o = refl
zero_of_Opposed (pos zero) (pos (suc n)) o = absurd (ground arith)
zero_of_Opposed (pos zero) (negsuc n) o = absurd (cc o)
zero_of_Opposed (pos (suc m)) y o = ground arith
zero_of_Opposed (negsuc m) y o = ground arith

-- the rest is compared where the first elements are equal
first_swap :
    (m n x y : Result ℤ)
    → Swapped m n
    → Swapped x y
    → Swapped
        (m >>= λ res. if eqb_ℤ res (pos 0) then x else ok res)
        (n >>= λ res. if eqb_ℤ res (pos 0) then y else ok res)
unfolding Swapped
first_swap (ok d) n x y first rest =
    let (s, f, o) = first d refl in
    let z = zero_of_Opposed d s o in
    rw (f, z)
      (elim (Bool-cases (eqb_ℤ d (pos 0))) [ inl t ↦ rw t rest | inr u ↦ rw u (Swapped-ok d s o) ])
first_swap (err d) n x y first rest = λ r e. absurd (cc e)

mutual
  unfolding compare_agtype_scalar_values compare_path_elements

  scalars_swap :
      (pg : Postgres) (a b : AgtypeValue)
      → ComparisonLaws pg
      → Swapped (compare_agtype_scalar_values pg a b) (compare_agtype_scalar_values pg b a)
  scalars_swap pg null null laws = Swapped-ok _ _ refl
  scalars_swap pg (string a) (string b) laws = Swapped-ok _ _ (laws.strings a b)
  scalars_swap pg (numeric a) (numeric b) laws = Swapped-ok _ _ (laws.numerics a b)
  scalars_swap pg (boolean a) (boolean b) laws = Swapped-exact _ _ (cmp_bool-swap a b)
  scalars_swap pg (integer a) (integer b) laws = Swapped-exact _ _ (cmp_int-swap a b)
  scalars_swap pg (float a) (float b) laws = Swapped-exact _ _ (floats_swap a b)
  scalars_swap pg (vertex a) (vertex b) laws = cmp_ids-swap a b
  scalars_swap pg (edge a) (edge b) laws = cmp_ids-swap a b
  scalars_swap pg (path a) (path b) laws =
      length_swap (num_elems a) (num_elems b) (compare_path_elements pg a b)
        (compare_path_elements pg b a) (λ n. elements_swap pg a b laws n)
  scalars_swap pg (array a x) null laws = cmp_mixed-swap pg (array a x) null laws
  scalars_swap pg (object a) null laws = cmp_mixed-swap pg (object a) null laws
  scalars_swap pg (binary n a) null laws = cmp_mixed-swap pg (binary n a) null laws
  scalars_swap pg a b laws = cmp_mixed-swap pg a b laws

  elements_swap :
      (pg : Postgres) (a b : Elems)
      → ComparisonLaws pg
      → num_elems a ≡ num_elems b
      → Swapped (compare_path_elements pg a b) (compare_path_elements pg b a)
  elements_swap pg nil nil laws n = Swapped-ok _ _ refl
  elements_swap pg nil (cons b bs) laws n = absurd (omega arith)
  elements_swap pg (cons a as_) nil laws n = absurd (omega arith)
  elements_swap pg (cons a as_) (cons b bs) laws n =
      first_swap (compare_agtype_scalar_values pg a b) (compare_agtype_scalar_values pg b a)
        (compare_path_elements pg as_ bs) (compare_path_elements pg bs as_)
        (scalars_swap pg a b laws) (elements_swap pg as_ bs laws (omega arith))

-- Where compare_agtype_scalar_values of a and b returns a result, it returns one of the opposite
-- sign for b and a, or zero for zero, for all values, if PostgreSQL's numeric_cmp and varstr_cmp do
-- so.
pub compare_scalars-swap :
    (pg : Postgres) (a b : AgtypeValue) (r : ℤ)
    → ComparisonLaws pg
    → compare_agtype_scalar_values pg a b ≡ ok r
    → (s : ℤ) × (compare_agtype_scalar_values pg b a ≡ ok s) × Opposed r s
unfolding Swapped
compare_scalars-swap pg a b r laws h = scalars_swap pg a b laws r h
