-- ===== src/Agtype/Operators/Integers.antt =====
-- The arithmetic operators of agtype_ops.c on two integers, against the integers of mathematics.
use incubator_age.Prelude.{
  ℕ, suc, ◌+◌, ◌-◌, ◌*◌, ◌/◌, ◌%◌, ◌^◌, ◌<◌, ◌≡◌, ◌≢◌, ◌↔◌, refl, ap, Bool, true, false, arith, ◌⊎◌,
  inl, inr, ◌&&◌, zero, Bool-cases,
}
use native.Mathlib.Omega.{div_any}
use incubator_age.Prelude.Int.{
  ℤ, pos, negsuc, pos_part, neg_part, ◌+ℤ◌, ◌-ℤ◌, ◌*ℤ◌, ◌≤ℤ◌, div_ℤ, mod_ℤ, sub_ℕ, eq_of_parts,
  eq_of_eqb_ℤ, eqb_ℤ,
}
use incubator_age.Prelude.Word.{
  to_int64, to_uint64, wrap_int64, IsInt64, to_int64-to_uint64, to_uint64-to_int64, to_uint64-lt,
}
use incubator_age.Postgres.{Postgres, Arithmetic}
use incubator_age.Result.{Result, ok, err, division_by_zero, integer_trap}
use incubator_age.Agtype.{AgtypeValue, integer}
use incubator_age.Agtype.Operators.Scalars.{
  add_values, add_numbers, sub_values, neg_value, mul_values, div_values, mod_values,
}

-- The result is the int64 that agrees with the exact one modulo 2^64, so it is the exact one just
-- where that is an int64.
pub record Wraps (exact : ℤ) (m : Result AgtypeValue) : Type 0 where
  pub result : ℤ
  pub returns : m ≡ ok (integer result)
  pub int64 : IsInt64 result
  pub congruent : to_uint64 result ≡ to_uint64 exact
  pub exactly : (result ≡ exact) ↔ IsInt64 exact

to_int64-IsInt64 : (u : ℕ) → IsInt64 (to_int64 u)
to_int64-IsInt64 u = record { above = ground arith; below = ground arith }

wrap-Wraps : (x : ℤ) → Wraps x (ok (integer (wrap_int64 x)))
wrap-Wraps x = record {
  result = wrap_int64 x;
  returns = refl;
  int64 = to_int64-IsInt64 (to_uint64 x);
  congruent = to_uint64-to_int64 (to_uint64 x) (to_uint64-lt x);
  exactly = (λ e. rw (← e) (to_int64-IsInt64 (to_uint64 x)), λ h. to_int64-to_uint64 x h);
}

-- On two integers `+`, `-` and `*`, and unary `-` on one, give the int64 that agrees with the exact
-- result modulo 2^64; it is the exact result just where that is an int64.
pub integer_arithmetic :
    (pg : Postgres) (ar : Arithmetic) (a b : ℤ)
    → Wraps (a +ℤ b) (add_values pg ar (integer a) (integer b))
      × Wraps (a -ℤ b) (sub_values pg ar (integer a) (integer b))
      × Wraps (a *ℤ b) (mul_values pg ar (integer a) (integer b))
      × Wraps (pos 0 -ℤ a) (neg_value pg ar (integer a))
unfolding add_values add_numbers sub_values mul_values neg_value
integer_arithmetic pg ar a b =
    (wrap-Wraps (a +ℤ b), wrap-Wraps (a -ℤ b), wrap-Wraps (a *ℤ b), wrap-Wraps (pos 0 -ℤ a))

-- Truncating division: the quotient times the divisor and the remainder make the dividend, the
-- remainder is smaller than the divisor, and is on the dividend's side of 0.
pub record Divides (a b q r : ℤ) : Type 0 where
  pub total : (q *ℤ b) +ℤ r ≡ a
  pub smaller : pos_part r + neg_part r < pos_part b + neg_part b
  pub side : ((pos 0 ≤ℤ a) × (pos 0 ≤ℤ r)) ⊎ ((a ≤ℤ pos 0) × (r ≤ℤ pos 0))

sub_parts : (p n : ℕ) → pos_part (sub_ℕ p n) + n ≡ p + neg_part (sub_ℕ p n)
sub_parts p n = ground arith

minus_pos : (n : ℕ) → pos_part (sub_ℕ 0 n) ≡ 0
minus_pos n = ground arith

minus_neg : (n : ℕ) → neg_part (sub_ℕ 0 n) ≡ n
minus_neg n = ground arith

-- a sum of a product, by its parts
product_sum :
    (q b r a : ℤ)
    → pos_part q * pos_part b + neg_part q * neg_part b + pos_part r + neg_part a
      ≡ pos_part a + pos_part q * neg_part b + neg_part q * pos_part b + neg_part r
    → (q *ℤ b) +ℤ r ≡ a
unfolding ◌*ℤ◌ ◌+ℤ◌
product_sum q b r a h =
    let plus = pos_part q * pos_part b + neg_part q * neg_part b in
    let minus = pos_part q * neg_part b + neg_part q * pos_part b in
    let x = sub_ℕ plus minus in
    eq_of_parts _ a (
      omega (
        arith,
        h,
        sub_parts plus minus,
        sub_parts (pos_part x + pos_part r) (neg_part x + neg_part r),
      ))

div_mod-Divides : (a b : ℤ) → b ≢ pos 0 → Divides a b (div_ℤ a b) (mod_ℤ a b)
unfolding div_ℤ mod_ℤ
div_mod-Divides (pos a) (pos zero) h = absurd (h refl)
div_mod-Divides (pos a) (pos (suc b)) h = record {
  total = product_sum _ (pos (suc b)) _ (pos a) (omega (arith, div_any a (suc b)));
  smaller = omega arith;
  side = inl (omega arith, omega arith);
}
div_mod-Divides (pos a) (negsuc b) h = record {
  total =
      product_sum _ (negsuc b) _ (pos a)
        (rw (minus_pos (a / suc b), minus_neg (a / suc b)) (omega (arith, div_any a (suc b))));
  smaller = omega arith;
  side = inl (omega arith, omega arith);
}
div_mod-Divides (negsuc a) (pos zero) h = absurd (h refl)
div_mod-Divides (negsuc a) (pos (suc b)) h = record {
  total = product_sum _ (pos (suc b)) _ (negsuc a) (
      rw
        (
          minus_pos (suc a / suc b),
          minus_neg (suc a / suc b),
          minus_pos (suc a % suc b),
          minus_neg (suc a % suc b),
        )
        (omega (arith, div_any (suc a) (suc b))));
  smaller = omega (arith, minus_pos (suc a % suc b), minus_neg (suc a % suc b));
  side = inr (omega arith, omega (arith, minus_pos (suc a % suc b)));
}
div_mod-Divides (negsuc a) (negsuc b) h = record {
  total = product_sum _ (negsuc b) _ (negsuc a) (
      rw (minus_pos (suc a % suc b), minus_neg (suc a % suc b))
        (omega (arith, div_any (suc a) (suc b))));
  smaller = omega (arith, minus_pos (suc a % suc b), minus_neg (suc a % suc b));
  side = inr (omega arith, omega (arith, minus_pos (suc a % suc b)));
}

zero_divisor :
    (pg : Postgres) (ar : Arithmetic) (a b : ℤ)
    → eqb_ℤ b (pos 0) ≡ true
    → (div_values pg ar (integer a) (integer b) ≡ err division_by_zero)
      × (mod_values pg ar (integer a) (integer b) ≡ err integer_trap)
unfolding div_values mod_values
zero_divisor pg ar a b z = (rw z refl, rw z refl)

-- the least int64 by -1
abbrev least_by_minus_one : ℤ → ℤ → Bool
least_by_minus_one a b = eqb_ℤ a (negsuc (2 ^ 63 - 1)) && eqb_ℤ b (negsuc 0)

trapped :
    (pg : Postgres) (ar : Arithmetic) (a b : ℤ)
    → eqb_ℤ b (pos 0) ≡ false
    → least_by_minus_one a b ≡ true
    → (div_values pg ar (integer a) (integer b) ≡ err integer_trap)
      × (mod_values pg ar (integer a) (integer b) ≡ err integer_trap)
unfolding div_values mod_values
trapped pg ar a b n t = (rw (n, t) refl, rw (n, t) refl)

divided :
    (pg : Postgres) (ar : Arithmetic) (a b : ℤ)
    → eqb_ℤ b (pos 0) ≡ false
    → least_by_minus_one a b ≡ false
    → (div_values pg ar (integer a) (integer b) ≡ ok (integer (div_ℤ a b)))
      × (mod_values pg ar (integer a) (integer b) ≡ ok (integer (mod_ℤ a b)))
unfolding div_values mod_values
divided pg ar a b n t = (rw (n, t) refl, rw (n, t) refl)

least_cases : (a b : ℤ) → least_by_minus_one a b ≡ true → (a ≡ negsuc (2 ^ 63 - 1)) × (b ≡ negsuc 0)
least_cases a b t =
    (eq_of_eqb_ℤ a (negsuc (2 ^ 63 - 1)) (ground arith), eq_of_eqb_ℤ b (negsuc 0) (ground arith))

nonzero : (b : ℤ) → eqb_ℤ b (pos 0) ≡ false → b ≢ pos 0
nonzero b n e = absurd (cc (n, ap (λ x. eqb_ℤ x (pos 0)) e))

-- What `/` and `%` of two integers return: the error of a division by zero, under `/` alone; no
-- result, a trap of the processor, for the least int64 by -1 and for `%` of 0; or the truncating
-- quotient and the remainder.
pub integer_division :
    (pg : Postgres) (ar : Arithmetic) (a b : ℤ)
    → ((b ≡ pos 0)
        × (div_values pg ar (integer a) (integer b) ≡ err division_by_zero)
        × (mod_values pg ar (integer a) (integer b) ≡ err integer_trap))
      ⊎ (((a ≡ negsuc (2 ^ 63 - 1)) × (b ≡ negsuc 0))
          × (div_values pg ar (integer a) (integer b) ≡ err integer_trap)
          × (mod_values pg ar (integer a) (integer b) ≡ err integer_trap))
      ⊎ ((b ≢ pos 0)
          × (q : ℤ) × (r : ℤ) × Divides a b q r
          × (div_values pg ar (integer a) (integer b) ≡ ok (integer q))
          × (mod_values pg ar (integer a) (integer b) ≡ ok (integer r)))
integer_division pg ar a b = elim (Bool-cases (eqb_ℤ b (pos 0))) [
  | inl z ↦ let e = zero_divisor pg ar a b z in inl (eq_of_eqb_ℤ b (pos 0) z, e.0, e.1)
  | inr n ↦ elim (Bool-cases (least_by_minus_one a b)) [
    | inl t ↦ let e = trapped pg ar a b n t in inr (inl (least_cases a b t, e.0, e.1))
    | inr f ↦
        let e = divided pg ar a b n f in
        let d = div_mod-Divides a b (nonzero b n) in
        inr (inr (nonzero b n, div_ℤ a b, mod_ℤ a b, d, e.0, e.1))
  ]
]
