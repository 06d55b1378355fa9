-- ===== src/Agtype/Parser/Progress/Numbers.antt =====
-- agtype_lex_number of agtype_parser.c only goes forward in the input.
use incubator_age.Prelude.{
  ℕ, ◌≤◌, ◌≡◌, Bool, true, ◌||◌, List, [], ◌∷◌, length, arith, ◌==◌, Bool-cases, inl, inr,
}
use incubator_age.Agtype.Parser.Numbers.{
  is_digit, is_alphanumeric, span, main_digits, decimal_part, some_digits, signed_digits,
  exponent_part, agtype_lex_number, is_sign, not_empty,
}

pub span-rest : (test : ℕ → Bool) (cs : List ℕ) → length (span test cs).rest ≤ length cs
span-rest test [] = omega arith
span-rest test (c ∷ cs) = elim (Bool-cases (test c)) [
  | inl t ↦ rw t (omega (arith, span-rest test cs))
  | inr f ↦ rw f (omega arith)
]

pub span-read_some :
    (test : ℕ → Bool) (c : ℕ) (cs : List ℕ)
    → not_empty (span test (c ∷ cs)).read ≡ true
    → length (span test (c ∷ cs)).rest ≤ length cs
span-read_some test c cs = elim (Bool-cases (test c)) [
  | inl t ↦ rw t (λ _. span-rest test cs)
  | inr f ↦ rw f (λ h. absurd (cc h))
]

some_digits-rest : (cs : List ℕ) → length (some_digits cs).text.rest ≤ length cs
some_digits-rest [] = omega arith
some_digits-rest (c ∷ cs) = elim (Bool-cases (is_digit c)) [
  | inl t ↦ rw t (omega (arith, span-rest is_digit cs))
  | inr f ↦ rw f (omega arith)
]

decimal_part-rest : (cs : List ℕ) → length (decimal_part cs).text.rest ≤ length cs
unfolding decimal_part
decimal_part-rest [] = omega arith
decimal_part-rest (c ∷ cs) = elim (Bool-cases (c == b'.')) [
  | inl t ↦ rw t (omega (arith, some_digits-rest cs))
  | inr f ↦ rw f (omega arith)
]

signed_digits-rest : (cs : List ℕ) → length (signed_digits cs).text.rest ≤ length cs
unfolding signed_digits
signed_digits-rest [] = omega arith
signed_digits-rest (c ∷ cs) = elim (Bool-cases (is_sign c)) [
  | inl t ↦ rw t (omega (arith, some_digits-rest cs))
  | inr f ↦ rw f (some_digits-rest (c ∷ cs))
]

exponent_part-rest : (cs : List ℕ) → length (exponent_part cs).text.rest ≤ length cs
unfolding exponent_part
exponent_part-rest [] = omega arith
exponent_part-rest (c ∷ cs) = elim (Bool-cases ((c == b'e') || (c == b'E'))) [
  | inl t ↦ rw t (omega (arith, signed_digits-rest cs))
  | inr f ↦ rw f (omega arith)
]

pub main_digits-rest : (cs : List ℕ) → length (main_digits cs).text.rest ≤ length cs
unfolding main_digits
main_digits-rest [] = omega arith
main_digits-rest (c ∷ cs) = elim (Bool-cases (c == b'0')) [
  | inl t ↦ rw t (omega arith)
  | inr f ↦ elim (Bool-cases (is_digit c)) [
    | inl t ↦ rw (f, t) (omega (arith, span-rest is_digit cs))
    | inr g ↦ rw (f, g) (omega arith)
  ]
]

pub main_digits-digit :
    (c : ℕ) (cs : List ℕ) → is_digit c ≡ true → length (main_digits (c ∷ cs)).text.rest ≤ length cs
unfolding main_digits
main_digits-digit c cs h = elim (Bool-cases (c == b'0')) [
  | inl t ↦ rw t (omega arith)
  | inr f ↦ rw (f, h) (span-rest is_digit cs)
]

pub lex_number-rest :
    (s : List ℕ) (n : ℕ)
    → length (main_digits s).text.rest ≤ n
    → length (agtype_lex_number s).rest ≤ n
unfolding agtype_lex_number
lex_number-rest s n h =
    let d = (main_digits s).text.rest in
    let e = (decimal_part d).text.rest in
    let g = (exponent_part e).text.rest in
    omega (arith, h, decimal_part-rest d, exponent_part-rest e, span-rest is_alphanumeric g)
