-- ===== src/Agtype/Parser/Grammar.antt =====
-- The numbers that agtype_lex_number of agtype_parser.c accepts, against the grammar in its
-- comment: a 0 or digits that do not begin with one, a period with digits, and an exponent.
pub mod Reads
use incubator_age.Prelude.{
  ℕ, ◌≡◌, ◌↔◌, refl, ap, sym, ◌∙◌, ◌⊎◌, inl, inr, Bool, true, false, not, ◌&&◌, ◌||◌, List, [], ◌∷◌,
  ◌++◌, ◌==◌, leb, arith, if◌then◌else◌, Bool-cases,
}
use mathlib.Core.Path.{subst}
use mathlib.Core.List.{append_assoc, append-nil}
use incubator_age.Agtype.Parser.Numbers.{
  is_digit, is_alphanumeric, span, Span, Part, part, read_more, main_digits, decimal_part,
  exponent_part, signed_digits, some_digits, behind, nothing, is_sign, Number, agtype_lex_number,
  is_whole, not_empty, is_valid_agtype_number,
}

abbrev pub AllDigits : List ℕ → Type 0
AllDigits [] = Unit
AllDigits (c ∷ cs) = (is_digit c ≡ true) × AllDigits cs

-- at least one digit
abbrev pub Digits : List ℕ → Type 0
Digits [] = ⊥
Digits (c ∷ cs) = (is_digit c ≡ true) × AllDigits cs

pub data IsMain : List ℕ → Type 0 where
  zero_alone : IsMain (b'0' ∷ [])
  digits :
      {c : ℕ} {cs : List ℕ}
      → is_digit c ≡ true
      → (c == b'0') ≡ false
      → AllDigits cs
      → IsMain (c ∷ cs)

pub data IsDecimal : List ℕ → Type 0 where
  no_decimal : IsDecimal []
  decimal : {ds : List ℕ} → Digits ds → IsDecimal (b'.' ∷ ds)

pub data IsExponent : List ℕ → Type 0 where
  no_exponent : IsExponent []
  exponent :
      {e : ℕ} {ds : List ℕ} → ((e == b'e') || (e == b'E')) ≡ true → Digits ds → IsExponent (e ∷ ds)
  signed_exponent :
      {e c : ℕ} {ds : List ℕ}
      → ((e == b'e') || (e == b'E')) ≡ true
      → is_sign c ≡ true
      → Digits ds
      → IsExponent (e ∷ c ∷ ds)

-- (2), (3) and (4) of the comment
pub data IsUnsigned : List ℕ → Type 0 where
  unsigned : {m d e : List ℕ} → IsMain m → IsDecimal d → IsExponent e → IsUnsigned (m ++ (d ++ e))

pub data IsNumber : List ℕ → Type 0 where
  positive : {s : List ℕ} → IsUnsigned s → IsNumber s
  negative : {s : List ℕ} → IsUnsigned s → IsNumber (b'-' ∷ s)

-- what the digits end at
abbrev NoDigit : List ℕ → Type 0
NoDigit [] = Unit
NoDigit (c ∷ cs) = is_digit c ≡ false

span-AllDigits :
    (ds tail : List ℕ)
    → AllDigits ds
    → NoDigit tail
    → span is_digit (ds ++ tail) ≡ record { read = ds; rest = tail }
span-AllDigits [] [] h n = refl
span-AllDigits [] (c ∷ tail) h n = rw n refl
span-AllDigits (c ∷ ds) tail h n = rw (h.0, span-AllDigits ds tail h.1 n) refl

some_digits-Digits :
    (ds tail : List ℕ)
    → Digits ds
    → NoDigit tail
    → some_digits (ds ++ tail) ≡ part (record { read = ds; rest = tail }) true false
some_digits-Digits [] tail h n = absurd h
some_digits-Digits (c ∷ ds) tail h n = rw (h.0, span-AllDigits ds tail h.1 n) refl

exponent-NoDigit : {e : List ℕ} → IsExponent e → NoDigit e
exponent-NoDigit no_exponent = tt
exponent-NoDigit (exponent h d) = ground arith
exponent-NoDigit (signed_exponent h s d) = ground arith

decimal-NoDigit : {d e : List ℕ} → IsDecimal d → IsExponent e → NoDigit (d ++ e)
decimal-NoDigit no_decimal h = exponent-NoDigit h
decimal-NoDigit (decimal ds) h = refl

main_digits-IsMain :
    {m : List ℕ} (tail : List ℕ)
    → IsMain m
    → NoDigit tail
    → main_digits (m ++ tail) ≡ part (record { read = m; rest = tail }) true false
unfolding main_digits
main_digits-IsMain tail zero_alone n = refl
main_digits-IsMain tail (digits {c} {cs} h z d) n = rw (z, h, span-AllDigits cs tail d n) refl

decimal_part-IsDecimal :
    {d e : List ℕ}
    → IsDecimal d
    → IsExponent e
    → decimal_part (d ++ e) ≡ part (record { read = d; rest = e }) (not_empty d) false
unfolding decimal_part
decimal_part-IsDecimal no_decimal no_exponent = refl
decimal_part-IsDecimal no_decimal (exponent h d) = ground arith
decimal_part-IsDecimal no_decimal (signed_exponent h s d) = ground arith
decimal_part-IsDecimal {e = e} (decimal {ds} d) h =
    rw (some_digits-Digits ds e d (exponent-NoDigit h)) refl

digit_no_sign : (c : ℕ) → is_digit c ≡ true → is_sign c ≡ false
digit_no_sign c h = ground arith

-- digits up to the end
some_digits_all :
    (ds : List ℕ) → Digits ds → some_digits ds ≡ part (record { read = ds; rest = [] }) true false
some_digits_all ds h = ap some_digits (sym (append-nil ds)) ∙ some_digits-Digits ds [] h tt

signed_digits-Digits :
    (ds : List ℕ) → Digits ds → signed_digits ds ≡ part (record { read = ds; rest = [] }) true false
unfolding signed_digits
signed_digits-Digits [] h = absurd h
signed_digits-Digits (c ∷ ds) h = rw (digit_no_sign c h.0) (some_digits_all (c ∷ ds) h)

exponent_part-IsExponent :
    {e : List ℕ}
    → IsExponent e
    → exponent_part e ≡ part (record { read = e; rest = [] }) (not_empty e) false
unfolding exponent_part
exponent_part-IsExponent no_exponent = refl
exponent_part-IsExponent (exponent {e} {ds} h d) = rw (h, signed_digits-Digits ds d) refl
exponent_part-IsExponent (signed_exponent {e} {c} {ds} h s d) = rw (h, s, some_digits_all ds d) refl

pub lex_number-IsUnsigned : {s : List ℕ} → IsUnsigned s → is_whole (agtype_lex_number s) ≡ true
unfolding agtype_lex_number
lex_number-IsUnsigned (unsigned {m} {d} {e} im id ie) =
    rw
      (
        main_digits-IsMain (d ++ e) im (decimal-NoDigit id ie),
        decimal_part-IsDecimal id ie,
        exponent_part-IsExponent ie,
      )
      refl
