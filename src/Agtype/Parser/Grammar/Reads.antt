-- ===== src/Agtype/Parser/Grammar/Reads.antt =====
-- agtype_lex_number of agtype_parser.c reads nothing but numbers of the grammar.
use incubator_age.Prelude.{
  ℕ, ◌≡◌, ◌↔◌, refl, ap, sym, ◌∙◌, inl, inr, Bool, true, false, not, ◌&&◌, ◌||◌, List, [], ◌∷◌,
  ◌++◌, ◌==◌, arith, if◌then◌else◌, Bool-cases,
}
use mathlib.Core.Path.{subst}
use mathlib.Core.List.{append-nil}
use incubator_age.Agtype.Parser.Numbers.{
  is_digit, is_alphanumeric, span, Part, main_digits, decimal_part, exponent_part, signed_digits,
  some_digits, is_sign, agtype_lex_number, is_whole, not_empty, is_valid_agtype_number,
}
use incubator_age.Agtype.Parser.Grammar.{
  AllDigits, Digits, IsMain, zero_alone, digits, IsDecimal, no_decimal, decimal, IsExponent,
  no_exponent, exponent, signed_exponent, IsUnsigned, unsigned, IsNumber, positive, negative,
  lex_number-IsUnsigned,
}

-- the other way: what was read
span-read : (test : ℕ → Bool) (xs : List ℕ) → (span test xs).read ++ (span test xs).rest ≡ xs
span-read test [] = refl
span-read test (c ∷ cs) = elim (Bool-cases (test c)) [
  | inl t ↦ rw t (ap (λ x. c ∷ x) (span-read test cs))
  | inr f ↦ rw f refl
]

span-digits : (xs : List ℕ) → AllDigits (span is_digit xs).read
span-digits [] = tt
span-digits (c ∷ cs) = elim (Bool-cases (is_digit c)) [
  | inl t ↦ rw t (t, span-digits cs)
  | inr f ↦ rw f tt
]

both_empty : (x y : List ℕ) → not_empty x ≡ false → not_empty y ≡ false → x ++ y ≡ []
both_empty [] [] h k = refl
both_empty [] (c ∷ y) h k = absurd (cc k)
both_empty (c ∷ x) y h k = absurd (cc h)

-- a part without an error: what it read is of its kind, and stands before the rest
record Reads (kind : List ℕ → Type 0) (s : List ℕ) (p : Part) : Type 0 where
  is : kind p.text.read
  before : p.text.read ++ p.text.rest ≡ s

if-Reads :
    (kind : List ℕ → Type 0) (s : List ℕ) (b : Bool) (p q : Part)
    → (b ≡ true → p.error ≡ false → Reads kind s p)
    → (b ≡ false → q.error ≡ false → Reads kind s q)
    → (if b then p else q).error ≡ false
    → Reads kind s (if b then p else q)
if-Reads kind s true p q h k e = h refl e
if-Reads kind s false p q h k e = k refl e

-- nothing was read: an error, or a part that may be left out
no_error : {kind : List ℕ → Type 0} {s : List ℕ} {p : Part} → true ≡ false → Reads kind s p
no_error e = absurd (cc e)

some_digits-Reads : (s : List ℕ) → (some_digits s).error ≡ false → Reads Digits s (some_digits s)
some_digits-Reads [] h = no_error h
some_digits-Reads (c ∷ cs) h =
    if-Reads Digits (c ∷ cs) (is_digit c) _ _
      (λ t _. record { is = (t, span-digits cs); before = ap (λ x. c ∷ x) (span-read is_digit cs) })
      (λ _ e. no_error e) h

eq_of_test : (a b : ℕ) → (a == b) ≡ true → a ≡ b
eq_of_test a b h = ground arith

main_digits-Reads : (s : List ℕ) → (main_digits s).error ≡ false → Reads IsMain s (main_digits s)
unfolding main_digits
main_digits-Reads [] h = no_error h
main_digits-Reads (c ∷ cs) h =
    if-Reads IsMain (c ∷ cs) (c == b'0') _ _
      (λ t _. record { is = rw (eq_of_test c b'0' t) zero_alone; before = refl })
      (λ f.
        if-Reads IsMain (c ∷ cs) (is_digit c) _ _
          (λ t _. record {
            is = digits t f (span-digits cs);
            before = ap (λ x. c ∷ x) (span-read is_digit cs);
          })
          (λ _ e. no_error e))
      h

decimal_part-Reads :
    (s : List ℕ) → (decimal_part s).error ≡ false → Reads IsDecimal s (decimal_part s)
unfolding decimal_part
decimal_part-Reads [] h = record { is = no_decimal; before = refl }
decimal_part-Reads (c ∷ cs) h =
    if-Reads IsDecimal (c ∷ cs) (c == b'.') _ _
      (λ t e.
        let r = some_digits-Reads cs e in
        record { is = rw (eq_of_test c b'.' t) (decimal r.is); before = ap (λ x. c ∷ x) r.before })
      (λ _ _. record { is = no_decimal; before = refl }) h

-- digits, or a sign and digits
data SignedDigits : List ℕ → Type 0 where
  without : {ds : List ℕ} → Digits ds → SignedDigits ds
  with_sign : {c : ℕ} {ds : List ℕ} → is_sign c ≡ true → Digits ds → SignedDigits (c ∷ ds)

signed_digits-Reads :
    (s : List ℕ) → (signed_digits s).error ≡ false → Reads SignedDigits s (signed_digits s)
unfolding signed_digits
signed_digits-Reads [] h = no_error h
signed_digits-Reads (c ∷ cs) h =
    if-Reads SignedDigits (c ∷ cs) (is_sign c) _ _
      (λ t e.
        let r = some_digits-Reads cs e in
        record { is = with_sign t r.is; before = ap (λ x. c ∷ x) r.before })
      (λ _ e.
        let r = some_digits-Reads (c ∷ cs) e in record { is = without r.is; before = r.before })
      h

SignedDigits-IsExponent :
    {c : ℕ} {ds : List ℕ}
    → ((c == b'e') || (c == b'E')) ≡ true
    → SignedDigits ds
    → IsExponent (c ∷ ds)
SignedDigits-IsExponent t (without d) = exponent t d
SignedDigits-IsExponent t (with_sign s d) = signed_exponent t s d

exponent_part-Reads :
    (s : List ℕ) → (exponent_part s).error ≡ false → Reads IsExponent s (exponent_part s)
unfolding exponent_part
exponent_part-Reads [] h = record { is = no_exponent; before = refl }
exponent_part-Reads (c ∷ cs) h =
    if-Reads IsExponent (c ∷ cs) ((c == b'e') || (c == b'E')) _ _
      (λ t e.
        let r = signed_digits-Reads cs e in
        record { is = SignedDigits-IsExponent t r.is; before = ap (λ x. c ∷ x) r.before })
      (λ _ _. record { is = no_exponent; before = refl }) h

empty_span :
    (test : ℕ → Bool) (xs : List ℕ)
    → not_empty (span test xs).read ≡ false
    → not_empty (span test xs).rest ≡ false
    → xs ≡ []
empty_span test xs h k =
    sym (span-read test xs) ∙ both_empty (span test xs).read (span test xs).rest h k

-- the flags of a number that is the whole input
IsUnsigned-whole :
    (s : List ℕ) (p d e : Part)
    → Reads IsMain s p
    → Reads IsDecimal p.text.rest d
    → Reads IsExponent d.text.rest e
    → e.text.rest ≡ []
    → IsUnsigned s
IsUnsigned-whole s p d e rp rd re h =
    let last : e.text.read ≡ d.text.rest =
      sym (append-nil e.text.read) ∙ ap (λ x. e.text.read ++ x) (sym h) ∙ re.before in
    let whole : p.text.read ++ (d.text.read ++ e.text.read) ≡ s =
      ap (λ x. p.text.read ++ (d.text.read ++ x)) last
      ∙ ap (λ x. p.text.read ++ x) rd.before
      ∙ rp.before in
    subst IsUnsigned whole (unsigned rp.is rd.is re.is)

-- the five flags that a whole number does not have
record Flags (p d e g : Bool) (r : Bool) : Type 0 where
  main : p ≡ false
  decimal_flag : d ≡ false
  exponent_flag : e ≡ false
  garbage : g ≡ false
  remaining : r ≡ false

whole-Flags : (p d e g r : Bool) → (not (p || d || e || g) && not r) ≡ true → Flags p d e g r
whole-Flags p d e g r h = record {
  main = ground arith;
  decimal_flag = ground arith;
  exponent_flag = ground arith;
  garbage = ground arith;
  remaining = ground arith;
}

whole-IsUnsigned : (s : List ℕ) → is_whole (agtype_lex_number s) ≡ true → IsUnsigned s
unfolding agtype_lex_number
whole-IsUnsigned s h =
    let p = main_digits s in
    let d = decimal_part p.text.rest in
    let e = exponent_part d.text.rest in
    let g = span is_alphanumeric e.text.rest in
    let f = whole-Flags p.error d.error e.error (not_empty g.read) (not_empty g.rest) h in
    IsUnsigned-whole s p d e (main_digits-Reads s f.main)
      (decimal_part-Reads p.text.rest f.decimal_flag)
      (exponent_part-Reads d.text.rest f.exponent_flag)
      (empty_span is_alphanumeric e.text.rest f.garbage f.remaining)

digit_no_minus : (c : ℕ) → is_digit c ≡ true → (c == b'-') ≡ false
digit_no_minus c h = ground arith

positive-valid : {s : List ℕ} → IsUnsigned s → is_valid_agtype_number s ≡ true
unfolding is_valid_agtype_number
positive-valid (unsigned zero_alone id ie) = lex_number-IsUnsigned (unsigned zero_alone id ie)
positive-valid (unsigned (digits {c} {cs} t f ds) id ie) =
    rw (digit_no_minus c t) (lex_number-IsUnsigned (unsigned (digits t f ds) id ie))

then_branch : (b x y : Bool) → b ≡ true → (if b then x else y) ≡ true → x ≡ true
then_branch true x y t h = h
then_branch false x y t h = absurd (cc t)

else_branch : (b x y : Bool) → b ≡ false → (if b then x else y) ≡ true → y ≡ true
else_branch true x y f h = absurd (cc f)
else_branch false x y f h = h

valid-IsNumber : (s : List ℕ) → is_valid_agtype_number s ≡ true → IsNumber s
unfolding is_valid_agtype_number
valid-IsNumber [] h = absurd (cc h)
valid-IsNumber (c ∷ cs) h = elim (Bool-cases (c == b'-')) [
  | inl t ↦
      rw (eq_of_test c b'-' t) (negative (whole-IsUnsigned cs (then_branch (c == b'-') _ _ t h)))
  | inr f ↦ positive (whole-IsUnsigned (c ∷ cs) (else_branch (c == b'-') _ _ f h))
]

IsNumber-valid : {s : List ℕ} → IsNumber s → is_valid_agtype_number s ≡ true
unfolding is_valid_agtype_number
IsNumber-valid (positive u) = positive-valid u
IsNumber-valid (negative u) = lex_number-IsUnsigned u

-- is_valid_agtype_number accepts exactly the numbers of the grammar: a minus sign or none; a single
-- 0, or digits that do not begin with one; a period and digits, or none; and e or E, a sign or
-- none, and digits, or none.
pub is_valid-IsNumber : (s : List ℕ) → (is_valid_agtype_number s ≡ true) ↔ IsNumber s
is_valid-IsNumber s = (valid-IsNumber s, IsNumber-valid)
