-- ===== src/Agtype/Parser/Numbers.antt =====
-- agtype_lex_number and is_valid_agtype_number of agtype_parser.c. A token is its bytes, and the
-- pointer s the input from there on.
use incubator_age.Prelude.{
  ℕ, Bool, true, false, not, ◌&&◌, ◌||◌, List, [], ◌∷◌, ◌++◌, leb, ◌==◌, if◌then◌else◌,
}

abbrev pub is_digit : ℕ → Bool
is_digit c = leb b'0' c && leb c b'9'

-- AGTYPE_ALPHANUMERIC_CHAR
abbrev pub is_alphanumeric : ℕ → Bool
is_alphanumeric c =
    (leb b'a' c && leb c b'z')
    || (leb b'A' c && leb c b'Z')
    || is_digit c
    || (c == b'_')
    || leb 128 c

-- The bytes that were read, and the input behind them.
pub record Span : Type 0 where
  pub read : List ℕ
  pub rest : List ℕ

abbrev pub read_more : ℕ → Span → Span
read_more c p = record { read = c ∷ p.read; rest = p.rest }

-- the loops over digits, and over the letters of trailing garbage
abbrev pub span : (ℕ → Bool) → List ℕ → Span
span test [] = record { read = []; rest = [] }
span test (c ∷ cs) =
    let more = span test cs in
    if test c then read_more c more else record { read = []; rest = c ∷ cs }

-- A part of a number: what was read, whether it is there, and whether it is an error.
pub record Part : Type 0 where
  pub text : Span
  pub present : Bool
  pub error : Bool

abbrev pub part : Span → Bool → Bool → Part
part text present error = record { text = text; present = present; error = error }

-- nothing was read
abbrev pub nothing : List ℕ → Span
nothing s = record { read = []; rest = s }

-- Part (2): the main digits
unfoldable pub main_digits : List ℕ → Part
main_digits [] = part (nothing []) true true
main_digits (c ∷ cs) =
    let zero_alone = part (read_more c (nothing cs)) true false in
    let digits = part (read_more c (span is_digit cs)) true false in
    if c == b'0'
    then zero_alone
    else if is_digit c
    then digits
    else part (nothing (c ∷ cs)) true true

-- one or more digits, or an error
abbrev pub some_digits : List ℕ → Part
some_digits [] = part (nothing []) true true
some_digits (c ∷ cs) =
    if is_digit c
    then part (read_more c (span is_digit cs)) true false
    else part (nothing (c ∷ cs)) true true

abbrev pub behind : ℕ → Part → Part
behind c p = part (read_more c p.text) p.present p.error

-- Part (3): a period and digits
unfoldable pub decimal_part : List ℕ → Part
decimal_part [] = part (nothing []) false false
decimal_part (c ∷ cs) =
    if c == b'.' then behind c (some_digits cs) else part (nothing (c ∷ cs)) false false

abbrev pub is_sign : ℕ → Bool
is_sign c = (c == b'+') || (c == b'-')

unfoldable pub signed_digits : List ℕ → Part
signed_digits [] = some_digits []
signed_digits (c ∷ cs) = if is_sign c then behind c (some_digits cs) else some_digits (c ∷ cs)

-- Part (4): e or E, a sign, and digits
unfoldable pub exponent_part : List ℕ → Part
unfolding signed_digits
exponent_part [] = part (nothing []) false false
exponent_part (c ∷ cs) =
    if (c == b'e') || (c == b'E')
    then behind c (signed_digits cs)
    else part (nothing (c ∷ cs)) false false

-- The token, the input behind it, whether it is a float, and the error flag.
pub record Number : Type 0 where
  pub token : List ℕ
  pub rest : List ℕ
  pub is_float : Bool
  pub error : Bool

abbrev pub not_empty : List ℕ → Bool
not_empty [] = false
not_empty (_ ∷ _) = true

unfoldable pub agtype_lex_number : List ℕ → Number
unfolding main_digits decimal_part exponent_part
agtype_lex_number s =
    let digits = main_digits s in
    let decimal = decimal_part digits.text.rest in
    let exponent = exponent_part decimal.text.rest in
    let garbage = span is_alphanumeric exponent.text.rest in
    record {
      token = digits.text.read ++ decimal.text.read ++ exponent.text.read ++ garbage.read;
      rest = garbage.rest;
      is_float = decimal.present || exponent.present;
      error = digits.error || decimal.error || exponent.error || not_empty garbage.read;
    }

-- The whole input is one number.
abbrev pub is_whole : Number → Bool
is_whole n = not n.error && not (not_empty n.rest)

unfoldable pub is_valid_agtype_number : List ℕ → Bool
unfolding agtype_lex_number
is_valid_agtype_number [] = false
is_valid_agtype_number (c ∷ cs) =
    let negative = is_whole (agtype_lex_number cs) in
    let positive = is_whole (agtype_lex_number (c ∷ cs)) in if c == b'-' then negative else positive
