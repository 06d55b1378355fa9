-- ===== src/Agtype/Parser/Progress.antt =====
-- Every token that agtype_lex of agtype_parser.c reads takes some of the input, and no error of the
-- lexer is the model's `out_of_fuel`.
mod Strings
mod Numbers
use incubator_age.Prelude.{
  ℕ, zero, suc, ◌+◌, ◌*◌, ◌≤◌, ◌≡◌, refl, Bool, true, false, not, ◌&&◌, ◌||◌, Option, none, some,
  List, [], ◌∷◌, ◌++◌, length, arith, if◌then◌else◌, ltb, leb, ◌==◌, Bool-cases, inl, inr,
  Option-cases, ◌%◌, ◌^◌,
}
use incubator_age.Postgres.{TextFunctions}
use incubator_age.Result.Within.{Within, returns, fails, bind-Within, if-Within, NotFuel, Any}
use incubator_age.Result.{Result, ok, err, ◌>>=◌, Error, out_of_fuel}
use incubator_age.Agtype.Parser.Strings.{
  string_loop, escape_loop, hex_loop, hex_value, simple_escape, no_surrogate, unicode_escape,
  append_code_point, Lexed, agtype_lex_string, in_range, or_invalid,
}
use incubator_age.Agtype.Parser.Numbers.{
  is_digit, is_alphanumeric, span, Span, Part, main_digits, decimal_part, some_digits,
  signed_digits, exponent_part, agtype_lex_number, Number, behind, is_sign, not_empty,
}
use incubator_age.Agtype.Parser.Lexer.{
  LexContext, TokenType, end_token, agtype_lex, lex_token, skip_space, colon_context,
  negative_infinity, word_context, number_context, context, token_number, float_token,
  integer_token, string_token, object_start, object_end, array_start, array_end, comma, inf,
  infinity, word_type, starts_with_i, is_letter, is_space, lex_behind_space,
}
use incubator_age.Agtype.Parser.Progress.Strings.{string_loop-Within, Left}
use incubator_age.Agtype.Parser.Progress.Numbers.{
  span-rest, span-read_some, main_digits-rest, main_digits-digit, lex_number-rest,
}

-- the tokens that may still come: one for each byte, and the current one
abbrev pub size : LexContext → ℕ
size lex = length lex.input + (if token_number lex.token_type == 16 then 0 else 1)

abbrev pub Size : ℕ → LexContext → Type 0
Size n lex = size lex ≤ n

sized : (lex : LexContext) (n : ℕ) → length lex.input ≤ n → Within (Size (suc n)) (ok lex)
sized lex n h = elim (Bool-cases (token_number lex.token_type == 16)) [
  | inl t ↦ returns (rw t (omega arith))
  | inr f ↦ returns (rw f (omega arith))
]

number-Within :
    (sign : List ℕ) (n : Number) (k : ℕ)
    → length n.rest ≤ k
    → Within (Size (suc k)) (number_context sign n)
number-Within sign n k h =
    if-Within n.error (λ _. fails tt)
      (λ _.
        sized (context (if n.is_float then float_token else integer_token) (sign ++ n.token) n.rest)
          k h)

module _ (tf : TextFunctions) where
  string-Within :
      (cs : List ℕ)
      → Within
          (Size (suc (length cs)))
          (agtype_lex_string tf cs >>= λ r. ok (context string_token r.0 r.1))
  unfolding agtype_lex_string
  string-Within cs =
      bind-Within (string_loop-Within tf none [] cs)
        (λ r h. sized (context string_token r.0 r.1) (length cs) h)

  infinity-Within :
      (word : Span) (k : ℕ)
      → length word.rest ≤ k
      → Within (Size (suc k)) (negative_infinity tf word)
  unfolding negative_infinity
  infinity-Within word k h =
      if-Within
        ((length word.read == 3 && tf.same_ignoring_case word.read inf)
          || (length word.read == 8 && tf.same_ignoring_case word.read infinity))
        (λ _. sized (context float_token (b'-' ∷ word.read) word.rest) k h) (λ _. fails tt)

  word-Within :
      (c : ℕ) (cs : List ℕ)
      → Within (Size (suc (length cs))) (word_context tf (span is_alphanumeric (c ∷ cs)))
  unfolding word_context
  word-Within c cs =
      let word = span is_alphanumeric (c ∷ cs) in
      if-Within (not_empty word.read)
        (λ t.
          sized (context (word_type tf word.read) word.read word.rest) (length cs)
            (span-read_some is_alphanumeric c cs t))
        (λ _. fails tt)

  colon-Within : (cs : List ℕ) → Within (Size (suc (length cs))) (ok (colon_context tf cs))
  unfolding colon_context
  colon-Within [] = returns (omega arith)
  colon-Within (c ∷ cs) = elim (Bool-cases (c == b':')) [
    | inl t ↦ rw t (returns (omega arith))
    | inr f ↦ rw f (returns (omega arith))
  ]

  punctuation :
      (t : TokenType) (c : ℕ) (cs : List ℕ)
      → Within (Size (suc (length cs))) (ok (context t (c ∷ []) cs))
  punctuation t c cs = sized (context t (c ∷ []) cs) (length cs) (omega arith)

  lex_token-Within : (c : ℕ) (cs : List ℕ) → Within (Size (suc (length cs))) (lex_token tf c cs)
  unfolding lex_token
  lex_token-Within c cs =
      if-Within (c == b'{') (λ _. punctuation object_start c cs)
        (λ _.
          if-Within (c == b'}') (λ _. punctuation object_end c cs)
            (λ _.
              if-Within (c == b'[') (λ _. punctuation array_start c cs)
                (λ _.
                  if-Within (c == b']') (λ _. punctuation array_end c cs)
                    (λ _.
                      if-Within (c == b',') (λ _. punctuation comma c cs)
                        (λ _.
                          if-Within (c == b':') (λ _. colon-Within cs)
                            (λ _.
                              if-Within (c == b'"') (λ _. string-Within cs)
                                (λ _.
                                  if-Within (c == b'-')
                                    (λ _.
                                      if-Within (starts_with_i cs)
                                        (λ _.
                                          infinity-Within (span is_letter cs) (length cs)
                                            (span-rest is_letter cs))
                                        (λ _.
                                          number-Within (b'-' ∷ []) (agtype_lex_number cs)
                                            (length cs)
                                            (lex_number-rest cs (length cs) (main_digits-rest cs))))
                                    (λ _.
                                      if-Within (is_digit c)
                                        (λ d.
                                          number-Within [] (agtype_lex_number (c ∷ cs)) (length cs)
                                            (lex_number-rest (c ∷ cs) (length cs)
                                              (main_digits-digit c cs d)))
                                        (λ _. word-Within c cs)))))))))

skip_space-length : (cs : List ℕ) → length (skip_space cs) ≤ length cs
unfolding skip_space
skip_space-length [] = omega arith
skip_space-length (c ∷ cs) = elim (Bool-cases (is_space c)) [
  | inl t ↦ rw t (omega (arith, skip_space-length cs))
  | inr f ↦ rw f (omega arith)
]

Size-le : {m : Result LexContext} {n k : ℕ} → n ≤ k → Within (Size n) m → Within (Size k) m
Size-le h (returns l) = returns (omega arith)
Size-le h (fails l) = fails l

behind_space-Within :
    (tf : TextFunctions) (cs : List ℕ) → Within (Size (length cs)) (lex_behind_space tf cs)
unfolding lex_behind_space
behind_space-Within tf [] = returns (omega arith)
behind_space-Within tf (c ∷ cs) = lex_token-Within tf c cs

pub agtype_lex-Within :
    (tf : TextFunctions) (input : List ℕ) → Within (Size (length input)) (agtype_lex tf input)
unfolding agtype_lex
agtype_lex-Within tf input =
    Size-le (skip_space-length input) (behind_space-Within tf (skip_space input))
