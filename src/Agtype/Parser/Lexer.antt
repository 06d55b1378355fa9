-- ===== src/Agtype/Parser/Lexer.antt =====
-- agtype_lex, lex_accept and lex_expect of agtype_parser.c. The context's token_terminator is the
-- input from there on; positions that only error messages read are left out.
use incubator_age.Prelude.{
  ℕ, Bool, true, false, ◌&&◌, ◌||◌, List, [], ◌∷◌, length, leb, ◌==◌, if◌then◌else◌, ◌++◌,
}
use incubator_age.Postgres.{TextFunctions}
use incubator_age.Result.{Result, ok, err, ◌>>=◌, invalid_input_syntax, invalid_token}
use incubator_age.Agtype.Text.{same_bytes}
use incubator_age.Agtype.Parser.Strings.{agtype_lex_string}
use incubator_age.Agtype.Parser.Numbers.{
  is_digit, is_alphanumeric, span, Span, Number, agtype_lex_number, not_empty,
}

-- agtype_token_type; AGTYPE_TOKEN_INVALID is the error `invalid_token`
pub data TokenType : Type 0 where
  string_token integer_token float_token numeric_token object_start object_end : TokenType
  array_start array_end comma colon annotation identifier : TokenType
  true_token false_token null_token end_token : TokenType

abbrev pub token_number : TokenType → ℕ
token_number string_token = 1
token_number integer_token = 2
token_number float_token = 3
token_number numeric_token = 4
token_number object_start = 5
token_number object_end = 6
token_number array_start = 7
token_number array_end = 8
token_number comma = 9
token_number colon = 10
token_number annotation = 11
token_number identifier = 12
token_number true_token = 13
token_number false_token = 14
token_number null_token = 15
token_number end_token = 16

-- agtype_lex_context: the current token, the text that lex_accept hands back for it, de-escaped for
-- a string, and the input behind it.
pub record LexContext : Type 0 where
  pub token_type : TokenType
  pub lexeme : List ℕ
  pub input : List ℕ

abbrev pub context : TokenType → List ℕ → List ℕ → LexContext
context t lexeme input = record { token_type = t; lexeme = lexeme; input = input }

abbrev pub is_space : ℕ → Bool
is_space c = (c == b' ') || (c == b'\t') || (c == b'\n') || (c == b'\r')

unfoldable pub skip_space : List ℕ → List ℕ
skip_space [] = []
skip_space (c ∷ cs) = let rest = skip_space cs in if is_space c then rest else c ∷ cs

abbrev pub is_letter : ℕ → Bool
is_letter c = (leb b'a' c && leb c b'z') || (leb b'A' c && leb c b'Z')

abbrev pub starts_with_i : List ℕ → Bool
starts_with_i [] = false
starts_with_i (c ∷ _) = (c == b'i') || (c == b'I')

abbrev pub nan : List ℕ
nan = b'N' ∷ b'a' ∷ b'N' ∷ []

abbrev pub inf : List ℕ
inf = b'i' ∷ b'n' ∷ b'f' ∷ []

abbrev pub infinity : List ℕ
infinity = b'I' ∷ b'n' ∷ b'f' ∷ b'i' ∷ b'n' ∷ b'i' ∷ b't' ∷ b'y' ∷ []

abbrev pub true_word : List ℕ
true_word = b't' ∷ b'r' ∷ b'u' ∷ b'e' ∷ []

abbrev pub false_word : List ℕ
false_word = b'f' ∷ b'a' ∷ b'l' ∷ b's' ∷ b'e' ∷ []

abbrev pub null_word : List ℕ
null_word = b'n' ∷ b'u' ∷ b'l' ∷ b'l' ∷ []

-- a number behind a sign or none
abbrev pub number_context : List ℕ → Number → Result LexContext
number_context sign n =
    if n.error
    then err invalid_token
    else ok (context (if n.is_float then float_token else integer_token) (sign ++ n.token) n.rest)

module _ (tf : TextFunctions) where
  -- behind `-`, where i or I follows
  unfoldable pub negative_infinity : Span → Result LexContext
  negative_infinity word =
      let len = length word.read in
      if (len == 3 && tf.same_ignoring_case word.read inf)
        || (len == 8 && tf.same_ignoring_case word.read infinity)
      then ok (context float_token (b'-' ∷ word.read) word.rest)
      else err invalid_token

  -- a word: an identifier, unless proven otherwise
  unfoldable pub word_type : List ℕ → TokenType
  word_type word =
      let len = length word in
      if (len == 3) && (tf.same_ignoring_case word nan || tf.same_ignoring_case word inf)
      then float_token
      else if same_bytes word true_word
      then true_token
      else if same_bytes word null_word
      then null_token
      else if same_bytes word false_word
      then false_token
      else if (len == 8) && tf.same_ignoring_case word infinity
      then float_token
      else identifier

  unfoldable pub word_context : Span → Result LexContext
  unfolding word_type
  word_context word =
      if not_empty word.read
      then ok (context (word_type word.read) word.read word.rest)
      else err invalid_token

  -- the case ':'
  unfoldable pub colon_context : List ℕ → LexContext
  colon_context [] = context colon (b':' ∷ []) []
  colon_context (c ∷ cs) =
      if c == b':'
      then context annotation (b':' ∷ b':' ∷ []) cs
      else context colon (b':' ∷ []) (c ∷ cs)

  -- the switch over the first byte
  unfoldable pub lex_token : ℕ → List ℕ → Result LexContext
  unfolding agtype_lex_string agtype_lex_number negative_infinity word_context colon_context
  lex_token c cs =
      let string = (do
        (text, rest) ← agtype_lex_string tf cs
        ok (context string_token text rest)) in
      let infinite = negative_infinity (span is_letter cs) in
      let negative = number_context (b'-' ∷ []) (agtype_lex_number cs) in
      let positive = number_context [] (agtype_lex_number (c ∷ cs)) in
      let word = word_context (span is_alphanumeric (c ∷ cs)) in
      if c == b'{'
      then ok (context object_start (c ∷ []) cs)
      else if c == b'}'
      then ok (context object_end (c ∷ []) cs)
      else if c == b'['
      then ok (context array_start (c ∷ []) cs)
      else if c == b']'
      then ok (context array_end (c ∷ []) cs)
      else if c == b','
      then ok (context comma (c ∷ []) cs)
      else if c == b':'
      then ok (colon_context cs)
      else if c == b'"'
      then string
      else if c == b'-'
      then (if starts_with_i cs then infinite else negative)
      else if is_digit c
      then positive
      else word

  unfoldable pub lex_behind_space : List ℕ → Result LexContext
  unfolding lex_token
  lex_behind_space [] = ok (context end_token [] [])
  lex_behind_space (c ∷ cs) = lex_token c cs

  unfoldable pub agtype_lex : List ℕ → Result LexContext
  unfolding lex_behind_space skip_space
  agtype_lex input = lex_behind_space (skip_space input)

  abbrev pub has_type : LexContext → TokenType → Bool
  has_type lex token = token_number lex.token_type == token_number token

  -- Whether the token matched, and the context: at the next token if it did.
  unfoldable pub lex_accept : LexContext → TokenType → Result (Bool × LexContext)
  unfolding agtype_lex
  lex_accept lex token =
      if has_type lex token
      then (do next ← agtype_lex lex.input; ok (true, next))
      else ok (false, lex)

  unfoldable pub lex_expect : LexContext → TokenType → Result LexContext
  unfolding agtype_lex
  lex_expect lex token =
      if has_type lex token then agtype_lex lex.input else err invalid_input_syntax
