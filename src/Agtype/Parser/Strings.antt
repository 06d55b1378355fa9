-- ===== src/Agtype/Parser/Strings.antt =====
-- agtype_lex_string of agtype_parser.c, with a buffer for the de-escaped text (strval), and
-- escape_agtype of agtype.c. `invalid_input_syntax` stands for the errors of this name, with their
-- details left out, `invalid_token` for report_invalid_token, and `invalid_unicode` for
-- `unsupported Unicode escape sequence`.
use incubator_age.Prelude.{
  ℕ, zero, suc, ◌+◌, ◌-◌, ◌*◌, ◌%◌, Bool, ◌&&◌, ◌||◌, Option, none, some, List, [], ◌∷◌, ◌++◌, ltb,
  leb, ◌==◌, if◌then◌else◌, ◌^◌,
}
use incubator_age.Postgres.{TextFunctions}
use incubator_age.Result.{
  Result, ok, err, ◌>>=◌, invalid_input_syntax, invalid_token, invalid_unicode,
}

abbrev pub in_range : ℕ → ℕ → ℕ → Bool
in_range low high c = leb low c && leb c high

-- the value of a hexadecimal digit
abbrev pub hex_value : ℕ → Option ℕ
hex_value c =
    if in_range b'0' b'9' c
    then some (c - b'0')
    else if in_range b'a' b'f' c
    then some (c - b'a' + 10)
    else if in_range b'A' b'F' c
    then some (c - b'A' + 10)
    else none

module _ (tf : TextFunctions) where
  -- the bytes of a code point
  unfoldable pub append_code_point : ℕ → Result (List ℕ)
  append_code_point ch =
      if ch == 0
      then err invalid_unicode
      else if tf.encoding_is_utf8
      then ok (tf.unicode_to_utf8 ch)
      else if leb ch 0x7f
      then ok (ch ∷ [])
      else err invalid_unicode

  -- After the four digits: the surrogate that is waited for, and what is appended. -1 is `none`.
  unfoldable pub unicode_escape : Option ℕ → ℕ → Result (Option ℕ × List ℕ)
  unfolding append_code_point
  unicode_escape none ch =
      if in_range 0xd800 0xdbff ch
      then ok (some (ch % 2 ^ 10 * 2 ^ 10), [])
      else if in_range 0xdc00 0xdfff ch
      then err invalid_input_syntax
      else do bytes ← append_code_point ch; ok (none, bytes)
  unicode_escape (some hi_surrogate) ch =
      if in_range 0xdc00 0xdfff ch
      then (do bytes ← append_code_point (0x10000 + hi_surrogate + ch % 2 ^ 10); ok (none, bytes))
      else err invalid_input_syntax

-- the switch over the byte behind a backslash
abbrev pub simple_escape : ℕ → Option ℕ
simple_escape c =
    if c == b'"' || c == b'\\' || c == b'/'
    then some c
    else if c == b'b'
    then some 8
    else if c == b'f'
    then some 12
    else if c == b'n'
    then some 10
    else if c == b'r'
    then some 13
    else if c == b't'
    then some 9
    else none

abbrev pub no_surrogate : Option ℕ → Bool
no_surrogate none = Bool.true
no_surrogate (some _) = Bool.false

-- The de-escaped text and the input behind the closing quote.
abbrev pub Lexed : Type 0
Lexed = List ℕ × List ℕ

-- an invalid escape, or what follows a valid one
abbrev pub or_invalid : Option ℕ → (ℕ → Result Lexed) → Result Lexed
or_invalid none next = err invalid_input_syntax
or_invalid (some d) next = next d

module _ (tf : TextFunctions) where
  unfoldable mutual
    unfolding unicode_escape

    -- the loop, behind the opening quote; hi_surrogate, strval and the input from s on
    pub string_loop : Option ℕ → List ℕ → List ℕ → Result Lexed
    string_loop hi_surrogate strval [] = err invalid_token
    string_loop hi_surrogate strval (c ∷ cs) =
        let escape = escape_loop hi_surrogate strval cs in
        let next = string_loop hi_surrogate (strval ++ c ∷ []) cs in
        if c == b'"'
        then (if no_surrogate hi_surrogate then ok (strval, cs) else err invalid_input_syntax)
        else if ltb c 32
        then err invalid_input_syntax
        else if c == b'\\'
        then escape
        else if no_surrogate hi_surrogate
        then next
        else err invalid_input_syntax

    -- behind a backslash
    pub escape_loop : Option ℕ → List ℕ → List ℕ → Result Lexed
    escape_loop hi_surrogate strval [] = err invalid_token
    escape_loop hi_surrogate strval (c ∷ cs) =
        let unicode = hex_loop hi_surrogate strval 3 0 cs in
        let simple =
          or_invalid (simple_escape c) (λ b. string_loop hi_surrogate (strval ++ b ∷ []) cs) in
        if c == b'u'
        then unicode
        else if no_surrogate hi_surrogate
        then simple
        else err invalid_input_syntax

    -- the loop over four hexadecimal digits; `later` of them follow the next one
    pub hex_loop : Option ℕ → List ℕ → ℕ → ℕ → List ℕ → Result Lexed
    hex_loop hi_surrogate strval later ch [] = err invalid_token
    hex_loop hi_surrogate strval (suc later) ch (c ∷ cs) =
        or_invalid (hex_value c) (λ d. hex_loop hi_surrogate strval later (ch * 16 + d) cs)
    hex_loop hi_surrogate strval zero ch (c ∷ cs) = or_invalid (hex_value c) (λ d. do
      (hi_surrogate', bytes) ← unicode_escape tf hi_surrogate (ch * 16 + d)
      string_loop hi_surrogate' (strval ++ bytes) cs)

  unfoldable pub agtype_lex_string : List ℕ → Result Lexed
  unfolding string_loop
  agtype_lex_string s = string_loop none [] s
