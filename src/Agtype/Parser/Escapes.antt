-- ===== src/Agtype/Parser/Escapes.antt =====
-- escape_agtype of agtype.c, and agtype_lex_string on what it writes.
use incubator_age.Prelude.{
  ℕ, suc, ◌+◌, ◌*◌, ◌/◌, ◌%◌, ◌≤◌, ◌<◌, ◌≡◌, refl, ap, sym, ◌∙◌, inl, inr, false, none, some, List,
  [], ◌∷◌, ◌++◌, ltb, ◌==◌, arith, if◌then◌else◌, ◌-◌, ◌≢◌, Bool-cases, drop,
}
use mathlib.Core.List.{append_assoc, append-nil}
use incubator_age.Postgres.{TextFunctions}
use incubator_age.Result.{ok, ◌>>=◌}
use incubator_age.Agtype.Parser.Strings.{
  hex_value, string_loop, escape_loop, hex_loop, unicode_escape, append_code_point,
  agtype_lex_string,
}

-- a digit of printf's %x
abbrev pub hex_digit : ℕ → ℕ
hex_digit d = if ltb d 10 then d + b'0' else d - 10 + b'a'

-- the loop's body; a control character is written as \u%04x
unfoldable pub escape_char : ℕ → List ℕ
escape_char c =
    if c == 8
    then b'\\' ∷ b'b' ∷ []
    else if c == 12
    then b'\\' ∷ b'f' ∷ []
    else if c == 10
    then b'\\' ∷ b'n' ∷ []
    else if c == 13
    then b'\\' ∷ b'r' ∷ []
    else if c == 9
    then b'\\' ∷ b't' ∷ []
    else if c == b'"'
    then b'\\' ∷ b'"' ∷ []
    else if c == b'\\'
    then b'\\' ∷ b'\\' ∷ []
    else if ltb c b' '
    then b'\\' ∷ b'u' ∷ b'0' ∷ b'0' ∷ hex_digit (c / 16) ∷ hex_digit (c % 16) ∷ []
    else c ∷ []

-- the loop, up to the NUL
unfoldable pub escape_chars : List ℕ → List ℕ
unfolding escape_char
escape_chars [] = []
escape_chars (c ∷ cs) = if c == 0 then [] else escape_char c ++ escape_chars cs

unfoldable pub escape_agtype : List ℕ → List ℕ
unfolding escape_chars
escape_agtype str = b'"' ∷ escape_chars str ++ b'"' ∷ []

hex_value-hex_digit : (d : ℕ) → d < 16 → hex_value (hex_digit d) ≡ some d
hex_value-hex_digit d h = ground arith

-- unicode_to_utf8 of an ASCII code point is one byte.
pub record Utf8Laws (tf : TextFunctions) : Type 0 where
  pub ascii : (c : ℕ) → c < 128 → tf.unicode_to_utf8 c ≡ c ∷ []

module _ (tf : TextFunctions) (laws : Utf8Laws tf) where
  append-ascii : (c : ℕ) → 0 < c → c < 128 → append_code_point tf c ≡ ok (c ∷ [])
  unfolding append_code_point
  append-ascii c p h = ground (arith, laws.ascii c h)

  unicode-ascii : (c : ℕ) → 0 < c → c < 128 → unicode_escape tf none c ≡ ok (none, c ∷ [])
  unfolding unicode_escape
  unicode-ascii c p h = ground (arith, append-ascii c p h)

  module _ (strval rest : List ℕ) where
    hex_step :
        (later ch x d : ℕ) (cs : List ℕ)
        → hex_value x ≡ some d
        → hex_loop tf none strval (suc later) ch (x ∷ cs)
          ≡ hex_loop tf none strval later (ch * 16 + d) cs
    unfolding hex_loop
    hex_step later ch x d cs h = rw (h, hex_loop) refl

    hex_last :
        (ch x d c : ℕ)
        → hex_value x ≡ some d
        → ch * 16 + d ≡ c
        → 0 < c
        → c < 128
        → hex_loop tf none strval 0 ch (x ∷ rest) ≡ string_loop tf none (strval ++ c ∷ []) rest
    unfolding hex_loop
    hex_last ch x d c h e p l =
        rw (h, hex_loop)
          (ap (λ m. m >>= λ r. string_loop tf r.0 (strval ++ r.1) rest)
            (ap (λ n. unicode_escape tf none n) e ∙ unicode-ascii c p l))

    -- what is lexed of the bytes `x` that stand for c
    abbrev Lexes : ℕ → List ℕ → Type 0
    Lexes c x = string_loop tf none strval (x ++ rest) ≡ string_loop tf none (strval ++ c ∷ []) rest

    control_Lexes :
        (c : ℕ)
        → 0 < c
        → c < 32
        → Lexes c (b'\\' ∷ b'u' ∷ b'0' ∷ b'0' ∷ hex_digit (c / 16) ∷ hex_digit (c % 16) ∷ [])
    unfolding string_loop escape_loop
    control_Lexes c p h =
        let last = hex_digit (c % 16) ∷ rest in
        let third = hex_digit (c / 16) ∷ last in
        hex_step 2 0 b'0' 0 (b'0' ∷ third) refl
        ∙ hex_step 1 0 b'0' 0 third refl
        ∙ hex_step 0 0 (hex_digit (c / 16)) (c / 16) last
            (hex_value-hex_digit (c / 16) (omega arith))
        ∙ hex_last (0 * 16 + c / 16) (hex_digit (c % 16)) (c % 16) c
            (hex_value-hex_digit (c % 16) (omega arith)) (omega arith) p (omega arith)

    plain_Lexes : (c : ℕ) → 32 ≤ c → c ≢ b'"' → c ≢ b'\\' → Lexes c (c ∷ [])
    unfolding string_loop
    plain_Lexes c h q b = ground arith

    simple_Lexes : (k e c : ℕ) → Lexes k (b'\\' ∷ e ∷ []) → c ≡ k → Lexes c (b'\\' ∷ e ∷ [])
    simple_Lexes k e c h same = rw same h

    choose :
        (c k : ℕ) (x y : List ℕ)
        → (c ≡ k → Lexes c x)
        → (c ≢ k → Lexes c y)
        → Lexes c (if c == k then x else y)
    choose c k x y h n = elim (Bool-cases (c == k)) [
      | inl t ↦ rw t (h (ground arith))
      | inr f ↦ rw f (n (ground arith))
    ]

    choose_lt :
        (c k : ℕ) (x y : List ℕ)
        → (c < k → Lexes c x)
        → (k ≤ c → Lexes c y)
        → Lexes c (if ltb c k then x else y)
    choose_lt c k x y h n = elim (Bool-cases (ltb c k)) [
      | inl t ↦ rw t (h (ground arith))
      | inr f ↦ rw f (n (ground arith))
    ]

    escape_char-Lexes : (c : ℕ) → 0 < c → Lexes c (escape_char c)
    unfolding escape_char string_loop escape_loop
    escape_char-Lexes c p = choose c 8 _ _ (simple_Lexes 8 b'b' c refl) (λ _.
        choose c 12 _ _ (simple_Lexes 12 b'f' c refl) (λ _.
          choose c 10 _ _ (simple_Lexes 10 b'n' c refl) (λ _.
            choose c 13 _ _ (simple_Lexes 13 b'r' c refl) (λ _.
              choose c 9 _ _ (simple_Lexes 9 b't' c refl) (λ _.
                choose c b'"' _ _ (simple_Lexes b'"' b'"' c refl) (λ q.
                  choose c b'\\' _ _ (simple_Lexes b'\\' b'\\' c refl) (λ b.
                    choose_lt c b' ' _ _ (λ h. control_Lexes c p h)
                      (λ h. plain_Lexes c h q b))))))))

-- A C string's bytes.
abbrev pub NoNul : List ℕ → Type 0
NoNul [] = Unit
NoNul (c ∷ cs) = (0 < c) × NoNul cs

closing_quote :
    (tf : TextFunctions) (strval rest : List ℕ)
    → string_loop tf none strval (b'"' ∷ rest) ≡ ok (strval, rest)
unfolding string_loop
closing_quote tf strval rest = refl

escape_chars-Lexes :
    (tf : TextFunctions) (s strval rest : List ℕ)
    → Utf8Laws tf
    → NoNul s
    → string_loop tf none strval (escape_chars s ++ b'"' ∷ rest) ≡ ok (strval ++ s, rest)
unfolding escape_chars
escape_chars-Lexes tf [] strval rest laws h =
    closing_quote tf strval rest ∙ ap (λ x. ok (x, rest)) (sym (append-nil strval))
escape_chars-Lexes tf (c ∷ cs) strval rest laws h =
    let e : (c == 0) ≡ false = ground arith in
    rw e (
      ap (λ x. string_loop tf none strval x)
        (append_assoc (escape_char c) (escape_chars cs) (b'"' ∷ rest))
      ∙ escape_char-Lexes tf laws strval (escape_chars cs ++ b'"' ∷ rest) c h.0
      ∙ escape_chars-Lexes tf cs (strval ++ c ∷ []) rest laws h.1
      ∙ ap (λ x. ok (x, rest)) (append_assoc strval (c ∷ []) cs))

-- Where unicode_to_utf8 of an ASCII code point is that byte, agtype_lex_string reads back every
-- string that escape_agtype wrote, whatever its bytes other than NUL and in every encoding: behind
-- the opening quote it gives the string, and the input behind the closing quote.
pub lex_string-escape_agtype :
    (tf : TextFunctions) (s rest : List ℕ)
    → Utf8Laws tf
    → NoNul s
    → agtype_lex_string tf (drop 1 (escape_agtype s) ++ rest) ≡ ok (s, rest)
unfolding agtype_lex_string escape_agtype
lex_string-escape_agtype tf s rest laws h =
    ap (λ x. string_loop tf none [] x) (append_assoc (escape_chars s) (b'"' ∷ []) rest)
    ∙ escape_chars-Lexes tf s [] rest laws h
