-- ===== src/Agtype/Parser/Progress/Strings.antt =====
-- The string loop of agtype_lex_string of agtype_parser.c only goes forward in the input.
use incubator_age.Prelude.{
  ℕ, zero, suc, ◌+◌, ◌*◌, ◌≤◌, Option, none, some, List, [], ◌∷◌, ◌++◌, length, arith, ltb, leb,
  ◌==◌, ◌%◌, ◌^◌,
}
use incubator_age.Postgres.{TextFunctions}
use incubator_age.Result.Within.{Within, returns, fails, bind-Within, if-Within, Any}
use incubator_age.Result.{Result}
use incubator_age.Agtype.Parser.Strings.{
  string_loop, escape_loop, hex_loop, hex_value, simple_escape, no_surrogate, unicode_escape,
  append_code_point, Lexed, in_range, or_invalid,
}

-- the input that is left
abbrev pub Left : ℕ → Lexed → Type 0
Left n r = length r.1 ≤ n

append_code_point-Within : (tf : TextFunctions) (ch : ℕ) → Within Any (append_code_point tf ch)
unfolding append_code_point
append_code_point-Within tf ch =
    if-Within (ch == 0) (λ _. fails tt)
      (λ _.
        if-Within tf.encoding_is_utf8 (λ _. returns tt)
          (λ _. if-Within (leb ch 0x7f) (λ _. returns tt) (λ _. fails tt)))

unicode_escape-Within :
    (tf : TextFunctions) (hi : Option ℕ) (ch : ℕ) → Within Any (unicode_escape tf hi ch)
unfolding unicode_escape
unicode_escape-Within tf none ch =
    if-Within (in_range 0xd800 0xdbff ch) (λ _. returns tt)
      (λ _.
        if-Within (in_range 0xdc00 0xdfff ch) (λ _. fails tt)
          (λ _. bind-Within (append_code_point-Within tf ch) (λ b _. returns tt)))
unicode_escape-Within tf (some hi) ch =
    if-Within (in_range 0xdc00 0xdfff ch)
      (λ _.
        bind-Within (append_code_point-Within tf (0x10000 + hi + ch % 2 ^ 10)) (λ b _. returns tt))
      (λ _. fails tt)

weaken : {m : Result Lexed} {n k : ℕ} → n ≤ k → Within (Left n) m → Within (Left k) m
weaken h (returns l) = returns (omega arith)
weaken h (fails l) = fails l

some-Within :
    {P : Lexed → Type 0} (o : Option ℕ) {f : ℕ → Result Lexed}
    → ((d : ℕ) → Within P (f d))
    → Within P (or_invalid o f)
some-Within none h = fails tt
some-Within (some d) h = h d

module _ (tf : TextFunctions) where
  mutual
    unfolding string_loop escape_loop hex_loop

    pub string_loop-Within :
        (hi : Option ℕ) (strval cs : List ℕ)
        → Within (Left (length cs)) (string_loop tf hi strval cs)
    string_loop-Within hi strval [] = fails tt
    string_loop-Within hi strval (c ∷ cs) =
        if-Within (c == b'"')
          (λ _. if-Within (no_surrogate hi) (λ _. returns (omega arith)) (λ _. fails tt))
          (λ _.
            if-Within (ltb c 32) (λ _. fails tt)
              (λ _.
                if-Within (c == b'\\') (λ _. weaken (omega arith) (escape_loop-Within hi strval cs))
                  (λ _.
                    if-Within (no_surrogate hi)
                      (λ _. weaken (omega arith) (string_loop-Within hi (strval ++ c ∷ []) cs))
                      (λ _. fails tt))))

    escape_loop-Within :
        (hi : Option ℕ) (strval cs : List ℕ)
        → Within (Left (length cs)) (escape_loop tf hi strval cs)
    escape_loop-Within hi strval [] = fails tt
    escape_loop-Within hi strval (c ∷ cs) =
        if-Within (c == b'u') (λ _. weaken (omega arith) (hex_loop-Within hi strval 3 0 cs))
          (λ _.
            if-Within (no_surrogate hi)
              (λ _.
                some-Within (simple_escape c)
                  (λ b. weaken (omega arith) (string_loop-Within hi (strval ++ b ∷ []) cs)))
              (λ _. fails tt))

    hex_loop-Within :
        (hi : Option ℕ) (strval : List ℕ) (later ch : ℕ) (cs : List ℕ)
        → Within (Left (length cs)) (hex_loop tf hi strval later ch cs)
    hex_loop-Within hi strval later ch [] = fails tt
    hex_loop-Within hi strval (suc later) ch (c ∷ cs) =
        some-Within (hex_value c)
          (λ d. weaken (omega arith) (hex_loop-Within hi strval later (ch * 16 + d) cs))
    hex_loop-Within hi strval zero ch (c ∷ cs) = some-Within (hex_value c) (λ d.
        bind-Within (unicode_escape-Within tf hi (ch * 16 + d))
          (λ r _. weaken (omega arith) (string_loop-Within r.0 (strval ++ r.1) cs)))
