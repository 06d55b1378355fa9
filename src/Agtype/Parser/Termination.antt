-- ===== src/Agtype/Parser/Termination.antt =====
-- The recursive descent of agtype_parser.c comes to an end: parse_agtype's fuel is enough.
use incubator_age.Prelude.{
  ℕ, zero, suc, ◌+◌, ◌*◌, ◌≤◌, ◌≡◌, ◌≢◌, refl, Bool, true, false, Option, List, length, ◌==◌, arith,
  if◌then◌else◌,
}
use incubator_age.Postgres.{TextFunctions}
use incubator_age.Result.{Result, ok, err, ◌>>=◌, out_of_fuel}
use incubator_age.Agtype.Parser.Lexer.{
  LexContext, TokenType, token_number, object_start, object_end, array_start, array_end,
  string_token, colon, comma, annotation, identifier, end_token, agtype_lex, lex_accept, lex_expect,
  has_type, null_token,
}
use incubator_age.Agtype.Parser.Descent.{
  SemAction, parse_agtype, parse_value, parse_object, parse_fields, parse_object_field, parse_array,
  parse_elements, parse_scalar, parse_end, parse_annotation, parse_scalar_annotation,
  annotation_value, is_scalar_token,
}
use incubator_age.Agtype.Parser.Progress.{size, Size, agtype_lex-Within}
use incubator_age.Result.Within.{
  Within, returns, fails, bind-Within, if-Within, map-Within, not_fuel, Any,
}

-- No action raises the model's error for fuel.
pub record Productive {S : Type 0} (sem : SemAction S) : Type 0 where
  pub object_starts : (st : S) → Within Any (sem.on_object_start st)
  pub object_ends : (st : S) → Within Any (sem.on_object_end st)
  pub array_starts : (st : S) → Within Any (sem.on_array_start st)
  pub array_ends : (st : S) → Within Any (sem.on_array_end st)
  pub fields :
      (name : List ℕ) (isnull : Bool) (st : S)
      → Within Any (sem.on_object_field_start name isnull st)
  pub scalars :
      (token : List ℕ) (t : TokenType) (a : Option (List ℕ)) (st : S)
      → Within Any (sem.on_scalar token t a st)
  pub annotations : (a : List ℕ) (st : S) → Within Any (sem.on_annotation a st)

-- a token other than the end, which is counted
size_token :
    (lex : LexContext) (n : ℕ)
    → (token_number lex.token_type == n) ≡ true
    → (n == 16) ≡ false
    → size lex ≡ suc (length lex.input)
size_token lex n h k = ground arith

module _ (tf : TextFunctions) where
  -- the token is read, so fewer remain
  expect-Within :
      (lex : LexContext) (t : TokenType)
      → (token_number t == 16) ≡ false
      → Within (λ next. suc (size next) ≤ size lex) (lex_expect tf lex t)
  unfolding lex_expect
  expect-Within lex t h =
      if-Within (has_type tf lex t)
        (λ e.
          map-Within (λ next l. omega (arith, size_token lex (token_number t) e h))
            (agtype_lex-Within tf lex.input))
        (λ _. fails tt)

  -- at a token that is not the end
  abbrev Accepted : ℕ → Bool × LexContext → Type 0
  Accepted n (true, next) = suc (size next) ≤ n
  Accepted n (false, next) = size next ≤ n

  accept-Within :
      (lex : LexContext) (t : TokenType)
      → (token_number t == 16) ≡ false
      → Within (Accepted (size lex)) (lex_accept tf lex t)
  unfolding lex_accept
  accept-Within lex t h =
      if-Within (has_type tf lex t)
        (λ e.
          bind-Within (agtype_lex-Within tf lex.input)
            (λ next l. returns (omega (arith, size_token lex (token_number t) e h))))
        (λ _. returns (omega arith))

  -- the next token, whichever this one is
  next-Within : (lex : LexContext) → Within (Size (size lex)) (agtype_lex tf lex.input)
  next-Within lex = map-Within (λ next l. omega arith) (agtype_lex-Within tf lex.input)

  expect_end-Within : (lex : LexContext) → Within Any (lex_expect tf lex end_token)
  unfolding lex_expect
  expect_end-Within lex =
      if-Within (has_type tf lex end_token)
        (λ _. map-Within (λ next l. tt) (agtype_lex-Within tf lex.input)) (λ _. fails tt)

module _ (tf : TextFunctions) {S : Type 0} (sem : SemAction S) (laws : Productive sem) where
  -- at most n tokens remain
  abbrev Remain : ℕ → LexContext × S → Type 0
  Remain n r = size r.0 ≤ n

  remain :
      {m : Result (LexContext × S)} {n k : ℕ} → n ≤ k → Within (Remain n) m → Within (Remain k) m
  remain h w = map-Within (λ r l. omega arith) w

  annotation_value-Within :
      (lex : LexContext) → Within (λ r. size r.1 ≤ size lex) (annotation_value tf sem lex)
  unfolding annotation_value
  annotation_value-Within lex =
      if-Within (has_type tf lex identifier)
        (λ _. bind-Within (next-Within tf lex) (λ next l. returns l)) (λ _. fails tt)

  annotation-Within :
      (lex : LexContext) (st : S) → Within (Remain (size lex)) (parse_annotation tf sem lex st)
  unfolding parse_annotation
  annotation-Within lex st =
      if-Within (has_type tf lex annotation)
        (λ _. bind-Within (next-Within tf lex) (λ lex1 l.
          bind-Within (annotation_value-Within lex1)
            (λ r k. bind-Within (laws.annotations r.0 st) (λ st1 _. returns (omega arith)))))
        (λ _. returns (omega arith))

  scalar_annotation-Within :
      (lex : LexContext) → Within (λ r. size r.1 ≤ size lex) (parse_scalar_annotation tf sem lex)
  unfolding parse_scalar_annotation
  scalar_annotation-Within lex =
      if-Within (has_type tf lex annotation)
        (λ _.
          bind-Within (next-Within tf lex)
            (λ lex1 l. bind-Within (annotation_value-Within lex1) (λ r k. returns (omega arith))))
        (λ _. returns (omega arith))

  scalar-Within :
      (lex : LexContext) (st : S) → Within (Remain (size lex)) (parse_scalar tf sem lex st)
  unfolding parse_scalar
  scalar-Within lex st =
      if-Within (is_scalar_token lex.token_type)
        (λ _. bind-Within (next-Within tf lex) (λ lex1 l.
          bind-Within (scalar_annotation-Within lex1) (λ r k.
            bind-Within (laws.scalars lex.lexeme lex.token_type r.0 st)
              (λ st1 _. returns (omega arith)))))
        (λ _. fails tt)

  end-Within :
      (t : TokenType) (action : S → Result S) (lex : LexContext) (st : S)
      → (token_number t == 16) ≡ false
      → ((s : S) → Within Any (action s))
      → Within (Remain (size lex)) (parse_end tf sem t action lex st)
  unfolding parse_end
  end-Within t action lex st h runs =
      bind-Within (expect-Within tf lex t h) (λ lex1 l.
        bind-Within (runs st) (λ st1 _. remain (omega arith) (annotation-Within lex1 st1)))

  -- after an item: the others, where a comma follows
  loop-Within :
      (n : ℕ) (lex : LexContext) (st : S) (others : LexContext → Result (LexContext × S))
      → size lex ≤ n
      → ((next : LexContext) → suc (size next) ≤ n → Within (Remain n) (others next))
      → Within
          (Remain n)
          (lex_accept tf lex comma >>= λ r. if r.0 then others r.1 else ok (r.1, st))
  loop-Within n lex st others h k = bind-Within (accept-Within tf lex comma refl) after_accept
    where
      after_accept :
          (r : Bool × LexContext)
          → Accepted tf (size lex) r
          → Within (Remain n) (if r.0 then others r.1 else ok (r.1, st))
      after_accept (true, next) l = k next (omega arith)
      after_accept (false, next) l = returns (omega arith)

  mutual
    unfolding parse_value parse_object parse_fields parse_object_field parse_array parse_elements

    value-Within :
        (fuel : ℕ) (lex : LexContext) (st : S)
        → 4 * size lex + 4 ≤ fuel
        → Within (Remain (size lex)) (parse_value tf sem fuel lex st)
    value-Within zero lex st h = absurd (omega arith)
    value-Within (suc fuel) lex st h =
        if-Within (has_type tf lex object_start) (λ _. object-Within fuel lex st (omega arith))
          (λ _.
            if-Within (has_type tf lex array_start) (λ _. array-Within fuel lex st (omega arith))
              (λ _. scalar-Within lex st))

    object-Within :
        (fuel : ℕ) (lex : LexContext) (st : S)
        → 4 * size lex + 3 ≤ fuel
        → Within (Remain (size lex)) (parse_object tf sem fuel lex st)
    object-Within zero lex st h = absurd (omega arith)
    object-Within (suc fuel) lex st h = bind-Within (laws.object_starts st) (λ st1 _.
        bind-Within (expect-Within tf lex object_start refl) (λ lex1 l.
          bind-Within {P = Remain (size lex)}
            (if-Within (has_type tf lex1 string_token)
              (λ _. remain (omega arith) (fields-Within fuel lex1 st1 (omega arith)))
              (λ _.
                if-Within (has_type tf lex1 object_end) (λ _. returns (omega arith))
                  (λ _. fails tt)))
            (λ r k.
              remain k (end-Within object_end sem.on_object_end r.0 r.1 refl laws.object_ends))))

    fields-Within :
        (fuel : ℕ) (lex : LexContext) (st : S)
        → 4 * size lex + 6 ≤ fuel
        → Within (Remain (size lex)) (parse_fields tf sem fuel lex st)
    fields-Within zero lex st h = absurd (omega arith)
    fields-Within (suc fuel) lex st h = bind-Within (field-Within fuel lex st (omega arith)) (λ r k.
        loop-Within (size lex) r.0 r.1 (λ next. parse_fields tf sem fuel next r.1) k
          (λ next l. remain (omega arith) (fields-Within fuel next r.1 (omega arith))))

    field-Within :
        (fuel : ℕ) (lex : LexContext) (st : S)
        → 4 * size lex + 2 ≤ fuel
        → Within (Remain (size lex)) (parse_object_field tf sem fuel lex st)
    field-Within zero lex st h = absurd (omega arith)
    field-Within (suc fuel) lex st h =
        bind-Within (expect-Within tf lex string_token refl) (λ lex1 l.
          bind-Within (expect-Within tf lex1 colon refl) (λ lex2 k.
            bind-Within (laws.fields lex.lexeme (has_type tf lex2 null_token) st)
              (λ st1 _. remain (omega arith) (value-Within fuel lex2 st1 (omega arith)))))

    array-Within :
        (fuel : ℕ) (lex : LexContext) (st : S)
        → 4 * size lex + 3 ≤ fuel
        → Within (Remain (size lex)) (parse_array tf sem fuel lex st)
    array-Within zero lex st h = absurd (omega arith)
    array-Within (suc fuel) lex st h = bind-Within (laws.array_starts st) (λ st1 _.
        bind-Within (expect-Within tf lex array_start refl) (λ lex1 l.
          bind-Within {P = Remain (size lex)}
            (if-Within (has_type tf lex1 array_end) (λ _. returns (omega arith))
              (λ _. remain (omega arith) (elements-Within fuel lex1 st1 (omega arith))))
            (λ r k. remain k (end-Within array_end sem.on_array_end r.0 r.1 refl laws.array_ends))))

    elements-Within :
        (fuel : ℕ) (lex : LexContext) (st : S)
        → 4 * size lex + 6 ≤ fuel
        → Within (Remain (size lex)) (parse_elements tf sem fuel lex st)
    elements-Within zero lex st h = absurd (omega arith)
    elements-Within (suc fuel) lex st h =
        bind-Within (value-Within fuel lex st (omega arith)) (λ r k.
          loop-Within (size lex) r.0 r.1 (λ next. parse_elements tf sem fuel next r.1) k
            (λ next l. remain (omega arith) (elements-Within fuel next r.1 (omega arith))))

pub parse_agtype-Within :
    (tf : TextFunctions) {S : Type 0} (sem : SemAction S) (input : List ℕ) (st : S)
    → Productive sem
    → Within Any (parse_agtype tf sem input st)
unfolding parse_agtype
parse_agtype-Within tf sem input st laws = bind-Within (agtype_lex-Within tf input) (λ lex l.
    bind-Within (value-Within tf sem laws (4 * length input + 4) lex st (omega arith))
      (λ r k. bind-Within (expect_end-Within tf r.0) (λ next _. returns tt)))

-- For semantic actions that do not raise the model's error for missing fuel, parse_agtype does not
-- raise it on any input, however deep it nests: the descent ends, with a result or with an error of
-- the code. Its fuel, four calls for each byte of the input and four more, is enough.
pub parse_agtype-terminates :
    (tf : TextFunctions) {S : Type 0} (sem : SemAction S) (input : List ℕ) (st : S)
    → Productive sem
    → parse_agtype tf sem input st ≢ err out_of_fuel
parse_agtype-terminates tf sem input st laws = not_fuel (parse_agtype-Within tf sem input st laws)
