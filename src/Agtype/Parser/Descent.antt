-- ===== src/Agtype/Parser/Descent.antt =====
-- The recursive descent of agtype_parser.c over a record of semantic actions. Of the actions of
-- agtype_sem_action those that agtype_from_cstring sets are kept, as functions on the state. `fuel`
-- bounds the depth of the calls and the rounds of the loops.
use incubator_age.Prelude.{
  ℕ, zero, suc, Bool, true, false, Option, none, some, List, if◌then◌else◌, ◌+◌, ◌*◌, length,
}
use incubator_age.Postgres.{TextFunctions}
use incubator_age.Result.{
  Result, ok, err, ◌>>=◌, invalid_input_syntax, invalid_annotation, out_of_fuel,
}
use incubator_age.Agtype.Parser.Lexer.{
  TokenType, string_token, integer_token, float_token, object_start, object_end, array_start,
  array_end, comma, colon, annotation, identifier, true_token, false_token, null_token, end_token,
  LexContext, agtype_lex, lex_accept, lex_expect, has_type,
}

-- struct agtype_sem_action
pub record SemAction (S : Type 0) : Type 0 where
  pub on_object_start : S → Result S
  pub on_object_end : S → Result S
  pub on_array_start : S → Result S
  pub on_array_end : S → Result S
  -- the field's name, and whether its value is null
  pub on_object_field_start : List ℕ → Bool → S → Result S
  pub on_scalar : List ℕ → TokenType → Option (List ℕ) → S → Result S
  pub on_annotation : List ℕ → S → Result S

-- the tokens that parse_scalar takes
abbrev pub is_scalar_token : TokenType → Bool
is_scalar_token true_token = true
is_scalar_token false_token = true
is_scalar_token null_token = true
is_scalar_token integer_token = true
is_scalar_token float_token = true
is_scalar_token string_token = true
is_scalar_token _ = false

module _ (tf : TextFunctions) {S : Type 0} (sem : SemAction S) where
  abbrev pub Parsed : Type 0
  Parsed = LexContext × S

  -- the identifier behind `::`
  unfoldable pub annotation_value : LexContext → Result (List ℕ × LexContext)
  unfolding agtype_lex
  annotation_value lex =
      let next = (do after ← agtype_lex tf lex.input; ok (lex.lexeme, after)) in
      if has_type tf lex identifier then next else err invalid_annotation

  unfoldable pub parse_scalar_annotation : LexContext → Result (Option (List ℕ) × LexContext)
  unfolding annotation_value agtype_lex
  parse_scalar_annotation lex =
      let annotated = (do
        lex1 ← agtype_lex tf lex.input
        (value, lex2) ← annotation_value lex1
        ok (some value, lex2)) in
      if has_type tf lex annotation then annotated else ok (none, lex)

  unfoldable pub parse_annotation : LexContext → S → Result Parsed
  unfolding annotation_value agtype_lex
  parse_annotation lex st =
      let annotated = (do
        lex1 ← agtype_lex tf lex.input
        (value, lex2) ← annotation_value lex1
        st' ← sem.on_annotation value st
        ok (lex2, st')) in
      if has_type tf lex annotation then annotated else ok (lex, st)

  unfoldable pub parse_scalar : LexContext → S → Result Parsed
  unfolding parse_scalar_annotation agtype_lex
  parse_scalar lex st =
      let scalar = (do
        lex1 ← agtype_lex tf lex.input
        (value, lex2) ← parse_scalar_annotation lex1
        st' ← sem.on_scalar lex.lexeme lex.token_type value st
        ok (lex2, st')) in
      if is_scalar_token lex.token_type then scalar else err invalid_input_syntax

  -- the end of an object or an array: its token, its action and an annotation
  unfoldable pub parse_end : TokenType → (S → Result S) → LexContext → S → Result Parsed
  unfolding parse_annotation lex_expect
  parse_end token action lex st = do
    lex1 ← lex_expect tf lex token
    st1 ← action st
    parse_annotation lex1 st1

  unfoldable mutual
    unfolding parse_scalar parse_end lex_accept lex_expect

    -- the switch of parse_agtype, parse_object_field and parse_array_element
    pub parse_value : ℕ → LexContext → S → Result Parsed
    parse_value zero lex st = err out_of_fuel
    parse_value (suc fuel) lex st =
        let in_object = parse_object fuel lex st in
        let in_array = parse_array fuel lex st in
        if has_type tf lex object_start
        then in_object
        else if has_type tf lex array_start
        then in_array
        else parse_scalar lex st

    pub parse_object : ℕ → LexContext → S → Result Parsed
    parse_object zero lex st = err out_of_fuel
    parse_object (suc fuel) lex st = do
      st1 ← sem.on_object_start st
      lex1 ← lex_expect tf lex object_start
      let fields = parse_fields fuel lex1 st1
      (lex2, st2) ←
          (if has_type tf lex1 string_token
            then fields
            else if has_type tf lex1 object_end
            then ok (lex1, st1)
            else err invalid_input_syntax)
      parse_end object_end sem.on_object_end lex2 st2

    -- a field, and the loop over those that follow a comma
    pub parse_fields : ℕ → LexContext → S → Result Parsed
    parse_fields zero lex st = err out_of_fuel
    parse_fields (suc fuel) lex st = do
      (lex1, st1) ← parse_object_field fuel lex st
      (more, lex2) ← lex_accept tf lex1 comma
      let others = parse_fields fuel lex2 st1
      if more then others else ok (lex2, st1)

    pub parse_object_field : ℕ → LexContext → S → Result Parsed
    parse_object_field zero lex st = err out_of_fuel
    parse_object_field (suc fuel) lex st = do
      lex1 ← lex_expect tf lex string_token
      lex2 ← lex_expect tf lex1 colon
      st1 ← sem.on_object_field_start lex.lexeme (has_type tf lex2 null_token) st
      parse_value fuel lex2 st1

    pub parse_array : ℕ → LexContext → S → Result Parsed
    parse_array zero lex st = err out_of_fuel
    parse_array (suc fuel) lex st = do
      st1 ← sem.on_array_start st
      lex1 ← lex_expect tf lex array_start
      let elements = parse_elements fuel lex1 st1
      (lex2, st2) ← (if has_type tf lex1 array_end then ok (lex1, st1) else elements)
      parse_end array_end sem.on_array_end lex2 st2

    -- an element, and the loop over those that follow a comma
    pub parse_elements : ℕ → LexContext → S → Result Parsed
    parse_elements zero lex st = err out_of_fuel
    parse_elements (suc fuel) lex st = do
      (lex1, st1) ← parse_value fuel lex st
      (more, lex2) ← lex_accept tf lex1 comma
      let others = parse_elements fuel lex2 st1
      if more then others else ok (lex2, st1)

  -- Every byte of the input takes at most four calls.
  unfoldable pub parse_agtype : List ℕ → S → Result S
  unfolding parse_value agtype_lex lex_expect
  parse_agtype input st = do
    lex ← agtype_lex tf input
    (lex1, st1) ← parse_value (4 * length input + 4) lex st
    lex2 ← lex_expect tf lex1 end_token
    ok st1
