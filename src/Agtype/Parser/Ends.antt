-- ===== src/Agtype/Parser/Ends.antt =====
-- The actions that agtype_from_cstring of agtype.c hands to the parser raise no error but the
-- code's own, so reading a text ends.
use incubator_age.Prelude.{
  ℕ, ◌≡◌, ◌≢◌, refl, Bool, true, Option, none, some, List, [], ◌∷◌, length, ltb,
}
use incubator_age.Postgres.{Postgres, TextFunctions}
use incubator_age.Result.{err, out_of_fuel}
use incubator_age.Result.Within.{Within, returns, fails, bind-Within, if-Within, not_fuel, Any}
use incubator_age.Agtype.{
  AgtypeValue, string, array, object, binary, Elems, Pairs, Token, key, value, elem, begin_array,
  end_array, begin_object, end_object,
}
use incubator_age.Agtype.Sort.{QsortArg}
use incubator_age.Agtype.Fill.{Deserialize}
use incubator_age.Agtype.Iterator.{Visited, unset, array_header, item}
use incubator_age.Agtype.Push.{
  ParseState, Cont, building_array, building_object, push_agtype_value, push_agtype_value_scalar,
}
use incubator_age.Agtype.Push.Errors.{push_scalar-Within}
use incubator_age.Agtype.Operators.Scalars.{check_string_length}
use incubator_age.Agtype.Entry.{offlenmask}
use incubator_age.Agtype.Parser.Lexer.{
  TokenType, string_token, integer_token, float_token, numeric_token, true_token, false_token,
  null_token,
}
use incubator_age.Agtype.Parser.Input.{
  InState, push, push_scalar, in_actions, agtype_in_scalar, agtype_in_object_field_start,
  agtype_in_agtype_annotation, parse_cstring, annotated_type, scalar_value, typecast,
  agtype_typecast_object, agtype_typecast_array, named, is_object_vertex, is_object_edge,
  is_array_path, item_token, parsed_value, vertex_name, edge_name, path_name, numeric_name,
  integer_name, float_name,
}
use incubator_age.Agtype.Parser.Termination.{Productive, parse_agtype-Within}

-- The conversions of PostgreSQL raise errors of their own.
pub record ConversionLaws (tf : TextFunctions) : Type 0 where
  pub integers : (s : List ℕ) → Within Any (tf.scanint8 s)
  pub floats : (s : List ℕ) → Within Any (tf.float8in s)
  pub numerics : (s : List ℕ) → Within Any (tf.numeric_in s)

length-Within : (n : ℕ) → Within Any (check_string_length n)
unfolding check_string_length
length-Within n = if-Within (ltb offlenmask n) (λ _. fails tt) (λ _. returns tt)

-- a value that is not a binary, which push_agtype_value would unpack
abbrev IsLeaf : AgtypeValue → Type 0
IsLeaf (binary n b) = ⊥
IsLeaf _ = Unit

module _ (pg : Postgres) (qsort_arg : QsortArg) (deserialize : Deserialize)
    (tf : TextFunctions) where
  push-Within :
      (tok : Token) (v : Visited) (st : InState)
      → ((states : List ParseState)
          → Within Any (push_agtype_value pg qsort_arg deserialize states tok v))
      → Within Any (push pg qsort_arg deserialize tf tok v st)
  unfolding push
  push-Within tok v st h = bind-Within (h st.parse_state) (λ r _. returns tt)

  elem_leaf :
      (v : AgtypeValue) (states : List ParseState)
      → IsLeaf v
      → Within Any (push_agtype_value pg qsort_arg deserialize states elem (item v))
  unfolding push_agtype_value
  elem_leaf (binary n b) states h = absurd h
  elem_leaf v states h = push_scalar-Within pg qsort_arg states elem (item v)

  value_leaf :
      (v : AgtypeValue) (states : List ParseState)
      → IsLeaf v
      → Within Any (push_agtype_value pg qsort_arg deserialize states value (item v))
  unfolding push_agtype_value
  value_leaf (binary n b) states h = absurd h
  value_leaf v states h = push_scalar-Within pg qsort_arg states value (item v)

  -- the other tokens
  plain_push :
      (tok : Token) (v : Visited) (states : List ParseState)
      → push_agtype_value pg qsort_arg deserialize states tok v
        ≡ push_agtype_value_scalar pg qsort_arg states tok v
      → Within Any (push_agtype_value pg qsort_arg deserialize states tok v)
  plain_push tok v states e = rw e (push_scalar-Within pg qsort_arg states tok v)

  mark-Within :
      (tok : Token) (v : Visited) (st : InState)
      → ((states : List ParseState)
          → push_agtype_value pg qsort_arg deserialize states tok v
            ≡ push_agtype_value_scalar pg qsort_arg states tok v)
      → Within Any (push pg qsort_arg deserialize tf tok v st)
  mark-Within tok v st e = push-Within tok v st (λ states. plain_push tok v states (e states))

  begin_object-Within :
      (st : InState) → Within Any (push pg qsort_arg deserialize tf begin_object unset st)
  unfolding push_agtype_value
  begin_object-Within st = mark-Within begin_object unset st (λ states. refl)

  end_object-Within :
      (st : InState) → Within Any (push pg qsort_arg deserialize tf end_object unset st)
  unfolding push_agtype_value
  end_object-Within st = mark-Within end_object unset st (λ states. refl)

  begin_array-Within :
      (v : Visited) (st : InState) → Within Any (push pg qsort_arg deserialize tf begin_array v st)
  unfolding push_agtype_value
  begin_array-Within v st = mark-Within begin_array v st (λ states. refl)

  end_array-Within :
      (st : InState) → Within Any (push pg qsort_arg deserialize tf end_array unset st)
  unfolding push_agtype_value
  end_array-Within st = mark-Within end_array unset st (λ states. refl)

  field_start-Within :
      (fname : List ℕ) (isnull : Bool) (st : InState)
      → Within Any (agtype_in_object_field_start pg qsort_arg deserialize tf fname isnull st)
  unfolding agtype_in_object_field_start push_agtype_value
  field_start-Within fname isnull st =
      bind-Within (length-Within (length fname))
        (λ n _. mark-Within key (item (string fname)) st (λ states. refl))

  item-Within :
      (c : Cont) (v : AgtypeValue) (st : InState)
      → IsLeaf v
      → Within Any (push pg qsort_arg deserialize tf (item_token c) (item v) st)
  item-Within (building_array es raw) v st h =
      push-Within elem (item v) st (λ states. elem_leaf v states h)
  item-Within (building_object ps k) v st h =
      push-Within value (item v) st (λ states. value_leaf v states h)

  pushed-Within :
      (v : AgtypeValue) (states : List ParseState) (st : InState)
      → IsLeaf v
      → Within Any (push_scalar pg qsort_arg deserialize tf v states st)
  unfolding push_scalar
  pushed-Within v [] st h = bind-Within (begin_array-Within (array_header 1 true) st) (λ st1 _.
      bind-Within (push-Within elem (item v) st1 (λ states. elem_leaf v states h))
        (λ st2 _. end_array-Within st2))
  pushed-Within v (s ∷ rest) st h = item-Within s.cont_val v st h

  typed-Within : (t : TokenType) (a : Option (List ℕ)) → Within Any (annotated_type tf t a)
  unfolding annotated_type
  typed-Within null_token a = returns tt
  typed-Within t none = returns tt
  typed-Within t (some a) =
      if-Within (named tf a numeric_name) (λ _. returns tt)
        (λ _.
          if-Within (named tf a integer_name) (λ _. returns tt)
            (λ _. if-Within (named tf a float_name) (λ _. returns tt) (λ _. fails tt)))

  parsed-Within : (o : Option AgtypeValue) → Within Any (parsed_value pg qsort_arg deserialize tf o)
  parsed-Within none = fails tt
  parsed-Within (some v) = returns tt

  module _ (laws : ConversionLaws tf) where
    scalar_value-Within : (t : TokenType) (token : List ℕ) → Within IsLeaf (scalar_value tf t token)
    unfolding scalar_value
    scalar_value-Within string_token token =
        bind-Within (length-Within (length token)) (λ n _. returns tt)
    scalar_value-Within integer_token token = bind-Within (laws.integers token) (λ i _. returns tt)
    scalar_value-Within float_token token = bind-Within (laws.floats token) (λ f _. returns tt)
    scalar_value-Within numeric_token token = bind-Within (laws.numerics token) (λ n _. returns tt)
    scalar_value-Within true_token token = returns tt
    scalar_value-Within false_token token = returns tt
    scalar_value-Within null_token token = returns tt
    scalar_value-Within _ token = fails tt

    in_scalar-Within :
        (token : List ℕ) (t : TokenType) (a : Option (List ℕ)) (st : InState)
        → Within Any (agtype_in_scalar pg qsort_arg deserialize tf token t a st)
    unfolding agtype_in_scalar
    in_scalar-Within token t a st = bind-Within (typed-Within t a) (λ u _.
        bind-Within (scalar_value-Within u token)
          (λ v leaf. pushed-Within v st.parse_state st leaf))

    object_cast-Within :
        (ps : Pairs) (a : List ℕ) (states : List ParseState)
        → Within Any (agtype_typecast_object tf ps a states)
    unfolding agtype_typecast_object
    object_cast-Within ps a states =
        if-Within (named tf a vertex_name)
          (λ _. if-Within (is_object_vertex tf ps) (λ _. returns tt) (λ _. fails tt))
          (λ _.
            if-Within (named tf a edge_name)
              (λ _. if-Within (is_object_edge tf ps) (λ _. returns tt) (λ _. fails tt))
              (λ _. fails tt))

    array_cast-Within :
        (es : Elems) (raw : Bool) (a : List ℕ) (states : List ParseState)
        → Within Any (agtype_typecast_array tf es raw a states)
    unfolding agtype_typecast_array
    array_cast-Within es raw a states =
        if-Within (named tf a path_name)
          (λ _. if-Within (is_array_path es) (λ _. returns tt) (λ _. fails tt)) (λ _. fails tt)

    typecast-Within :
        (res : Option AgtypeValue) (a : List ℕ) (states : List ParseState)
        → Within Any (typecast tf res a states)
    unfolding typecast
    typecast-Within none a states = fails tt
    typecast-Within (some (object ps)) a states = object_cast-Within ps a states
    typecast-Within (some (array es raw)) a states = array_cast-Within es raw a states
    typecast-Within (some _) a states = fails tt

    pub in_actions-Productive : Productive (in_actions pg qsort_arg deserialize tf)
    unfolding in_actions agtype_in_agtype_annotation
    in_actions-Productive = record {
      object_starts = begin_object-Within;
      object_ends = end_object-Within;
      array_starts = begin_array-Within unset;
      array_ends = end_array-Within;
      fields = field_start-Within;
      scalars = in_scalar-Within;
      annotations = λ a st. typecast-Within st.res a st.parse_state;
    }

-- Reading any text into an agtype value ends, with a value or with an error of the code, where
-- scanint8, float8in_internal and numeric_in raise errors of their own: the fuel of the recursive
-- descent is enough, and the actions need none.
pub parse_cstring-terminates :
    (pg : Postgres) (qsort_arg : QsortArg) (deserialize : Deserialize) (tf : TextFunctions)
    (str : List ℕ)
    → ConversionLaws tf
    → parse_cstring pg qsort_arg deserialize tf str ≢ err out_of_fuel
unfolding parse_cstring
parse_cstring-terminates pg qsort_arg deserialize tf str laws = not_fuel (
    bind-Within
      (parse_agtype-Within tf (in_actions pg qsort_arg deserialize tf) str
        (record { parse_state = []; res = none })
        (in_actions-Productive pg qsort_arg deserialize tf laws))
      (λ st _. parsed-Within pg qsort_arg deserialize tf st.res))
