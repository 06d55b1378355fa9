-- ===== src/Agtype/Parser/Input.antt =====
-- agtype_from_cstring of agtype.c and the actions that it hands to the parser, with the casts of
-- objects and arrays to vertices, edges and paths. The code retypes both its result and the copy
-- that last_updated_value points to, which is the last item of the innermost container.
use incubator_age.Prelude.{
  ℕ, ◌-◌, ◌%◌, Bool, true, false, not, ◌&&◌, ◌||◌, Option, none, some, List, [], ◌∷◌, length, ltb,
  ◌==◌, if◌then◌else◌,
}
use incubator_age.Postgres.{Postgres, TextFunctions}
use incubator_age.Result.{
  Result, ok, err, ◌>>=◌, assertion, fault, invalid_annotation, wrong_annotation_type,
}
use incubator_age.Agtype.{
  AgtypeValue, null, string, numeric, integer, float, boolean, vertex, edge, path, array, object,
  Elems, nil, cons, Pairs, end, pair, num_elems, num_pairs, Pair, elem, value, key, begin_array,
  end_array, begin_object, end_object, Token,
}
use incubator_age.Agtype.Sort.{QsortArg}
use incubator_age.Agtype.Fill.{Deserialize}
use incubator_age.Agtype.Iterator.{Visited, unset, array_header, item}
use incubator_age.Agtype.Push.{ParseState, Cont, building_array, building_object, push_agtype_value}
use incubator_age.Agtype.Convert.{agtype_value_to_agtype}
use incubator_age.Agtype.Operators.Scalars.{check_string_length}
use incubator_age.Agtype.Parser.Lexer.{
  TokenType, string_token, integer_token, float_token, numeric_token, true_token, false_token,
  null_token,
}
use incubator_age.Agtype.Parser.Descent.{SemAction, parse_agtype}

-- agtype_in_state; NULL is `none`
pub record InState : Type 0 where
  pub parse_state : List ParseState
  pub res : Option AgtypeValue

abbrev pub is_integer : AgtypeValue → Bool
is_integer (integer _) = true
is_integer _ = false

abbrev pub is_string : AgtypeValue → Bool
is_string (string _) = true
is_string _ = false

abbrev pub is_object : AgtypeValue → Bool
is_object (object _) = true
is_object _ = false

abbrev pub is_vertex : AgtypeValue → Bool
is_vertex (vertex _) = true
is_vertex _ = false

abbrev pub is_edge : AgtypeValue → Bool
is_edge (edge _) = true
is_edge _ = false

abbrev id_key : List ℕ
id_key = b'i' ∷ b'd' ∷ []

abbrev label_key : List ℕ
label_key = b'l' ∷ b'a' ∷ b'b' ∷ b'e' ∷ b'l' ∷ []

abbrev properties_key : List ℕ
properties_key = b'p' ∷ b'r' ∷ b'o' ∷ b'p' ∷ b'e' ∷ b'r' ∷ b't' ∷ b'i' ∷ b'e' ∷ b's' ∷ []

abbrev start_id_key : List ℕ
start_id_key = b's' ∷ b't' ∷ b'a' ∷ b'r' ∷ b't' ∷ b'_' ∷ b'i' ∷ b'd' ∷ []

abbrev end_id_key : List ℕ
end_id_key = b'e' ∷ b'n' ∷ b'd' ∷ b'_' ∷ b'i' ∷ b'd' ∷ []

-- has_id, has_label, has_properties, has_start_id and has_end_id
pub record Has : Type 0 where
  pub id : Bool
  pub label : Bool
  pub properties : Bool
  pub start_id : Bool
  pub end_id : Bool

abbrev has_nothing : Has
has_nothing = record {
  id = false;
  label = false;
  properties = false;
  start_id = false;
  end_id = false;
}

module _ (tf : TextFunctions) where
  abbrev pub named : List ℕ → List ℕ → Bool
  named k name = (length k == length name) && tf.same_ignoring_case k name

  -- the loop over the pairs; `none` is its `return false`. The last two tests are is_object_edge's.
  unfoldable pub entity_loop : Bool → Has → Pairs → Option Has
  entity_loop of_edge has end = some has
  entity_loop of_edge has (pair k v o ps) =
      let with_id = entity_loop of_edge (record has { id = true }) ps in
      let with_label = entity_loop of_edge (record has { label = true }) ps in
      let with_properties = entity_loop of_edge (record has { properties = true }) ps in
      let with_start_id = entity_loop of_edge (record has { start_id = true }) ps in
      let with_end_id = entity_loop of_edge (record has { end_id = true }) ps in
      if named k id_key && is_integer v
      then with_id
      else if named k label_key && is_string v
      then with_label
      else if named k properties_key && is_object v
      then with_properties
      else if of_edge && named k start_id_key && is_integer v
      then with_start_id
      else if of_edge && named k end_id_key && is_integer v
      then with_end_id
      else none

  is_vertex_end : Option Has → Bool
  is_vertex_end none = false
  is_vertex_end (some has) = has.id && has.label && has.properties

  is_edge_end : Option Has → Bool
  is_edge_end none = false
  is_edge_end (some has) = has.id && has.label && has.properties && has.start_id && has.end_id

  unfoldable pub is_object_vertex : Pairs → Bool
  unfolding entity_loop is_vertex_end
  is_object_vertex ps = (num_pairs ps == 3) && is_vertex_end (entity_loop false has_nothing ps)

  unfoldable pub is_object_edge : Pairs → Bool
  unfolding entity_loop is_edge_end
  is_object_edge ps = (num_pairs ps == 5) && is_edge_end (entity_loop true has_nothing ps)

-- the loop over pairs of elements, and the last element
unfoldable pub path_loop : Elems → Bool
path_loop nil = false
path_loop (cons v nil) = is_vertex v
path_loop (cons v (cons e es)) =
    let rest = path_loop es in if is_vertex v && is_edge e then rest else false

unfoldable pub is_array_path : Elems → Bool
unfolding path_loop
is_array_path es =
    let n = num_elems es in
    let elements = path_loop es in if ltb n 3 || not ((n - 1) % 2 == 0) then false else elements

-- agtv->type = …, on the same structure
abbrev pub Retype : Type 0
Retype = AgtypeValue → AgtypeValue

abbrev pub to_vertex : Retype
to_vertex (object ps) = vertex ps
to_vertex v = v

abbrev pub to_edge : Retype
to_edge (object ps) = edge ps
to_edge v = v

abbrev pub to_path : Retype
to_path (array es raw) = path es
to_path v = v

-- last_updated_value's value
abbrev retype_last : Retype → List AgtypeValue → List AgtypeValue
retype_last f [] = []
retype_last f (v ∷ []) = f v ∷ []
retype_last f (v ∷ w ∷ vs) = v ∷ retype_last f (w ∷ vs)

abbrev retype_last_pair : Retype → List Pair → List Pair
retype_last_pair f [] = []
retype_last_pair f (p ∷ []) = record p { value = f p.value } ∷ []
retype_last_pair f (p ∷ q ∷ ps) = p ∷ retype_last_pair f (q ∷ ps)

retype_updated : Retype → Cont → Cont
retype_updated f (building_array es raw) = building_array (retype_last f es) raw
retype_updated f (building_object ps k) = building_object (retype_last_pair f ps) k

unfoldable pub retyped_state : Retype → AgtypeValue → List ParseState → InState
unfolding retype_updated
retyped_state f agtv [] = record { parse_state = []; res = some (f agtv) }
retyped_state f agtv (s ∷ rest) = record {
  parse_state = record s { cont_val = retype_updated f s.cont_val } ∷ rest;
  res = some (f agtv);
}

abbrev pub vertex_name : List ℕ
vertex_name = b'v' ∷ b'e' ∷ b'r' ∷ b't' ∷ b'e' ∷ b'x' ∷ []

abbrev pub edge_name : List ℕ
edge_name = b'e' ∷ b'd' ∷ b'g' ∷ b'e' ∷ []

abbrev pub path_name : List ℕ
path_name = b'p' ∷ b'a' ∷ b't' ∷ b'h' ∷ []

abbrev pub numeric_name : List ℕ
numeric_name = b'n' ∷ b'u' ∷ b'm' ∷ b'e' ∷ b'r' ∷ b'i' ∷ b'c' ∷ []

abbrev pub integer_name : List ℕ
integer_name = b'i' ∷ b'n' ∷ b't' ∷ b'e' ∷ b'g' ∷ b'e' ∷ b'r' ∷ []

abbrev pub float_name : List ℕ
float_name = b'f' ∷ b'l' ∷ b'o' ∷ b'a' ∷ b't' ∷ []

module _ (tf : TextFunctions) where
  unfoldable pub agtype_typecast_object : Pairs → List ℕ → List ParseState → Result InState
  unfolding is_object_vertex is_object_edge retyped_state
  agtype_typecast_object ps annotation states =
      if named tf annotation vertex_name
      then (if is_object_vertex tf ps
          then ok (retyped_state to_vertex (object ps) states)
          else err wrong_annotation_type)
      else if named tf annotation edge_name
      then (if is_object_edge tf ps
          then ok (retyped_state to_edge (object ps) states)
          else err wrong_annotation_type)
      else err invalid_annotation

  unfoldable pub agtype_typecast_array : Elems → Bool → List ℕ → List ParseState → Result InState
  unfolding is_array_path retyped_state
  agtype_typecast_array es raw annotation states =
      if named tf annotation path_name
      then (if is_array_path es
          then ok (retyped_state to_path (array es raw) states)
          else err wrong_annotation_type)
      else err invalid_annotation

  unfoldable pub typecast : Option AgtypeValue → List ℕ → List ParseState → Result InState
  unfolding agtype_typecast_object agtype_typecast_array
  typecast none annotation states = err fault
  typecast (some (object ps)) annotation states = agtype_typecast_object ps annotation states
  typecast (some (array es raw)) annotation states = agtype_typecast_array es raw annotation states
  typecast (some _) annotation states = err wrong_annotation_type

  unfoldable pub agtype_in_agtype_annotation : List ℕ → InState → Result InState
  unfolding typecast
  agtype_in_agtype_annotation annotation st = typecast st.res annotation st.parse_state

  -- the casts of a scalar
  unfoldable pub annotated_type : TokenType → Option (List ℕ) → Result TokenType
  annotated_type null_token annotation = ok null_token
  annotated_type tokentype none = ok tokentype
  annotated_type tokentype (some annotation) =
      if named tf annotation numeric_name
      then ok numeric_token
      else if named tf annotation integer_name
      then ok integer_token
      else if named tf annotation float_name
      then ok float_token
      else err invalid_annotation

  -- the switch over tokentype
  unfoldable pub scalar_value : TokenType → List ℕ → Result AgtypeValue
  unfolding check_string_length
  scalar_value string_token token = do len ← check_string_length (length token); ok (string token)
  scalar_value integer_token token = do i ← tf.scanint8 token; ok (integer i)
  scalar_value float_token token = do f ← tf.float8in token; ok (float f)
  scalar_value numeric_token token = do n ← tf.numeric_in token; ok (numeric n)
  scalar_value true_token token = ok (boolean true)
  scalar_value false_token token = ok (boolean false)
  scalar_value null_token token = ok null
  scalar_value _ token = err assertion

-- the token for an item of the innermost container
abbrev pub item_token : Cont → Token
item_token (building_array _ _) = elem
item_token (building_object _ _) = value

module _ (pg : Postgres) (qsort_arg : QsortArg) (deserialize : Deserialize)
    (tf : TextFunctions) where
  -- _state->res = push_agtype_value(&_state->parse_state, tok, v)
  unfoldable pub push : Token → Visited → InState → Result InState
  unfolding push_agtype_value
  push tok v st = do
    (res, states) ← push_agtype_value pg qsort_arg deserialize st.parse_state tok v
    ok (record { parse_state = states; res = res })

  unfoldable pub agtype_in_object_field_start : List ℕ → Bool → InState → Result InState
  unfolding push check_string_length
  agtype_in_object_field_start fname isnull st = do
    len ← check_string_length (length fname)
    push key (item (string fname)) st

  unfoldable pub push_scalar : AgtypeValue → List ParseState → InState → Result InState
  unfolding push
  push_scalar v [] st = do
    st1 ← push begin_array (array_header 1 true) st
    st2 ← push elem (item v) st1
    push end_array unset st2
  push_scalar v (s ∷ _) st = push (item_token s.cont_val) (item v) st

  unfoldable pub agtype_in_scalar : List ℕ → TokenType → Option (List ℕ) → InState → Result InState
  unfolding push_scalar annotated_type scalar_value
  agtype_in_scalar token tokentype annotation st = do
    t ← annotated_type tf tokentype annotation
    v ← scalar_value tf t token
    push_scalar v st.parse_state st

  unfoldable pub in_actions : SemAction InState
  unfolding push agtype_in_scalar agtype_in_object_field_start agtype_in_agtype_annotation
  in_actions = record {
    on_object_start = push begin_object unset;
    on_object_end = push end_object unset;
    on_array_start = push begin_array unset;
    on_array_end = push end_array unset;
    on_object_field_start = agtype_in_object_field_start;
    on_scalar = agtype_in_scalar;
    on_annotation = agtype_in_agtype_annotation tf;
  }

  abbrev pub parsed_value : Option AgtypeValue → Result AgtypeValue
  parsed_value none = err fault
  parsed_value (some v) = ok v

  -- state.res, and the datum
  unfoldable pub parse_cstring : List ℕ → Result AgtypeValue
  unfolding in_actions parse_agtype
  parse_cstring str = do
    st ← parse_agtype tf in_actions str (record { parse_state = []; res = none })
    parsed_value st.res

  unfoldable pub agtype_from_cstring : List ℕ → Result (List ℕ)
  unfolding parse_cstring
  agtype_from_cstring str = do v ← parse_cstring str; agtype_value_to_agtype v
