-- ===== src/Agtype/Compare.antt =====
-- compare_agtype_scalar_values, get_type_sort_priority and compare_agtype_containers_orderability
-- of agtype_util.c, get_agtype_value_object_value of agtype.c, and is_numeric_result and
-- get_numeric_datum_from_agtype_value of agtype_ops.c.
pub mod Scalars
pub mod Priority
use incubator_age.Prelude.{
  ℕ, zero, suc, Bool, true, false, not, ◌&&◌, ◌||◌, Option, none, some, List, [], ◌∷◌, ltb, ◌==◌,
  if◌then◌else◌,
}
use incubator_age.Prelude.Int.{ℤ, pos, negsuc, ltb_ℤ, eqb_ℤ}
use incubator_age.Postgres.{Postgres}
use incubator_age.Result.{
  Result, ok, err, guard, ◌>>=◌, ◌>>◌, fault, assertion, scalar_type_compare, scalar_type_mismatch,
  binary_in_compare, out_of_fuel,
}
use incubator_age.Agtype.{
  AgtypeValue, null, string, numeric, integer, float, boolean, vertex, edge, path, array, object,
  binary, Pairs, end, pair, Elems, nil, cons, num_elems, type_of, same_type, type_code,
  AgtypeValueType, null_type, string_type, numeric_type, integer_type, float_type, bool_type,
  vertex_type, array_type, object_type, binary_type, Token, done, end_array, end_object, token_code,
}
use incubator_age.Agtype.Text.{same_bytes}
use incubator_age.Agtype.Number.{int_to_float8, compare_two_floats_orderability}
use incubator_age.Agtype.Equal.{int_value}
use incubator_age.Agtype.Fill.{Deserialize}
use incubator_age.Agtype.Iterator.{
  Iterator, Visited, unset, array_header, object_header, item, agtype_iterator_init,
  agtype_iterator_next,
}

-- Keys have no NUL byte, so equal lengths and strncmp's 0 are equality of the bytes.
unfoldable pub get_agtype_value_object_value : Pairs → List ℕ → Option AgtypeValue
get_agtype_value_object_value end key = none
get_agtype_value_object_value (pair k v o ps) key =
    if same_bytes k key then some v else get_agtype_value_object_value ps key

-- "id"
abbrev pub id_key : List ℕ
id_key = b'i' ∷ b'd' ∷ []

int_of_option : Option AgtypeValue → Result ℤ
int_of_option none = err fault
int_of_option (some v) = int_value v

-- the graphid of a vertex or an edge, by its key
unfoldable pub object_id : Pairs → Result ℤ
unfolding int_of_option
object_id ps = int_of_option (get_agtype_value_object_value ps id_key)

abbrev pub is_numeric_type : AgtypeValue → Bool
is_numeric_type (numeric _) = true
is_numeric_type _ = false

abbrev pub is_int_or_float : AgtypeValue → Bool
is_int_or_float (integer _) = true
is_int_or_float (float _) = true
is_int_or_float _ = false

unfoldable pub is_numeric_result : AgtypeValue → AgtypeValue → Bool
is_numeric_result lhs rhs =
    ((is_numeric_type lhs || is_numeric_type rhs) && (is_int_or_float lhs || is_int_or_float rhs))
    || (is_numeric_type lhs && is_numeric_type rhs)

-- Of any other type it is the NULL datum.
unfoldable pub get_numeric_datum_from_agtype_value : Postgres → AgtypeValue → List ℕ
get_numeric_datum_from_agtype_value pg (integer i) = pg.int8_numeric i
get_numeric_datum_from_agtype_value pg (float f) = pg.float8_numeric f
get_numeric_datum_from_agtype_value pg (numeric n) = n
get_numeric_datum_from_agtype_value pg _ = []

-- the ladders `a == b ? 0 : a > b ? 1 : -1`
abbrev pub cmp_int : ℤ → ℤ → ℤ
cmp_int a b = if eqb_ℤ a b then pos 0 else if ltb_ℤ b a then pos 1 else negsuc 0

abbrev pub cmp_bool : Bool → Bool → ℤ
cmp_bool true false = pos 1
cmp_bool false true = negsuc 0
cmp_bool _ _ = pos 0

cmp_ids : Pairs → Pairs → Result ℤ
unfolding object_id
cmp_ids a b = do a_graphid ← object_id a; b_graphid ← object_id b; ok (cmp_int a_graphid b_graphid)

-- Two values of different types.
cmp_mixed : Postgres → AgtypeValue → AgtypeValue → Result ℤ
unfolding is_numeric_result get_numeric_datum_from_agtype_value
cmp_mixed pg (integer a) (float b) = ok (compare_two_floats_orderability (int_to_float8 a) b)
cmp_mixed pg (float a) (integer b) = ok (compare_two_floats_orderability a (int_to_float8 b))
cmp_mixed pg a b =
    if same_type a b
    then err scalar_type_compare
    else if is_numeric_result a b
    then ok (
        pg.numeric_cmp (get_numeric_datum_from_agtype_value pg a)
          (get_numeric_datum_from_agtype_value pg b))
    else err scalar_type_mismatch

unfoldable mutual
  unfolding cmp_ids cmp_mixed

  pub compare_agtype_scalar_values : Postgres → AgtypeValue → AgtypeValue → Result ℤ
  compare_agtype_scalar_values pg null null = ok (pos 0)
  compare_agtype_scalar_values pg (string a) (string b) = ok (pg.varstr_cmp a b)
  compare_agtype_scalar_values pg (numeric a) (numeric b) = ok (pg.numeric_cmp a b)
  compare_agtype_scalar_values pg (boolean a) (boolean b) = ok (cmp_bool a b)
  compare_agtype_scalar_values pg (integer a) (integer b) = ok (cmp_int a b)
  compare_agtype_scalar_values pg (float a) (float b) = ok (compare_two_floats_orderability a b)
  compare_agtype_scalar_values pg (vertex a) (vertex b) = cmp_ids a b
  compare_agtype_scalar_values pg (edge a) (edge b) = cmp_ids a b
  compare_agtype_scalar_values pg (path a) (path b) =
      let longer : Result ℤ = ok (if ltb (num_elems b) (num_elems a) then pos 1 else negsuc 0) in
      let elements = compare_path_elements pg a b in
      if num_elems a == num_elems b then elements else longer
  compare_agtype_scalar_values pg a b = cmp_mixed pg a b

  -- the loop over the elements of two paths of one length
  pub compare_path_elements : Postgres → Elems → Elems → Result ℤ
  compare_path_elements pg nil _ = ok (pos 0)
  compare_path_elements pg (cons a as_) nil = err fault
  compare_path_elements pg (cons a as_) (cons b bs) =
      let rest = compare_path_elements pg as_ bs in
      do res ← compare_agtype_scalar_values pg a b; if eqb_ℤ res (pos 0) then rest else ok res

unfoldable pub get_type_sort_priority : AgtypeValueType → ℤ
get_type_sort_priority object_type = pos 0
get_type_sort_priority vertex_type = pos 1
get_type_sort_priority array_type = pos 2
get_type_sort_priority string_type = pos 3
get_type_sort_priority bool_type = pos 4
get_type_sort_priority numeric_type = pos 5
get_type_sort_priority integer_type = pos 5
get_type_sort_priority float_type = pos 5
get_type_sort_priority null_type = pos 6
get_type_sort_priority _ = negsuc 0

-- type-defined order
unfoldable pub by_type : AgtypeValueType → AgtypeValueType → ℤ
unfolding get_type_sort_priority
by_type a b =
    if ltb_ℤ (get_type_sort_priority a) (get_type_sort_priority b) then negsuc 0 else pos 1

-- va.type, where the last call set it
visited_type : Visited → Result AgtypeValueType
visited_type unset = err assertion
visited_type (array_header _ _) = ok array_type
visited_type (object_header _) = ok object_type
visited_type (item v) = ok (type_of v)

abbrev is_number : AgtypeValue → Bool
is_number (numeric _) = true
is_number (integer _) = true
is_number (float _) = true
is_number _ = false

module _ (pg : Postgres) (deserialize : Deserialize) where
  -- a raw scalar's one element, for its type
  contained_type : List Iterator → Result AgtypeValueType
  unfolding visited_type
  contained_type it = do
    (token, v, it') ← agtype_iterator_next pg deserialize it false
    visited_type v

  -- two values that came with the same token
  compare_items : AgtypeValue → AgtypeValue → Result ℤ
  unfolding by_type
  compare_items (binary _ _) (binary _ _) = err binary_in_compare
  compare_items (array _ _) (array _ _) = err assertion
  compare_items (object _) (object _) = ok (pos 0)
  compare_items a b =
      let scalars = compare_agtype_scalar_values pg a b in
      if same_type a b || (is_number a && is_number b)
      then scalars
      else ok (by_type (type_of a) (type_of b))

  compare_visited : Visited → Visited → List Iterator → List Iterator → Result ℤ
  unfolding contained_type compare_items visited_type
  compare_visited (array_header _ true) (array_header _ false) ita itb = do
    type_a ← contained_type ita
    ok (by_type type_a array_type)
  compare_visited (array_header _ false) (array_header _ true) ita itb = do
    type_b ← contained_type itb
    ok (by_type array_type type_b)
  compare_visited (array_header _ _) (array_header _ _) ita itb = ok (pos 0)
  compare_visited (object_header _) (object_header _) ita itb = ok (pos 0)
  compare_visited (item a) (item b) ita itb = compare_items a b
  compare_visited va vb ita itb = do
    type_a ← visited_type va
    type_b ← visited_type vb
    ok (by_type type_a type_b)

  is_end : Token → Bool
  is_end end_array = true
  is_end end_object = true
  is_end _ = false

  -- the three Asserts on the types behind two different tokens
  differ : AgtypeValueType → AgtypeValueType → Bool
  differ a b =
      not (type_code a == type_code b)
      && not (type_code a == type_code binary_type)
      && not (type_code b == type_code binary_type)

  -- do … while (res == 0); the fuel bounds the rounds
  compare_loop : ℕ → List Iterator → List Iterator → Result ℤ
  unfolding compare_visited visited_type is_end differ
  compare_loop zero ita itb = err out_of_fuel
  compare_loop (suc fuel) ita itb = do
    (ra, va, ita') ← agtype_iterator_next pg deserialize ita false
    (rb, vb, itb') ← agtype_iterator_next pg deserialize itb false
    let next = compare_loop fuel ita' itb'
    let same = (do
      res ← compare_visited va vb ita' itb'
      if eqb_ℤ res (pos 0) then next else ok res)
    let different = (do
      type_a ← visited_type va
      type_b ← visited_type vb
      guard (differ type_a type_b) assertion
      ok (by_type type_a type_b))
    let on_same = if token_code ra == 0 then ok (pos 0) else if is_end ra then next else same
    let on_different =
        if is_end ra then ok (negsuc 0) else if is_end rb then ok (pos 1) else different
    if token_code ra == token_code rb then on_same else on_different

  unfoldable pub compare_agtype_containers_orderability : ℕ → List ℕ → List ℕ → Result ℤ
  unfolding compare_loop
  compare_agtype_containers_orderability fuel a b = do
    ita ← agtype_iterator_init a
    itb ← agtype_iterator_init b
    compare_loop fuel ita itb
