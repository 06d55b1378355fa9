-- ===== src/Agtype/Access.antt =====
-- agtype_access_operator and agtype_access_slice of agtype.c, with their helpers. An argument of an
-- SQL function is `none` where it is NULL, and so is the result. The arguments of
-- agtype_access_operator are those that extract_variadic_args returned.
pub mod Elements
pub mod Slices
pub mod Scalars
use incubator_age.Prelude.{
  ℕ, zero, suc, ◌+◌, ◌-◌, Bool, true, false, not, ◌&&◌, ◌||◌, Option, none, some, List, [], ◌∷◌,
  leb, if◌then◌else◌,
}
use incubator_age.Prelude.Int.{ℤ, pos, negsuc, pos_part, ◌+ℤ◌, ◌-ℤ◌, ltb_ℤ}
use incubator_age.Postgres.{Postgres}
use incubator_age.Result.{
  Result, ok, err, guard, ◌>>=◌, ◌>>◌, fault, integer_key, float_key, numeric_key, boolean_key,
  unknown_scalar_type, invalid_index, must_be_container, key_must_be_scalar, missing_slice_bounds,
  slice_of_no_list, invalid_slice_index,
}
use incubator_age.Agtype.{
  AgtypeValue, null, string, numeric, integer, float, boolean, vertex, edge, Pairs, end, pair,
  begin_array, end_array, elem,
}
use incubator_age.Agtype.Entry.{header_is_object, header_is_array}
use incubator_age.Agtype.Container.{header}
use incubator_age.Agtype.Sort.{QsortArg}
use incubator_age.Agtype.Fill.{Deserialize}
use incubator_age.Agtype.Iterator.{Visited, unset, item}
use incubator_age.Agtype.Find.{
  get_ith_agtype_value_from_container, find_agtype_value_from_container,
}
use incubator_age.Agtype.Push.{ParseState, push_agtype_value}
use incubator_age.Agtype.Convert.{agtype_value_to_agtype}
use incubator_age.Agtype.Operators.{
  Datum, root_count, root_is_scalar, root_is_object, root_scalar, not_null,
}
use incubator_age.Agtype.Operators.Concat.{not_null_result}

abbrev pub root_is_array : Datum → Bool
root_is_array agt = header_is_array (header agt)

-- NULL, or the datum of the value
abbrev pub to_agtype : Option AgtypeValue → Result (Option Datum)
to_agtype none = ok none
to_agtype (some v) = do d ← agtype_value_to_agtype v; ok (some d)

-- pairs[n].value, which the code reads without a check
pair_value : ℕ → Pairs → Result AgtypeValue
pair_value n end = err fault
pair_value zero (pair k v order ps) = ok v
pair_value (suc n) (pair k v order ps) = pair_value n ps

-- the properties of a vertex or an edge
unfoldable pub properties : AgtypeValue → Result Datum
unfolding pair_value
properties (vertex ps) = do v ← pair_value 2 ps; agtype_value_to_agtype v
properties (edge ps) = do v ← pair_value 4 ps; agtype_value_to_agtype v
properties _ = err must_be_container

-- index, counted from the end where it is negative
abbrev pub from_end : ℕ → ℤ → ℤ
from_end size index = if ltb_ℤ index (pos 0) then pos size +ℤ index else index

-- (index >= size) || (index < 0)
abbrev pub out_of_bounds : ℕ → ℤ → Bool
out_of_bounds size index = not (ltb_ℤ index (pos size)) || ltb_ℤ index (pos 0)

module _ (pg : Postgres) (deserialize : Deserialize) where
  map_access : Datum → AgtypeValue → Result (Option Datum)
  map_access map null = ok none
  map_access map (integer i) = err integer_key
  map_access map (float f) = err float_key
  map_access map (numeric n) = err numeric_key
  map_access map (boolean b) = err boolean_key
  map_access map (string s) = do
    map_value ← find_agtype_value_from_container pg deserialize map false true (string s)
    to_agtype map_value
  map_access map _ = err unknown_scalar_type

  unfoldable pub execute_map_access_operator : Datum → Datum → Result (Option Datum)
  unfolding map_access root_scalar
  execute_map_access_operator map key = do
    key_value ← root_scalar pg deserialize key
    map_access map key_value

  unfoldable pub element_at : Datum → ℤ → Result (Option Datum)
  element_at array index =
      let found = get_ith_agtype_value_from_container pg deserialize array (pos_part index) in
      if out_of_bounds (root_count array) index then ok none else (found >>= to_agtype)

  unfoldable pub array_access : Datum → AgtypeValue → Result (Option Datum)
  unfolding element_at
  array_access array null = ok none
  array_access array (integer i) = element_at array (from_end (root_count array) i)
  array_access array _ = err invalid_index

  unfoldable pub execute_array_access_operator : Datum → Datum → Result (Option Datum)
  unfolding array_access root_scalar
  execute_array_access_operator array element = do
    element_value ← root_scalar pg deserialize element
    array_access array element_value

  -- one round of the loop
  unfoldable pub access_key : Datum → Datum → Result (Option Datum)
  unfolding execute_map_access_operator execute_array_access_operator
  access_key object key =
      if not (root_is_scalar key)
      then err key_must_be_scalar
      else if root_is_object object
      then execute_map_access_operator object key
      else if root_is_array object
      then execute_array_access_operator object key
      else err must_be_container

  -- PG_RETURN_NULL where the round found nothing
  abbrev pub if_found : Option Datum → (Datum → Result (Option Datum)) → Result (Option Datum)
  if_found none rest = ok none
  if_found (some object) rest = rest object

  unfoldable pub access_keys : List (Option Datum) → Datum → Result (Option Datum)
  unfolding access_key
  access_keys [] object = ok (some object)
  access_keys (none ∷ keys) object = ok none
  access_keys (some key ∷ keys) object =
      access_key object key >>= λ found. if_found found (λ o. access_keys keys o)

  -- a scalar object is a vertex or an edge, whose properties are accessed
  unfoldable pub accessed : Datum → Result Datum
  unfolding properties root_scalar
  accessed object =
      let in_scalar = root_scalar pg deserialize object >>= properties in
      if root_is_scalar object then in_scalar else ok object

  unfoldable pub agtype_access_operator : List (Option Datum) → Result (Option Datum)
  unfolding access_keys accessed
  agtype_access_operator [] = ok none
  agtype_access_operator (arg ∷ []) = ok none
  agtype_access_operator (none ∷ key ∷ keys) = err fault
  agtype_access_operator (some object ∷ key ∷ keys) = do
    object' ← accessed object
    access_keys (key ∷ keys) object'

-- an index of a slice, counted from the end where it is negative, and held within the array
unfoldable pub slice_index : ℕ → ℤ → ℤ
slice_index size index =
    let adjusted = from_end size index in
    let raised = if ltb_ℤ adjusted (pos 0) then pos 0 else adjusted in
    if ltb_ℤ (pos size) raised then pos size else raised

-- NULL and the agtype null are no bound
abbrev not_null_bound : AgtypeValue → Option AgtypeValue
not_null_bound null = none
not_null_bound v = some v

-- a bound's integer, or the default
abbrev bound_value : Option AgtypeValue → ℤ → Result ℤ
bound_value none default = ok default
bound_value (some (integer i)) default = ok i
bound_value (some _) default = err invalid_slice_index

abbrev both_none : Option AgtypeValue → Option AgtypeValue → Bool
both_none none none = true
both_none _ _ = false

abbrev or_null : Option AgtypeValue → Visited
or_null none = unset
or_null (some v) = item v

module _ (pg : Postgres) (qsort_arg : QsortArg) (deserialize : Deserialize) where
  unfoldable pub slice_bound : Option Datum → Result (Option AgtypeValue)
  unfolding root_scalar
  slice_bound none = ok none
  slice_bound (some d) = do v ← root_scalar pg deserialize d; ok (not_null_bound v)

  -- for (i = lower_index; i < upper_index; i++), with the rounds that are left
  unfoldable pub slice_loop : ℕ → ℕ → Datum → List ParseState → Result (List ParseState)
  slice_loop zero i array state = ok state
  slice_loop (suc rounds) i array state = do
    v ← get_ith_agtype_value_from_container pg deserialize array i
    (res, state') ← push_agtype_value pg qsort_arg deserialize state elem (or_null v)
    slice_loop rounds (i + 1) array state'

  unfoldable pub slice_array : Datum → ℕ → ℕ → Result (Option Datum)
  unfolding slice_loop
  slice_array array lower upper = do
    (res0, state0) ← push_agtype_value pg qsort_arg deserialize [] begin_array unset
    state ← slice_loop (upper - lower) lower array state0
    (found, state') ← push_agtype_value pg qsort_arg deserialize state end_array unset
    res ← not_null_result found
    d ← agtype_value_to_agtype res
    ok (some d)

  unfoldable pub slice_list : Datum → Option Datum → Option Datum → Result (Option Datum)
  unfolding slice_bound slice_index slice_array
  slice_list array lidx uidx = do
    guard (root_is_array array && not (root_is_scalar array)) slice_of_no_list
    let size = root_count array
    lidx_value ← slice_bound lidx
    uidx_value ← slice_bound uidx
    guard (not (both_none lidx_value uidx_value)) missing_slice_bounds
    lower ← bound_value lidx_value (pos 0)
    upper ← bound_value uidx_value (pos size)
    slice_array array (pos_part (slice_index size lower)) (pos_part (slice_index size upper))

  unfoldable pub agtype_access_slice :
      Option Datum → Option Datum → Option Datum → Result (Option Datum)
  unfolding slice_list
  agtype_access_slice none lidx uidx = ok none
  agtype_access_slice (some array) none none = err missing_slice_bounds
  agtype_access_slice (some array) lidx uidx = slice_list array lidx uidx
