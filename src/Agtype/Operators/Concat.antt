-- ===== src/Agtype/Operators/Concat.antt =====
-- agtype_concat, iterator_concat and agtype_add of agtype_ops.c. The loops over an iterator run on
-- fuel: a container of n entries gives at most 2 * n tokens, the end token and `done`.
use incubator_age.Prelude.{
  ℕ, zero, suc, ◌+◌, ◌*◌, Bool, true, false, not, ◌&&◌, ◌||◌, Option, none, some, List, [], ◌∷◌,
  ◌==◌, if◌then◌else◌,
}
use incubator_age.Postgres.{Postgres, Arithmetic}
use incubator_age.Result.{
  Result, ok, err, guard, ◌>>=◌, ◌>>◌, assertion, out_of_fuel, invalid_expression,
  invalid_concatenation,
}
use incubator_age.Agtype.{
  AgtypeValue, Token, done, elem, begin_array, end_array, begin_object, end_object, token_code,
}
use incubator_age.Agtype.Sort.{QsortArg}
use incubator_age.Agtype.Fill.{Deserialize}
use incubator_age.Agtype.Iterator.{
  Iterator, Visited, unset, agtype_iterator_init, agtype_iterator_next,
}
use incubator_age.Agtype.Push.{ParseState, Pushed, push_agtype_value}
use incubator_age.Agtype.Convert.{agtype_value_to_agtype}
use incubator_age.Agtype.Operators.Scalars.{add_values}
use incubator_age.Agtype.Operators.{Datum, root_count, root_is_scalar, root_is_object, root_scalar}

abbrev pub same_token : Token → Token → Bool
same_token a b = token_code a == token_code b

-- (*it)->is_scalar
abbrev first_is_scalar : List Iterator → Bool
first_is_scalar [] = false
first_is_scalar (it ∷ _) = it.is_scalar

-- r != stop ? &v : NULL
abbrev unless_end : Token → Token → Visited → Visited
unless_end stop r v = if same_token r stop then unset else v

-- Assert(res != NULL)
abbrev pub not_null_result : Option AgtypeValue → Result AgtypeValue
not_null_result none = err assertion
not_null_result (some res) = ok res

module _ (pg : Postgres) (qsort_arg : QsortArg) (deserialize : Deserialize) where
  -- while ((r = agtype_iterator_next(it, &v, true)) != stop) push_agtype_value(state, r, &v);
  -- in the loops over two arrays with Assert(r == WAGT_ELEM)
  unfoldable pub append_until :
      Bool → Token → ℕ → List Iterator → List ParseState → Result (List ParseState)
  append_until only_elems stop zero it state = err out_of_fuel
  append_until only_elems stop (suc fuel) it state = do
    (r, v, it') ← agtype_iterator_next pg deserialize it true
    let continue = (do
      guard (not only_elems || same_token r elem) assertion
      (res, state') ← push_agtype_value pg qsort_arg deserialize state r v
      append_until only_elems stop fuel it' state')
    if same_token r stop then ok state else continue

  -- while ((r = agtype_iterator_next(it, &v, true)) != 0)
  --     res = push_agtype_value(state, r, r != stop ? &v : NULL);
  unfoldable pub append_all :
      Token → ℕ → List Iterator → Option AgtypeValue → List ParseState → Result Pushed
  append_all stop zero it res state = err out_of_fuel
  append_all stop (suc fuel) it res state = do
    (r, v, it') ← agtype_iterator_next pg deserialize it true
    let continue = (do
      (res', state') ← push_agtype_value pg qsort_arg deserialize state r (unless_end stop r v)
      append_all stop fuel it' res' state')
    if same_token r done then ok (res, state) else continue

  begin : Token → List ParseState → Result (List ParseState)
  begin r state = do
    (res, state') ← push_agtype_value pg qsort_arg deserialize state r unset
    ok state'

  concat_objects : ℕ → ℕ → List Iterator → List Iterator → Result (Option AgtypeValue)
  unfolding append_until append_all begin
  concat_objects fuel1 fuel2 it1 it2 = do
    state ← begin begin_object []
    state1 ← append_until false end_object fuel1 it1 state
    (res, state2) ← append_all end_object fuel2 it2 none state1
    ok res

  unfoldable pub concat_arrays : ℕ → ℕ → List Iterator → List Iterator → Result (Option AgtypeValue)
  unfolding append_until begin
  concat_arrays fuel1 fuel2 it1 it2 = do
    state ← begin begin_array []
    state1 ← append_until true end_array fuel1 it1 state
    state2 ← append_until true end_array fuel2 it2 state1
    (res, state3) ← push_agtype_value pg qsort_arg deserialize state2 end_array unset
    ok res

  -- an object before an array's elements, and behind them
  prepend_object : ℕ → ℕ → List Iterator → List Iterator → Result (Option AgtypeValue)
  unfolding append_all begin
  prepend_object fuel1 fuel2 it_object it_array = do
    state ← begin begin_array []
    state1 ← begin begin_object state
    (r1, state2) ← append_all end_object fuel1 it_object none state1
    (res, state3) ← append_all end_array fuel2 it_array none state2
    ok res

  append_object : ℕ → ℕ → List Iterator → List Iterator → Result (Option AgtypeValue)
  unfolding append_until append_all begin
  append_object fuel1 fuel2 it_array it_object = do
    state ← begin begin_array []
    state1 ← append_until false end_array fuel1 it_array state
    state2 ← begin begin_object state1
    (r2, state3) ← append_all end_object fuel2 it_object none state2
    (res, state4) ← push_agtype_value pg qsort_arg deserialize state3 end_array unset
    ok res

  unfoldable pub iterator_concat :
      ℕ → ℕ → List Iterator → List Iterator → Result (Option AgtypeValue)
  unfolding concat_objects concat_arrays prepend_object append_object
  iterator_concat fuel1 fuel2 it1 it2 = do
    (rk1, v1, it1') ← agtype_iterator_next pg deserialize it1 false
    (rk2, v2, it2') ← agtype_iterator_next pg deserialize it2 false
    if same_token rk1 begin_object && same_token rk2 begin_object
        then concat_objects fuel1 fuel2 it1' it2'
        else if same_token rk1 begin_array && same_token rk2 begin_array
        then concat_arrays fuel1 fuel2 it1' it2'
        else if same_token rk1 begin_array
            && not (first_is_scalar it1')
            && same_token rk2 begin_object
        then append_object fuel1 fuel2 it1' it2'
        else if same_token rk1 begin_object
            && same_token rk2 begin_array
            && not (first_is_scalar it2')
        then prepend_object fuel1 fuel2 it1' it2'
        else err invalid_concatenation

  unfoldable pub concat_fuel : Datum → ℕ
  concat_fuel agt = 2 * root_count agt + 2

  -- past the test for an empty container
  concat_iterators : Datum → Datum → Result Datum
  unfolding iterator_concat concat_fuel
  concat_iterators agt1 agt2 = do
    it1 ← agtype_iterator_init agt1
    it2 ← agtype_iterator_init agt2
    found ← iterator_concat (concat_fuel agt1) (concat_fuel agt2) it1 it2
    res ← not_null_result found
    agtype_value_to_agtype res

  same_kind : Datum → Datum → Bool
  same_kind agt1 agt2 =
      if root_is_object agt1 then root_is_object agt2 else not (root_is_object agt2)

  unfoldable pub agtype_concat : Datum → Datum → Result Datum
  unfolding concat_iterators same_kind
  agtype_concat agt1 agt2 =
      if same_kind agt1 agt2 && (root_count agt1 == 0) && not (root_is_scalar agt2)
      then ok agt2
      else if same_kind agt1 agt2 && (root_count agt2 == 0) && not (root_is_scalar agt1)
      then ok agt1
      else concat_iterators agt1 agt2

  add_containers : Datum → Datum → Result Datum
  unfolding agtype_concat
  add_containers lhs rhs =
      if (root_is_scalar lhs && root_is_object rhs)
        || (root_is_object lhs && root_is_scalar rhs)
        || (root_is_object lhs && root_is_object rhs)
      then err invalid_expression
      else agtype_concat lhs rhs

  unfoldable pub agtype_add : Arithmetic → Datum → Datum → Result Datum
  unfolding add_containers root_scalar add_values
  agtype_add ar lhs rhs =
      if not (root_is_scalar lhs && root_is_scalar rhs) then add_containers lhs rhs else do
        agtv_lhs ← root_scalar pg deserialize lhs
        agtv_rhs ← root_scalar pg deserialize rhs
        agtv_result ← add_values pg ar agtv_lhs agtv_rhs
        agtype_value_to_agtype agtv_result
