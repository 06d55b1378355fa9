-- ===== src/Agtype/Iterator.antt =====
-- agtype_iterator of agtype.h, and agtype_iterator_init, iterator_from_container,
-- free_and_get_parent and agtype_iterator_next of agtype_util.c. The chain of parents is a list,
-- the iterator at work first; NULL is the empty list.
use incubator_age.Prelude.{
  ℕ, ◌+◌, ◌*◌, Bool, true, false, not, ◌&&◌, ◌||◌, List, [], ◌∷◌, leb, ◌==◌, if◌then◌else◌,
}
use incubator_age.Postgres.{Postgres}
use incubator_age.Result.{
  Result, ok, err, guard, ◌>>=◌, ◌>>◌, assertion, unknown_container, unexpected_key_type,
}
use incubator_age.Agtype.{
  AgtypeValue, string, binary, Token, done, key, value, elem, begin_array, end_array, begin_object,
  end_object, is_a_agtype_scalar,
}
use incubator_age.Agtype.Entry.{
  advance_offset, container_size, header_is_scalar, header_is_object, header_is_array,
}
use incubator_age.Agtype.Container.{header, child, data_after, get_agtype_offset}
use incubator_age.Agtype.Fill.{Deserialize, fill_agtype_value}

-- agt_iterator_state
pub data IteratorState : Type 0 where
  array_start array_elem object_start object_key object_value : IteratorState

-- struct agtype_iterator; `children` is container->children.
pub record Iterator : Type 0 where
  pub container : List ℕ
  pub num_elems : ℕ
  pub is_scalar : Bool
  pub data_proper : List ℕ
  pub curr_index : ℕ
  pub curr_data_offset : ℕ
  pub curr_value_offset : ℕ
  pub state : IteratorState

-- What *val holds after a call: nothing new, the kind and size of a container that begins, or a
-- key, value or element.
pub data Visited : Type 0 where
  unset : Visited
  array_header : ℕ → Bool → Visited
  object_header : ℕ → Visited
  item : AgtypeValue → Visited

unfoldable pub iterator_from_container : List ℕ → Result Iterator
iterator_from_container container =
    let h = header container in
    let n = container_size h in
    let array_iterator : Iterator = record {
      container = container;
      num_elems = n;
      is_scalar = header_is_scalar h;
      data_proper = data_after n container;
      curr_index = 0;
      curr_data_offset = 0;
      curr_value_offset = 0;
      state = array_start;
    } in
    let object_iterator : Iterator = record {
      container = container;
      num_elems = n;
      is_scalar = false;
      data_proper = data_after (n * 2) container;
      curr_index = 0;
      curr_data_offset = 0;
      curr_value_offset = 0;
      state = object_start;
    } in
    if header_is_array h && not (header_is_object h)
    then (if not (header_is_scalar h) || n == 1 then ok array_iterator else err assertion)
    else if header_is_object h && not (header_is_array h)
    then ok object_iterator
    else err unknown_container

unfoldable pub agtype_iterator_init : List ℕ → Result (List Iterator)
unfolding iterator_from_container
agtype_iterator_init container = do it ← iterator_from_container container; ok (it ∷ [])

abbrev pub Next : Type 0
Next = Token × Visited × List Iterator

-- The AGTI_ARRAY_START and AGTI_OBJECT_START cases.
unfoldable pub begin_array_state : Iterator → List Iterator → Next
begin_array_state it parents = (
  begin_array,
  array_header it.num_elems it.is_scalar,
  record it { curr_index = 0; curr_data_offset = 0; curr_value_offset = 0; state = array_elem }
      ∷ parents,
)

unfoldable pub begin_object_state : Iterator → List Iterator → Next
begin_object_state it parents = (
  begin_object,
  object_header it.num_elems,
  record it {
    curr_index = 0;
    curr_data_offset = 0;
    curr_value_offset = get_agtype_offset it.container it.num_elems;
    state = object_key;
  }
      ∷ parents,
)

-- A container that was just entered is in one of those two states.
begin_state : IteratorState → Iterator → List Iterator → Next
begin_state object_start it parents = begin_object_state it parents
begin_state _ it parents = begin_array_state it parents

-- `goto recurse` into a nested container
unfoldable pub enter : AgtypeValue → List Iterator → Result Next
unfolding iterator_from_container begin_state begin_array_state begin_object_state
enter (binary _ container) parents = do
  it ← iterator_from_container container
  ok (begin_state it.state it parents)
enter _ parents = err assertion

-- an element or value: entered, or reported with the given token
unfoldable pub report_or_enter : Bool → Token → AgtypeValue → List Iterator → Result Next
unfolding enter
report_or_enter skip_nested token v its =
    let entered = enter v its in
    if not (is_a_agtype_scalar v) && not skip_nested then entered else ok (token, item v, its)

is_string_value : AgtypeValue → Bool
is_string_value (string _) = true
is_string_value _ = false

next_in_state :
    Postgres → Deserialize → Bool → IteratorState → Iterator → List Iterator → Result Next
unfolding begin_array_state begin_object_state report_or_enter is_string_value
next_in_state pg deserialize skip_nested array_start it parents = ok (begin_array_state it parents)
next_in_state pg deserialize skip_nested array_elem it parents =
    if leb it.num_elems it.curr_index then ok (end_array, unset, parents) else do
      v ←
          fill_agtype_value pg deserialize it.container it.curr_index it.data_proper
            it.curr_data_offset
      report_or_enter skip_nested elem v (
          record it {
            curr_data_offset =
                advance_offset it.curr_data_offset (child it.container it.curr_index);
            curr_index = it.curr_index + 1;
          }
          ∷ parents)
next_in_state pg deserialize skip_nested object_start it parents =
    ok (begin_object_state it parents)
next_in_state pg deserialize skip_nested object_key it parents =
    if leb it.num_elems it.curr_index then ok (end_object, unset, parents) else do
      v ←
          fill_agtype_value pg deserialize it.container it.curr_index it.data_proper
            it.curr_data_offset
      guard (is_string_value v) unexpected_key_type
      ok (key, item v, record it { state = object_value } ∷ parents)
next_in_state pg deserialize skip_nested object_value it parents = do
  let at_value = it.curr_index + it.num_elems
  v ← fill_agtype_value pg deserialize it.container at_value it.data_proper it.curr_value_offset
  report_or_enter skip_nested value v (
      record it {
        state = object_key;
        curr_data_offset = advance_offset it.curr_data_offset (child it.container it.curr_index);
        curr_value_offset = advance_offset it.curr_value_offset (child it.container at_value);
        curr_index = it.curr_index + 1;
      }
      ∷ parents)

-- The token, what *val holds, and the iterator that the caller gets back.
unfoldable pub agtype_iterator_next : Postgres → Deserialize → List Iterator → Bool → Result Next
unfolding next_in_state
agtype_iterator_next pg deserialize [] skip_nested = ok (done, unset, [])
agtype_iterator_next pg deserialize (it ∷ parents) skip_nested =
    next_in_state pg deserialize skip_nested it.state it parents
