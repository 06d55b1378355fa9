-- ===== src/Agtype/Push.antt =====
-- agtype_parse_state of agtype.h, and push_agtype_value, push_agtype_value_scalar, push_state,
-- append_key, append_value and append_element of agtype_util.c. The stack of states is a list,
-- innermost first. The arrays grow by appending; `size` is how many entries are allocated, and a
-- write at or past it is a fault. `last_updated_value`, a pointer that only casts read, is left out.
pub mod Tokens
pub mod Appends
pub mod Build
pub mod Errors
use incubator_age.Prelude.{
  ℕ, ◌+◌, ◌*◌, ◌/◌, Bool, true, false, Option, none, some, List, [], ◌∷◌, ◌++◌, ltb, leb, length,
  if◌then◌else◌,
}
use Prim.Native.Nat.{min}
use incubator_age.Postgres.{Postgres}
use incubator_age.Result.{
  Result, ok, err, guard, ◌>>=◌, ◌>>◌, assertion, fault, too_many_pairs, too_many_elems,
  invalid_alloc_size, unrecognized_token, out_of_fuel,
}
use incubator_age.Agtype.{
  AgtypeValue, string, array, object, binary, Token, done, key, value, elem, begin_array, end_array,
  begin_object, end_object, is_a_agtype_scalar, Pair, pairs_of, elems_of,
}
use incubator_age.Agtype.Entry.{offlenmask}
use incubator_age.Agtype.Sort.{QsortArg, uniqueify_pairs}
use incubator_age.Agtype.Fill.{Deserialize}
use incubator_age.Agtype.Iterator.{
  Iterator, Visited, unset, array_header, item, agtype_iterator_init, agtype_iterator_next,
}

-- AGTYPE_MAX_ELEMS and AGTYPE_MAX_PAIRS: an agtype_value takes 32 bytes and an agtype_pair 72.
abbrev pub agtype_max_elems : Postgres → ℕ
agtype_max_elems pg = min (pg.max_alloc_size / 32) offlenmask

abbrev pub agtype_max_pairs : Postgres → ℕ
agtype_max_pairs pg = min (pg.max_alloc_size / 72) offlenmask

-- cont_val: an array's elements, or an object's pairs and the key that append_key has stored
-- behind them.
pub data Cont : Type 0 where
  building_array : List AgtypeValue → Bool → Cont
  building_object : List Pair → Option (List ℕ) → Cont

pub record ParseState : Type 0 where
  pub cont_val : Cont
  pub size : ℕ

-- The container that cont_val holds so far.
abbrev pub cont_value : Cont → AgtypeValue
cont_value (building_array es raw) = array (elems_of es) raw
cont_value (building_object ps _) = object (pairs_of ps)

abbrev pub grown : ℕ → ℕ → ℕ
grown count size = if leb size count then size * 2 else size

-- Whether palloc and repalloc give so many bytes: no more than MaxAllocSize.
abbrev pub allocates : Postgres → ℕ → Bool
allocates pg bytes = leb bytes pg.max_alloc_size

-- Whether repalloc of the doubled entries, where they are full, succeeds.
abbrev pub regrows : Postgres → ℕ → ℕ → ℕ → Bool
regrows pg width count size = if leb size count then allocates pg (width * (size * 2)) else true

-- The three appends, on the state's two fields.
append_key_to : Postgres → Cont → ℕ → List ℕ → Result ParseState
append_key_to pg (building_array _ _) size k = err assertion
append_key_to pg (building_object ps _) size k = do
  guard (ltb (length ps) (agtype_max_pairs pg)) too_many_pairs
  guard (regrows pg 72 (length ps) size) invalid_alloc_size
  let size' = grown (length ps) size
  guard (ltb (length ps) size') fault
  ok (record { cont_val = building_object ps (some k); size = size' })

unfoldable pub append_key : Postgres → ParseState → List ℕ → Result ParseState
unfolding append_key_to
append_key pg pstate k = append_key_to pg pstate.cont_val pstate.size k

-- The key of the new pair is what append_key stored there; without one it is garbage.
append_value_to : Cont → ℕ → AgtypeValue → Result ParseState
append_value_to (building_array _ _) size v = err assertion
append_value_to (building_object ps none) size v = err fault
append_value_to (building_object ps (some k)) size v = do
  guard (ltb (length ps) size) fault
  let p : Pair = record { key = k; value = v; order = length ps }
  ok (record { cont_val = building_object (ps ++ p ∷ []) none; size = size })

unfoldable pub append_value : ParseState → AgtypeValue → Result ParseState
unfolding append_value_to
append_value pstate v = append_value_to pstate.cont_val pstate.size v

append_element_to : Postgres → Cont → ℕ → AgtypeValue → Result ParseState
append_element_to pg (building_object _ _) size v = err assertion
append_element_to pg (building_array es raw) size v = do
  guard (ltb (length es) (agtype_max_elems pg)) too_many_elems
  guard (regrows pg 32 (length es) size) invalid_alloc_size
  let size' = grown (length es) size
  guard (ltb (length es) size') fault
  ok (record { cont_val = building_array (es ++ v ∷ []) raw; size = size' })

unfoldable pub append_element : Postgres → ParseState → AgtypeValue → Result ParseState
unfolding append_element_to
append_element pg pstate v = append_element_to pg pstate.cont_val pstate.size v

-- The result, NULL where there is none, and *pstate.
abbrev pub Pushed : Type 0
Pushed = Option AgtypeValue × List ParseState

unfoldable pub push_state : ParseState → List ParseState → List ParseState
push_state ns pstate = ns ∷ pstate

-- begin an array, raw or not, with room for `size` elements
begin_array_push : ℕ → Bool → List ParseState → Pushed
unfolding push_state
begin_array_push size raw pstate = (
  some (cont_value (building_array [] raw)),
  push_state (record { cont_val = building_array [] raw; size = size }) pstate,
)

-- a raw array takes its size from its header
begin_raw : Postgres → ℕ → List ParseState → Result Pushed
unfolding begin_array_push
begin_raw pg size pstate = do
  guard (allocates pg (32 * size)) invalid_alloc_size
  ok (begin_array_push size true pstate)

-- the popped container goes into its parent, as an element or as a value
append_to_parent : Postgres → Cont → ParseState → AgtypeValue → Result ParseState
unfolding append_element append_value
append_to_parent pg (building_array _ _) parent v = append_element pg parent v
append_to_parent pg (building_object _ _) parent v = append_value parent v

unfoldable pub end_container : Postgres → AgtypeValue → List ParseState → Result Pushed
unfolding append_to_parent
end_container pg result [] = ok (some result, [])
end_container pg result (parent ∷ rest) = do
  parent' ← append_to_parent pg parent.cont_val parent result
  ok (some result, parent' ∷ rest)

uniqueified : QsortArg → Cont → Result AgtypeValue
uniqueified qsort_arg (building_array _ _) = err assertion
uniqueified qsort_arg (building_object ps _) = ok (object (pairs_of (uniqueify_pairs qsort_arg ps)))

abbrev scalar_of : Visited → Result AgtypeValue
scalar_of (item v) = if is_a_agtype_scalar v then ok v else err assertion
scalar_of _ = err assertion

abbrev key_of : Visited → Result (List ℕ)
key_of (item (string k)) = ok k
key_of _ = err assertion

unfoldable pub push_agtype_value_scalar :
    Postgres → QsortArg → List ParseState → Token → Visited → Result Pushed
unfolding append_key append_value append_element begin_array_push begin_raw push_state end_container
    uniqueified
push_agtype_value_scalar pg qsort_arg pstate begin_array unset =
    ok (begin_array_push 4 false pstate)
push_agtype_value_scalar pg qsort_arg pstate begin_array (array_header n true) =
    begin_raw pg (if ltb 0 n then n else 4) pstate
push_agtype_value_scalar pg qsort_arg pstate begin_array _ = err assertion
push_agtype_value_scalar pg qsort_arg pstate begin_object unset = ok (
  some (cont_value (building_object [] none)),
  push_state (record { cont_val = building_object [] none; size = 4 }) pstate,
)
push_agtype_value_scalar pg qsort_arg pstate begin_object _ = err assertion
push_agtype_value_scalar pg qsort_arg [] key v = err fault
push_agtype_value_scalar pg qsort_arg (s ∷ rest) key v = do
  k ← key_of v
  s' ← append_key pg s k
  ok (none, s' ∷ rest)
push_agtype_value_scalar pg qsort_arg [] value v = err fault
push_agtype_value_scalar pg qsort_arg (s ∷ rest) value v = do
  x ← scalar_of v
  s' ← append_value s x
  ok (none, s' ∷ rest)
push_agtype_value_scalar pg qsort_arg [] elem v = err fault
push_agtype_value_scalar pg qsort_arg (s ∷ rest) elem v = do
  x ← scalar_of v
  s' ← append_element pg s x
  ok (none, s' ∷ rest)
push_agtype_value_scalar pg qsort_arg [] end_object v = err fault
push_agtype_value_scalar pg qsort_arg (s ∷ rest) end_object unset = do
  result ← uniqueified qsort_arg s.cont_val
  end_container pg result rest
push_agtype_value_scalar pg qsort_arg (s ∷ rest) end_object _ = err assertion
push_agtype_value_scalar pg qsort_arg [] end_array v = err fault
push_agtype_value_scalar pg qsort_arg (s ∷ rest) end_array unset =
    end_container pg (cont_value s.cont_val) rest
push_agtype_value_scalar pg qsort_arg (s ∷ rest) end_array _ = err assertion
push_agtype_value_scalar pg qsort_arg pstate done v = err unrecognized_token

-- tok < WAGT_BEGIN_ARRAY ? &v : NULL
abbrev pub pushed_value : Token → Visited → Visited
pushed_value done v = v
pushed_value key v = v
pushed_value value v = v
pushed_value elem v = v
pushed_value _ v = unset

module _ (pg : Postgres) (qsort_arg : QsortArg) (deserialize : Deserialize) where
  -- The loop that unpacks a binary, with the last result; `fuel` bounds its rounds.
  unpack_loop : ℕ → List Iterator → Option AgtypeValue → List ParseState → Result Pushed
  unpack_loop ℕ.zero it res pstate = err out_of_fuel
  unpack_loop (ℕ.suc fuel) it res pstate = do
    (tok, v, it') ← agtype_iterator_next pg deserialize it false
    let continue = (do
      (res', pstate') ← push_agtype_value_scalar pg qsort_arg pstate tok (pushed_value tok v)
      unpack_loop fuel it' res' pstate')
    elim tok [ done ↦ ok (res, pstate) | _ ↦ continue ]

  -- Fuel: every node of the container takes at least four of its bytes.
  unpack : List ℕ → List ParseState → Result Pushed
  unfolding unpack_loop
  unpack container pstate = do
    it ← agtype_iterator_init container
    unpack_loop (2 * length container + 2) it none pstate

  unfoldable pub push_agtype_value : List ParseState → Token → Visited → Result Pushed
  unfolding unpack
  push_agtype_value pstate elem (item (binary len container)) = unpack container pstate
  push_agtype_value pstate value (item (binary len container)) = unpack container pstate
  push_agtype_value pstate seq agtval = push_agtype_value_scalar pg qsort_arg pstate seq agtval
