-- ===== src/Agtype/Contains.antt =====
-- agtype_deep_contains of agtype_util.c: whether one container holds another.
use incubator_age.Prelude.{
  ℕ, zero, suc, Bool, true, false, not, ◌&&◌, Option, none, some, List, [], ◌∷◌, ltb, ◌==◌,
  if◌then◌else◌,
}
use incubator_age.Postgres.{Postgres}
use incubator_age.Result.{Result, ok, err, ◌>>=◌, assertion, fault, out_of_fuel}
use incubator_age.Agtype.{
  AgtypeValue, binary, is_a_agtype_scalar, same_type, Token, key, value, elem, begin_array,
  end_array, begin_object, end_object, token_code,
}
use incubator_age.Agtype.Fill.{Deserialize}
use incubator_age.Agtype.Iterator.{
  Iterator, Visited, array_header, object_header, item, agtype_iterator_init, agtype_iterator_next,
}
use incubator_age.Agtype.Equal.{equals_agtype_scalar_value}
use incubator_age.Agtype.Find.{find_agtype_value_from_container}

-- (*val)->container
container_of : List Iterator → Result (List ℕ)
container_of [] = err fault
container_of (it ∷ parents) = ok it.container

-- the value of an element or a pair, with its token
expect : Token → Token × Visited × List Iterator → Result (AgtypeValue × List Iterator)
expect token (rcont, item v, it) =
    if token_code rcont == token_code token then ok (v, it) else err assertion
expect token (rcont, _, it) = err assertion

module _ (pg : Postgres) (deserialize : Deserialize) where
  -- The comparison of two nested containers: a call of agtype_deep_contains on new iterators.
  abbrev Nested : Type 0
  Nested = List Iterator → List Iterator → Result Bool

  nested_contains : Nested → AgtypeValue → AgtypeValue → Result Bool
  nested_contains nested (binary _ lhs) (binary _ rhs) = do
    nestval ← agtype_iterator_init lhs
    nest_contained ← agtype_iterator_init rhs
    nested nestval nest_contained
  nested_contains nested _ _ = err assertion

  -- a pair's value against the value that the left side has for its key
  value_contained : Nested → AgtypeValue → AgtypeValue → Result Bool
  unfolding nested_contains
  value_contained nested lhs_val vcontained =
      let scalars = equals_agtype_scalar_value pg lhs_val vcontained in
      let containers = nested_contains nested lhs_val vcontained in
      if not (same_type lhs_val vcontained)
      then ok false
      else if is_a_agtype_scalar lhs_val
      then scalars
      else containers

  pair_contained : Nested → Option AgtypeValue → AgtypeValue → Result Bool
  unfolding value_contained
  pair_contained nested none vcontained = ok false
  pair_contained nested (some lhs_val) vcontained = value_contained nested lhs_val vcontained

  -- for (;;) over the right side's pairs; the fuel bounds the rounds
  object_loop : Nested → ℕ → List ℕ → List Iterator → Result Bool
  unfolding pair_contained expect
  object_loop nested zero container m_contained = err out_of_fuel
  object_loop nested (suc fuel) container m_contained = do
    (rcont, v, it) ← agtype_iterator_next pg deserialize m_contained false
    let at_key = (do
      (k, it1) ← expect key (rcont, v, it)
      lhs_val ← find_agtype_value_from_container pg deserialize container false true k
      let not_there : Result Bool = ok false
      let there = (do
        at_value ← agtype_iterator_next pg deserialize it1 true
        (vcontained, it2) ← expect value at_value
        same ← pair_contained nested lhs_val vcontained
        let next = object_loop nested fuel container it2
        if same then next else ok false)
      elim lhs_val [ none ↦ not_there | some _ ↦ there ])
    if token_code rcont == token_code end_object then ok true else at_key

  -- the left side's elements that are containers
  collect_conts : ℕ → List Iterator → Result (List AgtypeValue)
  unfolding expect
  collect_conts zero val = ok []
  collect_conts (suc rounds) val = do
    at_elem ← agtype_iterator_next pg deserialize val true
    (v, val') ← expect elem at_elem
    rest ← collect_conts rounds val'
    ok (elim v [ binary len bytes ↦ binary len bytes ∷ rest | _ ↦ rest ])

  -- some of them contains the right side's element
  any_contains : Nested → List AgtypeValue → AgtypeValue → Result Bool
  unfolding nested_contains
  any_contains nested [] vcontained = ok false
  any_contains nested (lhs ∷ rest) vcontained = do
    contains ← nested_contains nested lhs vcontained
    let others = any_contains nested rest vcontained
    if contains then ok true else others

  -- lhs_conts, filled at the first container of the right side
  conts_of : Option (List AgtypeValue) → ℕ → List Iterator → Result (List AgtypeValue)
  unfolding collect_conts
  conts_of (some conts) num_lhs_elems val = ok conts
  conts_of none num_lhs_elems val = collect_conts num_lhs_elems val

  is_found : Option AgtypeValue → Bool
  is_found none = false
  is_found (some _) = true

  array_loop :
      Nested
      → ℕ
      → ℕ
      → List ℕ
      → List Iterator
      → Option (List AgtypeValue)
      → List Iterator
      → Result Bool
  unfolding any_contains conts_of expect is_found
  array_loop nested zero num_lhs_elems container val lhs_conts m_contained = err out_of_fuel
  array_loop nested (suc fuel) num_lhs_elems container val lhs_conts m_contained = do
    (rcont, v, it) ← agtype_iterator_next pg deserialize m_contained true
    let at_elem = (do
      (vcontained, it1) ← expect elem (rcont, v, it)
      let scalar = (do
        found ← find_agtype_value_from_container pg deserialize container true false vcontained
        let next = array_loop nested fuel num_lhs_elems container val lhs_conts it1
        if is_found found then next else ok false)
      let nested_value = (do
        conts ← conts_of lhs_conts num_lhs_elems val
        contains ← any_contains nested conts vcontained
        let next = array_loop nested fuel num_lhs_elems container val (some conts) it1
        if contains then next else ok false)
      if is_a_agtype_scalar vcontained then scalar else nested_value)
    if token_code rcont == token_code end_array then ok true else at_elem

  -- what the two first tokens have begun
  contains_begun :
      Nested → ℕ → Token × Visited × List Iterator → Token × Visited × List Iterator → Result Bool
  unfolding object_loop array_loop container_of
  contains_begun nested rounds (begin_object, object_header n, val)
        (begin_object, object_header m, m_contained) =
      do
        container ← container_of val
        let pairs = object_loop nested rounds container m_contained
        if ltb n m then ok false else pairs
  contains_begun nested rounds (begin_array, array_header n raw, val)
        (begin_array, array_header m raw', m_contained) =
      do
        container ← container_of val
        let elements = array_loop nested rounds n container val none m_contained
        if raw && not raw' then ok false else elements
  contains_begun nested rounds (begin_object, _, val) (begin_array, _, m_contained) = ok false
  contains_begun nested rounds (begin_array, _, val) (begin_object, _, m_contained) = ok false
  contains_begun nested rounds _ _ = err assertion

  -- `depth` bounds the nesting, `rounds` each loop over the right side.
  unfoldable pub agtype_deep_contains : ℕ → ℕ → List Iterator → List Iterator → Result Bool
  unfolding contains_begun
  agtype_deep_contains zero rounds val m_contained = err out_of_fuel
  agtype_deep_contains (suc depth) rounds val m_contained = do
    lhs ← agtype_iterator_next pg deserialize val false
    rhs ← agtype_iterator_next pg deserialize m_contained false
    contains_begun (agtype_deep_contains depth rounds) rounds lhs rhs
