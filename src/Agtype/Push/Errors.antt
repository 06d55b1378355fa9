-- ===== src/Agtype/Push/Errors.antt =====
-- push_agtype_value_scalar raises no error but the code's own.
use incubator_age.Prelude.{if◌then◌else◌, ◌*◌, ℕ, true, none, some, List, [], ◌∷◌, length, ltb}
use incubator_age.Postgres.{Postgres}
use incubator_age.Result.{too_many_pairs, too_many_elems, invalid_alloc_size, fault}
use incubator_age.Result.Within.{Within, returns, fails, bind-Within, if-Within, check-Within, Any}
use incubator_age.Agtype.{
  AgtypeValue, string, Token, done, key, value, elem, begin_array, end_array, begin_object,
  end_object, is_a_agtype_scalar,
}
use incubator_age.Agtype.Sort.{QsortArg}
use incubator_age.Agtype.Iterator.{Visited, unset, array_header, item}
use incubator_age.Agtype.Push.{
  ParseState, Cont, building_array, building_object, append_key, append_key_to, append_value,
  append_value_to, append_element, append_element_to, append_to_parent, end_container, uniqueified,
  scalar_of, key_of, push_agtype_value_scalar, agtype_max_elems, agtype_max_pairs, grown, regrows,
  allocates, begin_raw,
}

module _ (pg : Postgres) (qsort_arg : QsortArg) where
  key_to-Within : (c : Cont) (size : ℕ) (k : List ℕ) → Within Any (append_key_to pg c size k)
  unfolding append_key_to
  key_to-Within (building_array es raw) size k = fails tt
  key_to-Within (building_object ps k') size k =
      check-Within (ltb (length ps) (agtype_max_pairs pg)) too_many_pairs tt (
        check-Within (regrows pg 72 (length ps) size) invalid_alloc_size tt
          (check-Within (ltb (length ps) (grown (length ps) size)) fault tt (returns tt)))

  value_to-Within : (c : Cont) (size : ℕ) (v : AgtypeValue) → Within Any (append_value_to c size v)
  unfolding append_value_to
  value_to-Within (building_array es raw) size v = fails tt
  value_to-Within (building_object ps none) size v = fails tt
  value_to-Within (building_object ps (some k)) size v =
      check-Within (ltb (length ps) size) fault tt (returns tt)

  element_to-Within :
      (c : Cont) (size : ℕ) (v : AgtypeValue) → Within Any (append_element_to pg c size v)
  unfolding append_element_to
  element_to-Within (building_object ps k) size v = fails tt
  element_to-Within (building_array es raw) size v =
      check-Within (ltb (length es) (agtype_max_elems pg)) too_many_elems tt (
        check-Within (regrows pg 32 (length es) size) invalid_alloc_size tt
          (check-Within (ltb (length es) (grown (length es) size)) fault tt (returns tt)))

  parent-Within :
      (c : Cont) (s : ParseState) (v : AgtypeValue) → Within Any (append_to_parent pg c s v)
  unfolding append_to_parent append_value append_element
  parent-Within (building_array es raw) s v = element_to-Within s.cont_val s.size v
  parent-Within (building_object ps k) s v = value_to-Within s.cont_val s.size v

  end-Within : (v : AgtypeValue) (states : List ParseState) → Within Any (end_container pg v states)
  unfolding end_container
  end-Within v [] = returns tt
  end-Within v (s ∷ rest) = bind-Within (parent-Within s.cont_val s v) (λ s' _. returns tt)

  uniqueified-Within : (c : Cont) → Within Any (uniqueified qsort_arg c)
  unfolding uniqueified
  uniqueified-Within (building_array es raw) = fails tt
  uniqueified-Within (building_object ps k) = returns tt

  scalar_of-Within : (v : Visited) → Within Any (scalar_of v)
  scalar_of-Within (item v) = if-Within (is_a_agtype_scalar v) (λ _. returns tt) (λ _. fails tt)
  scalar_of-Within _ = fails tt

  key_of-Within : (v : Visited) → Within Any (key_of v)
  key_of-Within (item (string k)) = returns tt
  key_of-Within _ = fails tt

  pub push_scalar-Within :
      (states : List ParseState) (tok : Token) (v : Visited)
      → Within Any (push_agtype_value_scalar pg qsort_arg states tok v)
  unfolding push_agtype_value_scalar append_key append_value append_element begin_raw
  push_scalar-Within states begin_array unset = returns tt
  push_scalar-Within states begin_array (array_header n true) =
      check-Within (allocates pg (32 * (if ltb 0 n then n else 4))) invalid_alloc_size tt
        (returns tt)
  push_scalar-Within states begin_array _ = fails tt
  push_scalar-Within states begin_object unset = returns tt
  push_scalar-Within states begin_object _ = fails tt
  push_scalar-Within [] key v = fails tt
  push_scalar-Within (s ∷ rest) key v =
      bind-Within (key_of-Within v)
        (λ k _. bind-Within (key_to-Within s.cont_val s.size k) (λ s' _. returns tt))
  push_scalar-Within [] value v = fails tt
  push_scalar-Within (s ∷ rest) value v =
      bind-Within (scalar_of-Within v)
        (λ x _. bind-Within (value_to-Within s.cont_val s.size x) (λ s' _. returns tt))
  push_scalar-Within [] elem v = fails tt
  push_scalar-Within (s ∷ rest) elem v =
      bind-Within (scalar_of-Within v)
        (λ x _. bind-Within (element_to-Within s.cont_val s.size x) (λ s' _. returns tt))
  push_scalar-Within [] end_object v = fails tt
  push_scalar-Within (s ∷ rest) end_object unset =
      bind-Within (uniqueified-Within s.cont_val) (λ v _. end-Within v rest)
  push_scalar-Within (s ∷ rest) end_object _ = fails tt
  push_scalar-Within [] end_array v = fails tt
  push_scalar-Within (s ∷ rest) end_array unset = end-Within _ rest
  push_scalar-Within (s ∷ rest) end_array _ = fails tt
  push_scalar-Within states done v = fails tt
