-- ===== src/Agtype/Find.antt =====
-- find_agtype_value_from_container and get_ith_agtype_value_from_container of agtype_util.c.
pub mod Search
use incubator_age.Prelude.{
  ℕ, zero, suc, ◌+◌, ◌-◌, ◌*◌, ◌/◌, Bool, true, false, not, ◌&&◌, Option, none, some, List, take,
  drop, ltb, leb, ◌==◌, if◌then◌else◌,
}
use incubator_age.Prelude.Int.{ℤ, pos, ltb_ℤ, eqb_ℤ}
use incubator_age.Postgres.{Postgres}
use incubator_age.Result.{Result, ok, err, ◌>>=◌, assertion, not_an_array, out_of_fuel}
use incubator_age.Agtype.{AgtypeValue, string, same_type}
use incubator_age.Agtype.Text.{length_compare_agtype_string_value}
use incubator_age.Agtype.Entry.{advance_offset, container_size, header_is_object, header_is_array}
use incubator_age.Agtype.Container.{header, child, data_after, get_agtype_offset, get_agtype_length}
use incubator_age.Agtype.Fill.{Deserialize, fill_agtype_value}
use incubator_age.Agtype.Equal.{equals_agtype_scalar_value}

-- while (stop_low < stop_high), over the keys by index; `none` where the key is not found. The
-- fuel bounds the rounds.
unfoldable pub search_loop : (ℕ → List ℕ) → List ℕ → ℕ → ℕ → ℕ → Result (Option ℕ)
search_loop key_at key zero stop_low stop_high = err out_of_fuel
search_loop key_at key (suc fuel) stop_low stop_high =
    let stop_middle = stop_low + (stop_high - stop_low) / 2 in
    let difference = length_compare_agtype_string_value (key_at stop_middle) key in
    let above = search_loop key_at key fuel (stop_middle + 1) stop_high in
    let below = search_loop key_at key fuel stop_low stop_middle in
    if ltb stop_low stop_high
    then (if eqb_ℤ difference (pos 0)
        then ok (some stop_middle)
        else if ltb_ℤ difference (pos 0)
        then above
        else below)
    else ok none

-- The key of pair i, in place.
unfoldable pub key_in_place : List ℕ → List ℕ → ℕ → List ℕ
key_in_place container base_addr i =
    take (get_agtype_length container i) (drop (get_agtype_offset container i) base_addr)

module _ (pg : Postgres) (deserialize : Deserialize) (container : List ℕ) where
  -- whether an element is the key: the types are compared first
  matches : AgtypeValue → AgtypeValue → Result Bool
  matches key result =
      let equal = equals_agtype_scalar_value pg key result in
      if same_type key result then equal else ok false

  -- for (i = 0; i < count; i++), with the rounds that are left
  find_in_array : AgtypeValue → List ℕ → ℕ → ℕ → ℕ → Result (Option AgtypeValue)
  unfolding matches
  find_in_array key base_addr zero i offset = ok none
  find_in_array key base_addr (suc rounds) i offset = do
    result ← fill_agtype_value pg deserialize container i base_addr offset
    found ← matches key result
    let rest =
        find_in_array key base_addr rounds (i + 1) (advance_offset offset (child container i))
    if found then ok (some result) else rest

  -- the value of the pair that was found
  value_at : List ℕ → ℕ → Option ℕ → Result (Option AgtypeValue)
  value_at base_addr count none = ok none
  value_at base_addr count (some stop_middle) = do
    let index = stop_middle + count
    result ←
        fill_agtype_value pg deserialize container index base_addr
          (get_agtype_offset container index)
    ok (some result)

  find_in_object : AgtypeValue → ℕ → Result (Option AgtypeValue)
  unfolding search_loop key_in_place value_at
  find_in_object (string key) count = do
    let base_addr = data_after (count * 2) container
    at ← search_loop (key_in_place container base_addr) key (count + 1) 0 count
    value_at base_addr count at
  find_in_object _ count = err assertion

  -- flags & AGT_FARRAY and flags & AGT_FOBJECT are the two booleans.
  unfoldable pub find_agtype_value_from_container :
      Bool → Bool → AgtypeValue → Result (Option AgtypeValue)
  unfolding find_in_array find_in_object
  find_agtype_value_from_container want_array want_object key =
      let count = container_size (header container) in
      if count == 0
      then ok none
      else if want_array && header_is_array (header container)
      then find_in_array key (data_after count container) count 0 0
      else if want_object && header_is_object (header container)
      then find_in_object key count
      else ok none

  unfoldable pub get_ith_agtype_value_from_container : ℕ → Result (Option AgtypeValue)
  get_ith_agtype_value_from_container i =
      let nelements = container_size (header container) in
      let base_addr = data_after nelements container in
      if not (header_is_array (header container))
      then err not_an_array
      else if leb nelements i
      then ok none
      else do
        result ←
            fill_agtype_value pg deserialize container i base_addr (get_agtype_offset container i)
        ok (some result)
