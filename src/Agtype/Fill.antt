-- ===== src/Agtype/Fill.antt =====
-- fill_agtype_value of agtype_util.c: the value of one node of a container.
use incubator_age.Prelude.{
  ℕ, ◌+◌, ◌-◌, ◌%◌, ◌^◌, true, false, List, drop, take, ◌==◌, if◌then◌else◌,
}
use incubator_age.Postgres.{Postgres}
use incubator_age.Result.{Result, ok, err, assertion}
use incubator_age.Agtype.{AgtypeValue, null, string, numeric, boolean, binary}
use incubator_age.Agtype.Entry.{
  type_bits, is_string, is_numeric, is_bool_false, is_bool_true, is_null, is_container, is_agtype,
}
use incubator_age.Agtype.Container.{child, get_agtype_length, intalign}

-- ag_deserialize_extended_type(base_addr, offset, result), which calls back into this module.
abbrev pub Deserialize : Type 0
Deserialize = List ℕ → ℕ → Result AgtypeValue

-- `base_addr` is the container's data.
unfoldable pub fill_agtype_value :
    Postgres → Deserialize → List ℕ → ℕ → List ℕ → ℕ → Result AgtypeValue
fill_agtype_value pg deserialize container index base_addr offset =
    let entry = type_bits (child container index) in
    let len = get_agtype_length container index in
    let aligned = drop (intalign offset) base_addr in
    if entry == is_null
    then ok null
    else if entry == is_string
    then ok (string (take len (drop offset base_addr)))
    else if entry == is_numeric
    then ok (numeric (take (pg.varsize aligned) aligned))
    else if entry == is_agtype
    then deserialize base_addr offset
    else if entry == is_bool_true
    then ok (boolean true)
    else if entry == is_bool_false
    then ok (boolean false)
    else if entry == is_container
    then ok (binary ((len + 2 ^ 32 - (intalign offset - offset)) % 2 ^ 32) aligned)
    else err assertion
