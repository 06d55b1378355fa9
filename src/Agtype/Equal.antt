-- ===== src/Agtype/Equal.antt =====
-- equals_agtype_scalar_value of agtype_util.c.
use incubator_age.Prelude.{Bool, true, false, not, if◌then◌else◌}
use incubator_age.Prelude.Int.{ℤ, pos, eqb_ℤ}
use incubator_age.Postgres.{Postgres}
use incubator_age.Result.{
  Result, ok, err, ◌>>=◌, fault, scalar_type_equals, scalars_of_different_type,
}
use incubator_age.Agtype.{
  AgtypeValue, null, string, numeric, integer, float, boolean, vertex, Pairs, end, pair, same_type,
}
use incubator_age.Agtype.Text.{length_compare_agtype_string_value}
use incubator_age.Agtype.Number.{float_eq}

-- value.val.int_value; of a value that is no integer it is the garbage of another union member.
unfoldable pub int_value : AgtypeValue → Result ℤ
int_value (integer i) = ok i
int_value _ = err fault

-- val.object.pairs[0].value.val.int_value
unfoldable pub first_int : Pairs → Result ℤ
unfolding int_value
first_int end = err fault
first_int (pair k v o ps) = int_value v

abbrev eqb : Bool → Bool → Bool
eqb true b = b
eqb false b = not b

unfoldable pub equals_agtype_scalar_value : Postgres → AgtypeValue → AgtypeValue → Result Bool
unfolding first_int
equals_agtype_scalar_value pg null null = ok true
equals_agtype_scalar_value pg (string a) (string b) =
    ok (eqb_ℤ (length_compare_agtype_string_value a b) (pos 0))
equals_agtype_scalar_value pg (numeric a) (numeric b) = ok (pg.numeric_eq a b)
equals_agtype_scalar_value pg (boolean a) (boolean b) = ok (eqb a b)
equals_agtype_scalar_value pg (integer a) (integer b) = ok (eqb_ℤ a b)
equals_agtype_scalar_value pg (float a) (float b) = ok (float_eq a b)
equals_agtype_scalar_value pg (vertex a) (vertex b) = do
  a_graphid ← first_int a
  b_graphid ← first_int b
  ok (eqb_ℤ a_graphid b_graphid)
equals_agtype_scalar_value pg a b =
    if same_type a b then err scalar_type_equals else err scalars_of_different_type
