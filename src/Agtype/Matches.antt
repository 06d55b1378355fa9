-- ===== src/Agtype/Matches.antt =====
-- STARTS WITH, ENDS WITH and CONTAINS: agtype_string_match_starts_with,
-- agtype_string_match_ends_with and agtype_string_match_contains of agtype.c.
pub mod Laws
use incubator_age.Prelude.{ℕ, ◌-◌, Bool, true, false, ◌&&◌, List, length, drop, ltb, if◌then◌else◌}
use incubator_age.Postgres.{Postgres, CStrings}
use incubator_age.Result.{Result, err, ◌>>=◌, string_values_expected}
use incubator_age.Agtype.{AgtypeValue, string, boolean}
use incubator_age.Agtype.Fill.{Deserialize}
use incubator_age.Agtype.Convert.{agtype_value_to_agtype}
use incubator_age.Agtype.Operators.{Datum, root_is_scalar, root_scalar}

-- a longer string does not match
abbrev pub fits_and : (List ℕ → List ℕ → Bool) → List ℕ → List ℕ → Bool
fits_and test l r = if ltb (length l) (length r) then false else test l r

match_values : (List ℕ → List ℕ → Bool) → AgtypeValue → AgtypeValue → Result Datum
match_values test (string l) (string r) = agtype_value_to_agtype (boolean (fits_and test l r))
match_values test _ _ = err string_values_expected

module _ (pg : Postgres) (deserialize : Deserialize) where
  -- the shape that the three functions share
  unfoldable pub string_match : (List ℕ → List ℕ → Bool) → Datum → Datum → Result Datum
  unfolding match_values root_scalar
  string_match test lhs rhs =
      let matched = root_scalar pg deserialize lhs >>= λ lhs_value.
      root_scalar pg deserialize rhs >>= λ rhs_value. match_values test lhs_value rhs_value in
      if root_is_scalar lhs && root_is_scalar rhs then matched else err string_values_expected

abbrev pub starts_test : CStrings → List ℕ → List ℕ → Bool
starts_test c l r = c.same_start l r (length r)

abbrev pub ends_test : CStrings → List ℕ → List ℕ → Bool
ends_test c l r = c.same_start (drop (length l - length r) l) r (length r)

module _ (pg : Postgres) (deserialize : Deserialize) (c : CStrings) where
  unfoldable pub agtype_string_match_starts_with : Datum → Datum → Result Datum
  unfolding string_match
  agtype_string_match_starts_with = string_match pg deserialize (starts_test c)

  unfoldable pub agtype_string_match_ends_with : Datum → Datum → Result Datum
  unfolding string_match
  agtype_string_match_ends_with = string_match pg deserialize (ends_test c)

  unfoldable pub agtype_string_match_contains : Datum → Datum → Result Datum
  unfolding string_match
  agtype_string_match_contains = string_match pg deserialize c.found_in
