-- ===== src/Agtype/Operators/Any.antt =====
-- The agtype_any_… functions of agtype_ops.c: an operator, or NULL where
-- get_one_agtype_from_variadic_args returned NULL for one of the two arguments.
use incubator_age.Prelude.{ℕ, Bool, Option}
use incubator_age.Postgres.{Postgres, Arithmetic}
use incubator_age.Result.{Result}
use incubator_age.Agtype.Sort.{QsortArg}
use incubator_age.Agtype.Fill.{Deserialize}
use incubator_age.Agtype.Operators.Concat.{agtype_add}
use incubator_age.Agtype.Operators.{
  Datum, any_operator, agtype_sub, agtype_mul, agtype_div, agtype_mod, agtype_eq, agtype_ne,
  agtype_lt, agtype_gt, agtype_le, agtype_ge,
}

module _ (pg : Postgres) (qsort_arg : QsortArg) (deserialize : Deserialize) (ar : Arithmetic) where
  unfoldable pub agtype_any_add : Option Datum → Option Datum → Result (Option Datum)
  unfolding any_operator agtype_add
  agtype_any_add = any_operator (agtype_add pg qsort_arg deserialize ar)

  unfoldable pub agtype_any_sub : Option Datum → Option Datum → Result (Option Datum)
  unfolding any_operator agtype_sub
  agtype_any_sub = any_operator (agtype_sub pg ar deserialize)

  unfoldable pub agtype_any_mul : Option Datum → Option Datum → Result (Option Datum)
  unfolding any_operator agtype_mul
  agtype_any_mul = any_operator (agtype_mul pg ar deserialize)

  unfoldable pub agtype_any_div : Option Datum → Option Datum → Result (Option Datum)
  unfolding any_operator agtype_div
  agtype_any_div = any_operator (agtype_div pg ar deserialize)

  unfoldable pub agtype_any_mod : Option Datum → Option Datum → Result (Option Datum)
  unfolding any_operator agtype_mod
  agtype_any_mod = any_operator (agtype_mod pg ar deserialize)

module _ (pg : Postgres) (deserialize : Deserialize) (fuel : ℕ) where
  unfoldable pub agtype_any_eq : Option Datum → Option Datum → Result (Option Bool)
  unfolding any_operator agtype_eq
  agtype_any_eq = any_operator (agtype_eq pg deserialize fuel)

  unfoldable pub agtype_any_ne : Option Datum → Option Datum → Result (Option Bool)
  unfolding any_operator agtype_ne
  agtype_any_ne = any_operator (agtype_ne pg deserialize fuel)

  unfoldable pub agtype_any_lt : Option Datum → Option Datum → Result (Option Bool)
  unfolding any_operator agtype_lt
  agtype_any_lt = any_operator (agtype_lt pg deserialize fuel)

  unfoldable pub agtype_any_gt : Option Datum → Option Datum → Result (Option Bool)
  unfolding any_operator agtype_gt
  agtype_any_gt = any_operator (agtype_gt pg deserialize fuel)

  unfoldable pub agtype_any_le : Option Datum → Option Datum → Result (Option Bool)
  unfolding any_operator agtype_le
  agtype_any_le = any_operator (agtype_le pg deserialize fuel)

  unfoldable pub agtype_any_ge : Option Datum → Option Datum → Result (Option Bool)
  unfolding any_operator agtype_ge
  agtype_any_ge = any_operator (agtype_ge pg deserialize fuel)
