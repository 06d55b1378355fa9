-- ===== src/Agtype/Operators.antt =====
-- The operators of agtype_ops.c on datums, and agtype_btree_cmp of agtype.c. A datum is the bytes
-- behind the varlena header, and a NULL argument is `none`. `fuel` is compare_loop's. The texts in
-- the message of ereport_op_str are left out.
pub mod Scalars
pub mod Integers
pub mod Kinds
pub mod Strings
pub mod Datums
pub mod Comparison
pub mod Concat
pub mod Any
use incubator_age.Prelude.{
  ℕ, Bool, true, false, not, ◌&&◌, ◌||◌, Option, none, some, List, ◌==◌, if◌then◌else◌,
}
use incubator_age.Prelude.Int.{ℤ, pos, negsuc, ltb_ℤ, leb_ℤ, eqb_ℤ}
use incubator_age.Postgres.{Postgres, Arithmetic}
use incubator_age.Result.{Result, ok, err, guard, ◌>>=◌, ◌>>◌, fault, must_be_scalar}
use incubator_age.Agtype.{AgtypeValue}
use incubator_age.Agtype.Entry.{container_size, header_is_scalar, header_is_object}
use incubator_age.Agtype.Container.{header}
use incubator_age.Agtype.Fill.{Deserialize}
use incubator_age.Agtype.Find.{get_ith_agtype_value_from_container}
use incubator_age.Agtype.Compare.{compare_agtype_containers_orderability}
use incubator_age.Agtype.Convert.{agtype_value_to_agtype}
use incubator_age.Agtype.Operators.Scalars.{
  sub_values, neg_value, mul_values, div_values, mod_values, pow_values,
}

abbrev pub Datum : Type 0
Datum = List ℕ

-- AGT_ROOT_COUNT, AGT_ROOT_IS_SCALAR and AGT_ROOT_IS_OBJECT
abbrev pub root_count : Datum → ℕ
root_count agt = container_size (header agt)

abbrev pub root_is_scalar : Datum → Bool
root_is_scalar agt = header_is_scalar (header agt)

abbrev pub root_is_object : Datum → Bool
root_is_object agt = header_is_object (header agt)

-- The code reads the fields of get_ith_agtype_value_from_container's result without a check.
abbrev pub not_null : Option AgtypeValue → Result AgtypeValue
not_null none = err fault
not_null (some v) = ok v

-- the value of a scalar datum
unfoldable pub root_scalar : Postgres → Deserialize → Datum → Result AgtypeValue
root_scalar pg deserialize agt = do
  v ← get_ith_agtype_value_from_container pg deserialize agt 0
  not_null v

module _ (pg : Postgres) (ar : Arithmetic) (deserialize : Deserialize) where
  -- the shape that agtype_sub, agtype_mul, agtype_div, agtype_mod and agtype_pow share
  unfoldable pub on_scalars :
      (AgtypeValue → AgtypeValue → Result AgtypeValue) → Datum → Datum → Result Datum
  unfolding root_scalar
  on_scalars op lhs rhs =
      if not (root_is_scalar lhs) || not (root_is_scalar rhs) then err must_be_scalar else do
        agtv_lhs ← root_scalar pg deserialize lhs
        agtv_rhs ← root_scalar pg deserialize rhs
        agtv_result ← op agtv_lhs agtv_rhs
        agtype_value_to_agtype agtv_result

  unfoldable pub agtype_sub : Datum → Datum → Result Datum
  unfolding on_scalars sub_values
  agtype_sub = on_scalars (sub_values pg ar)

  unfoldable pub agtype_mul : Datum → Datum → Result Datum
  unfolding on_scalars mul_values
  agtype_mul = on_scalars (mul_values pg ar)

  unfoldable pub agtype_div : Datum → Datum → Result Datum
  unfolding on_scalars div_values
  agtype_div = on_scalars (div_values pg ar)

  unfoldable pub agtype_mod : Datum → Datum → Result Datum
  unfolding on_scalars mod_values
  agtype_mod = on_scalars (mod_values pg ar)

  unfoldable pub agtype_pow : Datum → Datum → Result Datum
  unfolding on_scalars pow_values
  agtype_pow = on_scalars (pow_values pg ar)

  unfoldable pub agtype_neg : Datum → Result Datum
  unfolding root_scalar neg_value
  agtype_neg v = if not (root_is_scalar v) then err must_be_scalar else do
    agtv_value ← root_scalar pg deserialize v
    agtv_result ← neg_value pg ar agtv_value
    agtype_value_to_agtype agtv_result

module _ (pg : Postgres) (deserialize : Deserialize) (fuel : ℕ) where
  -- compare_agtype_containers_orderability and a test of its result
  unfoldable pub by_comparison : (ℤ → Bool) → Datum → Datum → Result Bool
  unfolding compare_agtype_containers_orderability
  by_comparison test lhs rhs = do
    cmp ← compare_agtype_containers_orderability pg deserialize fuel lhs rhs
    ok (test cmp)

  unfoldable pub agtype_eq : Datum → Datum → Result Bool
  unfolding by_comparison
  agtype_eq = by_comparison (λ cmp. eqb_ℤ cmp (pos 0))

  unfoldable pub agtype_ne : Datum → Datum → Result Bool
  unfolding by_comparison
  agtype_ne = by_comparison (λ cmp. not (eqb_ℤ cmp (pos 0)))

  unfoldable pub agtype_lt : Datum → Datum → Result Bool
  unfolding by_comparison
  agtype_lt = by_comparison (λ cmp. ltb_ℤ cmp (pos 0))

  unfoldable pub agtype_gt : Datum → Datum → Result Bool
  unfolding by_comparison
  agtype_gt = by_comparison (λ cmp. ltb_ℤ (pos 0) cmp)

  unfoldable pub agtype_le : Datum → Datum → Result Bool
  unfolding by_comparison
  agtype_le = by_comparison (λ cmp. leb_ℤ cmp (pos 0))

  unfoldable pub agtype_ge : Datum → Datum → Result Bool
  unfolding by_comparison
  agtype_ge = by_comparison (λ cmp. leb_ℤ (pos 0) cmp)

  unfoldable pub agtype_btree_cmp : Option Datum → Option Datum → Result ℤ
  unfolding compare_agtype_containers_orderability
  agtype_btree_cmp none none = ok (pos 0)
  agtype_btree_cmp none (some b) = ok (pos 1)
  agtype_btree_cmp (some a) none = ok (negsuc 0)
  agtype_btree_cmp (some a) (some b) =
      compare_agtype_containers_orderability pg deserialize fuel a b

-- The agtype_any_… functions, on what get_one_agtype_from_variadic_args returned for the two
-- arguments.
unfoldable pub any_operator {ℓ} :
    {A : Type ℓ} → (Datum → Datum → Result A) → Option Datum → Option Datum → Result (Option A)
any_operator op (some lhs) (some rhs) = do result ← op lhs rhs; ok (some result)
any_operator op _ _ = ok none
