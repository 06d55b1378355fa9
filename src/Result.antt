-- ===== src/Result.antt =====
-- Errors that the code raises by `ereport(ERROR, …)` or `elog(ERROR, …)`, one constructor for each
-- message, and results. `assertion` is the failure of an `Assert`, on which the code does not rely
-- in a production build; `invalid_alloc_size` is the error of palloc and repalloc past
-- MaxAllocSize; `fault` is a dereference of NULL, and `integer_trap` the processor's trap on an
-- integer division without a result.
pub mod Within
use incubator_age.Prelude.{◌≡◌, refl, Bool, true, false}

pub data Error : Type 0 where
  label_id_out_of_range entry_id_out_of_range null_argument : Error
  binary_in_compare not_an_array unexpected_key_type invalid_container_type : Error
  unrecognized_token invalid_iterator_state unknown_container too_many_pairs : Error
  too_many_elems fell_off_container scalar_type_equals scalar_type_compare : Error
  scalars_of_different_type scalar_type_mismatch array_too_large object_too_large : Error
  unknown_type_to_convert scalar_type_convert invalid_header scalar_type_hash : Error
  invalid_operands division_by_zero integer_out_of_range assertion fault out_of_fuel : Error
  must_be_scalar invalid_expression invalid_parameter_types invalid_concatenation : Error
  string_too_long invalid_input_syntax invalid_token invalid_unicode : Error
  invalid_annotation integer_trap wrong_annotation_type : Error
  integer_key float_key numeric_key boolean_key unknown_scalar_type invalid_index : Error
  must_be_container key_must_be_scalar missing_slice_bounds slice_of_no_list : Error
  invalid_slice_index string_values_expected invalid_alloc_size : Error

-- A value, or the error that ended the call.
pub data Result {ℓ} (A : Type ℓ) : Type ℓ where
  err : Error → Result A
  ok : A → Result A

-- A check that raises `raised` where its condition does not hold.
abbrev pub guard : (condition : Bool) (raised : Error) → Result (Unit {0})
guard false raised = err raised
guard true raised = ok tt

infixl 5 ◌>>=◌ ◌>>◌
-- The rest of a body runs on what a call returned.
abbrev pub ◌>>=◌ {ℓ κ} : {X : Type ℓ} {Y : Type κ} → Result X → (X → Result Y) → Result Y
err raised >>= rest = err raised
ok x >>= rest = rest x

abbrev pub ◌>>◌ {κ} : {Y : Type κ} → Result (Unit {0}) → Result Y → Result Y
check >> rest = check >>= λ _. rest

-- A body returned y: its first call returned some x, and the rest returned y on it.
pub >>=-eq-ok {ℓ κ} :
    {X : Type ℓ} {Y : Type κ} (call : Result X) (rest : X → Result Y) {y : Y}
    → (call >>= rest) ≡ ok y
    → (x : X) × (call ≡ ok x) × (rest x ≡ ok y)
>>=-eq-ok (err raised) rest e = cc
>>=-eq-ok (ok x) rest e = (x, refl, e)

pub bind_ext {ℓ κ} :
    {A : Type ℓ} {B : Type κ} (m : Result A) (f g : A → Result B)
    → ((a : A) → f a ≡ g a)
    → (m >>= f) ≡ (m >>= g)
bind_ext (ok a) f g h = h a
bind_ext (err e) f g h = refl

pub guard_ok : (b : Bool) (e : Error) → guard b e ≡ ok tt → b ≡ true
guard_ok true e h = refl
guard_ok false e h = cc

pub ok_injective {ℓ} : {A : Type ℓ} {a b : A} → ok a ≡ ok b → a ≡ b
ok_injective h = cc
