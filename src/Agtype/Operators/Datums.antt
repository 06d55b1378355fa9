-- ===== src/Agtype/Operators/Datums.antt =====
-- The operators of agtype_ops.c on the datums that agtype_value_to_agtype writes for two scalars.
use incubator_age.Agtype.Convert.Items.{element_conversions}
use incubator_age.Agtype.Fill.{Deserialize}
use incubator_age.Prelude.{ℕ, ◌+◌, ◌≤◌, ◌≡◌, refl, ap, sym, ◌∙◌, true, drop, arith, suc}
use incubator_age.Postgres.{Postgres, Arithmetic}
use incubator_age.Result.{Result, ok, ◌>>=◌, >>=-eq-ok, ok_injective}
use incubator_age.Agtype.{
  AgtypeValue, null, string, numeric, integer, float, boolean, array, nil, cons,
}
use incubator_age.Agtype.Entry.{offlenmask, header_is_scalar}
use incubator_age.Agtype.Sort.{QsortArg}
use incubator_age.Agtype.Container.{header}
use incubator_age.Agtype.Extended.{ag_deserialize_extended_type}
use incubator_age.Agtype.Convert.{convert_to_agtype, agtype_value_to_agtype}
use incubator_age.Agtype.Convert.Appends.{Plain}
use incubator_age.Agtype.Convert.Arrays.{array_container, array_header, get_ith-convert}
use incubator_age.Agtype.Convert.Slots.{header_back}
use incubator_age.Agtype.Convert.Total.{weight}
use incubator_age.Agtype.Convert.RoundTrip.{Storable}
use incubator_age.Agtype.Operators.Scalars.{
  add_values, sub_values, neg_value, mul_values, div_values, mod_values, pow_values,
}
use incubator_age.Agtype.Operators.Concat.{agtype_add}
use incubator_age.Agtype.Operators.{
  Datum, root_is_scalar, root_scalar, not_null, on_scalars, agtype_sub, agtype_neg, agtype_mul,
  agtype_div, agtype_mod, agtype_pow,
}

-- A null, a Boolean, a string, an int64, a float or a numeric that fits a datum.
pub record Small (pg : Postgres) (v : AgtypeValue) : Type 0 where
  pub plain : Plain v
  pub storable : Storable pg v
  pub weight : weight v + 11 ≤ offlenmask

pub scalar_to_agtype :
    (pg : Postgres) (v : AgtypeValue)
    → Storable pg v
    → agtype_value_to_agtype v
      ≡ (convert_to_agtype (array (cons v nil) true) >>= λ out. ok (drop 4 out))
unfolding agtype_value_to_agtype
scalar_to_agtype pg null h = refl
scalar_to_agtype pg (boolean x) h = refl
scalar_to_agtype pg (string x) h = refl
scalar_to_agtype pg (numeric x) h = refl
scalar_to_agtype pg (integer x) h = refl
scalar_to_agtype pg (float x) h = refl
scalar_to_agtype pg _ h = absurd h

module _ (pg : Postgres) (qsort_arg : QsortArg) (depth : ℕ) where
  abbrev pub deserialize : Deserialize
  deserialize = ag_deserialize_extended_type pg qsort_arg (suc depth)

  -- a scalar's datum, and what the operators read from it
  pub record ScalarDatum (v : AgtypeValue) (datum : Datum) : Type 0 where
    pub scalar : root_is_scalar datum ≡ true
    pub read : root_scalar pg deserialize datum ≡ ok v

  pub written-ScalarDatum :
      (v : AgtypeValue) (datum : Datum)
      → Small pg v
      → agtype_value_to_agtype v ≡ ok datum
      → ScalarDatum v datum
  unfolding root_scalar
  written-ScalarDatum v datum small e =
      let raw = array (cons v nil) true in
      let w : (convert_to_agtype raw >>= λ out. ok (drop 4 out)) ≡ ok datum =
        sym (scalar_to_agtype pg v small.storable) ∙ e in
      let (out, written, last) = >>=-eq-ok (convert_to_agtype raw) (λ out. ok (drop 4 out)) w in
      let is : drop 4 out ≡ datum = ok_injective last in
      let c = array_container (cons v nil) true out (small.plain, tt) written in
      let head : header (drop 4 out) ≡ array_header (cons v nil) true =
        ap header c.bytes
        ∙ header_back (array_header (cons v nil) true) (element_conversions (cons v nil)) c.position
            c.slots c.content c.laid c.length_slots (omega arith) in
      let found =
        get_ith-convert pg qsort_arg depth (cons v nil) true out 0 v (small.plain, tt) (omega arith)
          refl small.storable written in
      record {
        scalar = ap root_is_scalar (sym is) ∙ ap header_is_scalar head;
        read = ap (λ d. root_scalar pg deserialize d) (sym is) ∙ ap (λ m. m >>= not_null) found;
      }

module _ (pg : Postgres) (ar : Arithmetic) (qsort_arg : QsortArg) (depth : ℕ) where
  on_scalars-op :
      (op : AgtypeValue → AgtypeValue → Result AgtypeValue) {a b : AgtypeValue} {da db : Datum}
      → ScalarDatum pg qsort_arg depth a da
      → ScalarDatum pg qsort_arg depth b db
      → on_scalars pg ar (deserialize pg qsort_arg depth) op da db
        ≡ (op a b >>= agtype_value_to_agtype)
  unfolding on_scalars
  on_scalars-op op x y = rw (x.scalar, y.scalar, x.read, y.read) refl

  add-op :
      {a b : AgtypeValue} {da db : Datum}
      → ScalarDatum pg qsort_arg depth a da
      → ScalarDatum pg qsort_arg depth b db
      → agtype_add pg qsort_arg (deserialize pg qsort_arg depth) ar da db
        ≡ (add_values pg ar a b >>= agtype_value_to_agtype)
  unfolding agtype_add
  add-op x y = rw (x.scalar, y.scalar, x.read, y.read) refl

  neg-op :
      {a : AgtypeValue} {da : Datum}
      → ScalarDatum pg qsort_arg depth a da
      → agtype_neg pg ar (deserialize pg qsort_arg depth) da
        ≡ (neg_value pg ar a >>= agtype_value_to_agtype)
  unfolding agtype_neg
  neg-op x = rw (x.scalar, x.read) refl

-- On the datums of two scalars (a null, a Boolean, a string, an int64, a float or a numeric, each
-- of which fits a datum) every arithmetic operator is the operation on the two values, followed by
-- agtype_value_to_agtype of its result; an error of either is the operator's.
pub operators_on_datums :
    (pg : Postgres) (ar : Arithmetic) (qsort_arg : QsortArg) (depth : ℕ) (a b : AgtypeValue)
    (da db : Datum)
    → Small pg a
    → Small pg b
    → agtype_value_to_agtype a ≡ ok da
    → agtype_value_to_agtype b ≡ ok db
    → (agtype_add pg qsort_arg (deserialize pg qsort_arg depth) ar da db
        ≡ (add_values pg ar a b >>= agtype_value_to_agtype))
      × (agtype_sub pg ar (deserialize pg qsort_arg depth) da db
          ≡ (sub_values pg ar a b >>= agtype_value_to_agtype))
      × (agtype_mul pg ar (deserialize pg qsort_arg depth) da db
          ≡ (mul_values pg ar a b >>= agtype_value_to_agtype))
      × (agtype_div pg ar (deserialize pg qsort_arg depth) da db
          ≡ (div_values pg ar a b >>= agtype_value_to_agtype))
      × (agtype_mod pg ar (deserialize pg qsort_arg depth) da db
          ≡ (mod_values pg ar a b >>= agtype_value_to_agtype))
      × (agtype_pow pg ar (deserialize pg qsort_arg depth) da db
          ≡ (pow_values pg ar a b >>= agtype_value_to_agtype))
      × (agtype_neg pg ar (deserialize pg qsort_arg depth) da
          ≡ (neg_value pg ar a >>= agtype_value_to_agtype))
unfolding agtype_sub agtype_mul agtype_div agtype_mod agtype_pow
operators_on_datums pg ar qsort_arg depth a b da db sa sb ea eb =
    let x = written-ScalarDatum pg qsort_arg depth a da sa ea in
    let y = written-ScalarDatum pg qsort_arg depth b db sb eb in
    (
      add-op pg ar qsort_arg depth x y,
      on_scalars-op pg ar qsort_arg depth (sub_values pg ar) x y,
      on_scalars-op pg ar qsort_arg depth (mul_values pg ar) x y,
      on_scalars-op pg ar qsort_arg depth (div_values pg ar) x y,
      on_scalars-op pg ar qsort_arg depth (mod_values pg ar) x y,
      on_scalars-op pg ar qsort_arg depth (pow_values pg ar) x y,
      neg-op pg ar qsort_arg depth x,
    )
