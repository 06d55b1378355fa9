-- ===== src/Agtype/Access/Scalars.antt =====
-- agtype_access_operator on scalars, where it has no container.
use incubator_age.Prelude.{
  ℕ, ◌^◌, ◌<◌, ◌≡◌, refl, ap, sym, ◌∙◌, true, false, some, [], ◌∷◌, drop, arith, Option, List,
}
use incubator_age.Prelude.Int.{ℤ, pos}
use incubator_age.Postgres.{Postgres}
use incubator_age.Result.{ok, err, >>=-eq-ok, ok_injective, must_be_container}
use incubator_age.Agtype.{
  AgtypeValue, integer, array, Elems, nil, cons, null, string, numeric, float, boolean, num_elems,
}
use incubator_age.Agtype.Sort.{QsortArg}
use incubator_age.Agtype.Convert.{Buffer, convert_to_agtype, agtype_value_to_agtype}
use incubator_age.Agtype.Convert.Appends.{PlainElems}
use incubator_age.Agtype.Convert.RoundTrip.{Storable}
use incubator_age.Agtype.Operators.{Datum}
use incubator_age.Agtype.Operators.Datums.{
  Small, deserialize, written-ScalarDatum, scalar_to_agtype,
}
use incubator_age.Agtype.Access.{
  to_agtype, access_key, access_keys, agtype_access_operator, accessed, properties,
}
use incubator_age.Agtype.Access.Elements.{element, written-ArrayDatum, access_key-element}

scalar_properties :
    (pg : Postgres) (v : AgtypeValue) → Storable pg v → properties v ≡ err must_be_container
unfolding properties
scalar_properties pg null st = refl
scalar_properties pg (boolean b) st = refl
scalar_properties pg (string s) st = refl
scalar_properties pg (numeric n) st = refl
scalar_properties pg (integer i) st = refl
scalar_properties pg (float f) st = refl
scalar_properties pg _ st = absurd st

-- the index 0 in the datum of a scalar
in_scalar :
    (pg : Postgres) (qsort_arg : QsortArg) (depth : ℕ) (v : AgtypeValue) (scalar first : Datum)
    → Small pg v
    → Small pg (integer (pos 0))
    → agtype_value_to_agtype v ≡ ok scalar
    → agtype_value_to_agtype (integer (pos 0)) ≡ ok first
    → access_key pg (deserialize pg qsort_arg depth) scalar first ≡ ok (some scalar)
in_scalar pg qsort_arg depth v scalar first v_fits fits s z =
    let raw = array (cons v nil) true in
    let w = sym (scalar_to_agtype pg v v_fits.storable) ∙ s in
    let (out, written, last) = >>=-eq-ok (convert_to_agtype raw) (λ out. ok (drop 4 out)) w in
    let is : drop 4 out ≡ scalar = ok_injective last in
    let to_scalar : to_agtype (some v) ≡ ok (some scalar) = rw s refl in
    ap (λ d. access_key pg (deserialize pg qsort_arg depth) d first) (sym is)
    ∙ access_key-element pg qsort_arg depth (cons v nil) true out (v_fits.plain, tt) (omega arith)
        written (pos 0) first (some v) fits z refl v_fits.storable
    ∙ to_scalar

-- What agtype_access_operator does with a scalar: as the first argument, a null, a Boolean, a
-- string, an int64, a float or a numeric raises "container must be an array or object", whatever
-- the keys and however many, NULL ones included; but where such a scalar is what a key found in a list, the index 0 as the next key gives
-- the scalar itself.
pub scalar_as_list :
    (pg : Postgres) (qsort_arg : QsortArg) (depth : ℕ) (es : Elems) (out : Buffer) (i : ℤ)
    (key first scalar : Datum) (v : AgtypeValue) (any : Option Datum) (others : List (Option Datum))
    → PlainElems es
    → num_elems es < 2 ^ 28
    → convert_to_agtype (array es false) ≡ ok out
    → Small pg (integer i)
    → agtype_value_to_agtype (integer i) ≡ ok key
    → Small pg (integer (pos 0))
    → agtype_value_to_agtype (integer (pos 0)) ≡ ok first
    → element es i ≡ some v
    → Small pg v
    → agtype_value_to_agtype v ≡ ok scalar
    → (agtype_access_operator pg (deserialize pg qsort_arg depth) (some scalar ∷ any ∷ others)
        ≡ err must_be_container)
      × (agtype_access_operator pg
            (deserialize pg qsort_arg depth)
            (some (drop 4 out) ∷ some key ∷ some first ∷ [])
          ≡ ok (some scalar))
unfolding agtype_access_operator accessed access_keys
scalar_as_list pg qsort_arg depth es out i key first scalar v any others plain small written fits k
      zero_fits z e v_fits s =
    let d = written-ArrayDatum es false out plain small written in
    let x = written-ScalarDatum pg qsort_arg depth v scalar v_fits s in
    let found =
      access_key-element pg qsort_arg depth es false out plain small written i key (some v) fits k e
        v_fits.storable in
    let to_scalar : to_agtype (some v) ≡ ok (some scalar) = rw s refl in
    (
      rw (x.scalar, x.read, scalar_properties pg v v_fits.storable) refl,
      rw
          (
            d.scalar,
            found,
            to_scalar,
            in_scalar pg qsort_arg depth v scalar first v_fits zero_fits s z,
          )
          refl,
    )
