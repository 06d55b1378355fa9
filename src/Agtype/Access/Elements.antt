-- ===== src/Agtype/Access/Elements.antt =====
-- agtype_access_operator on the datum of a list and an integer key.
use incubator_age.Prelude.{
  ℕ, zero, suc, ◌+◌, ◌-◌, ◌^◌, ◌≤◌, ◌<◌, ◌≡◌, refl, ap, sym, ◌∙◌, Bool, true, false, Option, none,
  some, [], ◌∷◌, drop, get_elem?, arith, leb, if◌then◌else◌, Bool-cases, inl, inr,
}
use incubator_age.Prelude.Int.{ℤ, pos, negsuc, ◌+ℤ◌}
use incubator_age.Postgres.{Postgres}
use incubator_age.Result.{Result, ok, err, ◌>>=◌}
use incubator_age.Agtype.{AgtypeValue, integer, array, Elems, nil, cons, num_elems, elem_list}
use incubator_age.Agtype.Entry.{header_is_scalar, header_is_object, header_is_array, container_size}
use incubator_age.Agtype.Sort.{QsortArg}
use incubator_age.Agtype.Container.{header}
use incubator_age.Agtype.Fill.{Deserialize}
use incubator_age.Agtype.Find.{get_ith_agtype_value_from_container}
use incubator_age.Agtype.Convert.{Buffer, convert_to_agtype, agtype_value_to_agtype}
use incubator_age.Agtype.Convert.Appends.{PlainElems}
use incubator_age.Agtype.Convert.Arrays.{
  array_container, array_header, get_ith-convert, header_fields,
}
use incubator_age.Agtype.Convert.Items.{element_conversions}
use incubator_age.Agtype.Convert.Slots.{header_back}
use incubator_age.Agtype.Convert.RoundTrip.{Storable}
use incubator_age.Agtype.Operators.{Datum, root_count, root_is_scalar, root_is_object}
use incubator_age.Agtype.Operators.Datums.{Small, deserialize, written-ScalarDatum}
use incubator_age.Agtype.Access.{
  to_agtype, from_end, out_of_bounds, element_at, array_access, execute_array_access_operator,
  access_key, access_keys, root_is_array, agtype_access_operator, accessed, if_found,
}

-- The element at an index, counted from the end where it is negative.
abbrev pub element : Elems → ℤ → Option AgtypeValue
element es (pos k) = get_elem? (elem_list es) k
element es (negsuc k) =
    if leb (suc k) (num_elems es) then get_elem? (elem_list es) (num_elems es - suc k) else none

abbrev pub StorableOption : Postgres → Option AgtypeValue → Type 0
StorableOption pg none = Unit
StorableOption pg (some v) = Storable pg v

outside : (es : Elems) (k : ℕ) → num_elems es ≤ k → get_elem? (elem_list es) k ≡ none
outside nil k h = refl
outside (cons e es) zero h = absurd (omega arith)
outside (cons e es) (suc k) h = outside es k (omega arith)

-- the datum of an array, raw or not
pub record ArrayDatum (es : Elems) (raw : Bool) (datum : Datum) : Type 0 where
  pub count : root_count datum ≡ num_elems es
  pub kind : root_is_array datum ≡ true
  pub no_object : root_is_object datum ≡ false
  pub scalar : root_is_scalar datum ≡ raw

header_flags :
    (n : ℕ) (raw : Bool)
    → n < 2 ^ 28
    → (header_is_object (n + 2 ^ 30 + (if raw then 2 ^ 28 else 0)) ≡ false)
      × (header_is_scalar (n + 2 ^ 30 + (if raw then 2 ^ 28 else 0)) ≡ raw)
header_flags n true h = (ground arith, ground arith)
header_flags n false h = (ground arith, ground arith)

pub written-ArrayDatum :
    (es : Elems) (raw : Bool) (out : Buffer)
    → PlainElems es
    → num_elems es < 2 ^ 28
    → convert_to_agtype (array es raw) ≡ ok out
    → ArrayDatum es raw (drop 4 out)
written-ArrayDatum es raw out plain small written =
    let c = array_container es raw out plain written in
    let fields = header_fields (num_elems es) raw small in
    let flags = header_flags (num_elems es) raw small in
    let head : header (drop 4 out) ≡ array_header es raw =
      ap header c.bytes
      ∙ header_back (array_header es raw) (element_conversions es) c.position c.slots c.content
          c.laid c.length_slots fields.0 in
    record {
      count = ap container_size head ∙ fields.1;
      kind = ap header_is_array head ∙ fields.2;
      no_object = ap header_is_object head ∙ flags.0;
      scalar = ap header_is_scalar head ∙ flags.1;
    }

from_end-pos : (n k : ℕ) → from_end n (pos k) ≡ pos k
from_end-pos n k = ground arith

bounds-pos : (n k : ℕ) → out_of_bounds n (pos k) ≡ leb n k
bounds-pos n k = ground arith

from_end-negsuc : (n k : ℕ) → leb (suc k) n ≡ true → from_end n (negsuc k) ≡ pos (n - suc k)
unfolding ◌+ℤ◌
from_end-negsuc n k h = ground arith

bounds-negsuc : (n k : ℕ) → leb (suc k) n ≡ false → out_of_bounds n (from_end n (negsuc k)) ≡ true
unfolding ◌+ℤ◌
bounds-negsuc n k h = ground arith

present :
    (es : Elems) (k : ℕ) → leb (num_elems es) k ≡ false → get_elem? (elem_list es) k ≡ none → ⊥
present nil k f e = absurd (ground arith)
present (cons e es) zero f h = cc h
present (cons e es) (suc k) f h = present es k (ground arith) h

element-from_end :
    (es : Elems) (k : ℕ)
    → leb (suc k) (num_elems es) ≡ true
    → element es (negsuc k) ≡ get_elem? (elem_list es) (num_elems es - suc k)
element-from_end es k t = rw t

element-beyond :
    (es : Elems) (k : ℕ) → leb (suc k) (num_elems es) ≡ false → element es (negsuc k) ≡ none
element-beyond es k f = rw f

module _ (pg : Postgres) (qsort_arg : QsortArg) (depth : ℕ) where
  read_inside :
      (datum : Datum) (n j : ℕ) (v : AgtypeValue)
      → root_count datum ≡ n
      → leb n j ≡ false
      → get_ith_agtype_value_from_container pg (deserialize pg qsort_arg depth) datum j
        ≡ ok (some v)
      → element_at pg (deserialize pg qsort_arg depth) datum (pos j) ≡ to_agtype (some v)
  unfolding element_at
  read_inside datum n j v count h found = rw (count, bounds-pos n j, h, found) refl

  read_outside :
      (datum : Datum) (n : ℕ) (index : ℤ)
      → root_count datum ≡ n
      → out_of_bounds n index ≡ true
      → element_at pg (deserialize pg qsort_arg depth) datum index ≡ ok none
  unfolding element_at
  read_outside datum n index count h = rw (count, h) refl

  array_access-integer :
      (datum : Datum) (i index : ℤ)
      → from_end (root_count datum) i ≡ index
      → array_access pg (deserialize pg qsort_arg depth) datum (integer i)
        ≡ element_at pg (deserialize pg qsort_arg depth) datum index
  unfolding array_access
  array_access-integer datum i index e =
      ap (λ x. element_at pg (deserialize pg qsort_arg depth) datum x) e

  module _ (es : Elems) (raw : Bool) (out : Buffer) (plain : PlainElems es)
      (small : num_elems es < 2 ^ 28) (written : convert_to_agtype (array es raw) ≡ ok out) where
    -- an index that is not negative
    element_at-pos :
        (j : ℕ) (found : Option AgtypeValue)
        → get_elem? (elem_list es) j ≡ found
        → StorableOption pg found
        → element_at pg (deserialize pg qsort_arg depth) (drop 4 out) (pos j) ≡ to_agtype found
    element_at-pos j found e st =
        let d = written-ArrayDatum es raw out plain small written in
        elim (Bool-cases (leb (num_elems es) j)) [
          | inl t ↦
              read_outside (drop 4 out) (num_elems es) (pos j) d.count
                (bounds-pos (num_elems es) j ∙ t)
              ∙ ap to_agtype (sym (outside es j (ground arith)) ∙ e)
          | inr f ↦ inside j found f e st
        ]
      where
        inside :
            (j : ℕ) (found : Option AgtypeValue)
            → leb (num_elems es) j ≡ false
            → get_elem? (elem_list es) j ≡ found
            → StorableOption pg found
            → element_at pg (deserialize pg qsort_arg depth) (drop 4 out) (pos j) ≡ to_agtype found
        inside j none f e st = absurd (present es j f e)
        inside j (some v) f e st =
            read_inside (drop 4 out) (num_elems es) j v
              (written-ArrayDatum es raw out plain small written).count f
              (get_ith-convert pg qsort_arg depth es raw out j v plain small e st written)

    array_access-element :
        (i : ℤ) (found : Option AgtypeValue)
        → element es i ≡ found
        → StorableOption pg found
        → array_access pg (deserialize pg qsort_arg depth) (drop 4 out) (integer i)
          ≡ to_agtype found
    array_access-element (pos k) found e st =
        array_access-integer (drop 4 out) (pos k) (pos k) (from_end-pos (root_count (drop 4 out)) k)
        ∙ element_at-pos k found e st
    array_access-element (negsuc k) found e st =
        let count = (written-ArrayDatum es raw out plain small written).count in
        let n = num_elems es in
        let adjusted = ap (λ n. from_end n (negsuc k)) count in
        elim (Bool-cases (leb (suc k) n)) [
          | inl t ↦
              array_access-integer (drop 4 out) (negsuc k) (pos (n - suc k))
                (adjusted ∙ from_end-negsuc n k t)
              ∙ element_at-pos (n - suc k) found (sym (element-from_end es k t) ∙ e) st
          | inr f ↦
              array_access-integer (drop 4 out) (negsuc k) (from_end n (negsuc k)) adjusted
              ∙ read_outside (drop 4 out) n (from_end n (negsuc k)) count (bounds-negsuc n k f)
              ∙ ap to_agtype (sym (element-beyond es k f) ∙ e)
        ]

    pub access_key-element :
        (i : ℤ) (key : Datum) (found : Option AgtypeValue)
        → Small pg (integer i)
        → agtype_value_to_agtype (integer i) ≡ ok key
        → element es i ≡ found
        → StorableOption pg found
        → access_key pg (deserialize pg qsort_arg depth) (drop 4 out) key ≡ to_agtype found
    unfolding access_key execute_array_access_operator
    access_key-element i key found fits k e st =
        let d = written-ArrayDatum es raw out plain small written in
        let x = written-ScalarDatum pg qsort_arg depth (integer i) key fits k in
        rw (x.scalar, d.no_object, d.kind, x.read) (array_access-element i found e st)

-- no key is left
last_key :
    (pg : Postgres) (d : Deserialize) (found : Result (Option Datum))
    → (found >>= λ o. if_found pg d o (λ object. access_keys pg d [] object)) ≡ found
unfolding access_keys
last_key pg d (err e) = refl
last_key pg d (ok none) = refl
last_key pg d (ok (some object)) = refl

-- agtype_access_operator on the datum that convert_to_agtype writes for a list without vertices,
-- edges or paths at any depth, of fewer than 2^28 elements, and on the datum of an integer: the
-- datum of the element at that index, where a negative index counts from the end of the list and
-- -1 is the last one, or NULL where the list has no such element. The element is a null, a Boolean,
-- a string, an int64, a float or a numeric whose length VARSIZE reads.
pub access_list-element :
    (pg : Postgres) (qsort_arg : QsortArg) (depth : ℕ) (es : Elems) (out : Buffer) (i : ℤ)
    (key : Datum) (found : Option AgtypeValue)
    → PlainElems es
    → num_elems es < 2 ^ 28
    → convert_to_agtype (array es false) ≡ ok out
    → Small pg (integer i)
    → agtype_value_to_agtype (integer i) ≡ ok key
    → element es i ≡ found
    → StorableOption pg found
    → agtype_access_operator pg (deserialize pg qsort_arg depth) (some (drop 4 out) ∷ some key ∷ [])
      ≡ to_agtype found
unfolding agtype_access_operator accessed access_keys
access_list-element pg qsort_arg depth es out i key found plain small written fits k e st =
    let d = written-ArrayDatum es false out plain small written in
    rw
      (
        d.scalar,
        access_key-element pg qsort_arg depth es false out plain small written i key found fits k e
            st,
      )
      (last_key pg (deserialize pg qsort_arg depth) (to_agtype found))
