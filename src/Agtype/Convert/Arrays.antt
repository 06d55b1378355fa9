-- ===== src/Agtype/Convert/Arrays.antt =====
-- get_ith_agtype_value_from_container on the container that convert_to_agtype writes for an array.
use incubator_age.Prelude.{
  ℕ, zero, suc, ◌+◌, ◌*◌, ◌%◌, ◌^◌, ◌≤◌, ◌<◌, ◌≡◌, refl, ap, sym, ◌∙◌, Bool, true, false, some,
  List, [], ◌++◌, length, drop, replicate, get_elem?, leb, arith, length-append, if◌then◌else◌,
}
use mathlib.Core.Option.{some-injective}
use incubator_age.Postgres.{Postgres}
use incubator_age.Result.{ok, ◌>>=◌, >>=-eq-ok, ok_injective}
use incubator_age.Agtype.{AgtypeValue, array, Elems, nil, cons, num_elems, elem_list}
use incubator_age.Agtype.Entry.{offlenmask, container_size, header_is_array}
use incubator_age.Agtype.Sort.{QsortArg}
use incubator_age.Agtype.Container.{get_agtype_offset, header, data_after}
use incubator_age.Agtype.Fill.{Deserialize, fill_agtype_value}
use incubator_age.Agtype.Find.{get_ith_agtype_value_from_container}
use incubator_age.Agtype.Extended.{ag_deserialize_extended_type}
use incubator_age.Agtype.Convert.{
  Buffer, convert_agtype_value, convert_to_agtype, reserve_from_buffer,
}
use incubator_age.Agtype.Convert.Layout.{length-store_word, Laid}
use incubator_age.Agtype.Convert.Items.{element_conversions, length-conversions}
use incubator_age.Agtype.Convert.Written.{array-Written, prefix}
use incubator_age.Agtype.Convert.Appends.{PlainElems, elems-Append}
use incubator_age.Agtype.Convert.Slots.{
  container_bytes, header_back, data_back, read_at, lt_of_get_elem?,
}
use incubator_age.Agtype.Convert.Total.{weight, convert_value-Succeeds}
use incubator_age.Agtype.Convert.RoundTrip.{Storable, fill-convert}

abbrev pub array_header : Elems → Bool → ℕ
array_header es raw = num_elems es + 2 ^ 30 + (if raw then 2 ^ 28 else 0)

-- the flags do not disturb the count
pub header_fields :
    (n : ℕ) (raw : Bool)
    → n < 2 ^ 28
    → (n + 2 ^ 30 + (if raw then 2 ^ 28 else 0) < 2 ^ 32)
      × (container_size (n + 2 ^ 30 + (if raw then 2 ^ 28 else 0)) ≡ n)
      × (header_is_array (n + 2 ^ 30 + (if raw then 2 ^ 28 else 0)) ≡ true)
header_fields n true h = (omega arith, omega arith, ground arith)
header_fields n false h = (omega arith, omega arith, ground arith)

element_conversions-get_elem? :
    (es : Elems) (i : ℕ) (v : AgtypeValue)
    → get_elem? (elem_list es) i ≡ some v
    → get_elem? (element_conversions es) i ≡ some (convert_agtype_value v)
element_conversions-get_elem? nil i v e = absurd (cc e)
element_conversions-get_elem? (cons x es) zero v e =
    ap (λ x. some (convert_agtype_value x)) (some-injective _ _ e)
element_conversions-get_elem? (cons x es) (suc i) v e = element_conversions-get_elem? es i v e

-- The container that an array's conversion writes.
pub record ArrayContainer (es : Elems) (raw : Bool) (out : Buffer) : Type 0 where
  pub position : ℕ
  pub aligned : position % 4 ≡ 0
  pub slots : List ℕ
  pub content : List ℕ
  pub bytes : drop 4 out ≡ container_bytes (array_header es raw) slots content
  pub length_slots : length slots ≡ 4 * length (element_conversions es)
  pub laid : Laid (element_conversions es) 0 0 position slots content

pub array_container :
    (es : Elems) (raw : Bool) (out : Buffer)
    → PlainElems es
    → convert_to_agtype (array es raw) ≡ ok out
    → ArrayContainer es raw out
unfolding convert_to_agtype reserve_from_buffer
array_container es raw out plain e =
    let b = replicate {A = ℕ} 4 0 in
    let ((entry, out'), written, e1) = >>=-eq-ok (convert_agtype_value (array es raw) b) _ e in
    let w = array-Written es raw b entry out' (elems-Append es plain) written in
    record {
      position =
          length (b ++ prefix 4 (array_header es raw)) + 4 * length (element_conversions es) + 0;
      aligned = omega (
        arith,
        length-append b (prefix 4 (array_header es raw)),
        length-store_word 4 (array_header es raw),
      );
      slots = w.loop.slots;
      content = w.loop.content;
      bytes = ap (λ x. drop 4 x) (sym (ok_injective e1) ∙ w.loop.result);
      length_slots = w.loop.length_slots;
      laid = w.loop.laid;
    }

-- an index inside an array
get_ith_inside :
    (pg : Postgres) (deserialize : Deserialize) (container : List ℕ) (n i : ℕ) (content : List ℕ)
    (v : AgtypeValue)
    → container_size (header container) ≡ n
    → header_is_array (header container) ≡ true
    → leb n i ≡ false
    → data_after n container ≡ content
    → fill_agtype_value pg deserialize container i content (get_agtype_offset container i) ≡ ok v
    → get_ith_agtype_value_from_container pg deserialize container i ≡ ok (some v)
unfolding get_ith_agtype_value_from_container
get_ith_inside pg deserialize container n i content v size kind inside after filled =
    rw (kind, size, inside, after, filled) refl

get_ith-container :
    (pg : Postgres) (qsort_arg : QsortArg) (depth : ℕ) (es : Elems) (raw : Bool) (out : Buffer)
    (i : ℕ) (v : AgtypeValue)
    → num_elems es < 2 ^ 28
    → get_elem? (elem_list es) i ≡ some v
    → Storable pg v
    → (c : ArrayContainer es raw out)
    → get_ith_agtype_value_from_container pg
        (ag_deserialize_extended_type pg qsort_arg (suc depth))
        (container_bytes (array_header es raw) c.slots c.content)
        i
      ≡ ok (some v)
unfolding get_ith_agtype_value_from_container
get_ith-container pg qsort_arg depth es raw out i v small e st c =
    let cs = element_conversions es in
    let h = array_header es raw in
    let fields = header_fields (num_elems es) raw small in
    let container = container_bytes h c.slots c.content in
    let head : header container ≡ h =
      header_back h cs c.position c.slots c.content c.laid c.length_slots fields.0 in
    let after : data_after (length cs) container ≡ c.content =
      data_back h cs c.position c.slots c.content c.laid c.length_slots in
    let r =
      read_at h cs c.position c.slots c.content c.laid c.length_slots i (convert_agtype_value v)
        (element_conversions-get_elem? es i v e) in
    let inside : leb (num_elems es) i ≡ false = ground (
      arith,
      length-conversions es,
      lt_of_get_elem? cs i (convert_agtype_value v) (element_conversions-get_elem? es i v e),
    ) in
    let filled =
      fill-convert pg qsort_arg depth container i c.position _ c.content r.later c.aligned v
        r.before r.bytes r.entry st r.converted r.aligned r.len r.found r.kind in
    get_ith_inside pg (ag_deserialize_extended_type pg qsort_arg (suc depth)) container
      (num_elems es) i c.content v (ap container_size head ∙ fields.1)
      (ap header_is_array head ∙ fields.2) inside
      (ap (λ n. data_after n container) (length-conversions es) ∙ after) filled

-- out of what a successful conversion wrote
pub get_ith-convert :
    (pg : Postgres) (qsort_arg : QsortArg) (depth : ℕ) (es : Elems) (raw : Bool) (out : Buffer)
    (i : ℕ) (v : AgtypeValue)
    → PlainElems es
    → num_elems es < 2 ^ 28
    → get_elem? (elem_list es) i ≡ some v
    → Storable pg v
    → convert_to_agtype (array es raw) ≡ ok out
    → get_ith_agtype_value_from_container pg
        (ag_deserialize_extended_type pg qsort_arg (suc depth))
        (drop 4 out)
        i
      ≡ ok (some v)
get_ith-convert pg qsort_arg depth es raw out i v plain small e st written =
    let c = array_container es raw out plain written in
    ap
      (λ x.
        get_ith_agtype_value_from_container pg
          (ag_deserialize_extended_type pg qsort_arg (suc depth)) x i)
      c.bytes
    ∙ get_ith-container pg qsort_arg depth es raw out i v small e st c

-- An array without vertices, edges or paths at any depth, of at most 2^28 - 1 bytes when each
-- padding is counted as three: convert_to_agtype succeeds, and from the container behind the
-- varlena header that it wrote, get_ith_agtype_value_from_container reads the i-th element, for
-- each i where the array holds a null, a Boolean, a string, a 64-bit integer, a float, or a
-- numeric whose length VARSIZE reads. The qsort_arg and the depth given for nested values do not
-- matter.
pub array_round_trip :
    (pg : Postgres) (qsort_arg : QsortArg) (depth : ℕ) (es : Elems) (raw : Bool) (i : ℕ)
    (v : AgtypeValue)
    → PlainElems es
    → weight (array es raw) ≤ offlenmask
    → get_elem? (elem_list es) i ≡ some v
    → Storable pg v
    → (out : Buffer) × (convert_to_agtype (array es raw) ≡ ok out)
      × (get_ith_agtype_value_from_container pg
            (ag_deserialize_extended_type pg qsort_arg (suc depth))
            (drop 4 out)
            i
          ≡ ok (some v))
unfolding convert_to_agtype reserve_from_buffer
array_round_trip pg qsort_arg depth es raw i v plain small e st =
    let b = (reserve_from_buffer [] 4).0 in
    let r = convert_value-Succeeds (array es raw) b plain small in
    let written : convert_to_agtype (array es raw) ≡ ok r.result =
      ap (λ m. m >>= λ x. ok x.1) {x = convert_agtype_value (array es raw) b} r.returns in
    (
      r.result,
      written,
      get_ith-convert pg qsort_arg depth es raw r.result i v plain (omega arith) e st written,
    )
