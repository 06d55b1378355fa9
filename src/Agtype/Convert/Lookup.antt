-- ===== src/Agtype/Convert/Lookup.antt =====
-- find_agtype_value_from_container on the container that convert_to_agtype writes for an object.
use incubator_age.Prelude.{
  ℕ, suc, ◌+◌, ◌*◌, ◌^◌, ◌≤◌, ◌<◌, ◌≡◌, refl, ap, sym, ◌∙◌, true, false, Option, none, some, List,
  [], length, drop, get_elem?, take-append_length, arith, ◌==◌,
}
use native.Mathlib.Decide.{dec_lt}
use incubator_age.Postgres.{Postgres}
use incubator_age.Result.{ok, ◌>>=◌}
use incubator_age.Agtype.{AgtypeValue, string, object, Pairs, Pair, num_pairs, pair_list}
use incubator_age.Agtype.Entry.{offlenmask, container_size, header_is_object}
use incubator_age.Agtype.Text.Order.{Before-ne}
use incubator_age.Agtype.Sort.{QsortArg}
use incubator_age.Agtype.Sort.Unique.{Ascending}
use incubator_age.Agtype.Container.{get_agtype_offset, header, data_after}
use incubator_age.Agtype.Fill.{Deserialize, fill_agtype_value}
use incubator_age.Agtype.Find.{find_agtype_value_from_container, search_loop, key_in_place}
use incubator_age.Agtype.Find.Search.{AscendingKeys, Located, search_loop_finds}
use incubator_age.Agtype.Extended.{ag_deserialize_extended_type}
use incubator_age.Agtype.Convert.{
  Buffer, convert_agtype_value, convert_string, convert_to_agtype, reserve_from_buffer,
}
use incubator_age.Agtype.Convert.Items.{
  key_conversions, value_conversions, length-key_conversions, length-object_conversions,
}
use incubator_age.Agtype.Convert.Appends.{PlainPairs, convert_string-eq}
use incubator_age.Agtype.Convert.Slots.{container_bytes, header_back, data_back, read_at}
use incubator_age.Agtype.Convert.Total.{weight, convert_value-Succeeds}
use incubator_age.Agtype.Convert.RoundTrip.{Storable, fill-convert, same}
use incubator_age.Agtype.Convert.Objects.{
  conversions, ObjectContainer, object_container, key_at, value_at, pair_of_lt, lt_of_pair,
  Ascending-Before, get_elem?-append, get_elem?-append_length,
}

object_fields :
    (n : ℕ)
    → n < 2 ^ 28
    → (n + 2 ^ 29 < 2 ^ 32)
      × (container_size (n + 2 ^ 29) ≡ n)
      × (header_is_object (n + 2 ^ 29) ≡ true)
object_fields n h = (omega arith, omega arith, ground arith)

-- a key that the search finds at an index
find_at :
    (pg : Postgres) (deserialize : Deserialize) (container : List ℕ) (n m : ℕ)
    (content key : List ℕ) (v : AgtypeValue)
    → container_size (header container) ≡ n
    → header_is_object (header container) ≡ true
    → (n == 0) ≡ false
    → data_after (n * 2) container ≡ content
    → search_loop (key_in_place container content) key (n + 1) 0 n ≡ ok (some m)
    → fill_agtype_value pg deserialize container
        (m + n)
        content
        (get_agtype_offset container (m + n))
      ≡ ok v
    → find_agtype_value_from_container pg deserialize container false true (string key)
      ≡ ok (some v)
unfolding find_agtype_value_from_container
find_at pg deserialize container n m content key v size object_flag some_pairs after found filled =
    rw (object_flag, size, some_pairs, after, found, filled) refl

-- ascending keys are distinct
one_index :
    (keys : ℕ → List ℕ) (n m i : ℕ) → AscendingKeys keys n → m < n → i < n → keys m ≡ keys i → m ≡ i
one_index keys n m i a h k e = elim (dec_lt m i) [
  | yes l ↦ absurd (Before-ne _ _ (a.before m i l k) e)
  | no g ↦ elim (dec_lt i m) [
    | yes l ↦ absurd (Before-ne _ _ (a.before i m l h) (sym e))
    | no f ↦ omega arith
  ]
]

module _ (ps : Pairs) (out : Buffer) (c : ObjectContainer ps out) (small : num_pairs ps < 2 ^ 28)
    (asc : Ascending (pair_list ps)) where
  abbrev container : List ℕ
  container = container_bytes (num_pairs ps + 2 ^ 29) c.slots c.content

  -- the key of pair i, read in place
  key_back :
      (i : ℕ) (p : Pair)
      → get_elem? (pair_list ps) i ≡ some p
      → key_in_place container c.content i ≡ p.key
  unfolding key_in_place
  key_back i p e =
      let r =
        read_at (num_pairs ps + 2 ^ 29) (conversions ps) c.position c.slots c.content c.laid
          c.length_slots i (λ b. ok (convert_string b p.key))
          (get_elem?-append (key_conversions ps) (value_conversions ps) i _ (key_at ps i p e)) in
      let s =
        same r.before (length p.key) r.entry p.key r.bytes
          (ap ok (sym (convert_string-eq r.before p.key)) ∙ r.converted) in
      rw (r.len, r.found, take-append_length) s.bytes

  keys_ascend : AscendingKeys (key_in_place container c.content) (num_pairs ps)
  keys_ascend = record {
    before = λ i j h k.
        let (p, ep) = pair_of_lt ps i (omega arith) in
        let (q, eq) = pair_of_lt ps j k in
        rw (key_back i p ep, key_back j q eq) (Ascending-Before (pair_list ps) i j p q asc h ep eq);
  }

  -- the search ends at the index of the pair
  search_back :
      (i : ℕ) (p : Pair)
      → get_elem? (pair_list ps) i ≡ some p
      → search_loop (key_in_place container c.content) p.key (num_pairs ps + 1) 0 (num_pairs ps)
        ≡ ok (some i)
  search_back i p e =
      let (r, found, located) =
        search_loop_finds (key_in_place container c.content) p.key (num_pairs ps) keys_ascend in
      found_at r found located
    where
      found_at :
          (r : Option ℕ)
          → search_loop (key_in_place container c.content) p.key (num_pairs ps + 1) 0 (num_pairs ps)
            ≡ ok r
          → Located (key_in_place container c.content) p.key (num_pairs ps) r
          → search_loop (key_in_place container c.content) p.key (num_pairs ps + 1) 0 (num_pairs ps)
            ≡ ok (some i)
      found_at none found located = absurd (located i (lt_of_pair ps i p e) (key_back i p e))
      found_at (some m) found located =
          found
          ∙ ap (λ k. ok (some k))
              (one_index (key_in_place container c.content) (num_pairs ps) m i keys_ascend located.0
                (lt_of_pair ps i p e) (located.1 ∙ sym (key_back i p e)))

  find_back :
      (pg : Postgres) (qsort_arg : QsortArg) (depth i : ℕ) (p : Pair)
      → get_elem? (pair_list ps) i ≡ some p
      → Storable pg p.value
      → find_agtype_value_from_container pg
          (ag_deserialize_extended_type pg qsort_arg (suc depth))
          container
          false
          true
          (string p.key)
        ≡ ok (some p.value)
  find_back pg qsort_arg depth i p e st =
      let cs = conversions ps in
      let h = num_pairs ps + 2 ^ 29 in
      let n = num_pairs ps in
      let fields = object_fields n small in
      let head : header container ≡ h =
        header_back h cs c.position c.slots c.content c.laid c.length_slots fields.0 in
      let after : data_after (length cs) container ≡ c.content =
        data_back h cs c.position c.slots c.content c.laid c.length_slots in
      let index : length (key_conversions ps) + i ≡ i + n =
        omega (arith, length-key_conversions ps) in
      let at : get_elem? cs (i + n) ≡ some (convert_agtype_value p.value) =
        ap (get_elem? cs) (sym index)
        ∙ get_elem?-append_length (key_conversions ps) (value_conversions ps) i
        ∙ value_at ps i p e in
      let r =
        read_at h cs c.position c.slots c.content c.laid c.length_slots (i + n)
          (convert_agtype_value p.value) at in
      let filled =
        fill-convert pg qsort_arg depth container (i + n) c.position _ c.content r.later c.aligned
          p.value r.before r.bytes r.entry st r.converted r.aligned r.len r.found r.kind in
      let some_pairs : (n == 0) ≡ false = ground (arith, lt_of_pair ps i p e) in
      find_at pg (ag_deserialize_extended_type pg qsort_arg (suc depth)) container n i c.content
        p.key p.value (ap container_size head ∙ fields.1) (ap header_is_object head ∙ fields.2)
        some_pairs (ap (λ k. data_after k container) (length-object_conversions ps) ∙ after)
        (search_back i p e) filled

-- An object without vertices, edges or paths at any depth, with strictly ascending keys and of at
-- most 2^28 - 1 bytes when each padding is counted as three: convert_to_agtype succeeds, and in
-- the container behind the varlena header that it wrote, find_agtype_value_from_container finds
-- under the key of each pair its value, where that is a null, a Boolean, a string, a 64-bit
-- integer, a float, or a numeric whose length VARSIZE reads. The qsort_arg and the depth given for
-- nested values do not matter.
pub object_round_trip :
    (pg : Postgres) (qsort_arg : QsortArg) (depth : ℕ) (ps : Pairs) (i : ℕ) (p : Pair)
    → PlainPairs ps
    → weight (object ps) ≤ offlenmask
    → Ascending (pair_list ps)
    → get_elem? (pair_list ps) i ≡ some p
    → Storable pg p.value
    → (out : Buffer) × (convert_to_agtype (object ps) ≡ ok out)
      × (find_agtype_value_from_container pg
            (ag_deserialize_extended_type pg qsort_arg (suc depth))
            (drop 4 out)
            false
            true
            (string p.key)
          ≡ ok (some p.value))
unfolding convert_to_agtype reserve_from_buffer
object_round_trip pg qsort_arg depth ps i p plain small asc e st =
    let b = (reserve_from_buffer [] 4).0 in
    let r = convert_value-Succeeds (object ps) b plain small in
    let written : convert_to_agtype (object ps) ≡ ok r.result =
      ap (λ m. m >>= λ x. ok x.1) {x = convert_agtype_value (object ps) b} r.returns in
    let c = object_container ps r.result plain written in
    (
      r.result,
      written,
      ap
            (λ x.
              find_agtype_value_from_container pg
                (ag_deserialize_extended_type pg qsort_arg (suc depth)) x false true (string p.key))
            c.bytes
          ∙ find_back ps r.result c (omega arith) asc pg qsort_arg depth i p e st,
    )
