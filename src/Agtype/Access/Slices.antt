-- ===== src/Agtype/Access/Slices.antt =====
-- agtype_access_slice on the datum of a list and two integer bounds.
use incubator_age.Prelude.{
  ℕ, zero, suc, ◌+◌, ◌-◌, ◌*◌, ◌^◌, ◌≤◌, ◌<◌, ◌≡◌, refl, ap, sym, ◌∙◌, true, false, none, some,
  List, [], ◌∷◌, ◌++◌, length, drop, take, get_elem?, arith, leb, if◌then◌else◌, length-append,
}
use mathlib.Core.List.{append_assoc, append-nil}
use incubator_age.Prelude.Int.{ℤ, pos, negsuc, ◌+ℤ◌, pos_part}
use incubator_age.Postgres.{Postgres}
use incubator_age.Result.{Result, ok}
use incubator_age.Agtype.{
  AgtypeValue, null, string, numeric, integer, float, boolean, array, Elems, nil, cons, num_elems,
  elem_list, elems_of, elem,
}
use incubator_age.Agtype.Sort.{QsortArg}
use incubator_age.Agtype.Find.{get_ith_agtype_value_from_container}
use incubator_age.Agtype.Iterator.{item}
use incubator_age.Agtype.Convert.{Buffer, convert_to_agtype, agtype_value_to_agtype}
use incubator_age.Agtype.Convert.Appends.{PlainElems}
use incubator_age.Agtype.Convert.Arrays.{get_ith-convert}
use incubator_age.Agtype.Convert.RoundTrip.{Storable}
use incubator_age.Agtype.Push.{
  ParseState, building_array, agtype_max_elems, push_agtype_value, push_agtype_value_scalar,
  append_element, end_container, grown,
}
use incubator_age.Agtype.Push.Appends.{state, append_element-ok, grown_room}
use incubator_age.Agtype.Operators.{Datum, root_count, root_is_scalar}
use incubator_age.Agtype.Operators.Datums.{Small, deserialize, written-ScalarDatum}
use incubator_age.Agtype.Access.{
  to_agtype, slice_index, slice_loop, slice_array, slice_list, slice_bound, agtype_access_slice,
  root_is_array,
}
use incubator_age.Agtype.Access.Elements.{written-ArrayDatum}

-- The place of a bound in a list of n elements.
abbrev pub slice_position : ℕ → ℤ → ℕ
slice_position n (pos k) = if leb k n then k else n
slice_position n (negsuc k) = n - suc k

slice_index-position : (n : ℕ) (i : ℤ) → slice_index n i ≡ pos (slice_position n i)
unfolding slice_index ◌+ℤ◌
slice_index-position n (pos k) = ground arith
slice_index-position n (negsuc k) = ground arith

position_inside : (n : ℕ) (i : ℤ) → slice_position n i ≤ n
position_inside n (pos k) = ground arith
position_inside n (negsuc k) = omega arith

-- the element at an index within the list
record At (es : Elems) (i : ℕ) : Type 0 where
  found : AgtypeValue
  at_index : get_elem? (elem_list es) i ≡ some found
  split : drop i (elem_list es) ≡ found ∷ drop (suc i) (elem_list es)

index-At : (es : Elems) (i : ℕ) → i < num_elems es → At es i
index-At nil i h = absurd (omega arith)
index-At (cons e es) zero h = record { found = e; at_index = refl; split = refl }
index-At (cons e es) (suc i) h =
    let a = index-At es i (omega arith) in
    record { found = a.found; at_index = a.at_index; split = a.split }

taken :
    (es : Elems) (i rounds : ℕ) (v : AgtypeValue)
    → drop i (elem_list es) ≡ v ∷ drop (suc i) (elem_list es)
    → v ∷ take rounds (drop (i + 1) (elem_list es)) ≡ take (suc rounds) (drop i (elem_list es))
taken es i rounds v split =
    let later : i + 1 ≡ suc i = omega arith in
    ap (λ n. v ∷ take rounds (drop n (elem_list es))) later
    ∙ sym (ap (λ ys. take (suc rounds) ys) split)

module _ (pg : Postgres) (qsort_arg : QsortArg) (depth : ℕ) where
  push_elem :
      (v : AgtypeValue) (xs : List AgtypeValue) (size : ℕ)
      → Storable pg v
      → append_element pg (state (building_array xs false) size) v
        ≡ ok (state (building_array (xs ++ v ∷ []) false) (grown (length xs) size))
      → push_agtype_value pg qsort_arg
          (deserialize pg qsort_arg depth)
          (state (building_array xs false) size ∷ [])
          elem
          (item v)
        ≡ ok (none, state (building_array (xs ++ v ∷ []) false) (grown (length xs) size) ∷ [])
  unfolding push_agtype_value push_agtype_value_scalar
  push_elem null xs size st e = rw e refl
  push_elem (boolean b) xs size st e = rw e refl
  push_elem (string s) xs size st e = rw e refl
  push_elem (numeric n) xs size st e = rw e refl
  push_elem (integer i) xs size st e = rw e refl
  push_elem (float f) xs size st e = rw e refl
  push_elem _ xs size st e = absurd st

  -- What the loop leaves: the elements that were there, and those of the slice.
  record Sliced (xs : List AgtypeValue) (m : Result (List ParseState)) : Type 0 where
    size : ℕ
    returns : m ≡ ok (state (building_array xs false) size ∷ [])

  one_round :
      (rounds i : ℕ) (datum : Datum) (v : AgtypeValue) (st : List ParseState) (s : ParseState)
      → get_ith_agtype_value_from_container pg (deserialize pg qsort_arg depth) datum i
        ≡ ok (some v)
      → push_agtype_value pg qsort_arg (deserialize pg qsort_arg depth) st elem (item v)
        ≡ ok (none, s ∷ [])
      → slice_loop pg qsort_arg (deserialize pg qsort_arg depth) (suc rounds) i datum st
        ≡ slice_loop pg qsort_arg (deserialize pg qsort_arg depth) rounds (i + 1) datum (s ∷ [])
  unfolding slice_loop
  one_round rounds i datum v st s found pushed = rw (found, pushed) refl

  module _ (es : Elems) (out : Buffer) (plain : PlainElems es) (small : num_elems es < 2 ^ 28)
      (written : convert_to_agtype (array es false) ≡ ok out)
      (storable : (i : ℕ) (v : AgtypeValue)
        → get_elem? (elem_list es) i ≡ some v
        → Storable pg v) where
    slice_loop-take :
        (rounds i : ℕ) (xs : List AgtypeValue) (size : ℕ)
        → length xs ≤ size
        → 1 ≤ size
        → length xs + rounds ≤ agtype_max_elems pg
        → 64 * (length xs + rounds) ≤ pg.max_alloc_size
        → i + rounds ≤ num_elems es
        → Sliced (xs ++ take rounds (drop i (elem_list es))) (
            slice_loop pg qsort_arg
              (deserialize pg qsort_arg depth)
              rounds
              i
              (drop 4 out)
              (state (building_array xs false) size ∷ []))
    unfolding slice_loop
    slice_loop-take zero i xs size fits positive room memory inside = record {
      size = size;
      returns = ap (λ ys. ok (state (building_array ys false) size ∷ [])) (sym (append-nil xs));
    }
    slice_loop-take (suc rounds) i xs size fits positive room memory inside =
        let a = index-At es i (omega arith) in
        let v = a.found in
        let st = storable i v a.at_index in
        let grows = grown_room (length xs) size fits positive in
        let next =
          slice_loop-take rounds (i + 1) (xs ++ v ∷ []) (grown (length xs) size)
            (omega (arith, length-append xs (v ∷ []), grows.0)) grows.1
            (omega (arith, length-append xs (v ∷ [])))
            (omega (arith, memory, length-append xs (v ∷ []))) (omega arith) in
        record {
          size = next.size;
          returns =
              one_round rounds i (drop 4 out) v _ _
                (get_ith-convert pg qsort_arg depth es false out i v plain small a.at_index st
                  written)
                (push_elem v xs size st (
                  append_element-ok pg xs false size v (omega arith) (omega (arith, memory)) fits
                    positive))
              ∙ next.returns
              ∙ ap (λ ys. ok (state (building_array ys false) next.size ∷ []))
                  (append_assoc xs (v ∷ []) (take rounds (drop (i + 1) (elem_list es)))
                    ∙ ap (λ ys. xs ++ ys) (taken es i rounds v a.split));
        }

    slice_array-take :
        (lower upper : ℕ)
        → lower ≤ num_elems es
        → upper ≤ num_elems es
        → num_elems es ≤ agtype_max_elems pg
        → 64 * num_elems es ≤ pg.max_alloc_size
        → slice_array pg qsort_arg (deserialize pg qsort_arg depth) (drop 4 out) lower upper
          ≡ to_agtype
              (some (array (elems_of (take (upper - lower) (drop lower (elem_list es)))) false))
    unfolding slice_array push_agtype_value push_agtype_value_scalar end_container
    slice_array-take lower upper low up room memory =
        let s =
          slice_loop-take (upper - lower) lower [] 4 (omega arith) (omega arith)
            (omega (arith, low, up, room)) (omega (arith, low, up, memory))
            (omega (arith, low, up)) in
        rw s.returns refl

  bound_read :
      (i : ℤ) (d : Datum)
      → Small pg (integer i)
      → agtype_value_to_agtype (integer i) ≡ ok d
      → slice_bound pg qsort_arg (deserialize pg qsort_arg depth) (some d) ≡ ok (some (integer i))
  unfolding slice_bound
  bound_read i d fits e =
      let x = written-ScalarDatum pg qsort_arg depth (integer i) d fits e in rw x.read refl

  slice_list-bounds :
      (datum : Datum) (n : ℕ) (lower upper : ℤ) (dl du : Datum)
      → root_is_array datum ≡ true
      → root_is_scalar datum ≡ false
      → root_count datum ≡ n
      → slice_bound pg qsort_arg (deserialize pg qsort_arg depth) (some dl)
        ≡ ok (some (integer lower))
      → slice_bound pg qsort_arg (deserialize pg qsort_arg depth) (some du)
        ≡ ok (some (integer upper))
      → slice_list pg qsort_arg (deserialize pg qsort_arg depth) datum (some dl) (some du)
        ≡ slice_array pg qsort_arg
            (deserialize pg qsort_arg depth)
            datum
            (slice_position n lower)
            (slice_position n upper)
  unfolding slice_list
  slice_list-bounds datum n lower upper dl du kind scalar count l u =
      rw (kind, scalar, l, u, count)
        (ap
            (λ p.
              slice_array pg qsort_arg (deserialize pg qsort_arg depth) datum (pos_part p)
                (pos_part (slice_index n upper)))
            (slice_index-position n lower)
          ∙ ap
              (λ p.
                slice_array pg qsort_arg (deserialize pg qsort_arg depth) datum
                  (slice_position n lower) (pos_part p))
              (slice_index-position n upper))

-- agtype_access_slice on the datum that convert_to_agtype writes for a list and on the datums of
-- two integers: the datum of the list of the elements from the first position up to the second,
-- excluded, where a negative bound counts from the end and bounds beyond the list are its ends; the
-- empty list where the second position is not behind the first. The list has no more than
-- AGTYPE_MAX_ELEMS and fewer than 2^28 elements, and twice as many, of 32 bytes each, are within
-- MaxAllocSize, as append_element doubles a full array. Its elements are nulls, Booleans, strings, int64s, floats
-- and numerics whose length VARSIZE reads.
pub access_slice-take :
    (pg : Postgres) (qsort_arg : QsortArg) (depth : ℕ) (es : Elems) (out : Buffer) (lower upper : ℤ)
    (dl du : Datum)
    → PlainElems es
    → num_elems es < 2 ^ 28
    → num_elems es ≤ agtype_max_elems pg
    → 64 * num_elems es ≤ pg.max_alloc_size
    → ((i : ℕ) (v : AgtypeValue) → get_elem? (elem_list es) i ≡ some v → Storable pg v)
    → convert_to_agtype (array es false) ≡ ok out
    → Small pg (integer lower)
    → Small pg (integer upper)
    → agtype_value_to_agtype (integer lower) ≡ ok dl
    → agtype_value_to_agtype (integer upper) ≡ ok du
    → agtype_access_slice pg qsort_arg
        (deserialize pg qsort_arg depth)
        (some (drop 4 out))
        (some dl)
        (some du)
      ≡ to_agtype (
          some (
            array
              (elems_of (
                take
                  (slice_position (num_elems es) upper - slice_position (num_elems es) lower)
                  (drop (slice_position (num_elems es) lower) (elem_list es))))
              false))
unfolding agtype_access_slice
access_slice-take pg qsort_arg depth es out lower upper dl du plain small room memory st written fl
      fu el eu =
    let d = written-ArrayDatum es false out plain small written in
    let n = num_elems es in
    slice_list-bounds pg qsort_arg depth (drop 4 out) n lower upper dl du d.kind d.scalar d.count
      (bound_read pg qsort_arg depth lower dl fl el) (bound_read pg qsort_arg depth upper du fu eu)
    ∙ slice_array-take pg qsort_arg depth es out plain small written st (slice_position n lower)
        (slice_position n upper) (position_inside n lower) (position_inside n upper) room memory
