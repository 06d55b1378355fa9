-- ===== src/Agtype/Convert.antt =====
-- The writing half of the on-disk format: reserve_from_buffer, copy_to_buffer, append_to_buffer,
-- pad_buffer_to_int and the convert_* functions of agtype_util.c, and ag_serialize_header and
-- ag_serialize_extended_type of agtype_ext.c. A StringInfo is the list of its bytes up to `len`.
pub mod Buffers
pub mod Layout
pub mod Items
pub mod Written
pub mod Appends
pub mod Slots
pub mod RoundTrip
pub mod Bounded
pub mod Total
pub mod Arrays
pub mod Objects
pub mod Lookup
pub mod Composites
use incubator_age.Prelude.{
  ℕ, zero, suc, ◌+◌, ◌-◌, ◌*◌, ◌/◌, ◌%◌, ◌^◌, Bool, true, false, List, [], ◌∷◌, ◌++◌, ltb, length,
  take, drop, replicate, ◌==◌, if◌then◌else◌,
}
use incubator_age.Prelude.Word.{to_uint64}
use incubator_age.Result.{
  Result, ok, err, ◌>>=◌, guard, ◌>>◌, array_too_large, object_too_large, unknown_type_to_convert,
  assertion,
}
use incubator_age.Agtype.{
  AgtypeValue, null, string, numeric, integer, float, boolean, vertex, edge, path, array, object,
  binary, Elems, nil, cons, Pairs, end, pair, num_elems, num_pairs, is_a_agtype_scalar,
}
use incubator_age.Agtype.Entry.{
  offlenmask, offlenfld, tagged, end_offset, is_string, is_numeric, is_bool_false, is_bool_true,
  is_null, is_container, is_agtype,
}
use incubator_age.Agtype.Container.{store_word, intalign}
use incubator_age.Agtype.Extended.{
  header_integer, header_float, header_vertex, header_edge, header_path,
}

abbrev pub Buffer : Type 0
Buffer = List ℕ

-- The reserved bytes are written later by copy_to_buffer. The result is the old length. The error
-- of enlargeStringInfo at MaxAllocSize is left out: a list has no bound.
unfoldable pub reserve_from_buffer : Buffer → ℕ → Buffer × ℕ
reserve_from_buffer buffer len = (buffer ++ replicate len 0, length buffer)

unfoldable pub copy_to_buffer : Buffer → ℕ → List ℕ → Buffer
copy_to_buffer buffer offset bytes =
    take offset buffer ++ (bytes ++ drop (offset + length bytes) buffer)

unfoldable pub append_to_buffer : Buffer → List ℕ → Buffer
unfolding reserve_from_buffer copy_to_buffer
append_to_buffer buffer bytes =
    let (reserved, offset) = reserve_from_buffer buffer (length bytes) in
    copy_to_buffer reserved offset bytes

-- The new buffer and the number of padding bytes, which are zero.
unfoldable pub pad_buffer_to_int : Buffer → Buffer × ℕ
unfolding reserve_from_buffer copy_to_buffer
pad_buffer_to_int buffer =
    let padlen = intalign (length buffer) - length buffer in
    let (reserved, offset) = reserve_from_buffer buffer padlen in
    (copy_to_buffer reserved offset (replicate padlen 0), padlen)

-- An agtentry and the new buffer.
abbrev pub Converted : Type 0
Converted = ℕ × Buffer

unfoldable pub ag_serialize_header : Buffer → ℕ → Buffer × ℕ
ag_serialize_header buffer type =
    let (padded, padlen) = pad_buffer_to_int buffer in
    (append_to_buffer padded (store_word 4 type), padlen)

-- AGTV_INTEGER and AGTV_FLOAT: eight bytes behind the header.
unfoldable pub serialize_word : Buffer → ℕ → ℕ → Converted
serialize_word buffer type word =
    let (with_header, padlen) = ag_serialize_header buffer type in
    (tagged is_agtype (padlen + 8 + 4), append_to_buffer with_header (store_word 8 word))

-- AGTV_VERTEX, AGTV_EDGE and AGTV_PATH: a container behind the header. The padding that the header
-- needed is not counted.
unfoldable pub serialize_container : (Buffer → Result Converted) → Buffer → ℕ → Result Converted
serialize_container convert buffer type = do
  (object_ae, buffer') ← convert (ag_serialize_header buffer type).0
  ok (tagged is_agtype (offlenfld object_ae + 4), buffer')

unfoldable pub convert_string : Buffer → List ℕ → Converted
convert_string buffer s = (length s, append_to_buffer buffer s)

unfoldable pub convert_numeric : Buffer → List ℕ → Converted
convert_numeric buffer n =
    let (padded, padlen) = pad_buffer_to_int buffer in
    (tagged is_numeric (padlen + length n), append_to_buffer padded n)

-- Every 32nd agtentry becomes an end offset.
unfoldable pub stride_entry : ℕ → ℕ → ℕ → ℕ
stride_entry i meta totallen = if i % 32 == 0 then end_offset meta totallen else meta

-- One round of the loops over elements, keys and values, after the item was converted: the new
-- total and buffer.
unfoldable pub add_entry : (ℕ → Result (Unit {0})) → ℕ → ℕ → ℕ → Converted → Result (ℕ × Buffer)
add_entry check entry_offset i totallen (meta, buffer) = do
  let totallen' = totallen + offlenfld meta
  check totallen'
  ok (totallen', copy_to_buffer buffer entry_offset (store_word 4 (stride_entry i meta totallen')))

unfoldable pub check_total : ℕ → Result (Unit {0})
check_total totallen = if ltb offlenmask totallen then err array_too_large else ok tt

unfoldable pub check_object_total : ℕ → Result (Unit {0})
check_object_total totallen = if ltb offlenmask totallen then err object_too_large else ok tt

-- what convert_agtype_array and convert_agtype_object do around their loops: `count` words of
-- agtentrys are reserved behind the header, and the loop is handed the buffer and their offset
unfoldable pub convert_container :
    (ℕ → Result (Unit {0})) → ℕ → ℕ → (Buffer → ℕ → Result Buffer) → Buffer → Result Converted
convert_container check header count loop buffer = do
  let base_offset = length buffer
  let padded = (pad_buffer_to_int buffer).0
  let with_header = append_to_buffer padded (store_word 4 header)
  let (reserved, agtentry_offset) = reserve_from_buffer with_header (4 * count)
  buffer' ← loop reserved agtentry_offset
  let totallen = length buffer' - base_offset
  check totallen
  ok (tagged is_container totallen, buffer')

unfoldable pub convert_agtype_array :
    ℕ → Bool → (Buffer → ℕ → Result Buffer) → Buffer → Result Converted
convert_agtype_array num_elems raw_scalar loop =
    convert_container check_total (num_elems + 2 ^ 30 + (if raw_scalar then 2 ^ 28 else 0))
      num_elems loop

unfoldable pub convert_agtype_object : ℕ → (Buffer → ℕ → Result Buffer) → Buffer → Result Converted
convert_agtype_object num_pairs loop =
    convert_container check_object_total (num_pairs + 2 ^ 29) (num_pairs * 2) loop

-- the loop over the keys, which are strings
unfoldable pub convert_keys : Pairs → Buffer → ℕ → ℕ → ℕ → Result (ℕ × Buffer)
convert_keys end buffer entry_offset i totallen = ok (totallen, buffer)
convert_keys (pair k v o ps) buffer entry_offset i totallen = do
  (totallen', buffer') ←
      add_entry check_object_total entry_offset i totallen (convert_string buffer k)
  convert_keys ps buffer' (entry_offset + 4) (i + 1) totallen'

-- the keys' loop, then the values' loop on the same counters
unfoldable pub object_loop :
    ℕ
    → (Buffer → ℕ → ℕ → ℕ → Result (ℕ × Buffer))
    → (Buffer → ℕ → ℕ → ℕ → Result (ℕ × Buffer))
    → Buffer
    → ℕ
    → Result Buffer
object_loop n keys values buffer entry_offset = do
  (totallen, buffer1) ← keys buffer entry_offset 0 0
  (totallen', buffer2) ← values buffer1 (entry_offset + 4 * n) n totallen
  ok buffer2

unfoldable pub array_loop : (Buffer → ℕ → ℕ → ℕ → Result (ℕ × Buffer)) → Buffer → ℕ → Result Buffer
array_loop elements buffer entry_offset = do
  (totallen, buffer') ← elements buffer entry_offset 0 0
  ok buffer'

-- convert_agtype_value, with convert_agtype_scalar's and ag_serialize_extended_type's cases.
unfoldable mutual
  unfolding reserve_from_buffer append_to_buffer pad_buffer_to_int ag_serialize_header
      convert_container convert_string convert_numeric serialize_word serialize_container
      convert_agtype_array convert_agtype_object convert_keys object_loop array_loop add_entry
      stride_entry end_offset tagged copy_to_buffer check_total check_object_total

  pub convert_agtype_value : AgtypeValue → Buffer → Result Converted
  convert_agtype_value null buffer = ok (tagged is_null 0, buffer)
  convert_agtype_value (string s) buffer = ok (convert_string buffer s)
  convert_agtype_value (numeric n) buffer = ok (convert_numeric buffer n)
  convert_agtype_value (boolean true) buffer = ok (tagged is_bool_true 0, buffer)
  convert_agtype_value (boolean false) buffer = ok (tagged is_bool_false 0, buffer)
  convert_agtype_value (integer i) buffer = ok (serialize_word buffer header_integer (to_uint64 i))
  convert_agtype_value (float f) buffer = ok (serialize_word buffer header_float f)
  convert_agtype_value (vertex ps) buffer =
      serialize_container
        (convert_agtype_object (num_pairs ps)
          (object_loop (num_pairs ps) (convert_keys ps) (convert_values ps)))
        buffer header_vertex
  convert_agtype_value (edge ps) buffer =
      serialize_container
        (convert_agtype_object (num_pairs ps)
          (object_loop (num_pairs ps) (convert_keys ps) (convert_values ps)))
        buffer header_edge
  convert_agtype_value (path es) buffer =
      serialize_container
        (convert_agtype_array (num_elems es) false (array_loop (convert_elems es))) buffer
        header_path
  convert_agtype_value (array es raw) buffer =
      convert_agtype_array (num_elems es) raw (array_loop (convert_elems es)) buffer
  convert_agtype_value (object ps) buffer =
      convert_agtype_object (num_pairs ps)
        (object_loop (num_pairs ps) (convert_keys ps) (convert_values ps)) buffer
  convert_agtype_value (binary len bytes) buffer = err unknown_type_to_convert

  -- the loop over an array's elements
  pub convert_elems : Elems → Buffer → ℕ → ℕ → ℕ → Result (ℕ × Buffer)
  convert_elems nil buffer entry_offset i totallen = ok (totallen, buffer)
  convert_elems (cons e es) buffer entry_offset i totallen = do
    converted ← convert_agtype_value e buffer
    (totallen', buffer') ← add_entry check_total entry_offset i totallen converted
    convert_elems es buffer' (entry_offset + 4) (i + 1) totallen'

  -- the loop over an object's values; `i` goes on from the keys'
  pub convert_values : Pairs → Buffer → ℕ → ℕ → ℕ → Result (ℕ × Buffer)
  convert_values end buffer entry_offset i totallen = ok (totallen, buffer)
  convert_values (pair k v o ps) buffer entry_offset i totallen = do
    converted ← convert_agtype_value v buffer
    (totallen', buffer') ← add_entry check_object_total entry_offset i totallen converted
    convert_values ps buffer' (entry_offset + 4) (i + 1) totallen'

-- The datum, without the varlena header's contents: VARHDRSZ bytes are reserved for it.
unfoldable pub convert_to_agtype : AgtypeValue → Result Buffer
unfolding convert_agtype_value reserve_from_buffer
convert_to_agtype (binary len bytes) = err assertion
convert_to_agtype val = do
  (aentry, buffer) ← convert_agtype_value val (reserve_from_buffer [] 4).0
  ok buffer

-- A scalar becomes the one element of a raw array. The bytes behind the varlena header.
unfoldable pub agtype_value_to_agtype : AgtypeValue → Result Buffer
unfolding convert_to_agtype
agtype_value_to_agtype (binary len bytes) = ok (take len bytes)
agtype_value_to_agtype val = do
  let raw = array (cons val nil) true
  out ← convert_to_agtype (if is_a_agtype_scalar val then raw else val)
  ok (drop 4 out)
