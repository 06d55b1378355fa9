-- ===== src/Graphid.antt =====
-- src/backend/utils/adt/graphid.c and src/include/utils/graphid.h: the 64-bit identifier of a
-- vertex or an edge. The upper 16 bits are the label's id, the lower 48 the entry's id.
-- `graphid_in` and `graphid_out` only call strtol and pg_lltoa and are not modelled.
pub mod Fields
pub mod Order
use incubator_age.Prelude.{
  ℕ, ◌+◌, ◌*◌, ◌/◌, ◌%◌, ◌^◌, Bool, true, not, ◌&&◌, Option, none, some, if◌then◌else◌,
}
use incubator_age.Prelude.Int.{ℤ, pos, negsuc, ltb_ℤ, leb_ℤ, eqb_ℤ}
use incubator_age.Prelude.Word.{to_uint64, to_int64, to_int32}
use incubator_age.Result.{
  Result, ok, err, guard, ◌>>=◌, ◌>>◌, label_id_out_of_range, entry_id_out_of_range, null_argument,
}

abbrev pub label_id_max : ℕ
label_id_max = 65535

abbrev pub entry_id_max : ℕ
entry_id_max = 281474976710655

abbrev pub entry_id_bits : ℕ
entry_id_bits = 48

-- #define label_id_is_valid(id)
unfoldable pub label_id_is_valid : ℤ → Bool
label_id_is_valid id = leb_ℤ (pos 1) id && leb_ℤ id (pos label_id_max)

-- #define entry_id_is_valid(id)
unfoldable pub entry_id_is_valid : ℤ → Bool
entry_id_is_valid id = leb_ℤ (pos 1) id && leb_ℤ id (pos entry_id_max)

-- The two operands of `|` have no bit in common, so their union is their sum.
unfoldable pub make_graphid : ℤ → ℤ → Result ℤ
make_graphid label_id entry_id = do
  guard (label_id_is_valid label_id) label_id_out_of_range
  guard (entry_id_is_valid entry_id) entry_id_out_of_range
  let tmp = to_uint64 label_id * 2 ^ entry_id_bits % 2 ^ 64 + to_uint64 entry_id % 2 ^ entry_id_bits
  ok (to_int64 tmp)

unfoldable pub get_graphid_label_id : ℤ → ℤ
get_graphid_label_id gid = to_int32 (to_uint64 gid / 2 ^ entry_id_bits)

unfoldable pub get_graphid_entry_id : ℤ → ℤ
get_graphid_entry_id gid = to_int64 (to_uint64 gid % 2 ^ entry_id_bits)

-- SQL's _graphid(label_id, entry_id): a NULL argument is `none`.
unfoldable pub graphid : Option ℤ → Option ℤ → Result ℤ
graphid none _ = err null_argument
graphid (some _) none = err null_argument
graphid (some label_id) (some entry_id) = make_graphid label_id entry_id

unfoldable pub graphid_eq : ℤ → ℤ → Bool
graphid_eq lgid rgid = eqb_ℤ lgid rgid

unfoldable pub graphid_ne : ℤ → ℤ → Bool
graphid_ne lgid rgid = not (eqb_ℤ lgid rgid)

unfoldable pub graphid_lt : ℤ → ℤ → Bool
graphid_lt lgid rgid = ltb_ℤ lgid rgid

unfoldable pub graphid_gt : ℤ → ℤ → Bool
graphid_gt lgid rgid = ltb_ℤ rgid lgid

unfoldable pub graphid_le : ℤ → ℤ → Bool
graphid_le lgid rgid = leb_ℤ lgid rgid

unfoldable pub graphid_ge : ℤ → ℤ → Bool
graphid_ge lgid rgid = leb_ℤ rgid lgid

unfoldable pub graphid_btree_cmp : ℤ → ℤ → ℤ
graphid_btree_cmp lgid rgid =
    if ltb_ℤ rgid lgid then pos 1 else if eqb_ℤ lgid rgid then pos 0 else negsuc 0

-- The sort-support comparator, with the same ladder of its own.
unfoldable pub graphid_btree_fast_cmp : ℤ → ℤ → ℤ
graphid_btree_fast_cmp x y = if ltb_ℤ y x then pos 1 else if eqb_ℤ x y then pos 0 else negsuc 0
