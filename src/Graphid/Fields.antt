-- ===== src/Graphid/Fields.antt =====
-- make_graphid and its two readers, of graphid.c.
use incubator_age.Prelude.{ℕ, ◌≤◌, ◌+◌, ◌*◌, ◌^◌, ◌≡◌, ◌⊎◌, arith}
use incubator_age.Prelude.Int.{ℤ, pos, ◌<ℤ◌, ◌≤ℤ◌}
use incubator_age.Prelude.Word.{to_int64}
use incubator_age.Result.{ok, err, label_id_out_of_range, entry_id_out_of_range}
use incubator_age.Graphid.{
  label_id_max, entry_id_max, label_id_is_valid, entry_id_is_valid, make_graphid,
  get_graphid_label_id, get_graphid_entry_id,
}

-- The number that make_graphid builds.
unfoldable pub packed : ℕ → ℕ → ℤ
packed l e = to_int64 (l * 2 ^ 48 + e)

pub make_graphid-packed :
    (l e : ℕ)
    → 1 ≤ l
    → l ≤ label_id_max
    → 1 ≤ e
    → e ≤ entry_id_max
    → make_graphid (pos l) (pos e) ≡ ok (packed l e)
unfolding make_graphid label_id_is_valid entry_id_is_valid packed
make_graphid-packed l e hl hl' he he' = ground arith

-- An identifier that make_graphid returned is that number, of fields in range.
pub packed_of_ok :
    (l e : ℕ) {g : ℤ}
    → make_graphid (pos l) (pos e) ≡ ok g
    → (l ≤ label_id_max) × (e ≤ entry_id_max) × (g ≡ packed l e)
unfolding make_graphid label_id_is_valid entry_id_is_valid packed
packed_of_ok l e h = (ground arith, ground arith, ground arith)

-- For every label id from 1 to 65535 and entry id from 1 to 2^48 - 1, make_graphid succeeds, and
-- the two readers give the label id and the entry id back.
pub make_graphid_fields :
    (l e : ℕ)
    → 1 ≤ l
    → l ≤ label_id_max
    → 1 ≤ e
    → e ≤ entry_id_max
    → (gid : ℤ) × (make_graphid (pos l) (pos e) ≡ ok gid)
      × (get_graphid_label_id gid ≡ pos l)
      × (get_graphid_entry_id gid ≡ pos e)
unfolding get_graphid_label_id get_graphid_entry_id packed
make_graphid_fields l e hl hl' he he' =
    (packed l e, make_graphid-packed l e hl hl' he he', ground arith, ground arith)

-- make_graphid raises the label error for every label id below 1 or above 65535, whatever the
-- entry id; and for a label id in range, the entry error for every entry id below 1 or above
-- 2^48 - 1.
pub make_graphid_errors :
    (l e : ℤ)
    → ((l <ℤ pos 1) ⊎ (pos label_id_max <ℤ l) → make_graphid l e ≡ err label_id_out_of_range)
      × (pos 1 ≤ℤ l
          → l ≤ℤ pos label_id_max
          → (e <ℤ pos 1) ⊎ (pos entry_id_max <ℤ e)
          → make_graphid l e ≡ err entry_id_out_of_range)
unfolding make_graphid label_id_is_valid entry_id_is_valid
make_graphid_errors l e = (λ h. ground arith, λ h k m. ground arith)
