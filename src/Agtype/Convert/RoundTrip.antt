-- ===== src/Agtype/Convert/RoundTrip.antt =====
-- Reading back the scalars of a container that was written: fill_agtype_value after
-- convert_agtype_value.
use incubator_age.Prelude.{
  ℕ, suc, ◌+◌, ◌%◌, ◌^◌, ◌≤◌, ◌<◌, ◌≡◌, refl, ap, sym, ◌∙◌, true, false, List, [], ◌∷◌, ◌++◌,
  length, drop, replicate, take-append_length, drop-append_length, drop-drop, length-replicate,
  arith,
}
use mathlib.Core.List.{append_assoc}
use incubator_age.Prelude.Int.{ℤ}
use incubator_age.Prelude.Word.{to_uint64, to_uint64-lt, to_int64-to_uint64, IsInt64}
use incubator_age.Postgres.{Postgres}
use incubator_age.Result.{Result, ok, ok_injective}
use incubator_age.Agtype.{
  AgtypeValue, null, string, numeric, integer, float, boolean, vertex, edge, path, array, object,
  binary,
}
use incubator_age.Agtype.Entry.{offlenmask, type_bits, tagged, tagged-eq-add}
use incubator_age.Agtype.Sort.{QsortArg}
use incubator_age.Agtype.Container.{store_word, load_word, child, get_agtype_length, intalign}
use incubator_age.Agtype.Fill.{fill_agtype_value}
use incubator_age.Agtype.Extended.{ag_deserialize_extended_type}
use incubator_age.Agtype.Convert.{Buffer, Converted, convert_agtype_value}
use incubator_age.Agtype.Convert.Buffers.{padding}
use incubator_age.Agtype.Convert.Appends.{convert_string-eq, convert_numeric-eq, serialize_word-eq}
use incubator_age.Agtype.Convert.Layout.{length-store_word}
use incubator_age.Agtype.Convert.Slots.{load_word-store_word_4, load_word-store_word_8}

-- The scalars that this format stores by themselves, in their ranges; a numeric is a datum whose
-- length VARSIZE reads from its first bytes.
abbrev pub Storable : Postgres → AgtypeValue → Type 0
Storable pg null = Unit
Storable pg (boolean x) = Unit
Storable pg (string s) = length s ≤ offlenmask
Storable pg (numeric n) =
    (length n + 3 ≤ offlenmask) × ((rest : List ℕ) → pg.varsize (n ++ rest) ≡ length n)
Storable pg (integer i) = IsInt64 i
Storable pg (float f) = f < 2 ^ 64
Storable pg _ = ⊥

append_cancel : (b x y : List ℕ) → b ++ x ≡ b ++ y → x ≡ y
append_cancel [] x y e = e
append_cancel (c ∷ b) x y e = append_cancel b x y (cc e)

-- one conversion, two descriptions of its result
pub record Same (h0 h : ℕ) (x y : List ℕ) : Type 0 where
  pub entry : h ≡ h0
  pub bytes : y ≡ x

pub same :
    (b : Buffer) (h0 h : ℕ) (x y : List ℕ)
    → ◌≡◌ {A = Result Converted} (ok (h0, b ++ x)) (ok (h, b ++ y))
    → Same h0 h x y
same b h0 h x y e = record {
  entry = ap (λ (r : Converted). r.0) (sym (ok_injective e));
  bytes = append_cancel b y x (ap (λ (r : Converted). r.1) (sym (ok_injective e)));
}

type_bits-tagged : (tag x : ℕ) → tag < 8 → x ≤ offlenmask → type_bits (tagged tag x) ≡ tag
type_bits-tagged tag x h k = rw (tagged-eq-add tag x (omega arith) (omega arith)) (omega arith)

-- at an aligned start, INTALIGN of the offset skips the padding
skip_padding :
    (p off n : ℕ) (d bytes later : List ℕ)
    → n ≡ p + off
    → p % 4 ≡ 0
    → drop off d ≡ (replicate (padding n) 0 ++ bytes) ++ later
    → drop (intalign off) d ≡ bytes ++ later
skip_padding p off n d bytes later e a found =
    ap (λ k. drop k d) {x = intalign off} {y = off + (length {A = ℕ} (replicate (padding n) 0) + 0)}
      (omega (arith, length-replicate {A = ℕ} (padding n) 0))
    ∙ sym (drop-drop off (length {A = ℕ} (replicate (padding n) 0) + 0) d)
    ∙ ap (λ x. drop (length {A = ℕ} (replicate (padding n) 0) + 0) x)
        (found ∙ append_assoc (replicate (padding n) 0) bytes later)
    ∙ drop-append_length (replicate (padding n) 0) (bytes ++ later) 0

module _ (pg : Postgres) (qsort_arg : QsortArg) (depth : ℕ) (container : List ℕ) (k p off : ℕ)
    (d later : List ℕ) (aligned : p % 4 ≡ 0) where
  abbrev Fills : AgtypeValue → Type 0
  Fills v =
      fill_agtype_value pg (ag_deserialize_extended_type pg qsort_arg (suc depth)) container k d off
      ≡ ok v

  string-Fills :
      (s : List ℕ)
      → type_bits (child container k) ≡ 0
      → get_agtype_length container k ≡ length s
      → drop off d ≡ s ++ later
      → Fills (string s)
  unfolding fill_agtype_value
  string-Fills s kind len found = rw (kind, len, found, take-append_length) refl

  numeric-Fills :
      (n : List ℕ)
      → type_bits (child container k) ≡ 1
      → ((rest : List ℕ) → pg.varsize (n ++ rest) ≡ length n)
      → drop (intalign off) d ≡ n ++ later
      → Fills (numeric n)
  unfolding fill_agtype_value
  numeric-Fills n kind size found = rw (kind, found, size later, take-append_length) refl

  word_at :
      (type word : ℕ)
      → type < 2 ^ 32
      → word < 2 ^ 64
      → drop (intalign off) d ≡ (store_word 4 type ++ store_word 8 word) ++ later
      → (load_word 4 (drop (intalign off) d) ≡ type)
        × (load_word 8 (drop 4 (drop (intalign off) d)) ≡ word)
  word_at type word t w found =
      let split = found ∙ append_assoc (store_word 4 type) (store_word 8 word) later in
      (
        ap (λ x. load_word 4 x) split ∙ load_word-store_word_4 type (store_word 8 word ++ later) t,
        ap (λ x. load_word 8 (drop 4 x)) split
            ∙ ap (λ x. load_word 8 x)
                (ap (λ j. drop j (store_word 4 type ++ (store_word 8 word ++ later))) {x = 4}
                    {y = length (store_word 4 type) + 0} (omega (arith, length-store_word 4 type))
                  ∙ drop-append_length (store_word 4 type) (store_word 8 word ++ later) 0)
            ∙ load_word-store_word_8 word later w,
      )

  integer-Fills :
      (i : ℤ)
      → IsInt64 i
      → type_bits (child container k) ≡ 7
      → drop (intalign off) d ≡ (store_word 4 0 ++ store_word 8 (to_uint64 i)) ++ later
      → Fills (integer i)
  unfolding fill_agtype_value ag_deserialize_extended_type
  integer-Fills i h kind found =
      let (type, word) = word_at 0 (to_uint64 i) (omega arith) (to_uint64-lt i) found in
      rw (kind, type, word, to_int64-to_uint64 i h) refl

  float-Fills :
      (f : ℕ)
      → f < 2 ^ 64
      → type_bits (child container k) ≡ 7
      → drop (intalign off) d ≡ (store_word 4 1 ++ store_word 8 f) ++ later
      → Fills (float f)
  unfolding fill_agtype_value ag_deserialize_extended_type
  float-Fills f h kind found =
      let (type, word) = word_at 1 f (omega arith) h found in rw (kind, type, word) refl

  -- a value that is its agtentry's type alone
  kind_of_tag :
      (tag : ℕ) (before bytes : List ℕ) (entry : ℕ)
      → tag < 8
      → ◌≡◌ {A = Result Converted} (ok (tagged tag 0, before)) (ok (entry, before ++ bytes))
      → type_bits (child container k) ≡ type_bits entry
      → type_bits (child container k) ≡ tag
  kind_of_tag tag before bytes entry h e kind =
      kind
      ∙ ap (λ (r : Converted). type_bits r.0) (sym (ok_injective e))
      ∙ type_bits-tagged tag 0 h (omega arith)

  -- What a conversion wrote is what is read: `bytes` and `entry` are its results.
  pub fill-convert :
      (v : AgtypeValue) (before bytes : List ℕ) (entry : ℕ)
      → Storable pg v
      → convert_agtype_value v before ≡ ok (entry, before ++ bytes)
      → length before ≡ p + off
      → get_agtype_length container k ≡ length bytes
      → drop off d ≡ bytes ++ later
      → type_bits (child container k) ≡ type_bits entry
      → Fills v
  unfolding fill_agtype_value convert_agtype_value
  fill-convert null before bytes entry st e at len found kind =
      rw (kind_of_tag 4 before bytes entry (omega arith) e kind) refl
  fill-convert (boolean true) before bytes entry st e at len found kind =
      rw (kind_of_tag 3 before bytes entry (omega arith) e kind) refl
  fill-convert (boolean false) before bytes entry st e at len found kind =
      rw (kind_of_tag 2 before bytes entry (omega arith) e kind) refl
  fill-convert (string s) before bytes entry st e at len found kind =
      let r = same before (length s) entry s bytes (ap ok (sym (convert_string-eq before s)) ∙ e) in
      string-Fills s (kind ∙ ap type_bits r.entry ∙ omega arith) (len ∙ ap length r.bytes)
        (found ∙ ap (λ x. x ++ later) r.bytes)
  fill-convert (numeric n) before bytes entry st e at len found kind =
      let pad = padding (length before) in
      let r =
        same before (tagged 1 (pad + length n)) entry (replicate pad 0 ++ n) bytes
          (ap ok (sym (convert_numeric-eq before n)) ∙ e) in
      numeric-Fills n
        (kind
          ∙ ap type_bits r.entry
          ∙ type_bits-tagged 1 (pad + length n) (omega arith) (omega arith))
        st.1
        (skip_padding p off (length before) d n later at aligned
          (found ∙ ap (λ x. x ++ later) r.bytes))
  fill-convert (integer i) before bytes entry st e at len found kind =
      let pad = padding (length before) in
      let word = store_word 4 0 ++ store_word 8 (to_uint64 i) in
      let r =
        same before (tagged 7 (pad + 8 + 4)) entry (replicate pad 0 ++ word) bytes
          (ap ok (sym (serialize_word-eq before 0 (to_uint64 i))) ∙ e) in
      integer-Fills i st
        (kind ∙ ap type_bits r.entry ∙ type_bits-tagged 7 (pad + 8 + 4) (omega arith) (omega arith))
        (skip_padding p off (length before) d word later at aligned
          (found ∙ ap (λ x. x ++ later) r.bytes))
  fill-convert (float f) before bytes entry st e at len found kind =
      let pad = padding (length before) in
      let word = store_word 4 1 ++ store_word 8 f in
      let r =
        same before (tagged 7 (pad + 8 + 4)) entry (replicate pad 0 ++ word) bytes
          (ap ok (sym (serialize_word-eq before 1 f)) ∙ e) in
      float-Fills f st
        (kind ∙ ap type_bits r.entry ∙ type_bits-tagged 7 (pad + 8 + 4) (omega arith) (omega arith))
        (skip_padding p off (length before) d word later at aligned
          (found ∙ ap (λ x. x ++ later) r.bytes))
  fill-convert (vertex ps) before bytes entry st e at len found kind = absurd st
  fill-convert (edge ps) before bytes entry st e at len found kind = absurd st
  fill-convert (path es) before bytes entry st e at len found kind = absurd st
  fill-convert (array es raw) before bytes entry st e at len found kind = absurd st
  fill-convert (object ps) before bytes entry st e at len found kind = absurd st
  fill-convert (binary l b) before bytes entry st e at len found kind = absurd st
