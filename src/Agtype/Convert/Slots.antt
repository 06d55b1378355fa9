-- ===== src/Agtype/Convert/Slots.antt =====
-- Reading a container's agtentrys back, as the loops of convert_agtype_array and
-- convert_agtype_object leave them.
use incubator_age.Prelude.{
  ℕ, zero, suc, ◌+◌, ◌*◌, ◌%◌, ◌^◌, ◌≤◌, ◌<◌, ◌≡◌, refl, ap, ◌∙◌, ◌⊎◌, inl, inr, true, false, some,
  List, [], ◌∷◌, ◌++◌, length, drop, get_elem?, drop-append_length, drop-append_le, Bool-cases,
  ◌==◌, arith,
}
use mathlib.Core.Path.{subst}
use mathlib.Core.List.{append_assoc}
use mathlib.Core.Option.{some-injective}
use incubator_age.Result.{ok}
use incubator_age.Agtype.Entry.{offlenmask, offlenfld, has_off, type_bits, end_offset-eq-add}
use incubator_age.Agtype.Container.{
  store_word, load_word, header, child, data_after, get_agtype_offset, get_agtype_length,
}
use incubator_age.Agtype.Container.Offsets.{start, Encodes, offset_and_length}
use incubator_age.Agtype.Convert.{Buffer, stride_entry}
use incubator_age.Agtype.Convert.Layout.{Conversion, Laid, length-store_word}

pub load_word-store_word_4 :
    (x : ℕ) (rest : List ℕ) → x < 2 ^ 32 → load_word 4 (store_word 4 x ++ rest) ≡ x
unfolding load_word store_word
load_word-store_word_4 x rest h = omega arith

pub load_word-store_word_8 :
    (x : ℕ) (rest : List ℕ) → x < 2 ^ 64 → load_word 8 (store_word 8 x ++ rest) ≡ x
unfolding load_word store_word
load_word-store_word_8 x rest h = omega arith

-- How long the k-th item is.
abbrev pub len_at : (cs : List Conversion) (i t p : ℕ) (s d : List ℕ) → Laid cs i t p s d → ℕ → ℕ
len_at [] i t p s d l k = 0
len_at (c ∷ cs) i t p s d l zero = length l.bytes
len_at (c ∷ cs) i t p s d l (suc k) =
    len_at cs (i + 1) (t + length l.bytes) (p + length l.bytes) l.later_slots l.later_content l.laid
      k

start-shift : (len : ℕ → ℕ) (k : ℕ) → start len (suc k) ≡ len 0 + start (λ j. len (suc j)) k
start-shift len zero = omega arith
start-shift len (suc k) = omega (arith, start-shift len k)

-- The k-th item: where it was converted, its agtentry and its bytes.
pub record ItemAt (c : Conversion) (len : ℕ → ℕ) (k i t p : ℕ) (s d : List ℕ) : Type 0 where
  pub before : Buffer
  pub entry : ℕ
  pub bytes : List ℕ
  pub later_slots : List ℕ
  pub later : List ℕ
  pub length_bytes : length bytes ≡ len k
  pub at : length before ≡ p + start len k
  pub converted : c before ≡ ok (entry, before ++ bytes)
  pub counted : offlenfld entry ≡ length bytes
  pub small : entry < 2 ^ 31
  pub fits : t + start len (suc k) ≤ offlenmask
  pub slot :
      drop (4 * k) s
      ≡ store_word 4 (stride_entry (i + k) entry (t + start len (suc k))) ++ later_slots
  pub content : drop (start len k) d ≡ bytes ++ later

entry_at :
    {i j t u : ℕ} (entry : ℕ) (rest : List ℕ)
    → i ≡ j
    → t ≡ u
    → store_word 4 (stride_entry i entry t) ++ rest ≡ store_word 4 (stride_entry j entry u) ++ rest
entry_at entry rest e f = rw (e, f) refl

pub item_at :
    (cs : List Conversion) (k : ℕ) (c : Conversion) (i t p : ℕ) (s d : List ℕ)
    (l : Laid cs i t p s d)
    → get_elem? cs k ≡ some c
    → ItemAt c (len_at cs i t p s d l) k i t p s d
item_at [] k c i t p s d l e = absurd (cc e)
item_at (c' ∷ cs) zero c i t p s d l e = record {
  before = l.before;
  entry = l.entry;
  bytes = l.bytes;
  later_slots = l.later_slots;
  later = l.later_content;
  length_bytes = refl;
  at = omega (arith, l.at);
  converted =
      subst (λ x. x l.before ≡ ok (l.entry, l.before ++ l.bytes)) (some-injective _ _ e)
        l.converted;
  counted = l.counted;
  small = l.small;
  fits = omega (arith, l.fits);
  slot = l.slots_are ∙ entry_at l.entry l.later_slots (omega arith) (omega arith);
  content = l.content_is;
}
item_at (c' ∷ cs) (suc k) c i t p s d l e =
    let b = length l.bytes in
    let len = len_at (c' ∷ cs) i t p s d l in
    let len' = len_at cs (i + 1) (t + b) (p + b) l.later_slots l.later_content l.laid in
    let it = item_at cs k c (i + 1) (t + b) (p + b) l.later_slots l.later_content l.laid e in
    let here : start len (suc k) ≡ b + start len' k = start-shift len k in
    let next : start len (suc (suc k)) ≡ b + start len' (suc k) = start-shift len (suc k) in
    let w = store_word 4 (stride_entry i l.entry (t + b)) in
    let skip : 4 * suc k ≡ length w + 4 * k =
      omega (arith, length-store_word 4 (stride_entry i l.entry (t + b))) in
    record {
      before = it.before;
      entry = it.entry;
      bytes = it.bytes;
      later_slots = it.later_slots;
      later = it.later;
      length_bytes = it.length_bytes;
      at = omega (arith, it.at, here);
      converted = it.converted;
      counted = it.counted;
      small = it.small;
      fits = omega (arith, it.fits, next);
      slot =
          ap (λ n. drop n s) skip
          ∙ ap (λ x. drop (length w + 4 * k) x) l.slots_are
          ∙ drop-append_length w l.later_slots (4 * k)
          ∙ it.slot
          ∙ entry_at it.entry it.later_slots (omega arith) (omega (arith, next));
      content =
          ap (λ n. drop n d) here
          ∙ ap (λ x. drop (b + start len' k) x) l.content_is
          ∙ drop-append_length l.bytes l.later_content (start len' k)
          ∙ it.content;
    }

-- The agtentry as it is stored: its type bits, and a length or an end offset.
stride_entry-fields :
    (i entry total len : ℕ)
    → entry < 2 ^ 31
    → total ≤ offlenmask
    → offlenfld entry ≡ len
    → (stride_entry i entry total < 2 ^ 32)
      × (type_bits (stride_entry i entry total) ≡ type_bits entry)
      × ((has_off (stride_entry i entry total) ≡ true)
            × (offlenfld (stride_entry i entry total) ≡ total)
          ⊎ (has_off (stride_entry i entry total) ≡ false)
            × (offlenfld (stride_entry i entry total) ≡ len))
unfolding stride_entry
stride_entry-fields i entry total len small fits e = elim (Bool-cases (i % 32 == 0)) [
  | inl t ↦
      rw (t, end_offset-eq-add entry total (omega arith))
        (omega arith, omega arith, inl (ground arith, omega arith))
  | inr t ↦ rw t (omega arith, refl, inr (ground arith, e))
]

get_elem?-lt :
    {A : Type 0} (xs : List A) (k : ℕ) → k < length xs → (x : A) × (get_elem? xs k ≡ some x)
get_elem?-lt [] k h = absurd (omega arith)
get_elem?-lt (x ∷ xs) zero h = (x, refl)
get_elem?-lt (x ∷ xs) (suc k) h = get_elem?-lt xs k (omega arith)

pub lt_of_get_elem? :
    {A : Type 0} (xs : List A) (k : ℕ) (x : A) → get_elem? xs k ≡ some x → k < length xs
lt_of_get_elem? [] k x e = absurd (cc e)
lt_of_get_elem? (y ∷ xs) zero x e = omega arith
lt_of_get_elem? (y ∷ xs) (suc k) x e = omega (arith, lt_of_get_elem? xs k x e)

-- A container: its header, its agtentrys and its data.
abbrev pub container_bytes : ℕ → List ℕ → List ℕ → List ℕ
container_bytes header slots content = store_word 4 header ++ (slots ++ content)

module _ (h : ℕ) (cs : List Conversion) (p : ℕ) (s d : List ℕ) (l : Laid cs 0 0 p s d)
    (n : length s ≡ 4 * length cs) where
  pub header_back : h < 2 ^ 32 → header (container_bytes h s d) ≡ h
  unfolding header
  header_back small = load_word-store_word_4 h (s ++ d) small

  -- past the header
  skip_header : (k : ℕ) → drop (4 + k) (container_bytes h s d) ≡ drop k (s ++ d)
  skip_header k =
      ap (λ j. drop j (container_bytes h s d)) {x = 4 + k} {y = length (store_word 4 h) + k}
        (omega (arith, length-store_word 4 h))
      ∙ drop-append_length (store_word 4 h) (s ++ d) k

  pub data_back : data_after (length cs) (container_bytes h s d) ≡ d
  unfolding data_after
  data_back =
      skip_header (4 * length cs)
      ∙ ap (λ j. drop j (s ++ d)) {x = 4 * length cs} {y = length s + 0} (omega arith)
      ∙ drop-append_length s d 0

  -- the agtentry of item k, as it is read
  child_at :
      (k : ℕ) (c : Conversion) (it : ItemAt c (len_at cs 0 0 p s d l) k 0 0 p s d)
      → k < length cs
      → child (container_bytes h s d) k
        ≡ stride_entry k it.entry (start (len_at cs 0 0 p s d l) (suc k))
  unfolding child
  child_at k c it lt =
      let total = start (len_at cs 0 0 p s d l) (suc k) in
      let w = stride_entry k it.entry total in
      let fields =
        stride_entry-fields k it.entry total (length it.bytes) it.small (omega (arith, it.fits))
          it.counted in
      ap (λ x. load_word 4 x)
        (skip_header (4 * k)
          ∙ drop-append_le (4 * k) s d (omega arith)
          ∙ ap (λ x. x ++ d)
              (it.slot ∙ entry_at it.entry it.later_slots (omega arith) (omega arith))
          ∙ append_assoc (store_word 4 w) it.later_slots d)
      ∙ load_word-store_word_4 w (it.later_slots ++ d) fields.0

  encodes : Encodes (child (container_bytes h s d)) (len_at cs 0 0 p s d l) (length cs)
  encodes = record {
    at = λ k lt.
        let (c, e) = get_elem?-lt cs k lt in
        let it = item_at cs k c 0 0 p s d l e in
        let total = start (len_at cs 0 0 p s d l) (suc k) in
        rw (child_at k c it lt) (
          (stride_entry-fields k it.entry total (len_at cs 0 0 p s d l k) it.small
            (omega (arith, it.fits)) (it.counted ∙ it.length_bytes)).2);
  }

  -- Where item k is read: its offset, its length, its bytes and its type bits.
  pub record ReadAt (c : Conversion) (k : ℕ) : Type 0 where
    pub before : Buffer
    pub entry : ℕ
    pub bytes : List ℕ
    pub later : List ℕ
    pub converted : c before ≡ ok (entry, before ++ bytes)
    pub aligned : length before ≡ p + get_agtype_offset (container_bytes h s d) k
    pub len : get_agtype_length (container_bytes h s d) k ≡ length bytes
    pub found : drop (get_agtype_offset (container_bytes h s d) k) d ≡ bytes ++ later
    pub kind : type_bits (child (container_bytes h s d) k) ≡ type_bits entry

  pub read_at : (k : ℕ) (c : Conversion) → get_elem? cs k ≡ some c → ReadAt c k
  read_at k c e =
      let it = item_at cs k c 0 0 p s d l e in
      let lt : k < length cs = lt_of_get_elem? cs k c e in
      let total = start (len_at cs 0 0 p s d l) (suc k) in
      let (off, len) =
        offset_and_length (container_bytes h s d) (len_at cs 0 0 p s d l) (length cs) k encodes lt
          (omega (arith, it.fits)) in
      let fields =
        stride_entry-fields k it.entry total (length it.bytes) it.small (omega (arith, it.fits))
          it.counted in
      record {
        before = it.before;
        entry = it.entry;
        bytes = it.bytes;
        later = it.later;
        converted = it.converted;
        aligned = omega (arith, it.at, off);
        len = omega (arith, len, it.length_bytes);
        found = ap (λ o. drop o d) off ∙ it.content;
        kind = ap type_bits (child_at k c it lt) ∙ fields.1;
      }
