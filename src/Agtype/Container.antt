-- ===== src/Agtype/Container.antt =====
-- agtype_container as the bytes from its header on, and the lookups of its agtentrys:
-- get_agtype_offset and get_agtype_length of agtype_util.c. A pointer into a container is the list
-- of the bytes from there on. Words are little-endian, as the machine stores them; a read past the
-- end, undefined in C, reads zeros.
pub mod Offsets
use incubator_age.Prelude.{
  ℕ, zero, suc, ◌+◌, ◌-◌, ◌*◌, ◌/◌, ◌%◌, ◌^◌, ◌≡◌, ◌<◌, refl, ap, List, [], ◌∷◌, ◌++◌, drop, take,
  replicate, length, arith, if◌then◌else◌,
}
use incubator_age.Prelude.Int.{ℤ}
use incubator_age.Prelude.Word.{to_int64, to_uint64}
use incubator_age.Agtype.Entry.{has_off, offlenfld, container_size}

-- n bytes of x, the lowest first.
unfoldable pub store_word : ℕ → ℕ → List ℕ
store_word zero x = []
store_word (suc n) x = (x % 256) ∷ store_word n (x / 256)

unfoldable pub load_word : ℕ → List ℕ → ℕ
load_word zero bytes = 0
load_word (suc n) [] = 0
load_word (suc n) (b ∷ bytes) = b + 256 * load_word n bytes

-- container->header
unfoldable pub header : List ℕ → ℕ
unfolding load_word
header agtc = load_word 4 agtc

-- container->children[i]
unfoldable pub child : List ℕ → ℕ → ℕ
unfolding load_word
child agtc i = load_word 4 (drop (4 + 4 * i) agtc)

-- the data that follows n agtentrys
unfoldable pub data_after : ℕ → List ℕ → List ℕ
data_after n agtc = drop (4 + 4 * n) agtc

-- The loop from entry index - 1 down, over the agtentrys.
unfoldable pub offset_loop : (ℕ → ℕ) → ℕ → ℕ → ℕ
offset_loop children zero offset = offset
offset_loop children (suc i) offset =
    let entry = children i in
    let total = (offset + offlenfld entry) % 2 ^ 32 in
    let rest = offset_loop children i total in if has_off entry then total else rest

unfoldable pub get_agtype_offset : List ℕ → ℕ → ℕ
unfolding offset_loop child
get_agtype_offset agtc index = offset_loop (child agtc) index 0

unfoldable pub get_agtype_length : List ℕ → ℕ → ℕ
unfolding get_agtype_offset
get_agtype_length agtc index =
    let entry = child agtc index in
    if has_off entry
    then (offlenfld entry + 2 ^ 32 - get_agtype_offset agtc index) % 2 ^ 32
    else offlenfld entry

-- INTALIGN
abbrev pub intalign : ℕ → ℕ
intalign offset = (offset + 3) / 4 * 4
