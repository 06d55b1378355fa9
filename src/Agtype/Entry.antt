-- ===== src/Agtype/Entry.antt =====
-- agtentry of src/include/utils/agtype.h: a 32-bit word of a flag (bit 31), a type (bits 28 to 30)
-- and a length or end offset (bits 0 to 27); and the header word of a container.
use Prim.Native.Nat.{bit_or}
use incubator_age.Prelude.{
  ℕ, zero, suc, refl, ◌+◌, ◌*◌, ◌/◌, ◌%◌, ◌^◌, ◌<◌, ◌≡◌, Bool, true, ◌&&◌, ◌==◌, arith,
  if◌then◌else◌,
}

abbrev pub offlenmask : ℕ
offlenmask = 0x0FFFFFFF

-- The values of the type bits, shifted down by 28.
abbrev pub is_string : ℕ
is_string = 0

abbrev pub is_numeric : ℕ
is_numeric = 1

abbrev pub is_bool_false : ℕ
is_bool_false = 2

abbrev pub is_bool_true : ℕ
is_bool_true = 3

abbrev pub is_null : ℕ
is_null = 4

abbrev pub is_container : ℕ
is_container = 5

abbrev pub is_agtype : ℕ
is_agtype = 7

-- #define AGTE_OFFLENFLD(agte_)
abbrev pub offlenfld : ℕ → ℕ
offlenfld agte = agte % 2 ^ 28

-- #define AGTE_HAS_OFF(agte_)
abbrev pub has_off : ℕ → Bool
has_off agte = agte / 2 ^ 31 % 2 == 1

-- (agte_) & AGTENTRY_TYPEMASK, shifted down by 28
abbrev pub type_bits : ℕ → ℕ
type_bits agte = agte / 2 ^ 28 % 8

-- AGTENTRY_IS_… | x, on 32-bit words: the low 28 bits of the tag are zero.
unfoldable pub tagged : ℕ → ℕ → ℕ
tagged tag x = bit_or tag (x / 2 ^ 28) * 2 ^ 28 + x % 2 ^ 28

-- (meta & AGTENTRY_TYPEMASK) | totallen | AGTENTRY_HAS_OFF
unfoldable pub end_offset : ℕ → ℕ → ℕ
end_offset meta totallen = tagged (type_bits meta + 8) totallen

-- AGTE_ADVANCE_OFFSET(offset, agte), in uint32 arithmetic
abbrev pub advance_offset : ℕ → ℕ → ℕ
advance_offset offset agte =
    if has_off agte then offlenfld agte else (offset + offlenfld agte) % 2 ^ 32

-- flags of the header field in agtype_container, as numbers of bits
abbrev pub container_size : ℕ → ℕ
container_size header = header % 2 ^ 28

abbrev pub header_is_scalar : ℕ → Bool
header_is_scalar header = header / 2 ^ 28 % 2 == 1

abbrev pub header_is_object : ℕ → Bool
header_is_object header = header / 2 ^ 29 % 2 == 1

abbrev pub header_is_array : ℕ → Bool
header_is_array header = header / 2 ^ 30 % 2 == 1

-- all bits of a nibble, by evaluation
nibbles : ℕ → Bool
nibbles zero = true
nibbles (suc n) = (bit_or n 0 == n) && nibbles n

nibbles_sound : (n t : ℕ) → nibbles n ≡ true → t < n → bit_or t 0 ≡ t
unfolding nibbles
nibbles_sound zero t h lt = absurd (omega arith)
nibbles_sound (suc n) t h lt = ground (arith, nibbles_sound n t)

bit_or-zero : (t : ℕ) → t < 16 → bit_or t 0 ≡ t
unfolding nibbles
bit_or-zero t h = nibbles_sound 16 t refl h

-- Below 2^28 the union is a sum.
pub tagged-eq-add : (tag x : ℕ) → tag < 16 → x < 2 ^ 28 → tagged tag x ≡ tag * 2 ^ 28 + x
unfolding tagged
tagged-eq-add tag x ht hx =
    let q : x / 2 ^ 28 ≡ 0 = omega arith in rw (q, bit_or-zero tag ht) (omega arith)

pub end_offset-eq-add :
    (meta totallen : ℕ)
    → totallen < 2 ^ 28
    → end_offset meta totallen ≡ (type_bits meta + 8) * 2 ^ 28 + totallen
unfolding end_offset
end_offset-eq-add meta totallen h = tagged-eq-add (type_bits meta + 8) totallen (omega arith) h
