-- ===== src/Agtype/Convert/Buffers.antt =====
-- What the operations on the output buffer do to its bytes.
use incubator_age.Prelude.{
  ℕ, ◌-◌, ◌≡◌, List, ◌++◌, length, drop, replicate, length-replicate, take-append_length,
  drop-append_length, drop-replicate,
}
use mathlib.Core.List.{append-nil}
use incubator_age.Agtype.Container.{intalign}
use incubator_age.Agtype.Convert.{copy_to_buffer, append_to_buffer, pad_buffer_to_int}

-- the padding that a buffer of this length needs
abbrev pub padding : ℕ → ℕ
padding n = intalign n - n

-- A write at the end of a first part goes over what follows that part.
pub copy_to_buffer-append :
    (pre rest bytes : List ℕ)
    → copy_to_buffer (pre ++ rest) (length pre) bytes ≡ pre ++ (bytes ++ drop (length bytes) rest)
unfolding copy_to_buffer
copy_to_buffer-append pre rest bytes =
    rw (take-append_length, drop-append_length pre rest (length bytes))

pub append_to_buffer-append : (b bytes : List ℕ) → append_to_buffer b bytes ≡ b ++ bytes
unfolding append_to_buffer
append_to_buffer-append b bytes =
    rw (take-append_length, drop-append_length, drop-replicate, append-nil)

pub pad_buffer_to_int-append :
    (b : List ℕ) → pad_buffer_to_int b ≡ (b ++ replicate (padding (length b)) 0, padding (length b))
unfolding pad_buffer_to_int
pad_buffer_to_int-append b =
    rw (take-append_length, length-replicate, drop-append_length, drop-replicate, append-nil)
