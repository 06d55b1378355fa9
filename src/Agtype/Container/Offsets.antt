-- ===== src/Agtype/Container/Offsets.antt =====
-- The mixed encoding of lengths and end offsets in agtentrys.
use incubator_age.Prelude.{
  ℕ, zero, suc, ◌+◌, ◌^◌, ◌≡◌, ◌<◌, ◌≤◌, ◌⊎◌, inl, inr, true, false, List, arith,
}
use incubator_age.Agtype.Entry.{has_off, offlenfld}
use incubator_age.Agtype.Container.{child, offset_loop, get_agtype_offset, get_agtype_length}

-- The sum of the first i lengths: where item i begins.
abbrev pub start : (ℕ → ℕ) → ℕ → ℕ
start len zero = 0
start len (suc i) = start len i + len i

-- Each of the first n agtentrys holds the length of its item, or where the item ends.
pub record Encodes (entry len : ℕ → ℕ) (n : ℕ) : Type 0 where
  pub at :
      (i : ℕ)
      → i < n
      → (has_off (entry i) ≡ true) × (offlenfld (entry i) ≡ start len (suc i))
        ⊎ (has_off (entry i) ≡ false) × (offlenfld (entry i) ≡ len i)

offset_loop-start :
    (entry len : ℕ → ℕ) (n i acc : ℕ)
    → Encodes entry len n
    → i ≤ n
    → acc + start len i < 2 ^ 32
    → offset_loop entry i acc ≡ acc + start len i
unfolding offset_loop
offset_loop-start entry len n zero acc e h b = omega arith
offset_loop-start entry len n (suc i) acc e h b = elim (e.at i h) [
  | inl p ↦ ground arith
  | inr p ↦
      ground (arith, offset_loop-start entry len n i (acc + len i) e (omega arith) (omega arith))
]

-- Where each of a container's agtentrys holds the length of its item or the offset at which the
-- item ends, and the items have less than 2^28 bytes in all, get_agtype_offset returns where item
-- i begins and get_agtype_length how long it is, however the two kinds are mixed.
pub offset_and_length :
    (agtc : List ℕ) (len : ℕ → ℕ) (n i : ℕ)
    → Encodes (child agtc) len n
    → i < n
    → start len (suc i) < 2 ^ 28
    → (get_agtype_offset agtc i ≡ start len i) × (get_agtype_length agtc i ≡ len i)
unfolding get_agtype_length
offset_and_length agtc len n i e h b =
    let o = offset_loop-start (child agtc) len n i 0 e (omega arith) (omega arith) in
    (omega (arith, o), elim (e.at i h) [ inl p ↦ ground (arith, o) | inr p ↦ ground (arith, o) ])
