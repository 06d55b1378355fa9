-- ===== src/Agtype/Find/Search.antt =====
-- The binary search over an object's keys.
use incubator_age.Prelude.{
  ℕ, zero, suc, ◌+◌, ◌-◌, ◌/◌, ◌≤◌, ◌<◌, ◌≡◌, ◌≢◌, inl, inr, sym, false, Option, none, some, List,
  Bool-cases, ltb, arith,
}
use incubator_age.Result.{ok}
use incubator_age.Agtype.Text.Order.{Before, key_total_order, key_cmp_cases, Before-ne}
use incubator_age.Agtype.Find.{search_loop}
use native.Mathlib.Decide.{dec_lt}

-- The first n keys are strictly ascending.
pub record AscendingKeys (key_at : ℕ → List ℕ) (n : ℕ) : Type 0 where
  pub before : (i j : ℕ) → i < j → j < n → Before (key_at i) (key_at j)

-- The index of the key, or that no index has it.
abbrev pub Located : (ℕ → List ℕ) → List ℕ → ℕ → Option ℕ → Type 0
Located key_at key n (some m) = (m < n) × (key_at m ≡ key)
Located key_at key n none = (i : ℕ) → i < n → key_at i ≢ key

module _ (key_at : ℕ → List ℕ) (key : List ℕ) (n : ℕ) (asc : AscendingKeys key_at n) where
  -- what the loop has ruled out
  record Between (low high : ℕ) : Type 0 where
    order : low ≤ high
    inside : high ≤ n
    left : (i : ℕ) → i < low → Before (key_at i) key
    right : (i : ℕ) → high ≤ i → i < n → Before key (key_at i)

  Between-none :
      (low high : ℕ) → Between low high → ltb low high ≡ false → Located key_at key n none
  Between-none low high b h i lt e = elim (dec_lt i low) [
    | yes l ↦ Before-ne (key_at i) key (b.left i l) e
    | no l ↦ Before-ne key (key_at i) (b.right i (ground arith) lt) (sym e)
  ]

  go_right :
      (low high middle : ℕ)
      → Between low high
      → low ≤ middle
      → middle < high
      → Before (key_at middle) key
      → Between (middle + 1) high
  go_right low high middle b l h d = record {
    order = omega arith;
    inside = b.inside;
    left = λ i lt. elim (dec_lt i middle) [
      | yes p ↦
          (key_total_order (key_at i) (key_at middle) key).3
            (asc.before i middle p (omega (arith, b.inside))) d
      | no p ↦ let e : i ≡ middle = omega arith in rw e d
    ];
    right = b.right;
  }

  go_left :
      (low high middle : ℕ)
      → Between low high
      → low ≤ middle
      → middle < high
      → Before key (key_at middle)
      → Between low middle
  go_left low high middle b l h d = record {
    order = l;
    inside = omega (arith, b.inside);
    left = b.left;
    right = λ i le lt. elim (dec_lt middle i) [
      | yes p ↦ (key_total_order key (key_at middle) (key_at i)).3 d (asc.before middle i p lt)
      | no p ↦ let e : i ≡ middle = omega arith in rw e d
    ];
  }

  search_loop-Located :
      (fuel low high : ℕ)
      → Between low high
      → high - low < fuel
      → (r : Option ℕ) × (search_loop key_at key fuel low high ≡ ok r) × Located key_at key n r
  unfolding search_loop
  search_loop-Located zero low high b f = absurd (omega arith)
  search_loop-Located (suc fuel) low high b f = elim (Bool-cases (ltb low high)) [
    | inr stop ↦ (none, rw stop, Between-none low high b stop)
    | inl more ↦
        let middle = low + (high - low) / 2 in
        let l : low ≤ middle = omega arith in
        let h : middle < high = ground arith in
        elim (key_cmp_cases (key_at middle) key) [
          | inl d ↦
              let (r, e, p) =
                search_loop-Located fuel (middle + 1) high (go_right low high middle b l h d)
                  (omega arith) in
              (r, rw (more, d) e, p)
          | inr (inl d) ↦ (
            some middle,
            rw (more, d),
            (omega (arith, b.inside), (key_total_order (key_at middle) key key).1 d),
          )
          | inr (inr d) ↦
              let (r, e, p) =
                search_loop-Located fuel low middle (go_left low high middle b l h d.1)
                  (omega arith) in
              (r, rw (more, d.0) e, p)
        ]
  ]

-- Over n strictly ascending keys the binary search of find_agtype_value_from_container, started on
-- all of them with fuel for n rounds and the last test, ends; and it returns the index of the key,
-- or reports that no index below n has it.
pub search_loop_finds :
    (key_at : ℕ → List ℕ) (key : List ℕ) (n : ℕ)
    → AscendingKeys key_at n
    → (r : Option ℕ) × (search_loop key_at key (n + 1) 0 n ≡ ok r) × Located key_at key n r
search_loop_finds key_at key n asc =
    search_loop-Located key_at key n asc (n + 1) 0 n
      (record {
        order = omega arith;
        inside = omega arith;
        left = λ i h. absurd (omega arith);
        right = λ i h k. absurd (omega arith);
      })
      (omega arith)
