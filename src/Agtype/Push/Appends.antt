-- ===== src/Agtype/Push/Appends.antt =====
-- append_key, append_value and append_element at a container that has room.
use incubator_age.Prelude.{
  ℕ, ◌*◌, leb, Bool-cases, inl, inr, ◌≤◌, ◌<◌, ◌≡◌, refl, Bool, true, Option, none, some, List, [],
  ◌∷◌, ◌++◌, length, ltb, arith,
}
use incubator_age.Postgres.{Postgres}
use incubator_age.Result.{ok}
use incubator_age.Agtype.{AgtypeValue, Pair}
use incubator_age.Agtype.Push.{
  ParseState, Cont, building_array, building_object, agtype_max_elems, agtype_max_pairs,
  append_element, append_value, append_key, grown, regrows,
}

abbrev pub state : Cont → ℕ → ParseState
state c size = record { cont_val = c; size = size }

regrows-true :
    (pg : Postgres) (width count size : ℕ)
    → width * (count * 2) ≤ pg.max_alloc_size
    → count ≤ size
    → regrows pg width count size ≡ true
regrows-true pg width count size memory fits = elim (Bool-cases (leb size count)) [
  | inl t ↦
      let e : size ≡ count = ground arith in
      let m : width * (size * 2) ≤ pg.max_alloc_size = rw e memory in
      let n : leb (width * (size * 2)) pg.max_alloc_size ≡ true = ground arith in rw (t, n) refl
  | inr f ↦ rw f refl
]

pub append_element-ok :
    (pg : Postgres) (xs : List AgtypeValue) (raw : Bool) (size : ℕ) (v : AgtypeValue)
    → length xs < agtype_max_elems pg
    → 64 * length xs ≤ pg.max_alloc_size
    → length xs ≤ size
    → 1 ≤ size
    → append_element pg (state (building_array xs raw) size) v
      ≡ ok (state (building_array (xs ++ v ∷ []) raw) (grown (length xs) size))
unfolding append_element
append_element-ok pg xs raw size v room memory fits some_room =
    let a : ltb (length xs) (agtype_max_elems pg) ≡ true = ground arith in
    let b : ltb (length xs) (grown (length xs) size) ≡ true = ground arith in
    let c = regrows-true pg 32 (length xs) size (omega (arith, memory)) fits in rw (a, c, b) refl

pub append_key-ok :
    (pg : Postgres) (xs : List Pair) (k : Option (List ℕ)) (size : ℕ) (new : List ℕ)
    → length xs < agtype_max_pairs pg
    → 144 * length xs ≤ pg.max_alloc_size
    → length xs ≤ size
    → 1 ≤ size
    → append_key pg (state (building_object xs k) size) new
      ≡ ok (state (building_object xs (some new)) (grown (length xs) size))
unfolding append_key
append_key-ok pg xs k size new room memory fits some_room =
    let a : ltb (length xs) (agtype_max_pairs pg) ≡ true = ground arith in
    let b : ltb (length xs) (grown (length xs) size) ≡ true = ground arith in
    let c = regrows-true pg 72 (length xs) size (omega (arith, memory)) fits in rw (a, c, b) refl

pub append_value-ok :
    (xs : List Pair) (k : List ℕ) (size : ℕ) (v : AgtypeValue)
    → length xs < size
    → append_value (state (building_object xs (some k)) size) v
      ≡ ok (
          state
            (building_object (xs ++ record { key = k; value = v; order = length xs } ∷ []) none)
            size)
unfolding append_value
append_value-ok xs k size v room = let a : ltb (length xs) size ≡ true = ground arith in rw a refl

pub grown_room : (n size : ℕ) → n ≤ size → 1 ≤ size → (n < grown n size) × (1 ≤ grown n size)
grown_room n size h k = (ground arith, ground arith)
