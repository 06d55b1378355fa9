-- ===== src/Agtype/Push/Build.antt =====
-- push_agtype_value_scalar on the tokens of a whole value.
use incubator_age.Prelude.{
  ℕ, ◌+◌, ◌*◌, ◌≤◌, ◌<◌, ◌≡◌, refl, ap, sym, ◌∙◌, Bool, true, false, Option, none, some, List, [],
  ◌∷◌, ◌++◌, length, length-append, arith,
}
use mathlib.Core.List.{append_assoc, append-nil}
use incubator_age.Postgres.{Postgres}
use incubator_age.Result.{Result, ok, err, ◌>>=◌}
use incubator_age.Agtype.{
  AgtypeValue, null, string, numeric, integer, float, boolean, vertex, edge, path, array, object,
  binary, Elems, nil, cons, Pairs, end, pair, num_elems, num_pairs, is_a_agtype_scalar, Token, key,
  value, elem, begin_array, end_array, begin_object, end_object, Pair, pairs_of, elems_of,
}
use incubator_age.Agtype.Sort.{QsortArg, uniqueify_pairs}
use incubator_age.Agtype.Iterator.{Visited, unset, item}
use incubator_age.Agtype.Push.{
  ParseState, Pushed, Cont, building_array, building_object, agtype_max_elems, agtype_max_pairs,
  push_agtype_value_scalar, append_element, append_value, append_to_parent, end_container, grown,
}
use incubator_age.Agtype.Push.Appends.{
  state, append_element-ok, append_key-ok, append_value-ok, grown_room,
}
use incubator_age.Agtype.Push.Tokens.{item_tokens, elems_tokens, pairs_tokens}

module _ (pg : Postgres) (qsort_arg : QsortArg) where
  -- The value that is built: arrays that are not raw, and objects without duplicate keys, the
  -- order fields counting the pairs.
  abbrev mutual
    pub built : AgtypeValue → AgtypeValue
    built (array es raw) = array (elems_of (built_elems es)) false
    built (object ps) = object (pairs_of (uniqueify_pairs qsort_arg (built_pairs 0 ps)))
    built v = v

    pub built_elems : Elems → List AgtypeValue
    built_elems nil = []
    built_elems (cons e es) = built e ∷ built_elems es

    pub built_pairs : ℕ → Pairs → List Pair
    built_pairs n end = []
    built_pairs n (pair k v o ps) =
        record { key = k; value = built v; order = n } ∷ built_pairs (n + 1) ps

  -- No binary, and containers within AGTYPE_MAX_ELEMS and AGTYPE_MAX_PAIRS whose entries can be
  -- doubled within MaxAllocSize.
  abbrev mutual
    pub Sized : AgtypeValue → Type 0
    Sized (array es raw) =
        (num_elems es ≤ agtype_max_elems pg)
        × (64 * num_elems es ≤ pg.max_alloc_size)
        × SizedElems es
    Sized (object ps) =
        (num_pairs ps ≤ agtype_max_pairs pg)
        × (144 * num_pairs ps ≤ pg.max_alloc_size)
        × SizedPairs ps
    Sized (binary n b) = ⊥
    Sized v = Unit

    pub SizedElems : Elems → Type 0
    SizedElems nil = Unit
    SizedElems (cons e es) = Sized e × SizedElems es

    pub SizedPairs : Pairs → Type 0
    SizedPairs end = Unit
    SizedPairs (pair k v o ps) = Sized v × SizedPairs ps

  unfoldable pub push_all : List ParseState → List (Token × Visited) → Result (List ParseState)
  push_all pstate [] = ok pstate
  push_all pstate (t ∷ ts) = do
    (res, pstate') ← push_agtype_value_scalar pg qsort_arg pstate t.0 t.1
    push_all pstate' ts

  push_all-append :
      (ts us : List (Token × Visited)) (s : List ParseState)
      → push_all s (ts ++ us) ≡ (push_all s ts >>= λ s'. push_all s' us)
  unfolding push_all
  push_all-append [] us s = refl
  push_all-append (t ∷ ts) us s =
      first (λ s. push_all-append ts us s) (push_agtype_value_scalar pg qsort_arg s t.0 t.1)
    where
      first :
          ((s : List ParseState) → push_all s (ts ++ us) ≡ (push_all s ts >>= λ s'. push_all s' us))
          → (m : Result (Option AgtypeValue × List ParseState))
          → (m >>= λ r. push_all r.1 (ts ++ us))
            ≡ ((m >>= λ r. push_all r.1 ts) >>= λ s'. push_all s' us)
      first later (ok r) = later r.1
      first later (err e) = refl

  -- the token of a value that goes into this container
  abbrev pub token_of : Cont → Token
  token_of (building_array xs raw) = elem
  token_of (building_object ps k) = value

  -- Room for what is there, and some.
  record Grown (xs : ℕ) (m : Result (List ParseState)) (c : Cont) (rest : List ParseState)
      : Type 0 where
    size : ℕ
    returns : m ≡ ok (state c size ∷ rest)
    room : xs ≤ size
    positive : 1 ≤ size

  one_state :
      (m : Result ParseState) (r : Option AgtypeValue) (rest : List ParseState)
      → (◌>>=◌ {X = Pushed} (m >>= λ s. ok (r, s ∷ rest)) (λ x. ok x.1))
        ≡ (m >>= λ p. ok (p ∷ rest))
  one_state (ok s) r rest = refl
  one_state (err e) r rest = refl

  scalar_push :
      (c : Cont) (size : ℕ) (rest : List ParseState) (v : AgtypeValue)
      → is_a_agtype_scalar v ≡ true
      → push_all (state c size ∷ rest) ((token_of c, item v) ∷ [])
        ≡ (append_to_parent pg c (state c size) v >>= λ p. ok (p ∷ rest))
  unfolding push_all push_agtype_value_scalar append_to_parent
  scalar_push (building_array xs raw) size rest v h =
      rw h (one_state (append_element pg (state (building_array xs raw) size) v) none rest)
  scalar_push (building_object ps k) size rest v h =
      rw h (one_state (append_value (state (building_object ps k) size) v) none rest)

  end_array_push :
      (xs : List AgtypeValue) (n : ℕ) (c : Cont) (size : ℕ) (rest : List ParseState)
      → push_all (state (building_array xs false) n ∷ state c size ∷ rest) ((end_array, unset) ∷ [])
        ≡ (append_to_parent pg c (state c size) (array (elems_of xs) false) >>= λ p. ok (p ∷ rest))
  unfolding push_all push_agtype_value_scalar end_container
  end_array_push xs n c size rest = one_state _ _ rest

  end_object_push :
      (xs : List Pair) (k : Option (List ℕ)) (n : ℕ) (c : Cont) (size : ℕ) (rest : List ParseState)
      → push_all (state (building_object xs k) n ∷ state c size ∷ rest) ((end_object, unset) ∷ [])
        ≡ (append_to_parent pg c (state c size) (object (pairs_of (uniqueify_pairs qsort_arg xs)))
            >>= λ p. ok (p ∷ rest))
  unfolding push_all push_agtype_value_scalar end_container
  end_object_push xs k n c size rest = one_state _ _ rest

  -- a bind on the element that was appended
  array_step :
      (next : List ParseState → Result (List ParseState)) (xs : List AgtypeValue) (raw : Bool)
      (size : ℕ) (v : AgtypeValue) (rest : List ParseState)
      → append_element pg (state (building_array xs raw) size) v
        ≡ ok (state (building_array (xs ++ v ∷ []) raw) (grown (length xs) size))
      → ((append_to_parent pg (building_array xs raw) (state (building_array xs raw) size) v
            >>= λ p. ok (p ∷ rest))
          >>= next)
        ≡ next (state (building_array (xs ++ v ∷ []) raw) (grown (length xs) size) ∷ rest)
  unfolding append_to_parent
  array_step next xs raw size v rest e = rw e refl

  object_step :
      (next : List ParseState → Result (List ParseState)) (xs : List Pair) (k : List ℕ) (size : ℕ)
      (v : AgtypeValue) (rest : List ParseState)
      → length xs < size
      → ((append_to_parent pg
              (building_object xs (some k))
              (state (building_object xs (some k)) size)
              v
            >>= λ p. ok (p ∷ rest))
          >>= next)
        ≡ next (
            state
              (building_object (xs ++ record { key = k; value = v; order = length xs } ∷ []) none)
              size
            ∷ rest)
  unfolding append_to_parent
  object_step next xs k size v rest room = rw (append_value-ok xs k size v room) refl

  key_step :
      (xs : List Pair) (size : ℕ) (rest : List ParseState) (new : List ℕ)
      (ts : List (Token × Visited))
      → length xs < agtype_max_pairs pg
      → 144 * length xs ≤ pg.max_alloc_size
      → length xs ≤ size
      → 1 ≤ size
      → push_all (state (building_object xs none) size ∷ rest) ((key, item (string new)) ∷ ts)
        ≡ push_all (state (building_object xs (some new)) (grown (length xs) size) ∷ rest) ts
  unfolding push_all push_agtype_value_scalar
  key_step xs size rest new ts room memory fits some_room =
      rw (append_key-ok pg xs none size new room memory fits some_room) refl

  mutual
    unfolding push_all push_agtype_value_scalar

    item_push :
        (v : AgtypeValue) (c : Cont) (size : ℕ) (rest : List ParseState)
        → Sized v
        → push_all (state c size ∷ rest) (item_tokens (token_of c) v)
          ≡ (append_to_parent pg c (state c size) (built v) >>= λ p. ok (p ∷ rest))
    item_push (array es raw) c size rest p =
        let g =
          elems_push es [] false 4 (state c size ∷ rest) p.2 (omega arith) (omega arith)
            (omega (arith, p.0)) (omega (arith, p.1)) in
        push_all-append (elems_tokens es) ((end_array, unset) ∷ [])
          (state (building_array [] false) 4 ∷ state c size ∷ rest)
        ∙ ap (λ m. m >>= λ s. push_all s ((end_array, unset) ∷ [])) g.returns
        ∙ end_array_push (built_elems es) g.size c size rest
    item_push (object ps) c size rest p =
        let g =
          pairs_push ps [] 4 (state c size ∷ rest) p.2 (omega arith) (omega arith)
            (omega (arith, p.0)) (omega (arith, p.1)) in
        push_all-append (pairs_tokens ps) ((end_object, unset) ∷ [])
          (state (building_object [] none) 4 ∷ state c size ∷ rest)
        ∙ ap (λ m. m >>= λ s. push_all s ((end_object, unset) ∷ [])) g.returns
        ∙ end_object_push (built_pairs 0 ps) none g.size c size rest
    item_push (binary n b) c size rest p = absurd p
    item_push null c size rest p = scalar_push c size rest null refl
    item_push (string x) c size rest p = scalar_push c size rest (string x) refl
    item_push (numeric x) c size rest p = scalar_push c size rest (numeric x) refl
    item_push (integer x) c size rest p = scalar_push c size rest (integer x) refl
    item_push (float x) c size rest p = scalar_push c size rest (float x) refl
    item_push (boolean x) c size rest p = scalar_push c size rest (boolean x) refl
    item_push (vertex x) c size rest p = scalar_push c size rest (vertex x) refl
    item_push (edge x) c size rest p = scalar_push c size rest (edge x) refl
    item_push (path x) c size rest p = scalar_push c size rest (path x) refl

    elems_push :
        (es : Elems) (xs : List AgtypeValue) (raw : Bool) (size : ℕ) (rest : List ParseState)
        → SizedElems es
        → length xs ≤ size
        → 1 ≤ size
        → length xs + num_elems es ≤ agtype_max_elems pg
        → 64 * (length xs + num_elems es) ≤ pg.max_alloc_size
        → Grown
            (length xs)
            (push_all (state (building_array xs raw) size ∷ rest) (elems_tokens es))
            (building_array (xs ++ built_elems es) raw)
            rest
    elems_push nil xs raw size rest p fits some_room max memory = record {
      size = size;
      returns = ap (λ x. ok (state (building_array x raw) size ∷ rest)) (sym (append-nil xs));
      room = fits;
      positive = some_room;
    }
    elems_push (cons e es) xs raw size rest p fits some_room max memory =
        let xs' = xs ++ built e ∷ [] in
        let grows = grown_room (length xs) size fits some_room in
        let g =
          elems_push es xs' raw (grown (length xs) size) rest p.1
            (omega (arith, length-append xs (built e ∷ []), grows.0)) grows.1
            (omega (arith, length-append xs (built e ∷ [])))
            (omega (arith, memory, length-append xs (built e ∷ []))) in
        record {
          size = g.size;
          returns =
              push_all-append (item_tokens elem e) (elems_tokens es)
                (state (building_array xs raw) size ∷ rest)
              ∙ ap (λ m. m >>= λ s. push_all s (elems_tokens es))
                  (item_push e (building_array xs raw) size rest p.0)
              ∙ array_step (λ s. push_all s (elems_tokens es)) xs raw size (built e) rest
                  (append_element-ok pg xs raw size (built e) (omega arith) (omega (arith, memory))
                    fits some_room)
              ∙ g.returns
              ∙ ap (λ x. ok (state (building_array x raw) g.size ∷ rest))
                  (append_assoc xs (built e ∷ []) (built_elems es));
          room = omega (arith, g.room, length-append xs (built e ∷ []));
          positive = g.positive;
        }

    pairs_push :
        (ps : Pairs) (xs : List Pair) (size : ℕ) (rest : List ParseState)
        → SizedPairs ps
        → length xs ≤ size
        → 1 ≤ size
        → length xs + num_pairs ps ≤ agtype_max_pairs pg
        → 144 * (length xs + num_pairs ps) ≤ pg.max_alloc_size
        → Grown
            (length xs)
            (push_all (state (building_object xs none) size ∷ rest) (pairs_tokens ps))
            (building_object (xs ++ built_pairs (length xs) ps) none)
            rest
    pairs_push end xs size rest p fits some_room max memory = record {
      size = size;
      returns = ap (λ x. ok (state (building_object x none) size ∷ rest)) (sym (append-nil xs));
      room = fits;
      positive = some_room;
    }
    pairs_push (pair k v o ps) xs size rest p fits some_room max memory =
        let q : Pair = record { key = k; value = built v; order = length xs } in
        let xs' = xs ++ q ∷ [] in
        let size' = grown (length xs) size in
        let grows = grown_room (length xs) size fits some_room in
        let len : length xs' ≡ length xs + 1 = omega (arith, length-append xs (q ∷ [])) in
        let g =
          pairs_push ps xs' size' rest p.1 (omega (arith, len, grows.0)) grows.1
            (omega (arith, len)) (omega (arith, memory, len)) in
        record {
          size = g.size;
          returns =
              key_step xs size rest k (item_tokens value v ++ pairs_tokens ps) (omega arith)
                (omega (arith, memory)) fits some_room
              ∙ push_all-append (item_tokens value v) (pairs_tokens ps)
                  (state (building_object xs (some k)) size' ∷ rest)
              ∙ ap (λ m. m >>= λ s. push_all s (pairs_tokens ps))
                  (item_push v (building_object xs (some k)) size' rest p.0)
              ∙ object_step (λ s. push_all s (pairs_tokens ps)) xs k size' (built v) rest grows.0
              ∙ g.returns
              ∙ ap (λ n. ok (state (building_object (xs' ++ built_pairs n ps) none) g.size ∷ rest))
                  len
              ∙ ap (λ x. ok (state (building_object x none) g.size ∷ rest))
                  (append_assoc xs (q ∷ []) (built_pairs (length xs + 1) ps));
          room = omega (arith, g.room, len);
          positive = g.positive;
        }

-- From no state at all, the calls of push_agtype_value_scalar for the tokens of an array, and of an
-- object, succeed, and the last of them, for the end token, returns the value that they describe
-- and leaves no state. The containers are within AGTYPE_MAX_ELEMS and AGTYPE_MAX_PAIRS at all
-- depths, and small enough that twice their entries, of 32 bytes for an element and 72 for a pair,
-- are within MaxAllocSize, as the entries are doubled where they are full; they hold no binary; arrays come out as not raw, and objects as uniqueify_agtype_object
-- leaves them, with the order fields counting the pairs.
pub push_tokens_build :
    (pg : Postgres) (qsort_arg : QsortArg) (es : Elems) (ps : Pairs)
    → Sized pg qsort_arg (array es false)
    → Sized pg qsort_arg (object ps)
    → ((push_all pg qsort_arg [] ((begin_array, unset) ∷ elems_tokens es) >>= λ s.
          push_agtype_value_scalar pg qsort_arg s end_array unset)
        ≡ ok (some (built pg qsort_arg (array es false)), []))
      × ((push_all pg qsort_arg [] ((begin_object, unset) ∷ pairs_tokens ps) >>= λ s.
            push_agtype_value_scalar pg qsort_arg s end_object unset)
          ≡ ok (some (built pg qsort_arg (object ps)), []))
unfolding push_all push_agtype_value_scalar end_container
push_tokens_build pg qsort_arg es ps a o =
    let g =
      elems_push pg qsort_arg es [] false 4 [] a.2 (omega arith) (omega arith) (omega (arith, a.0))
        (omega (arith, a.1)) in
    let h =
      pairs_push pg qsort_arg ps [] 4 [] o.2 (omega arith) (omega arith) (omega (arith, o.0))
        (omega (arith, o.1)) in
    (
      ap (λ m. m >>= λ s. push_agtype_value_scalar pg qsort_arg s end_array unset) g.returns,
      ap (λ m. m >>= λ s. push_agtype_value_scalar pg qsort_arg s end_object unset) h.returns,
    )
