-- ===== src/Agtype/Matches/Laws.antt =====
-- What STARTS WITH and ENDS WITH decide.
use incubator_age.Prelude.{
  ℕ, zero, suc, ◌-◌, ◌≤◌, ◌≡◌, ◌↔◌, refl, ap, sym, ◌∙◌, Bool, true, List, [], ◌∷◌, ◌++◌, length,
  take, drop, ltb, arith, Bool-cases, inl, inr, length-append, length-drop, take-append-drop,
  take-append_length,
}
use incubator_age.Postgres.{Postgres, CStrings}
use incubator_age.Result.{Result, ok}
use incubator_age.Agtype.{string, boolean}
use incubator_age.Agtype.Sort.{QsortArg}
use incubator_age.Agtype.Convert.{agtype_value_to_agtype}
use incubator_age.Agtype.Operators.{Datum}
use incubator_age.Agtype.Operators.Datums.{Small, deserialize, written-ScalarDatum}
use incubator_age.Agtype.Matches.{
  fits_and, string_match, starts_test, ends_test, agtype_string_match_starts_with,
  agtype_string_match_ends_with,
}

-- no terminating byte within
abbrev pub NoNul : List ℕ → Type 0
NoNul [] = Unit
NoNul (c ∷ cs) = (1 ≤ c) × NoNul cs

-- strncmp compares the first n bytes of strings, where it meets no terminating byte before.
pub record StrncmpLaws (c : CStrings) : Type 0 where
  pub compares :
      (a b : List ℕ) (n : ℕ)
      → NoNul a
      → NoNul b
      → n ≤ length a
      → n ≤ length b
      → (c.same_start a b n ≡ true) ↔ (take n a ≡ take n b)

take-length : (xs : List ℕ) → take (length xs) xs ≡ xs
take-length [] = refl
take-length (x ∷ xs) = ap (λ ys. x ∷ ys) (take-length xs)

drop-NoNul : (n : ℕ) (xs : List ℕ) → NoNul xs → NoNul (drop n xs)
drop-NoNul zero xs h = h
drop-NoNul (suc n) [] h = h
drop-NoNul (suc n) (x ∷ xs) h = drop-NoNul n xs h.1

drop-append_length : (xs ys : List ℕ) → drop (length xs) (xs ++ ys) ≡ ys
drop-append_length [] ys = refl
drop-append_length (x ∷ xs) ys = drop-append_length xs ys

module _ (c : CStrings) (laws : StrncmpLaws c) (l r : List ℕ) (text : NoNul l)
    (part : NoNul r) where
  starts-prefix : (fits_and (starts_test c) l r ≡ true) ↔ ((rest : List ℕ) × (l ≡ r ++ rest))
  starts-prefix = elim (Bool-cases (ltb (length l) (length r))) [
    | inl t ↦
        rw t (λ h. absurd (cc h), λ p. absurd (ground (arith, ap length p.1, length-append r p.0)))
    | inr f ↦ rw f (
      (λ h.
          let same = (laws.compares l r (length r) text part (ground arith) (omega arith)).0 h in
          (
            drop (length r) l,
            sym (take-append-drop (length r) l)
                ∙ ap (λ xs. xs ++ drop (length r) l) (same ∙ take-length r),
          )),
      (λ p.
          (laws.compares l r (length r) text part (ground arith) (omega arith)).1
            (ap (λ xs. take (length r) xs) p.1 ∙ take-append_length r p.0 ∙ sym (take-length r))),
    )
  ]

  -- the last bytes of l, as many as r has
  ending : List ℕ
  ending = drop (length l - length r) l

  ends-suffix : (fits_and (ends_test c) l r ≡ true) ↔ ((before : List ℕ) × (l ≡ before ++ r))
  unfolding ending
  ends-suffix = elim (Bool-cases (ltb (length l) (length r))) [
    | inl t ↦
        rw t (λ h. absurd (cc h), λ p. absurd (ground (arith, ap length p.1, length-append p.0 r)))
    | inr f ↦
        let fits : length r ≤ length l = ground arith in
        let size : length ending ≡ length r = length-drop (length l - length r) l ∙ omega arith in
        let law =
          laws.compares ending r (length r) (drop-NoNul (length l - length r) l text) part
            (omega (arith, size)) (omega arith) in
        rw f (
          (λ h.
              let same : ending ≡ r =
                sym (take-length ending) ∙ ap (λ n. take n ending) size ∙ law.0 h ∙ take-length r in
              (
                take (length l - length r) l,
                sym (take-append-drop (length l - length r) l)
                    ∙ ap (λ xs. take (length l - length r) l ++ xs) same,
              )),
          (λ p.
              let lengths : length l - length r ≡ length p.0 =
                omega (arith, ap length p.1, length-append p.0 r) in
              let same : ending ≡ r =
                ap (λ n. drop n l) lengths
                ∙ ap (λ xs. drop (length p.0) xs) p.1
                ∙ drop-append_length p.0 r in
              law.1 (ap (λ xs. take (length r) xs) same)),
        )
  ]

match-strings :
    (pg : Postgres) (qsort_arg : QsortArg) (depth : ℕ) (test : List ℕ → List ℕ → Bool)
    (l r : List ℕ) (dl dr : Datum)
    → Small pg (string l)
    → Small pg (string r)
    → agtype_value_to_agtype (string l) ≡ ok dl
    → agtype_value_to_agtype (string r) ≡ ok dr
    → string_match pg (deserialize pg qsort_arg depth) test dl dr
      ≡ agtype_value_to_agtype (boolean (fits_and test l r))
unfolding string_match
match-strings pg qsort_arg depth test l r dl dr fl fr el er =
    let x = written-ScalarDatum pg qsort_arg depth (string l) dl fl el in
    let y = written-ScalarDatum pg qsort_arg depth (string r) dr fr er in
    rw (x.scalar, y.scalar, x.read, y.read) refl

-- The datum of a Boolean that decides P.
abbrev pub Decides : Result Datum → Type 0 → Type 0
Decides m P = (b : Bool) × (m ≡ agtype_value_to_agtype (boolean b)) × ((b ≡ true) ↔ P)

-- On the datums of two strings without a zero byte, STARTS WITH gives the Boolean whether the
-- second is a prefix of the first, and ENDS WITH whether it is a suffix, provided that strncmp
-- compares the first n bytes of its arguments.
pub starts_and_ends_with :
    (pg : Postgres) (qsort_arg : QsortArg) (depth : ℕ) (c : CStrings) (l r : List ℕ) (dl dr : Datum)
    → StrncmpLaws c
    → NoNul l
    → NoNul r
    → Small pg (string l)
    → Small pg (string r)
    → agtype_value_to_agtype (string l) ≡ ok dl
    → agtype_value_to_agtype (string r) ≡ ok dr
    → Decides
        (agtype_string_match_starts_with pg (deserialize pg qsort_arg depth) c dl dr)
        ((rest : List ℕ) × (l ≡ r ++ rest))
      × Decides
          (agtype_string_match_ends_with pg (deserialize pg qsort_arg depth) c dl dr)
          ((before : List ℕ) × (l ≡ before ++ r))
unfolding agtype_string_match_starts_with agtype_string_match_ends_with
starts_and_ends_with pg qsort_arg depth c l r dl dr laws text part fl fr el er = (
  (
    fits_and (starts_test c) l r,
    match-strings pg qsort_arg depth (starts_test c) l r dl dr fl fr el er,
    starts-prefix c laws l r text part,
  ),
  (
    fits_and (ends_test c) l r,
    match-strings pg qsort_arg depth (ends_test c) l r dl dr fl fr el er,
    ends-suffix c laws l r text part,
  ),
)
