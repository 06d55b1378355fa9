-- ===== src/Agtype/Operators/Comparison.antt =====
-- agtype_eq, agtype_ne, agtype_lt, agtype_gt, agtype_le and agtype_ge of agtype_ops.c, against the
-- comparator of the btree operator class, agtype_btree_cmp of agtype.c.
use incubator_age.Prelude.{ℕ, ◌≡◌, refl, ◌↔◌, Bool, true, false, not, some, arith, ◌&&◌, ◌||◌}
use incubator_age.Prelude.Int.{ℤ, pos, ltb_ℤ, leb_ℤ, eqb_ℤ, eq_of_eqb_ℤ, ◌<ℤ◌}
use incubator_age.Postgres.{Postgres}
use incubator_age.Result.{Result, ok, err, ◌>>=◌}
use incubator_age.Agtype.Fill.{Deserialize}
use incubator_age.Agtype.Compare.{compare_agtype_containers_orderability}
use incubator_age.Agtype.Operators.{
  Datum, agtype_eq, agtype_ne, agtype_lt, agtype_gt, agtype_le, agtype_ge, agtype_btree_cmp,
}

-- The six results on one comparison, by its sign.
pub record Six (cmp : ℤ) (eq ne lt gt le ge : Bool) : Type 0 where
  pub equal : (eq ≡ true) ↔ (cmp ≡ pos 0)
  pub not_equal : ne ≡ not eq
  pub below : (lt ≡ true) ↔ (cmp <ℤ pos 0)
  pub above : (gt ≡ true) ↔ (pos 0 <ℤ cmp)
  pub not_above : le ≡ not gt
  pub not_below : ge ≡ not lt
  pub one_of_three : ((eq && lt) || (eq && gt) || (lt && gt)) ≡ false

-- The operators succeed and agree with the comparator, or all of them raise its error.
abbrev pub Agree :
    Result ℤ
    → Result Bool
    → Result Bool
    → Result Bool
    → Result Bool
    → Result Bool
    → Result Bool
    → Type 0
Agree (ok cmp) (ok eq) (ok ne) (ok lt) (ok gt) (ok le) (ok ge) = Six cmp eq ne lt gt le ge
Agree (err e) eq ne lt gt le ge =
    (eq ≡ err e) × (ne ≡ err e) × (lt ≡ err e) × (gt ≡ err e) × (le ≡ err e) × (ge ≡ err e)
Agree _ _ _ _ _ _ _ = ⊥

agree :
    (m : Result ℤ)
    → Agree m
        (m >>= λ cmp. ok (eqb_ℤ cmp (pos 0)))
        (m >>= λ cmp. ok (not (eqb_ℤ cmp (pos 0))))
        (m >>= λ cmp. ok (ltb_ℤ cmp (pos 0)))
        (m >>= λ cmp. ok (ltb_ℤ (pos 0) cmp))
        (m >>= λ cmp. ok (leb_ℤ cmp (pos 0)))
        (m >>= λ cmp. ok (leb_ℤ (pos 0) cmp))
agree (ok cmp) = record {
  equal = (λ e. eq_of_eqb_ℤ cmp (pos 0) e, λ e. rw e refl);
  not_equal = refl;
  below = ground arith;
  above = ground arith;
  not_above = refl;
  not_below = refl;
  one_of_three = ground arith;
}
agree (err e) = (refl, refl, refl, refl, refl, refl)

-- The comparator of the btree operator class decides all six operators, by its sign: below 0 it is
-- `<`, `<=` and `<>` that hold, at 0 `=`, `<=` and `>=`, and above 0 `>`, `>=` and `<>`; where it
-- raises an error, each operator raises the same.
pub agtype_btree_cmp-Agree :
    (pg : Postgres) (deserialize : Deserialize) (fuel : ℕ) (a b : Datum)
    → Agree
        (agtype_btree_cmp pg deserialize fuel (some a) (some b))
        (agtype_eq pg deserialize fuel a b)
        (agtype_ne pg deserialize fuel a b)
        (agtype_lt pg deserialize fuel a b)
        (agtype_gt pg deserialize fuel a b)
        (agtype_le pg deserialize fuel a b)
        (agtype_ge pg deserialize fuel a b)
unfolding agtype_btree_cmp agtype_eq agtype_ne agtype_lt agtype_gt agtype_le agtype_ge
agtype_btree_cmp-Agree pg deserialize fuel a b =
    agree (compare_agtype_containers_orderability pg deserialize fuel a b)
