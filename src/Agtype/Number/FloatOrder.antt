-- ===== src/Agtype/Number/FloatOrder.antt =====
-- The order of floats that B-tree comparisons use.
use incubator_age.Prelude.{ℕ, ◌≡◌, ◌⊎◌, ◌↔◌, true, false, arith}
use incubator_age.Prelude.Int.{pos, negsuc}
use incubator_age.Prelude.Int.{opposite}
use incubator_age.Agtype.Number.{isnan, float_lt, float_eq, compare_two_floats_orderability}

-- compare_two_floats_orderability is a total order in which all NaNs are equal and come last: it
-- is 0 exactly on two NaNs or two numbers that `==` makes equal, swapping the arguments swaps the
-- sign, coming before is transitive, and every number comes before every NaN.
pub floats_total_order :
    (a b c : ℕ)
    → ((compare_two_floats_orderability a b ≡ pos 0)
        ↔ ((isnan a ≡ true) × (isnan b ≡ true) ⊎ (float_eq a b ≡ true)))
      × (compare_two_floats_orderability b a ≡ opposite (compare_two_floats_orderability a b))
      × (compare_two_floats_orderability a b ≡ negsuc 0
          → compare_two_floats_orderability b c ≡ negsuc 0
          → compare_two_floats_orderability a c ≡ negsuc 0)
      × (isnan a ≡ false → isnan b ≡ true → compare_two_floats_orderability a b ≡ negsuc 0)
unfolding float_lt float_eq compare_two_floats_orderability
floats_total_order a b c =
    ((λ h. ground arith, λ h. ground arith), ground arith, λ h k. ground arith, λ h k. ground arith)
