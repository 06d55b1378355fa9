-- ===== src/Agtype/Sort/Order.antt =====
-- The comparator of pairs: by key, and for equal keys the later pair first.
use incubator_age.Prelude.{◌<◌, ◌≡◌, ◌⊎◌, false, arith}
use incubator_age.Agtype.{Pair}
use incubator_age.Agtype.Text.Order.{Before, key_total_order}
use incubator_age.Agtype.Sort.{PairBefore, length_compare_agtype_pair}

pub Before-cases :
    (a b : Pair) → PairBefore a b → Before a.key b.key ⊎ (a.key ≡ b.key) × (b.order < a.order)
unfolding length_compare_agtype_pair
Before-cases a b h = ground (arith, h false, (key_total_order a.key b.key a.key).1)
