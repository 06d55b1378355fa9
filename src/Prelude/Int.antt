-- ===== src/Prelude/Int.antt =====
-- Signed integers over the native numbers, under the library's names (its ℤ stands on the unary ℕ).
use Prim.Native.Nat.{ℕ, zero, suc, ◌+◌, ◌-◌, ◌*◌, ◌/◌, ◌%◌, ◌≤◌}
use mathlib.Core.Path.{◌≡◌}
use mathlib.Core.Bool.{Bool, true, not}
use native.Mathlib.Omega.{arith}
use incubator_age.Prelude.Tests.{leb, ltb, if◌then◌else◌}

-- `negsuc n` is -(n + 1).
pub data ℤ : Type 0 where
  pos : ℕ → ℤ
  negsuc : ℕ → ℤ

abbrev pub pos_part : ℤ → ℕ
pos_part (pos n) = n
pos_part (negsuc n) = 0

abbrev pub neg_part : ℤ → ℕ
neg_part (pos n) = 0
neg_part (negsuc n) = suc n

-- a - b, as an integer.
abbrev pub sub_ℕ : ℕ → ℕ → ℤ
sub_ℕ a b = if leb b a then pos (a - b) else negsuc (b - a - 1)

infixl 65 ◌+ℤ◌ ◌-ℤ◌
infixl 70 ◌*ℤ◌
infix 50 ◌≤ℤ◌ ◌<ℤ◌
unfoldable pub ◌+ℤ◌ : ℤ → ℤ → ℤ
a +ℤ b = sub_ℕ (pos_part a + pos_part b) (neg_part a + neg_part b)

unfoldable pub ◌-ℤ◌ : ℤ → ℤ → ℤ
a -ℤ b = sub_ℕ (pos_part a + neg_part b) (neg_part a + pos_part b)

unfoldable pub ◌*ℤ◌ : ℤ → ℤ → ℤ
a *ℤ b =
    sub_ℕ (pos_part a * pos_part b + neg_part a * neg_part b)
      (pos_part a * neg_part b + neg_part a * pos_part b)

abbrev pub ◌≤ℤ◌ : ℤ → ℤ → Type 0
a ≤ℤ b = pos_part a + neg_part b ≤ pos_part b + neg_part a

abbrev pub ◌<ℤ◌ : ℤ → ℤ → Type 0
a <ℤ b = suc (pos_part a + neg_part b) ≤ pos_part b + neg_part a

abbrev pub ltb_ℤ : ℤ → ℤ → Bool
ltb_ℤ a b = ltb (pos_part a + neg_part b) (pos_part b + neg_part a)

abbrev pub leb_ℤ : ℤ → ℤ → Bool
leb_ℤ a b = not (ltb_ℤ b a)

-- Equality as C tests it: neither is below the other.
abbrev pub eqb_ℤ : ℤ → ℤ → Bool
eqb_ℤ a b = if ltb_ℤ a b then ltb_ℤ b a else not (ltb_ℤ b a)

pub eq_of_parts : (a b : ℤ) → pos_part a + neg_part b ≡ pos_part b + neg_part a → a ≡ b
eq_of_parts a b h = ground arith

pub eq_of_eqb_ℤ : (a b : ℤ) → eqb_ℤ a b ≡ true → a ≡ b
eq_of_eqb_ℤ a b h = eq_of_parts a b (ground arith)

-- C's / and %, which truncate: the remainder has the sign of the dividend.
unfoldable pub div_ℤ : ℤ → ℤ → ℤ
div_ℤ (pos a) (pos b) = pos (a / b)
div_ℤ (pos a) (negsuc b) = sub_ℕ 0 (a / suc b)
div_ℤ (negsuc a) (pos b) = sub_ℕ 0 (suc a / b)
div_ℤ (negsuc a) (negsuc b) = pos (suc a / suc b)

unfoldable pub mod_ℤ : ℤ → ℤ → ℤ
mod_ℤ (pos a) (pos b) = pos (a % b)
mod_ℤ (pos a) (negsuc b) = pos (a % suc b)
mod_ℤ (negsuc a) (pos b) = sub_ℕ 0 (suc a % b)
mod_ℤ (negsuc a) (negsuc b) = sub_ℕ 0 (suc a % suc b)

-- -x, on the results 1, 0 and -1
abbrev pub opposite : ℤ → ℤ
opposite (pos zero) = pos 0
opposite (pos (suc n)) = negsuc n
opposite (negsuc n) = pos (suc n)
