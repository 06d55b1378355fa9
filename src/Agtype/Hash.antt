-- ===== src/Agtype/Hash.antt =====
-- agtype_hash_scalar_value of agtype_util.c.
use Prim.Native.Nat.{bit_or, bit_xor}
use incubator_age.Prelude.{
  ℕ, ◌*◌, ◌/◌, ◌%◌, ◌^◌, ◌≡◌, refl, ap, sym, Bool, true, false, List, if◌then◌else◌,
}
use incubator_age.Prelude.Int.{eq_of_eqb_ℤ}
use incubator_age.Postgres.{Postgres}
use incubator_age.Result.{
  Result, ok, err, Error, ◌>>=◌, ok_injective, scalar_type_hash, scalar_type_equals,
  scalars_of_different_type,
}
use incubator_age.Agtype.{
  AgtypeValue, null, string, numeric, integer, float, boolean, vertex, same_type,
}
use incubator_age.Agtype.Number.{float_eq}
use incubator_age.Agtype.Text.Order.{key_total_order}
use incubator_age.Agtype.Equal.{equals_agtype_scalar_value}

-- the value's own hash
unfoldable pub scalar_hash : Postgres → AgtypeValue → Result ℕ
scalar_hash pg null = ok 1
scalar_hash pg (string s) = ok (pg.hash_any s % 2 ^ 32)
scalar_hash pg (numeric n) = ok (pg.hash_numeric n % 2 ^ 32)
scalar_hash pg (boolean b) = ok (if b then 2 else 4)
scalar_hash pg (integer i) = ok (pg.hashint8 i % 2 ^ 32)
scalar_hash pg (float f) = ok (pg.hashfloat8 f % 2 ^ 32)
scalar_hash pg _ = err scalar_type_hash

-- *hash after the call: the old value rotated left by a bit, and the value's hash mixed in
unfoldable pub agtype_hash_scalar_value : Postgres → AgtypeValue → ℕ → Result ℕ
unfolding scalar_hash
agtype_hash_scalar_value pg scalar_val hash = do
  tmp ← scalar_hash pg scalar_val
  ok (bit_xor (bit_or (hash * 2 % 2 ^ 32) (hash / 2 ^ 31)) tmp)

-- The hash functions of PostgreSQL respect the equalities of its numerics and floats.
pub record HashLaws (pg : Postgres) : Type 0 where
  pub numerics : (a b : List ℕ) → pg.numeric_eq a b ≡ true → pg.hash_numeric a ≡ pg.hash_numeric b
  pub floats : (a b : ℕ) → float_eq a b ≡ true → pg.hashfloat8 a ≡ pg.hashfloat8 b

-- The scalars that can be hashed.
abbrev pub Hashable : AgtypeValue → Type 0
Hashable (vertex _) = ⊥
Hashable _ = Unit

no_result :
    {A : Type 0} (c : Bool) (x y : Error) {v : A}
    → ◌≡◌ {A = Result A} (if c then err x else err y) (ok v)
    → ⊥
no_result true x y e = cc e
no_result false x y e = cc e

-- Two values other than vertices that equals_agtype_scalar_value finds equal get the same hash,
-- from the same hash before them, if PostgreSQL's hash_numeric and hashfloat8 respect equality.
pub equal_scalars-hash :
    (pg : Postgres) (a b : AgtypeValue) (hash : ℕ)
    → HashLaws pg
    → Hashable a
    → equals_agtype_scalar_value pg a b ≡ ok true
    → (h : ℕ) × (agtype_hash_scalar_value pg a hash ≡ ok h)
      × (agtype_hash_scalar_value pg b hash ≡ ok h)
unfolding equals_agtype_scalar_value agtype_hash_scalar_value
equal_scalars-hash pg null null hash laws s e = (_, refl, refl)
equal_scalars-hash pg (string a) (string b) hash laws s e = (
  _,
  refl,
  ap (λ x. agtype_hash_scalar_value pg (string x) hash)
      (sym ((key_total_order a b b).1 (eq_of_eqb_ℤ _ _ (ok_injective e)))),
)
equal_scalars-hash pg (numeric a) (numeric b) hash laws s e =
    (_, refl, rw (laws.numerics a b (ok_injective e)) refl)
equal_scalars-hash pg (boolean true) (boolean true) hash laws s e = (_, refl, refl)
equal_scalars-hash pg (boolean false) (boolean false) hash laws s e = (_, refl, refl)
equal_scalars-hash pg (boolean true) (boolean false) hash laws s e = absurd (cc e)
equal_scalars-hash pg (boolean false) (boolean true) hash laws s e = absurd (cc e)
equal_scalars-hash pg (integer a) (integer b) hash laws s e = (
  _,
  refl,
  ap (λ x. agtype_hash_scalar_value pg (integer x) hash) (sym (eq_of_eqb_ℤ _ _ (ok_injective e))),
)
equal_scalars-hash pg (float a) (float b) hash laws s e =
    (_, refl, rw (laws.floats a b (ok_injective e)) refl)
equal_scalars-hash pg (vertex a) b hash laws s e = absurd s
equal_scalars-hash pg a b hash laws s e =
    absurd (no_result (same_type a b) scalar_type_equals scalars_of_different_type e)
