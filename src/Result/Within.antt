-- ===== src/Result/Within.antt =====
-- Results that are not the error `out_of_fuel`, and whose value has a property.
use incubator_age.Prelude.{◌≡◌, ◌≢◌, refl, Bool, true, false, if◌then◌else◌}
use mathlib.Core.Path.{subst}
use incubator_age.Result.{Result, ok, err, guard, ◌>>=◌, ◌>>◌, Error, out_of_fuel}

abbrev pub NotFuel : Error → Type 0
NotFuel out_of_fuel = ⊥
NotFuel _ = Unit

-- A result with the property, or an error other than out_of_fuel.
pub data Within {A : Type 0} (P : A → Type 0) : Result A → Type 0 where
  returns : {a : A} → P a → Within P (ok a)
  fails : {e : Error} → NotFuel e → Within P (err e)

pub bind-Within :
    {A B : Type 0} {P : A → Type 0} {Q : B → Type 0} {m : Result A} {f : A → Result B}
    → Within P m
    → ((a : A) → P a → Within Q (f a))
    → Within Q (m >>= f)
bind-Within (returns {a} h) k = k a h
bind-Within (fails h) k = fails h

pub if-Within :
    {A : Type 0} {P : A → Type 0} (b : Bool) {m n : Result A}
    → (b ≡ true → Within P m)
    → (b ≡ false → Within P n)
    → Within P (if b then m else n)
if-Within true h k = h refl
if-Within false h k = k refl

abbrev pub Any : {A : Type 0} → A → Type 0
Any _ = Unit

pub map-Within :
    {A : Type 0} {P Q : A → Type 0} {m : Result A} → ((a : A) → P a → Q a) → Within P m → Within Q m
map-Within f (returns {a} h) = returns (f a h)
map-Within f (fails h) = fails h

pub not_fuel : {A : Type 0} {P : A → Type 0} {m : Result A} → Within P m → m ≢ err out_of_fuel
not_fuel (returns h) e = cc
not_fuel (fails {e} h) same = let q : e ≡ out_of_fuel = cc in subst NotFuel q h

guard-Within : (b : Bool) (e : Error) → NotFuel e → Within Any (guard b e)
guard-Within true e h = returns tt
guard-Within false e h = fails h

-- a test, and the rest of the body
pub check-Within :
    {A : Type 0} (b : Bool) (e : Error) {m : Result A}
    → NotFuel e
    → Within Any m
    → Within Any (guard b e >> m)
check-Within b e h w = bind-Within (guard-Within b e h) (λ _ _. w)
