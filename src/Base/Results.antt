-- ===== src/Base/Results.antt =====
-- Go's pair of a value and an error, of which one is meant.
use mathlib.Core.Path.{◌≡◌, refl}
use mathlib.Core.Logic.{◌⊎◌, inl, inr}
use mathlib.Core.Bool.{Bool, true, false}
use native.Mathlib.Omega.{arith}
use res.Base.Tests.{if◌then◌else◌}

pub data Result {ℓ} (E : Type 0) (A : Type ℓ) : Type ℓ where
  ok : A → Result E A
  err : E → Result E A

infixl 5 ◌>>=◌
abbrev pub ◌>>=◌ {ℓ κ} :
    {E : Type 0} {A : Type ℓ} {B : Type κ} → Result E A → (A → Result E B) → Result E B
ok a >>= f = f a
err e >>= f = err e

pub Result-cases {ℓ} :
    {E : Type 0} {A : Type ℓ} (r : Result E A) → ((a : A) × (r ≡ ok a)) ⊎ ((e : E) × (r ≡ err e))
Result-cases (ok a) = inl (a, refl)
Result-cases (err e) = inr (e, refl)

-- Three early returns in a row, passed by.
pub guards-eq-ok {ℓ} :
    {E : Type 0} {A : Type ℓ} (a b c : Bool) (x y z : E) (v w : A)
    → (if a then err x else if b then err y else if c then err z else ok v) ≡ ok w
    → (a ≡ false) × (b ≡ false) × (c ≡ false) × (v ≡ w)
guards-eq-ok true b c x y z v w h = absurd (ground arith)
guards-eq-ok false true c x y z v w h = absurd (ground arith)
guards-eq-ok false false true x y z v w h = absurd (ground arith)
guards-eq-ok false false false x y z v w h = (refl, refl, refl, ground arith)
