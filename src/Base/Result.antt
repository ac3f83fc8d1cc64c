-- ===== src/Base/Result.antt =====
-- Errors as values: a call that may throw returns a `Result`.
use mathlib.Core.Bool.{Bool, true, false, not}
use native.Mathlib.Omega.{arith}
use mathlib.Core.Path.{◌≡◌, refl}
use mathlib.Core.Logic.{◌⊎◌, inl, inr}

pub data Result {ℓ κ} (E : Type ℓ) (A : Type κ) : Type (ℓ ⊔ κ) where
  ok : A → Result E A
  err : E → Result E A

infixl 5 ◌>>=◌
abbrev pub ◌>>=◌ {ℓ κ μ} :
    {E : Type ℓ} {A : Type κ} {B : Type μ} → Result E A → (A → Result E B) → Result E B
err thrown >>= k = err thrown
ok x >>= k = k x

-- `throw e` unless the test holds.
abbrev pub ensure {ℓ} : {E : Type ℓ} → Bool → E → Result E (Unit {0})
ensure true e = ok tt
ensure false e = err e

infixl 5 ◌>>◌
abbrev pub ◌>>◌ {ℓ κ} : {E : Type ℓ} {B : Type κ} → Result E (Unit {0}) → Result E B → Result E B
m >> k = m >>= λ _. k

-- A block that returns: what its first call returned, and that the rest did.
pub split_bind {ℓ κ μ} :
    {E : Type ℓ} {A : Type κ} {B : Type μ} (k : A → Result E B) {out : B} (first : Result E A)
    → (first >>= k) ≡ ok out
    → (x : A) × (k x ≡ ok out) × (first ≡ ok x)
split_bind k (err thrown) returned = cc
split_bind k (ok x) returned = (x, returned, refl)

pub Result-cases {ℓ κ} :
    {E : Type ℓ} {A : Type κ} (r : Result E A) → ((a : A) × (r ≡ ok a)) ⊎ ((e : E) × (r ≡ err e))
Result-cases (ok a) = inl (a, refl)
Result-cases (err e) = inr (e, refl)

-- `ensure` that returned, a test that was negated, and a value that was returned twice.
pub ensured : {E : Type 0} (b : Bool) (e : E) (u : Unit {0}) → ensure b e ≡ ok u → b ≡ true
ensured true e u h = refl
ensured false e u h = cc

pub returned_value : {E A : Type 0} (x y : A) (r : Result E A) → r ≡ ok x → r ≡ ok y → x ≡ y
returned_value x y (ok z) e f = ground arith
returned_value x y (err z) e f = cc

pub negated : (b : Bool) → not b ≡ true → b ≡ false
negated false h = refl
negated true h = cc
