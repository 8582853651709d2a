-- ===== src/Prelude/Results.antt =====
-- Exceptions as values, for code that returns a value or raises an error code.
use mathlib.Core.Path.{◌≡◌, refl}
use mathlib.Core.Logic.{◌⊎◌, inl, inr}
use mathlib.Core.Bool.{Bool, true, false}

pub data Result {ℓ κ} (E : Type ℓ) (A : Type κ) : Type (ℓ ⊔ κ) where
  ok : A → Result E A
  raise : E → Result E A

infixl 5 ◌>>=◌ ◌>>◌
abbrev pub ◌>>=◌ {ℓ κ μ} :
    {E : Type ℓ} {A : Type κ} {B : Type μ} → Result E A → (A → Result E B) → Result E B
ok a >>= f = f a
raise e >>= f = raise e

abbrev pub ◌>>◌ {ℓ κ} : {E : Type ℓ} {B : Type κ} → Result E (Unit {0}) → Result E B → Result E B
m >> k = m >>= λ _. k

-- `if test: raise e`.
abbrev pub raise_if {ℓ} : {E : Type ℓ} → Bool → E → Result E (Unit {0})
raise_if true e = raise e
raise_if false e = ok tt

-- To split on a computed result and keep the equation.
pub Result-cases {ℓ κ} :
    {E : Type ℓ} {A : Type κ} (m : Result E A) → ((a : A) × (m ≡ ok a)) ⊎ ((e : E) × (m ≡ raise e))
Result-cases (ok a) = inl (a, refl)
Result-cases (raise e) = inr (e, refl)

-- What a chain that succeeds has passed.
module _ {ℓ} {E : Type ℓ} {B : Type 0} {b : B} where
  pub raise_if-ok :
      (test : Bool) (e : E) (k : Result E B)
      → (raise_if test e >> k) ≡ ok b
      → (test ≡ false) × (k ≡ ok b)
  raise_if-ok true e k h = absurd (cc h)
  raise_if-ok false e k h = (refl, h)

  pub >>-ok :
      (m : Result E (Unit {0})) (k : Result E B) → (m >> k) ≡ ok b → (m ≡ ok tt) × (k ≡ ok b)
  >>-ok (ok tt) k h = (refl, h)
  >>-ok (raise e) k h = absurd (cc h)

  pub >>=-ok {κ} :
      {A : Type κ} (m : Result E A) (f : A → Result E B)
      → (m >>= f) ≡ ok b
      → (a : A) × (m ≡ ok a) × (f a ≡ ok b)
  >>=-ok (ok a) f h = (a, refl, h)
  >>=-ok (raise e) f h = absurd (cc h)
