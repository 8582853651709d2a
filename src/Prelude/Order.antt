-- ===== src/Prelude/Order.antt =====
-- Ascending sequences of numbers, and cutting them by a bound.
use Prim.Native.Nat.{ℕ, zero, suc, ◌≤◌, ◌/◌}
use mathlib.Core.Path.{◌≡◌, refl, ap, sym}
use mathlib.Core.Logic.{inl, inr}
use mathlib.Core.Bool.{Bool, ◌&&◌}
use mathlib.Core.List.{List, [], ◌∷◌, map}
use native.Mathlib.Nat.{div-zero, le-div_iff_mul-le, div-mul-le_self, le_trans, le_refl}
use native.Mathlib.Omega.{arith}
use k5_vision.Prelude.Tests.{leb, if◌then◌else◌, Bool-cases}

-- Each element is at least the one before it, and the first at least `lo`.
abbrev pub AscendingFrom : ℕ → List ℕ → Type 0
AscendingFrom lo [] = Unit
AscendingFrom lo (x ∷ xs) = (lo ≤ x) × AscendingFrom x xs

pub div_mono : (a b r : ℕ) → a ≤ b → a / r ≤ b / r
div_mono a b zero h = rw (div-zero a, div-zero b) (le_refl 0)
div_mono a b (suc r) h =
    (le-div_iff_mul-le {k = suc r} (omega arith)).1 (le_trans (div-mul-le_self a (suc r)) h)

-- The elements that pass a test, in order.
abbrev pub keep_if {ℓ} : {A : Type ℓ} → (A → Bool) → List A → List A
keep_if p [] = []
keep_if p (x ∷ xs) = let rest = keep_if p xs in if p x then x ∷ rest else rest

-- The elements from the first that passes a test on.
abbrev pub from_first {ℓ} : {A : Type ℓ} → (A → Bool) → List A → List A
from_first p [] = []
from_first p (x ∷ xs) = let rest = from_first p xs in if p x then x ∷ xs else rest

pub AscendingFrom-weaken :
    {lo lo' : ℕ} (xs : List ℕ) → lo' ≤ lo → AscendingFrom lo xs → AscendingFrom lo' xs
AscendingFrom-weaken [] h a = tt
AscendingFrom-weaken (x ∷ xs) h a = (le_trans h a.0, a.1)

module _ {ℓ} {A : Type ℓ} (key : A → ℕ) where
  -- Behind an element that reaches the bound every element does.
  pub keep_if-ge_all :
      (bound lo : ℕ) (xs : List A)
      → AscendingFrom lo (map key xs)
      → bound ≤ lo
      → keep_if (λ x. leb bound (key x)) xs ≡ xs
  keep_if-ge_all bound lo [] a h = refl
  keep_if-ge_all bound lo (x ∷ xs) a h =
      let reached : bound ≤ key x = le_trans h a.0 in
      ground (arith, keep_if-ge_all bound (key x) xs a.1 reached)

  -- On an ascending list, to start at the first element that reaches the bound is to keep those
  -- that reach it.
  pub from_first-eq-keep_if :
      (bound lo : ℕ) (xs : List A)
      → AscendingFrom lo (map key xs)
      → from_first (λ x. leb bound (key x)) xs ≡ keep_if (λ x. leb bound (key x)) xs
  from_first-eq-keep_if bound lo [] a = refl
  from_first-eq-keep_if bound lo (x ∷ xs) a = elim (Bool-cases (leb bound (key x))) [
    | inl reached ↦
        rw reached (ap (x ∷◌) (sym (keep_if-ge_all bound (key x) xs a.1 (ground arith))))
    | inr below ↦ rw below (from_first-eq-keep_if bound (key x) xs a.1)
  ]

pub keep_if-keep_if {ℓ} :
    {A : Type ℓ} (p q : A → Bool) (xs : List A)
    → keep_if q (keep_if p xs) ≡ keep_if (λ x. p x && q x) xs
keep_if-keep_if p q [] = refl
keep_if-keep_if p q (x ∷ xs) = ground (arith, keep_if-keep_if p q xs)
