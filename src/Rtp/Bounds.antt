-- ===== src/Rtp/Bounds.antt =====
-- What the readers of packets use of byte strings and of `is_rtp_v2`.
use k5_vision.Prelude.{
  ℕ, zero, suc, ◌≤◌, ◌≡◌, refl, true, List, [], ◌∷◌, ◌++◌, arith, length, take, drop, ap,
}
use k5_vision.Rtp.{Bytes, is_rtp_v2}

pub take-append-drop {ℓ} : {A : Type ℓ} (n : ℕ) (xs : List A) → xs ≡ take n xs ++ drop n xs
take-append-drop zero xs = refl
take-append-drop (suc n) [] = refl
take-append-drop (suc n) (x ∷ xs) = ap (x ∷◌) (take-append-drop n xs)

pub length-ge_of_is_rtp_v2 : (p : Bytes) → is_rtp_v2 p ≡ true → 12 ≤ length p
unfolding is_rtp_v2
length-ge_of_is_rtp_v2 p h = ground arith
