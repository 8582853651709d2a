-- ===== src/Viewport/Projection/Rising.antt =====
-- Strictly ascending lists, their positions, and the search in them.
use k5_vision.Prelude.{
  ℕ, zero, suc, ◌≤◌, ◌<◌, ◌≡◌, refl, subst, inl, inr, some, List, [], ◌∷◌, ltb, leb, ◌==◌, arith,
  length, get_elem?, Bool-cases,
}
use k5_vision.Viewport.Projection.Axis.{insert_unique, sorted_set, bisect_right}

abbrev pub RisingFrom : ℕ → List ℕ → Type 0
RisingFrom lo [] = Unit
RisingFrom lo (x ∷ xs) = (lo < x) × RisingFrom x xs

abbrev pub Rising : List ℕ → Type 0
Rising [] = Unit
Rising (x ∷ xs) = RisingFrom x xs

-- An element, by its position.
abbrev pub Has : List ℕ → ℕ → Type 0
Has xs v = (i : ℕ) × (get_elem? xs i ≡ some v)

pub RisingFrom-insert_unique :
    (lo v : ℕ) (xs : List ℕ) → lo < v → RisingFrom lo xs → RisingFrom lo (insert_unique v xs)
unfolding insert_unique
RisingFrom-insert_unique lo v [] h r = (h, tt)
RisingFrom-insert_unique lo v (x ∷ xs) h r =
    ground (arith, λ (p : x < v). RisingFrom-insert_unique x v xs p r.1)

pub Rising-insert_unique : (v : ℕ) (xs : List ℕ) → Rising xs → Rising (insert_unique v xs)
unfolding insert_unique
Rising-insert_unique v [] r = tt
Rising-insert_unique v (x ∷ xs) r =
    ground (arith, λ (p : x < v). RisingFrom-insert_unique x v xs p r)

pub Rising-sorted_set : (vs : List ℕ) → Rising (sorted_set vs)
unfolding sorted_set
Rising-sorted_set [] = tt
Rising-sorted_set (v ∷ vs) = Rising-insert_unique v (sorted_set vs) (Rising-sorted_set vs)

Has-cons : (x v : ℕ) (xs : List ℕ) → Has xs v → Has (x ∷ xs) v
Has-cons x v xs (i, h) = (suc i, h)

Has-insert_unique_self : (v : ℕ) (xs : List ℕ) → Has (insert_unique v xs) v
unfolding insert_unique
Has-insert_unique_self v [] = (0, refl)
Has-insert_unique_self v (x ∷ xs) = elim (Bool-cases (v == x)) [
  | inl same ↦ (0, ground arith)
  | inr differs ↦ elim (Bool-cases (ltb v x)) [
    | inl below ↦ (0, ground arith)
    | inr above ↦ let (i, found) = Has-insert_unique_self v xs in (suc i, ground arith)
  ]
]

pub Has-insert_unique :
    (u v i : ℕ) (xs : List ℕ) → get_elem? xs i ≡ some u → Has (insert_unique v xs) u
unfolding insert_unique
Has-insert_unique u v i [] h = absurd (cc h)
Has-insert_unique u v zero (x ∷ xs) h = elim (Bool-cases (v == x)) [
  | inl same ↦ (0, ground arith)
  | inr differs ↦ elim (Bool-cases (ltb v x)) [
    | inl below ↦ (1, ground arith)
    | inr above ↦ (0, ground arith)
  ]
]
Has-insert_unique u v (suc i) (x ∷ xs) h = elim (Bool-cases (v == x)) [
  | inl same ↦ (suc i, ground arith)
  | inr differs ↦ elim (Bool-cases (ltb v x)) [
    | inl below ↦ (suc (suc i), ground arith)
    | inr above ↦ let (j, found) = Has-insert_unique u v i xs h in (suc j, ground arith)
  ]
]

pub Has-sorted_set : (v i : ℕ) (vs : List ℕ) → get_elem? vs i ≡ some v → Has (sorted_set vs) v
unfolding sorted_set
Has-sorted_set v i [] h = absurd (cc h)
Has-sorted_set v zero (x ∷ vs) h =
    subst (λ u. Has (insert_unique x (sorted_set vs)) u) (cc h)
      (Has-insert_unique_self x (sorted_set vs))
Has-sorted_set v (suc i) (x ∷ vs) h =
    let (j, found) = Has-sorted_set v i vs h in Has-insert_unique v x j (sorted_set vs) found

pub length-insert_unique : (v : ℕ) (xs : List ℕ) → length (insert_unique v xs) ≤ suc (length xs)
unfolding insert_unique
length-insert_unique v [] = omega arith
length-insert_unique v (x ∷ xs) = let ih = length-insert_unique v xs in ground arith

pub length-sorted_set : (vs : List ℕ) → length (sorted_set vs) ≤ length vs
unfolding sorted_set
length-sorted_set [] = omega arith
length-sorted_set (v ∷ vs) =
    omega (arith, length-insert_unique v (sorted_set vs), length-sorted_set vs)

-- A sorted set of zero and others starts with zero.
pub insert_unique_zero :
    (xs : List ℕ) → Rising xs → (rest : List ℕ) × (insert_unique 0 xs ≡ 0 ∷ rest)
unfolding insert_unique
insert_unique_zero [] r = ([], refl)
insert_unique_zero (zero ∷ xs) r = (xs, refl)
insert_unique_zero (suc x ∷ xs) r = (suc x ∷ xs, ground arith)

RisingFrom-get_elem? :
    (lo i v : ℕ) (xs : List ℕ) → RisingFrom lo xs → get_elem? xs i ≡ some v → lo < v
RisingFrom-get_elem? lo i v [] r h = absurd (cc h)
RisingFrom-get_elem? lo zero v (x ∷ xs) r h = ground arith
RisingFrom-get_elem? lo (suc i) v (x ∷ xs) r h =
    omega (arith, RisingFrom-get_elem? x i v xs r.1 h, r.0)

-- What stands later is greater.
pub Rising-get_elem? :
    (i j u v : ℕ) (xs : List ℕ)
    → Rising xs
    → i < j
    → get_elem? xs i ≡ some u
    → get_elem? xs j ≡ some v
    → u < v
Rising-get_elem? i j u v [] r h hi hj = absurd (cc hi)
Rising-get_elem? i zero u v (x ∷ xs) r h hi hj = absurd (omega arith)
Rising-get_elem? zero (suc j) u v (x ∷ xs) r h hi hj =
    let first : x ≡ u = cc hi in omega (arith, RisingFrom-get_elem? x j v xs r hj, first)
Rising-get_elem? (suc i) (suc j) u v (x ∷ []) r h hi hj = absurd (cc hi)
Rising-get_elem? (suc i) (suc j) u v (x ∷ y ∷ xs) r h hi hj =
    Rising-get_elem? i j u v (y ∷ xs) r.1 (omega arith) hi hj

pub Rising-get_elem?_le :
    (i j u v : ℕ) (xs : List ℕ)
    → Rising xs
    → i ≤ j
    → get_elem? xs i ≡ some u
    → get_elem? xs j ≡ some v
    → u ≤ v
Rising-get_elem?_le i j u v xs r h hi hj = elim (Bool-cases (ltb i j)) [
  | inl before ↦ omega (arith, Rising-get_elem? i j u v xs r (ground arith) hi hj)
  | inr same ↦
      let e : i ≡ j = ground arith in let both : some u ≡ some v = cc (hi, hj, e) in ground arith
]

-- The element before the position that the search gives is not above the value.
pub bisect_right_below :
    (v i u : ℕ) (xs : List ℕ) → bisect_right xs v ≡ suc i → get_elem? xs i ≡ some u → u ≤ v
unfolding bisect_right
bisect_right_below v i u [] h hi = absurd (cc hi)
bisect_right_below v zero u (x ∷ xs) h hi = ground arith
bisect_right_below v (suc i) u (x ∷ xs) h hi = elim (Bool-cases (leb x v)) [
  | inl below ↦ bisect_right_below v i u xs (ground arith) hi
  | inr above ↦ absurd (ground arith)
]

-- The element at that position is above it.
pub bisect_right_above :
    (v i u : ℕ) (xs : List ℕ) → bisect_right xs v ≡ i → get_elem? xs i ≡ some u → v < u
unfolding bisect_right
bisect_right_above v i u [] h hi = absurd (cc hi)
bisect_right_above v zero u (x ∷ xs) h hi = ground arith
bisect_right_above v (suc i) u (x ∷ xs) h hi = elim (Bool-cases (leb x v)) [
  | inl below ↦ bisect_right_above v i u xs (ground arith) hi
  | inr above ↦ absurd (ground arith)
]

-- It is not behind an element that is above the value.
pub bisect_right_le :
    (v j u : ℕ) (xs : List ℕ) → get_elem? xs j ≡ some u → v < u → bisect_right xs v ≤ j
unfolding bisect_right
bisect_right_le v j u [] h above = absurd (cc h)
bisect_right_le v zero u (x ∷ xs) h above = ground arith
bisect_right_le v (suc j) u (x ∷ xs) h above =
    let ih = bisect_right_le v j u xs h above in ground arith

-- In a rising list the search finds an element behind its position.
pub bisect_right_self :
    (v j : ℕ) (xs : List ℕ) → Rising xs → get_elem? xs j ≡ some v → bisect_right xs v ≡ suc j
unfolding bisect_right
bisect_right_self v j [] r h = absurd (cc h)
bisect_right_self v zero (x ∷ []) r h = ground arith
bisect_right_self v zero (x ∷ y ∷ xs) r h = ground arith
bisect_right_self v (suc j) (x ∷ []) r h = absurd (cc h)
bisect_right_self v (suc j) (x ∷ y ∷ xs) r h =
    let ih = bisect_right_self v j (y ∷ xs) r.1 h in
    let above = Rising-get_elem? 0 (suc j) x v (x ∷ y ∷ xs) r (omega arith) refl h in ground arith

pub get_elem?_below : (i : ℕ) (xs : List ℕ) → i < length xs → (v : ℕ) × (get_elem? xs i ≡ some v)
get_elem?_below i [] h = absurd (omega arith)
get_elem?_below zero (x ∷ xs) h = (x, refl)
get_elem?_below (suc i) (x ∷ xs) h = get_elem?_below i xs (omega arith)

pub length-gt_of_get_elem? : (i v : ℕ) (xs : List ℕ) → get_elem? xs i ≡ some v → i < length xs
length-gt_of_get_elem? i v [] h = absurd (cc h)
length-gt_of_get_elem? zero v (x ∷ xs) h = omega arith
length-gt_of_get_elem? (suc i) v (x ∷ xs) h = omega (arith, length-gt_of_get_elem? i v xs h)
