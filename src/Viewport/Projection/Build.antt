-- ===== src/Viewport/Projection/Build.antt =====
-- What `_AxisProjection.build` of src/k5vision/media/viewport_client_projection.py makes.
use k5_vision.Prelude.{
  ℕ, zero, suc, ◌+◌, ◌≤◌, ◌≡◌, refl, sym, ap, subst, some, List, [], ◌∷◌, ltb, false, arith, length,
  get_elem?,
}
use k5_vision.Viewport.Projection.Axis.{AxisProjection, sorted_set, place, build}
use k5_vision.Viewport.Projection.Rising.{
  RisingFrom, Rising, Rising-sorted_set, Has-sorted_set, length-sorted_set, insert_unique_zero,
}

-- An axis between the pixels `offset` and `offset + pixels`.
pub record IsAxis (offset pixels : ℕ) (axis : AxisProjection) : Type 0 where
  pub logical_rising : Rising axis.logical
  pub physical_rising : Rising axis.physical
  pub same_length : length axis.logical ≡ length axis.physical
  pub intervals : 2 ≤ length axis.physical
  pub logical_start : get_elem? axis.logical 0 ≡ some 0
  pub physical_start : get_elem? axis.physical 0 ≡ some offset
  pub physical_end :
      (n : ℕ) → length axis.physical ≡ suc n → get_elem? axis.physical n ≡ some (offset + pixels)

module _ (extent pixels offset : ℕ) where
  length-place :
      (es : List ℕ) (previous : ℕ) → length (place extent pixels offset previous es) ≡ length es
  unfolding place
  length-place [] previous = refl
  length-place (e ∷ []) previous = refl
  length-place (e ∷ n ∷ es) previous = ap suc (length-place (n ∷ es) _)

  RisingFrom-place :
      (es : List ℕ) (previous : ℕ)
      → previous + length es ≤ offset + pixels
      → RisingFrom previous (place extent pixels offset previous es)
  unfolding place
  RisingFrom-place [] previous h = tt
  RisingFrom-place (e ∷ []) previous h = (omega arith, tt)
  RisingFrom-place (e ∷ n ∷ es) previous h =
      (omega arith, RisingFrom-place (n ∷ es) _ (omega arith))

  place_last :
      (es : List ℕ) (previous n : ℕ)
      → length es ≡ suc n
      → get_elem? (place extent pixels offset previous es) n ≡ some (offset + pixels)
  unfolding place
  place_last [] previous n h = absurd (omega arith)
  place_last (e ∷ []) previous zero h = refl
  place_last (e ∷ []) previous (suc n) h = absurd (omega arith)
  place_last (e ∷ f ∷ es) previous zero h = absurd (omega arith)
  place_last (e ∷ f ∷ es) previous (suc n) h = place_last (f ∷ es) _ n (omega arith)

  axis_of : List ℕ → AxisProjection
  axis_of rest = record {
    logical = 0 ∷ rest;
    physical = offset ∷ place extent pixels offset offset rest;
  }

  physical_end_at :
      (rest : List ℕ) (n : ℕ)
      → 1 ≤ length rest
      → suc (length (place extent pixels offset offset rest)) ≡ suc n
      → get_elem? (offset ∷ place extent pixels offset offset rest) n ≡ some (offset + pixels)
  physical_end_at rest zero h e = absurd (omega (arith, length-place rest offset))
  physical_end_at rest (suc n) h e =
      place_last rest offset n (omega (arith, length-place rest offset))

  axis_of-IsAxis :
      (rest : List ℕ)
      → Rising (0 ∷ rest)
      → 1 ≤ length rest
      → length rest ≤ pixels
      → IsAxis offset pixels (axis_of rest)
  unfolding axis_of
  axis_of-IsAxis rest r h k = record {
    logical_rising = r;
    physical_rising = RisingFrom-place rest offset (omega arith);
    same_length = omega (arith, length-place rest offset);
    intervals = omega (arith, length-place rest offset);
    logical_start = refl;
    physical_start = refl;
    physical_end = λ n e. physical_end_at rest n h e;
  }

  -- The edges, and the two ends, are logical positions of what is built.
  module _ (edges : List ℕ) (positive : 1 ≤ extent) where
    logical_start_at : (rest : List ℕ) × (sorted_set (0 ∷ extent ∷ edges) ≡ 0 ∷ rest)
    unfolding sorted_set
    logical_start_at =
        insert_unique_zero (sorted_set (extent ∷ edges)) (Rising-sorted_set (extent ∷ edges))

    logical_many : (rest : List ℕ) → sorted_set (0 ∷ extent ∷ edges) ≡ 0 ∷ rest → 1 ≤ length rest
    logical_many rest e =
        let (i, found) = Has-sorted_set extent 1 (0 ∷ extent ∷ edges) refl in
        many rest i (subst (λ (xs : List ℕ). get_elem? xs i ≡ some extent) e found)
      where
        many : (rest : List ℕ) (i : ℕ) → get_elem? (0 ∷ rest) i ≡ some extent → 1 ≤ length rest
        many [] zero h = absurd (ground arith)
        many [] (suc i) h = absurd (cc h)
        many (x ∷ rest) i h = omega arith

    pub build-IsAxis :
        length edges + 1 ≤ pixels
        → (axis : AxisProjection) × (build edges extent pixels offset ≡ some axis)
          × IsAxis offset pixels axis
          × (axis.logical ≡ sorted_set (0 ∷ extent ∷ edges))
    unfolding build axis_of
    build-IsAxis room =
        let (rest, e) = logical_start_at in
        let rising : Rising (0 ∷ rest) = subst Rising e (Rising-sorted_set (0 ∷ extent ∷ edges)) in
        let few : length rest ≤ pixels =
          omega (arith, length-sorted_set (0 ∷ extent ∷ edges), ap length e) in
        let test : ltb pixels (length rest) ≡ false = ground arith in
        (
          axis_of rest,
          rw e (ground arith),
          axis_of-IsAxis rest rising (logical_many rest e) few,
          sym e,
        )
