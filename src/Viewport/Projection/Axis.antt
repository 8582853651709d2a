-- ===== src/Viewport/Projection/Axis.antt =====
-- `_AxisProjection` of src/k5vision/media/viewport_client_projection.py: the edges of a layout
-- along one axis, and the client pixels that they are placed at. `none` is a `ValueError`.
use k5_vision.Prelude.{
  ℕ, zero, suc, ◌+◌, ◌-◌, ◌*◌, ◌/◌, min, max, Option, none, some, List, [], ◌∷◌, ltb, leb, ◌==◌,
  if◌then◌else◌, length, get_elem?,
}

pub record AxisProjection : Type 0 where
  pub logical : List ℕ
  pub physical : List ℕ

-- A sorted list without duplicates, with one more element.
unfoldable pub insert_unique : ℕ → List ℕ → List ℕ
insert_unique v [] = v ∷ []
insert_unique v (x ∷ xs) =
    let rest = insert_unique v xs in
    if v == x then x ∷ xs else if ltb v x then v ∷ x ∷ xs else x ∷ rest

-- `sorted({...})`
unfoldable pub sorted_set : List ℕ → List ℕ
sorted_set [] = []
sorted_set (v ∷ vs) = insert_unique v (sorted_set vs)

-- The loop over `logical[1:]`, from the pixel before: an inner edge leaves a pixel for each edge
-- that is still to come, and the last edge stands at the end.
unfoldable pub place : ℕ → ℕ → ℕ → ℕ → List ℕ → List ℕ
place extent pixels offset previous [] = []
place extent pixels offset previous (edge ∷ []) = (offset + pixels) ∷ []
place extent pixels offset previous (edge ∷ next ∷ edges) =
    let remaining = length (next ∷ edges) in
    let selected = offset + edge * pixels / extent in
    let pixel = min (offset + pixels - remaining) (max (previous + 1) selected) in
    pixel ∷ place extent pixels offset pixel (next ∷ edges)

abbrev pub tail : List ℕ → List ℕ
tail [] = []
tail (x ∷ xs) = xs

-- `build`
unfoldable pub build : List ℕ → ℕ → ℕ → ℕ → Option AxisProjection
build edges extent pixels offset =
    let logical = sorted_set (0 ∷ extent ∷ edges) in
    if ltb pixels (length logical - 1)
    then none
    else some (record {
      logical = logical;
      physical = offset ∷ place extent pixels offset offset (tail logical);
    })

-- `bisect_right`, on a sorted list.
unfoldable pub bisect_right : List ℕ → ℕ → ℕ
bisect_right [] v = 0
bisect_right (x ∷ xs) v = let rest = bisect_right xs v in if leb x v then suc rest else 0

-- By the position behind the element that is looked for.
unfoldable pub edge_at : List ℕ → List ℕ → ℕ → ℕ → Option ℕ
edge_at logical physical value zero = none
edge_at logical physical value (suc index) = elim (get_elem? logical index) [
  | none ↦ none
  | some l ↦ if l == value then get_elem? physical index else none
]

unfoldable pub edge : AxisProjection → ℕ → Option ℕ
edge axis value = edge_at axis.logical axis.physical value (bisect_right axis.logical value)

-- The last logical integer that the pixel covers.
unfoldable pub interpolate : ℕ → Option ℕ → Option ℕ → Option ℕ → Option ℕ → Option ℕ
interpolate pixel (some logical_start) (some logical_end) (some physical_start)
      (some physical_end) =
    let numerator = (pixel - physical_start + 1) * (logical_end - logical_start) in
    let denominator = physical_end - physical_start in
    some (logical_start + (numerator + denominator - 1) / denominator - 1)
interpolate pixel _ _ _ _ = none

unfoldable pub inverse_at : List ℕ → List ℕ → ℕ → ℕ → Option ℕ
inverse_at logical physical pixel zero = none
inverse_at logical physical pixel (suc index) =
    if leb (length physical - 1) index
    then none
    else interpolate pixel (get_elem? logical index) (get_elem? logical (suc index))
        (get_elem? physical index) (get_elem? physical (suc index))

unfoldable pub inverse : AxisProjection → ℕ → Option ℕ
inverse axis pixel = inverse_at axis.logical axis.physical pixel (bisect_right axis.physical pixel)
