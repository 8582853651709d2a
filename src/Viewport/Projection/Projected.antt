-- ===== src/Viewport/Projection/Projected.antt =====
-- What `project_viewport_layout` of src/k5vision/media/viewport_client_projection.py makes of a
-- layout, and the points that `logical_point` gives.
use k5_vision.Prelude.{
  ℕ, ◌+◌, ◌-◌, ◌≤◌, ◌<◌, ◌≡◌, refl, ◌∙◌, ap, some, List, [], ◌∷◌, true, arith, pos, sub_ℕ, all,
}
use k5_vision.Viewport.Geometry.{ViewportPlacement, make_geometry, geometry_ok, placement_ok}
use k5_vision.Viewport.Projection.Axis.{AxisProjection, edge}
use k5_vision.Viewport.Projection.Rising.{Has}
use k5_vision.Viewport.Projection.Build.{IsAxis}
use k5_vision.Viewport.Projection.Edges.{edge_total, edge_bounds, edge_mono}
use k5_vision.Viewport.Projection.Client.{right, bottom, project_placement, project_placements}

-- A placement on the pixels of its edges.
pub record Placed (horizontal vertical : AxisProjection) (p q : ViewportPlacement) : Type 0 where
  pub same_slot : q.logical_slot ≡ p.logical_slot
  pub same_order : q.geometry.z_index ≡ p.geometry.z_index
  pub left_at : edge horizontal p.geometry.x ≡ some q.geometry.x
  pub top_at : edge vertical p.geometry.y ≡ some q.geometry.y
  pub right_at : edge horizontal (right p.geometry) ≡ some (right q.geometry)
  pub bottom_at : edge vertical (bottom p.geometry) ≡ some (bottom q.geometry)
  pub is_ok : placement_ok q ≡ true

abbrev pub AllPlaced :
    AxisProjection → AxisProjection → List ViewportPlacement → List ViewportPlacement → Type 0
AllPlaced h v [] [] = Unit
AllPlaced h v (p ∷ ps) (q ∷ qs) = Placed h v p q × AllPlaced h v ps qs
AllPlaced h v _ _ = ⊥

positive :
    (p : ViewportPlacement)
    → placement_ok p ≡ true
    → (p.geometry.x < right p.geometry) × (p.geometry.y < bottom p.geometry)
unfolding placement_ok geometry_ok
positive p valid = (ground arith, ground arith)

-- The two axes, on a client.
pub record IsProjection (h v : AxisProjection) (width height top : ℕ) : Type 0 where
  pub is_horizontal : IsAxis 0 width h
  pub is_vertical : IsAxis top height v
  pub narrow : width ≤ 16384
  pub low : top + height ≤ 16384

placed_at : ViewportPlacement → ℕ → ℕ → ℕ → ℕ → ViewportPlacement
placed_at p x y x' y' = record {
  logical_slot = p.logical_slot;
  geometry = record { x = x; y = y; width = x' - x; height = y' - y; z_index = p.geometry.z_index };
}

-- The limits of a placement on a client.
placed_at_ok :
    (p : ViewportPlacement) (x y x' y' : ℕ)
    → placement_ok p ≡ true
    → x < x'
    → y < y'
    → x' ≤ 16384
    → y' ≤ 16384
    → (make_geometry (pos x) (pos y) (sub_ℕ x' x) (sub_ℕ y' y) p.geometry.z_index
        ≡ some ((placed_at p x y x' y').geometry))
      × (placement_ok (placed_at p x y x' y') ≡ true)
unfolding placed_at make_geometry placement_ok geometry_ok
placed_at_ok p x y x' y' valid wide tall hx hy = (ground arith, ground arith)

place_known :
    (h v : AxisProjection) (p : ViewportPlacement) (x y x' y' : ℕ)
    → edge h p.geometry.x ≡ some x
    → edge v p.geometry.y ≡ some y
    → edge h (right p.geometry) ≡ some x'
    → edge v (bottom p.geometry) ≡ some y'
    → make_geometry (pos x) (pos y) (sub_ℕ x' x) (sub_ℕ y' y) p.geometry.z_index
      ≡ some ((placed_at p x y x' y').geometry)
    → placement_ok (placed_at p x y x' y') ≡ true
    → project_placement h v p ≡ some (placed_at p x y x' y')
unfolding project_placement placed_at
place_known h v p x y x' y' a b c d e f = rw (a, b, c, d, e, f) refl

-- The edges of placements are positions of the axes.
abbrev pub HasEdges : AxisProjection → AxisProjection → List ViewportPlacement → Type 0
HasEdges h v [] = Unit
HasEdges h v (p ∷ ps) =
    (Has h.logical p.geometry.x
      × Has h.logical (right p.geometry)
      × Has v.logical p.geometry.y
      × Has v.logical (bottom p.geometry))
    × HasEdges h v ps

module _ {h v : AxisProjection} {width height top : ℕ}
    (axes : IsProjection h v width height top) where
  place_one :
      (p : ViewportPlacement)
      → placement_ok p ≡ true
      → Has h.logical p.geometry.x
      → Has h.logical (right p.geometry)
      → Has v.logical p.geometry.y
      → Has v.logical (bottom p.geometry)
      → (q : ViewportPlacement) × (project_placement h v p ≡ some q) × Placed h v p q
  unfolding placed_at
  place_one p valid (i, hi) (j, hj) (k, hk) (l, hl) =
      let (x, hx) = edge_total axes.is_horizontal p.geometry.x i hi in
      let (x', hx') = edge_total axes.is_horizontal (right p.geometry) j hj in
      let (y, hy) = edge_total axes.is_vertical p.geometry.y k hk in
      let (y', hy') = edge_total axes.is_vertical (bottom p.geometry) l hl in
      let (some_wide, some_tall) = positive p valid in
      let wide : x < x' =
        edge_mono axes.is_horizontal p.geometry.x (right p.geometry) x x' hx hx' some_wide in
      let tall : y < y' =
        edge_mono axes.is_vertical p.geometry.y (bottom p.geometry) y y' hy hy' some_tall in
      let in_width = (edge_bounds axes.is_horizontal (right p.geometry) x' hx').1 in
      let in_height = (edge_bounds axes.is_vertical (bottom p.geometry) y' hy').1 in
      let (geometry_eq, valid_eq) =
        placed_at_ok p x y x' y' valid wide tall (omega (arith, in_width, axes.narrow))
          (omega (arith, in_height, axes.low)) in
      (
        placed_at p x y x' y',
        place_known h v p x y x' y' hx hy hx' hy' geometry_eq valid_eq,
        record {
          same_slot = refl;
          same_order = refl;
          left_at = hx;
          top_at = hy;
          right_at = hx' ∙ ap some (omega arith);
          bottom_at = hy' ∙ ap some (omega arith);
          is_ok = valid_eq;
        },
      )

  pub place_all :
      (ps : List ViewportPlacement)
      → all placement_ok ps ≡ true
      → HasEdges h v ps
      → (qs : List ViewportPlacement) × (project_placements h v ps ≡ some qs) × AllPlaced h v ps qs
  unfolding project_placements
  place_all [] valid has = ([], refl, tt)
  place_all (p ∷ ps) valid has =
      let (q, one, placed) = place_one p (ground arith) has.0.0 has.0.1 has.0.2 has.0.3 in
      let (qs, rest, all_placed) = place_all ps (ground arith) has.1 in
      (q ∷ qs, rw (one, rest) refl, (placed, all_placed))
