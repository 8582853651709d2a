-- ===== src/Viewport/Projection/Pointing.antt =====
-- Pixels of the projected layout against points of the logical one
-- (src/k5vision/media/viewport_client_projection.py).
use k5_vision.Prelude.{
  ℕ, zero, suc, ◌≤◌, ◌<◌, ◌≡◌, refl, subst, inl, inr, some, List, [], ◌∷◌, Bool, ltb, leb, ◌&&◌,
  true, arith, get_elem?, Bool-cases, if◌then◌else◌, pos,
}
use k5_vision.Viewport.Geometry.{ViewportGeometry, ViewportPlacement, layout_ok}
use k5_vision.Viewport.Projection.Axis.{AxisProjection, edge, inverse}
use k5_vision.Viewport.Projection.Build.{IsAxis}
use k5_vision.Viewport.Projection.Edges.{edge_mono}
use k5_vision.Viewport.Projection.Hits.{PixelAt, inverse_total, edge-inverse}
use k5_vision.Viewport.Projection.Client.{
  ViewportClientProjection, Client, right, bottom, project_viewport_layout, logical_point,
}
use k5_vision.Viewport.Projection.Projected.{Placed, AllPlaced, IsProjection}
use k5_vision.Viewport.Projection.Projecting.{made-IsProjected}

-- The rectangle of a geometry, half open.
abbrev pub covers : ViewportGeometry → ℕ → ℕ → Bool
covers g x y = leb g.x x && ltb x (right g) && leb g.y y && ltb y (bottom g)

-- The slots of the placements over a point, in the order of the layout.
abbrev pub slots_at : ℕ → ℕ → List ViewportPlacement → List ℕ
slots_at x y [] = []
slots_at x y (p ∷ ps) =
    let rest = slots_at x y ps in if covers p.geometry x y then p.logical_slot ∷ rest else rest

-- Two rectangles have a point in common.
abbrev pub overlaps : ViewportGeometry → ViewportGeometry → Bool
overlaps a b = ltb a.x (right b) && ltb b.x (right a) && ltb a.y (bottom b) && ltb b.y (bottom a)

module _ {h v : AxisProjection} {width height top : ℕ}
    (axes : IsProjection h v width height top) where
  module _ {x y column row : ℕ} (at_x : PixelAt h x column) (at_y : PixelAt v y row) where
    covers-Placed :
        (p q : ViewportPlacement)
        → Placed h v p q
        → covers q.geometry x y ≡ covers p.geometry column row
    covers-Placed p q placed =
        let l =
          edge-inverse axes.is_horizontal x p.geometry.x q.geometry.x column placed.left_at at_x in
        let r =
          edge-inverse axes.is_horizontal x (right p.geometry) (right q.geometry) column
            placed.right_at at_x in
        let t = edge-inverse axes.is_vertical y p.geometry.y q.geometry.y row placed.top_at at_y in
        let b =
          edge-inverse axes.is_vertical y (bottom p.geometry) (bottom q.geometry) row
            placed.bottom_at at_y in
        ground arith

    slots_at-placed :
        (ps qs : List ViewportPlacement)
        → AllPlaced h v ps qs
        → slots_at x y qs ≡ slots_at column row ps
    slots_at-placed [] [] a = refl
    slots_at-placed [] (q ∷ qs) a = absurd a
    slots_at-placed (p ∷ ps) [] a = absurd a
    slots_at-placed (p ∷ ps) (q ∷ qs) a =
        let same = a.0.same_slot in ground (arith, covers-Placed p q a.0, slots_at-placed ps qs a.1)

edge-ltb :
    {offset pixels : ℕ} {axis : AxisProjection} (ax : IsAxis offset pixels axis) (u v p q : ℕ)
    → edge axis u ≡ some p
    → edge axis v ≡ some q
    → ltb p q ≡ ltb u v
edge-ltb {axis} ax u v p q hp hq = elim (Bool-cases (ltb u v)) [
  | inl below ↦ let order = edge_mono ax u v p q hp hq (ground arith) in ground arith
  | inr not_below ↦ elim (Bool-cases (ltb v u)) [
    | inl above ↦ let order = edge_mono ax v u q p hq hp (ground arith) in ground arith
    | inr not_above ↦
        let same : u ≡ v = ground arith in
        let both : some p ≡ some q = cc (hp, hq, same) in ground arith
  ]
]

module _ {h v : AxisProjection} {width height top : ℕ}
    (axes : IsProjection h v width height top) where
  overlaps-Placed :
      (p q p' q' : ViewportPlacement)
      → Placed h v p q
      → Placed h v p' q'
      → overlaps q.geometry q'.geometry ≡ overlaps p.geometry p'.geometry
  overlaps-Placed p q p' q' a b =
      let l = edge-ltb axes.is_horizontal _ _ _ _ a.left_at b.right_at in
      let r = edge-ltb axes.is_horizontal _ _ _ _ b.left_at a.right_at in
      let t = edge-ltb axes.is_vertical _ _ _ _ a.top_at b.bottom_at in
      let d = edge-ltb axes.is_vertical _ _ _ _ b.top_at a.bottom_at in ground arith

Placed-get_elem? :
    (h v : AxisProjection) (i : ℕ) (p q : ViewportPlacement) (ps qs : List ViewportPlacement)
    → AllPlaced h v ps qs
    → get_elem? ps i ≡ some p
    → get_elem? qs i ≡ some q
    → Placed h v p q
Placed-get_elem? h v i p q [] qs a hp hq = absurd (cc hp)
Placed-get_elem? h v i p q (r ∷ ps) [] a hp hq = absurd (cc hq)
Placed-get_elem? h v zero p q (r ∷ ps) (s ∷ qs) a hp hq =
    let first : r ≡ p = cc hp in
    let second : s ≡ q = cc hq in
    subst (λ (u : ViewportPlacement). Placed h v u q) first
      (subst (λ (u : ViewportPlacement). Placed h v r u) second a.0)
Placed-get_elem? h v (suc i) p q (r ∷ ps) (s ∷ qs) a hp hq =
    Placed-get_elem? h v i p q ps qs a.1 hp hq

point_known :
    (pr : ViewportClientProjection) (x y column row : ℕ)
    → x < pr.client_width
    → pr.content_top ≤ y
    → y < pr.client_height
    → inverse pr.horizontal x ≡ some column
    → inverse pr.vertical y ≡ some row
    → logical_point pr (pos x) (pos y) ≡ some (some (column, row))
unfolding logical_point
point_known pr x y column row a b c d e = ground arith

module _ (layout : List ViewportPlacement) (c : Client) (pr : ViewportClientProjection)
    (valid : layout_ok layout ≡ true) (made : project_viewport_layout layout c ≡ some pr) where
  -- A pixel of the content has a logical point, and exactly the slots whose projected rectangles
  -- cover the pixel are those whose logical rectangles cover the point.
  pub logical_point-covers :
      (x y : ℕ)
      → x < c.client_width
      → c.content_top ≤ y
      → y < c.client_height
      → (column : ℕ) × (row : ℕ) × (logical_point pr (pos x) (pos y) ≡ some (some (column, row)))
        × (slots_at x y pr.physical_layout ≡ slots_at column row layout)
  logical_point-covers x y hx hy hy' =
      let (fits, is) = made-IsProjected layout c pr valid made in
      let (column, at_column, in_x) =
        inverse_total is.axes.is_horizontal x (omega arith) (omega arith) in
      let (row, at_row, in_y) = inverse_total is.axes.is_vertical y hy (omega arith) in
      (
        column,
        row,
        point_known pr x y column row (omega (arith, is.same_width)) (omega (arith, is.same_top))
            (omega (arith, is.same_height)) at_column at_row,
        slots_at-placed is.axes in_x in_y layout pr.physical_layout is.placed,
      )

  -- Two projected placements overlap exactly when the two logical ones do.
  pub overlaps-project_viewport_layout :
      (i j : ℕ) (p q p' q' : ViewportPlacement)
      → get_elem? layout i ≡ some p
      → get_elem? pr.physical_layout i ≡ some q
      → get_elem? layout j ≡ some p'
      → get_elem? pr.physical_layout j ≡ some q'
      → overlaps q.geometry q'.geometry ≡ overlaps p.geometry p'.geometry
  overlaps-project_viewport_layout i j p q p' q' hp hq hp' hq' =
      let (fits, is) = made-IsProjected layout c pr valid made in
      let placed = λ (k : ℕ) (a b : ViewportPlacement).
        Placed-get_elem? pr.horizontal pr.vertical k a b layout pr.physical_layout is.placed in
      overlaps-Placed is.axes p q p' q' (placed i p q hp hq) (placed j p' q' hp' hq')
