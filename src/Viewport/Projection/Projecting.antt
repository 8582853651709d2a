-- ===== src/Viewport/Projection/Projecting.antt =====
-- `project_viewport_layout` of src/k5vision/media/viewport_client_projection.py on a valid layout.
use k5_vision.Prelude.{
  ℕ, suc, ◌-◌, ◌≤◌, ◌≡◌, refl, sym, subst, inl, inr, some, List, [], ◌∷◌, map, max, leb, true,
  arith, length, get_elem?, Bool-cases, all, All,
}
use k5_vision.Viewport.Geometry.{ViewportPlacement, placement_ok, composition_ok, layout_ok, slots}
use k5_vision.Viewport.Projection.Axis.{AxisProjection, build, sorted_set}
use k5_vision.Viewport.Projection.Rising.{Has, Has-sorted_set}
use k5_vision.Viewport.Projection.Build.{build-IsAxis}
use k5_vision.Viewport.Projection.Edges.{edge_bounds}
use k5_vision.Viewport.Projection.Client.{
  ViewportClientProjection, Client, client_ok, maximum?, edges, right, bottom, rights, bottoms,
  project_placements, project_viewport_layout,
}
use k5_vision.Viewport.Projection.Projected.{AllPlaced, IsProjection, place_all}
use k5_vision.Viewport.Projection.Fitting.{
  maximum?_total, maximum?_le, rights_le, bottoms_le, length-edges, has_edges, slots-placed,
  layout_ok-placed,
}

-- What a projection is, for the layout and the client that it was made for.
pub record IsProjected (layout : List ViewportPlacement) (c : Client)
    (pr : ViewportClientProjection) : Type 0 where
  pub axes :
      IsProjection pr.horizontal pr.vertical c.client_width
        (c.client_height - c.content_top)
        c.content_top
  pub placed : AllPlaced pr.horizontal pr.vertical layout pr.physical_layout
  pub same_width : pr.client_width ≡ c.client_width
  pub same_height : pr.client_height ≡ c.client_height
  pub same_top : pr.content_top ≡ c.content_top

Has-listed :
    (axis : AxisProjection) (extent : ℕ) (listed : List ℕ) (i n : ℕ)
    → axis.logical ≡ sorted_set (0 ∷ extent ∷ listed)
    → get_elem? listed i ≡ some n
    → Has axis.logical n
Has-listed axis extent listed i n same e =
    subst (λ (xs : List ℕ). Has xs n) (sym same)
      (Has-sorted_set n (suc (suc i)) (0 ∷ extent ∷ listed) e)

parts_ok : (ps : List ViewportPlacement) → layout_ok ps ≡ true → all placement_ok ps ≡ true
unfolding layout_ok
parts_ok ps valid = ground arith

composed : (ps : List ViewportPlacement) → layout_ok ps ≡ true → composition_ok ps ≡ true
unfolding layout_ok
composed ps valid = ground arith

project_known :
    (layout : List ViewportPlacement) (c : Client) (r b : ℕ) (h v : AxisProjection)
    (qs : List ViewportPlacement)
    → client_ok c ≡ true
    → maximum? (rights layout) ≡ some r
    → maximum? (bottoms layout) ≡ some b
    → leb (max (max c.reference_width r) (max c.reference_height b)) 2000000 ≡ true
    → build (edges (λ g. g.x) right layout) (max c.reference_width r) c.client_width 0 ≡ some h
    → build
        (edges (λ g. g.y) bottom layout)
        (max c.reference_height b)
        (c.client_height - c.content_top)
        c.content_top
      ≡ some v
    → project_placements h v layout ≡ some qs
    → composition_ok qs ≡ true
    → project_viewport_layout layout c
      ≡ some (record {
        physical_layout = qs;
        horizontal = h;
        vertical = v;
        client_width = c.client_width;
        client_height = c.client_height;
        content_top = c.content_top;
      })
unfolding project_viewport_layout
project_known layout c r b h v qs i j k l m n o p = rw (i, j, k, l, m, n, o, p) refl

module _ (layout : List ViewportPlacement) (c : Client) (valid : layout_ok layout ≡ true)
    (fits : client_ok c ≡ true) where
  extents :
      (r : ℕ) × (b : ℕ) × (maximum? (rights layout) ≡ some r)
      × (maximum? (bottoms layout) ≡ some b)
      × (r ≤ 2000000)
      × (b ≤ 2000000)
      × (length layout ≤ 64)
  unfolding layout_ok composition_ok
  extents = from_cons layout (ground arith) (ground arith) (ground arith)
    where
      from_cons :
          (ps : List ViewportPlacement)
          → 1 ≤ length ps
          → length ps ≤ 64
          → all placement_ok ps ≡ true
          → (r : ℕ) × (b : ℕ) × (maximum? (rights ps) ≡ some r)
            × (maximum? (bottoms ps) ≡ some b)
            × (r ≤ 2000000)
            × (b ≤ 2000000)
            × (length ps ≤ 64)
      from_cons [] h k parts = absurd (omega arith)
      from_cons (p ∷ ps) h k parts =
          let (r, hr) = maximum?_total (right p.geometry) (rights ps) in
          let (b, hb) = maximum?_total (bottom p.geometry) (bottoms ps) in
          (
            r,
            b,
            hr,
            hb,
            maximum?_le 2000000 r (rights (p ∷ ps)) (rights_le (p ∷ ps) parts) hr,
            maximum?_le 2000000 b (bottoms (p ∷ ps)) (bottoms_le (p ∷ ps) parts) hb,
            k,
          )

  pub project-IsProjected :
      (pr : ViewportClientProjection) × (project_viewport_layout layout c ≡ some pr)
      × IsProjected layout c pr
  unfolding client_ok
  project-IsProjected =
      let (r, b, hr, hb, r_le, b_le, few) = extents in
      let width = max c.reference_width r in
      let height = max c.reference_height b in
      let x_edges = edges (λ g. g.x) right layout in
      let y_edges = edges (λ g. g.y) bottom layout in
      let (h, h_eq, h_axis, h_logical) =
        build-IsAxis width c.client_width 0 x_edges (ground arith)
          (ground (arith, length-edges (λ g. g.x) right layout)) in
      let (v, v_eq, v_axis, v_logical) =
        build-IsAxis height (c.client_height - c.content_top) c.content_top y_edges (ground arith)
          (ground (arith, length-edges (λ g. g.y) bottom layout)) in
      let axes : IsProjection h v c.client_width (c.client_height - c.content_top) c.content_top =
        record {
          is_horizontal = h_axis;
          is_vertical = v_axis;
          narrow = ground arith;
          low = ground arith;
        } in
      let (qs, qs_eq, placed) = place_all axes layout (parts_ok layout valid) (
        has_edges h v layout (λ i n e. Has-listed h width x_edges i n h_logical e)
          (λ i n e. Has-listed v height y_edges i n v_logical e)) in
      (
        record {
          physical_layout = qs;
          horizontal = h;
          vertical = v;
          client_width = c.client_width;
          client_height = c.client_height;
          content_top = c.content_top;
        },
        project_known layout c r b h v qs fits hr hb (ground arith) h_eq v_eq qs_eq
            (composed qs (layout_ok-placed h v layout qs placed valid)),
        record {
          axes = axes;
          placed = placed;
          same_width = refl;
          same_height = refl;
          same_top = refl;
        },
      )

-- Inside the content of the client.
abbrev pub InContent : Client → ViewportPlacement → Type 0
InContent c q =
    (right q.geometry ≤ c.client_width)
    × (c.content_top ≤ q.geometry.y)
    × (bottom q.geometry ≤ c.client_height)

InContent-placed :
    (c : Client) (h v : AxisProjection)
    → client_ok c ≡ true
    → IsProjection h v c.client_width (c.client_height - c.content_top) c.content_top
    → (ps qs : List ViewportPlacement) → AllPlaced h v ps qs
    → All (InContent c) qs
unfolding client_ok
InContent-placed c h v fits axes [] [] a = tt
InContent-placed c h v fits axes [] (q ∷ qs) a = absurd a
InContent-placed c h v fits axes (p ∷ ps) [] a = absurd a
InContent-placed c h v fits axes (p ∷ ps) (q ∷ qs) a =
    let one = a.0 in
    let within =
      edge_bounds axes.is_horizontal (right p.geometry) (right q.geometry) one.right_at in
    let above = edge_bounds axes.is_vertical p.geometry.y q.geometry.y one.top_at in
    let below =
      edge_bounds axes.is_vertical (bottom p.geometry) (bottom q.geometry) one.bottom_at in
    (
      (omega (arith, within), omega (arith, above), ground (arith, below)),
      InContent-placed c h v fits axes ps qs a.1,
    )

same_order :
    (h v : AxisProjection) (ps qs : List ViewportPlacement)
    → AllPlaced h v ps qs
    → map (λ q. q.geometry.z_index) qs ≡ map (λ p. p.geometry.z_index) ps
same_order h v [] [] a = refl
same_order h v [] (q ∷ qs) a = absurd a
same_order h v (p ∷ ps) [] a = absurd a
same_order h v (p ∷ ps) (q ∷ qs) a = cc (a.0.same_order, same_order h v ps qs a.1)

-- A valid layout on a client within the bounds always has a projection: a valid layout again, with
-- the same slots and z-indexes in the same order, and every placement inside the content.
pub project_viewport_layout_fits :
    (layout : List ViewportPlacement) (c : Client)
    → layout_ok layout ≡ true
    → client_ok c ≡ true
    → (pr : ViewportClientProjection) × (project_viewport_layout layout c ≡ some pr)
      × (layout_ok pr.physical_layout ≡ true)
      × (slots pr.physical_layout ≡ slots layout)
      × (map (λ q. q.geometry.z_index) pr.physical_layout ≡ map (λ p. p.geometry.z_index) layout)
      × All (InContent c) pr.physical_layout
project_viewport_layout_fits layout c valid fits =
    let (pr, made, is) = project-IsProjected layout c valid fits in
    let h = pr.horizontal in
    let v = pr.vertical in
    (
      pr,
      made,
      layout_ok-placed h v layout pr.physical_layout is.placed valid,
      slots-placed h v layout pr.physical_layout is.placed,
      same_order h v layout pr.physical_layout is.placed,
      InContent-placed c h v fits is.axes layout pr.physical_layout is.placed,
    )

client_ok-project :
    (layout : List ViewportPlacement) (c : Client) (pr : ViewportClientProjection)
    → project_viewport_layout layout c ≡ some pr
    → client_ok c ≡ true
unfolding project_viewport_layout
client_ok-project layout c pr h = elim (Bool-cases (client_ok c)) [
  | inl fits ↦ fits
  | inr bad ↦ absurd (ground arith)
]

-- Every projection that is made is one.
pub made-IsProjected :
    (layout : List ViewportPlacement) (c : Client) (pr : ViewportClientProjection)
    → layout_ok layout ≡ true
    → project_viewport_layout layout c ≡ some pr
    → (client_ok c ≡ true) × IsProjected layout c pr
made-IsProjected layout c pr valid h =
    let fits = client_ok-project layout c pr h in
    let (made, eq, is) = project-IsProjected layout c valid fits in
    let same : made ≡ pr = cc (h, eq) in (fits, subst (IsProjected layout c) same is)
