-- ===== src/Viewport/Projection/Client.antt =====
-- `project_viewport_layout` and `ViewportClientProjection` of
-- src/k5vision/media/viewport_client_projection.py. `none` is a `ValueError`, which pydantic's
-- `ValidationError` is too. Sizes are not negative here: the code's tests refuse negative ones as
-- they refuse zero.
use k5_vision.Prelude.{
  ℕ, ◌+◌, ◌-◌, max, Bool, ◌&&◌, Option, none, some, List, [], ◌∷◌, map, ltb, leb, if◌then◌else◌, ℤ,
  pos, negsuc, sub_ℕ,
}
use k5_vision.Prelude.Options.{◌>>=◌, ◌>>◌, guard}
use k5_vision.Viewport.Geometry.{
  ViewportGeometry, ViewportPlacement, make_geometry, placement_ok, composition_ok,
}
use k5_vision.Viewport.Projection.Axis.{AxisProjection, build, edge, inverse}

abbrev pub max_client : ℕ
max_client = 16_384

abbrev pub max_logical : ℕ
max_logical = 2_000_000

abbrev pub min_content : ℕ
min_content = 192

pub record ViewportClientProjection : Type 0 where
  pub physical_layout : List ViewportPlacement
  pub horizontal : AxisProjection
  pub vertical : AxisProjection
  pub client_width : ℕ
  pub client_height : ℕ
  pub content_top : ℕ

-- A point outside the content is `some none`, the `None` of the source.
logical_point_at : ViewportClientProjection → ℕ → ℕ → Option (Option (ℕ × ℕ))
logical_point_at pr x y =
    let point = (do
      column ← inverse pr.horizontal x
      row ← inverse pr.vertical y
      some (some (column, row))) in
    if ltb x pr.client_width && leb pr.content_top y && ltb y pr.client_height
    then point
    else some none

-- `logical_point`
unfoldable pub logical_point : ViewportClientProjection → ℤ → ℤ → Option (Option (ℕ × ℕ))
unfolding logical_point_at
logical_point pr (pos x) (pos y) = logical_point_at pr x y
logical_point pr (pos x) (negsuc y) = some none
logical_point pr (negsuc x) y = some none

-- The arguments of `project_viewport_layout` but the layout.
pub record Client : Type 0 where
  pub reference_width : ℕ
  pub reference_height : ℕ
  pub client_width : ℕ
  pub client_height : ℕ
  pub content_top : ℕ

unfoldable pub client_ok : Client → Bool
client_ok c =
    leb 1 c.reference_width
    && leb c.reference_width max_client
    && leb 1 c.reference_height
    && leb c.reference_height max_client
    && leb min_content c.client_width
    && leb c.client_width max_client
    && leb c.content_top (max_client - min_content)
    && leb min_content (c.client_height - c.content_top)
    && leb (c.client_height - c.content_top) max_client
    && leb c.client_height max_client

-- `max(...)` of a sequence: an empty one has none.
unfoldable pub maximum? : List ℕ → Option ℕ
maximum? [] = none
maximum? (x ∷ xs) = elim (maximum? xs) [ none ↦ some x | some m ↦ some (max x m) ]

abbrev pub right : ViewportGeometry → ℕ
right g = g.x + g.width

abbrev pub bottom : ViewportGeometry → ℕ
bottom g = g.y + g.height

abbrev pub rights : List ViewportPlacement → List ℕ
rights = map (λ p. right p.geometry)

abbrev pub bottoms : List ViewportPlacement → List ℕ
bottoms = map (λ p. bottom p.geometry)

-- The comprehensions for `x_edges` and `y_edges`, by their start and end.
unfoldable pub edges :
    (ViewportGeometry → ℕ) → (ViewportGeometry → ℕ) → List ViewportPlacement → List ℕ
edges start end [] = []
edges start end (p ∷ ps) = start p.geometry ∷ end p.geometry ∷ edges start end ps

-- The body of the last loop.
unfoldable pub project_placement :
    AxisProjection → AxisProjection → ViewportPlacement → Option ViewportPlacement
project_placement horizontal vertical placement =
    let g = placement.geometry in
    do
      x ← edge horizontal g.x
      y ← edge vertical g.y
      x' ← edge horizontal (right g)
      y' ← edge vertical (bottom g)
      geometry ← make_geometry (pos x) (pos y) (sub_ℕ x' x) (sub_ℕ y' y) g.z_index
      let projected : ViewportPlacement = record {
        logical_slot = placement.logical_slot;
        geometry = geometry;
      }
      guard (placement_ok projected)
      some projected

unfoldable pub project_placements :
    AxisProjection → AxisProjection → List ViewportPlacement → Option (List ViewportPlacement)
project_placements horizontal vertical [] = some []
project_placements horizontal vertical (p ∷ ps) = do
  q ← project_placement horizontal vertical p
  qs ← project_placements horizontal vertical ps
  some (q ∷ qs)

unfoldable pub project_viewport_layout :
    List ViewportPlacement → Client → Option ViewportClientProjection
project_viewport_layout layout c = do
  guard (client_ok c)
  right_most ← maximum? (rights layout)
  bottom_most ← maximum? (bottoms layout)
  let width = max c.reference_width right_most
  let height = max c.reference_height bottom_most
  guard (leb (max width height) max_logical)
  horizontal ← build (edges (λ g. g.x) right layout) width c.client_width 0
  vertical ←
      build (edges (λ g. g.y) bottom layout) height (c.client_height - c.content_top) c.content_top
  projected ← project_placements horizontal vertical layout
  guard (composition_ok projected)
  some (record {
    physical_layout = projected;
    horizontal = horizontal;
    vertical = vertical;
    client_width = c.client_width;
    client_height = c.client_height;
    content_top = c.content_top;
  })
