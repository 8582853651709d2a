-- ===== src/Viewport/Geometry.antt =====
-- The layout contract of src/k5vision/media/viewport_geometry.py. A value of pydantic's models is
-- one that passed the tests: a record here, and its test beside it.
use k5_vision.Prelude.{
  ℕ, ◌+◌, Bool, ◌&&◌, Option, none, some, List, [], ◌∷◌, map, leb, ◌==◌, if◌then◌else◌, length, all,
  all_unique, ℤ, in_range, to_ℕ,
}

abbrev pub max_coordinate : ℕ
max_coordinate = 1_000_000

abbrev pub max_dimension : ℕ
max_dimension = 1_000_000

abbrev pub max_z_index : ℕ
max_z_index = 65_535

abbrev pub max_logical_slot : ℕ
max_logical_slot = 4095

pub record ViewportGeometry : Type 0 where
  pub x : ℕ
  pub y : ℕ
  pub width : ℕ
  pub height : ℕ
  pub z_index : ℕ

pub record ViewportPlacement : Type 0 where
  pub logical_slot : ℕ
  pub geometry : ViewportGeometry

-- The fields' bounds and `validate_bounds`.
unfoldable pub geometry_ok : ViewportGeometry → Bool
geometry_ok g =
    leb g.x max_coordinate
    && leb g.y max_coordinate
    && leb 1 g.width
    && leb g.width max_dimension
    && leb 1 g.height
    && leb g.height max_dimension
    && leb g.z_index max_z_index
    && leb (g.x + g.width) (max_coordinate + max_dimension)
    && leb (g.y + g.height) (max_coordinate + max_dimension)

-- `ViewportGeometry(...)` on integers of either sign: `none` is a `ValidationError`.
unfoldable pub make_geometry : ℤ → ℤ → ℤ → ℤ → ℕ → Option ViewportGeometry
unfolding geometry_ok
make_geometry x y width height z_index =
    let g : ViewportGeometry = record {
      x = to_ℕ x;
      y = to_ℕ y;
      width = to_ℕ width;
      height = to_ℕ height;
      z_index = z_index;
    } in
    if in_range 0 max_coordinate x
      && in_range 0 max_coordinate y
      && in_range 1 max_dimension width
      && in_range 1 max_dimension height
      && geometry_ok g
    then some g
    else none

unfoldable pub placement_ok : ViewportPlacement → Bool
placement_ok p = leb p.logical_slot max_logical_slot && geometry_ok p.geometry

abbrev pub slots : List ViewportPlacement → List ℕ
slots = map (λ p. p.logical_slot)

-- `ViewportLayout(placements=...)` on placements that are instances already, whose own tests are
-- not made again: their number and `validate_unique_slots`.
unfoldable pub composition_ok : List ViewportPlacement → Bool
composition_ok placements =
    leb 1 (length placements) && leb (length placements) 64 && all_unique (slots placements)

-- A layout all of whose parts passed their tests.
unfoldable pub layout_ok : List ViewportPlacement → Bool
layout_ok placements = all placement_ok placements && composition_ok placements

-- `by_slot()`, looked up.
unfoldable pub by_slot : ℕ → List ViewportPlacement → Option ViewportGeometry
by_slot slot [] = none
by_slot slot (p ∷ ps) =
    let rest = by_slot slot ps in if p.logical_slot == slot then some p.geometry else rest
