-- ===== src/Viewport/Projection/Tests.antt =====
-- The projection theorems at two placements on a client of 800 by 600 pixels.
use k5_vision.Prelude.{ℕ, ◌≡◌, refl, true, List, [], ◌∷◌, map, arith, some, All, pos}
use k5_vision.Viewport.Geometry.{
  ViewportPlacement, composition_ok, geometry_ok, make_geometry, placement_ok, layout_ok, slots,
}
use k5_vision.Viewport.Projection.Axis.{
  insert_unique, sorted_set, place, build, bisect_right, edge_at, edge, interpolate, inverse_at,
  inverse,
}
use k5_vision.Viewport.Projection.Client.{
  ViewportClientProjection, Client, client_ok, maximum?, edges, project_placement,
  project_placements, project_viewport_layout, logical_point,
}
use k5_vision.Viewport.Projection.Projecting.{InContent, project_viewport_layout_fits}
use k5_vision.Viewport.Projection.Pointing.{
  slots_at, overlaps, logical_point-covers, overlaps-project_viewport_layout,
}

abbrev left : ViewportPlacement
left = record {
  logical_slot = 4;
  geometry = record { x = 10; y = 0; width = 100; height = 100; z_index = 3 };
}

abbrev right : ViewportPlacement
right = record {
  logical_slot = 7;
  geometry = record { x = 110; y = 0; width = 50; height = 100; z_index = 1 };
}

abbrev layout : List ViewportPlacement
layout = left ∷ right ∷ []

abbrev client : Client
client = record {
  reference_width = 1024;
  reference_height = 768;
  client_width = 800;
  client_height = 600;
  content_top = 40;
}

abbrev left_pixels : ViewportPlacement
left_pixels = record {
  logical_slot = 4;
  geometry = record { x = 7; y = 40; width = 78; height = 72; z_index = 3 };
}

abbrev right_pixels : ViewportPlacement
right_pixels = record {
  logical_slot = 7;
  geometry = record { x = 85; y = 40; width = 40; height = 72; z_index = 1 };
}

abbrev projection : ViewportClientProjection
projection = record {
  physical_layout = left_pixels ∷ right_pixels ∷ [];
  horizontal = record {
    logical = 0 ∷ 10 ∷ 110 ∷ 160 ∷ 1024 ∷ [];
    physical = 0 ∷ 7 ∷ 85 ∷ 125 ∷ 800 ∷ [];
  };
  vertical = record { logical = 0 ∷ 100 ∷ 768 ∷ []; physical = 40 ∷ 112 ∷ 600 ∷ [] };
  client_width = 800;
  client_height = 600;
  content_top = 40;
}

layout-valid : layout_ok layout ≡ true
unfolding layout_ok composition_ok placement_ok geometry_ok
layout-valid = refl

client-valid : client_ok client ≡ true
unfolding client_ok
client-valid = refl

layout-projected : project_viewport_layout layout client ≡ some projection
unfolding project_viewport_layout client_ok maximum? edges build sorted_set insert_unique place
    project_placements project_placement edge edge_at bisect_right make_geometry geometry_ok
    placement_ok composition_ok
layout-projected = refl

pixel-point : logical_point projection (pos 84) (pos 111) ≡ some (some (109, 99))
unfolding logical_point inverse inverse_at interpolate bisect_right
pixel-point = refl

project_viewport_layout_fits_example :
    (pr : ViewportClientProjection) × (project_viewport_layout layout client ≡ some pr)
    × (layout_ok pr.physical_layout ≡ true)
    × (slots pr.physical_layout ≡ slots layout)
    × (map (λ q. q.geometry.z_index) pr.physical_layout ≡ map (λ p. p.geometry.z_index) layout)
    × All (InContent client) pr.physical_layout
project_viewport_layout_fits_example =
    project_viewport_layout_fits layout client layout-valid client-valid

logical_point-covers_example :
    (column : ℕ) × (row : ℕ) × (logical_point projection (pos 84) (pos 111)
      ≡ some (some (column, row)))
    × (slots_at 84 111 projection.physical_layout ≡ slots_at column row layout)
logical_point-covers_example =
    logical_point-covers layout client projection layout-valid layout-projected 84 111 (omega arith)
      (omega arith) (omega arith)

overlaps-project_viewport_layout_example :
    overlaps left_pixels.geometry right_pixels.geometry ≡ overlaps left.geometry right.geometry
overlaps-project_viewport_layout_example =
    overlaps-project_viewport_layout layout client projection layout-valid layout-projected 0 1 left
      left_pixels right right_pixels refl refl refl refl
