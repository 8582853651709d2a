-- ===== src/Viewport/Projection/Edges.antt =====
-- Edges of an axis of src/k5vision/media/viewport_client_projection.py: `edge`.
use k5_vision.Prelude.{
  ℕ, zero, suc, ◌+◌, ◌-◌, ◌≤◌, ◌<◌, ◌≡◌, ◌∙◌, ap, inl, inr, some, List, ltb, arith, length,
  get_elem?, Bool-cases, Option-cases,
}
use k5_vision.Viewport.Projection.Axis.{AxisProjection, bisect_right, edge, edge_at}
use k5_vision.Viewport.Projection.Rising.{
  Rising-get_elem?, Rising-get_elem?_le, bisect_right_self, get_elem?_below, length-gt_of_get_elem?,
}
use k5_vision.Viewport.Projection.Build.{IsAxis}

-- An edge and its pixel stand at one position.
pub record EdgeAt (axis : AxisProjection) (value pixel : ℕ) : Type 0 where
  pub position : ℕ
  pub logical_at : get_elem? axis.logical position ≡ some value
  pub physical_at : get_elem? axis.physical position ≡ some pixel

edge_at-EdgeAt :
    (axis : AxisProjection) (value pixel position : ℕ)
    → edge_at axis.logical axis.physical value position ≡ some pixel
    → EdgeAt axis value pixel
unfolding edge_at
edge_at-EdgeAt axis value pixel zero h = absurd (cc h)
edge_at-EdgeAt axis value pixel (suc i) h = elim (Option-cases (get_elem? axis.logical i)) [
  | inl missing ↦ absurd (ground arith)
  | inr (l, found) ↦ record { position = i; logical_at = ground arith; physical_at = ground arith }
]

pub edge-EdgeAt :
    (axis : AxisProjection) (value pixel : ℕ)
    → edge axis value ≡ some pixel
    → EdgeAt axis value pixel
unfolding edge
edge-EdgeAt axis value pixel h = edge_at-EdgeAt axis value pixel (bisect_right axis.logical value) h

edge_at_lem :
    (logical physical : List ℕ) (value i q : ℕ)
    → get_elem? logical i ≡ some value
    → get_elem? physical i ≡ some q
    → edge_at logical physical value (suc i) ≡ some q
unfolding edge_at
edge_at_lem logical physical value i q h k = ground arith

module _ {offset pixels : ℕ} {axis : AxisProjection} (ax : IsAxis offset pixels axis) where
  -- Every logical position of the axis has a pixel.
  pub edge_total :
      (value i : ℕ)
      → get_elem? axis.logical i ≡ some value
      → (at_edge : ℕ) × (edge axis value ≡ some at_edge)
  unfolding edge edge_at
  edge_total value i h =
      let (q, found) =
        get_elem?_below i axis.physical
          (omega (arith, length-gt_of_get_elem? i value axis.logical h, ax.same_length)) in
      let e = bisect_right_self value i axis.logical ax.logical_rising h in
      (
        q,
        ap (edge_at axis.logical axis.physical value) e
            ∙ edge_at_lem axis.logical axis.physical value i q h found,
      )

  -- Between the ends, and in the order of the logical positions.
  pub edge_bounds :
      (value at_edge : ℕ)
      → edge axis value ≡ some at_edge
      → (offset ≤ at_edge) × (at_edge ≤ offset + pixels)
  edge_bounds value at_edge h =
      let e = edge-EdgeAt axis value at_edge h in
      let inside = length-gt_of_get_elem? e.position at_edge axis.physical e.physical_at in
      let many : length axis.physical ≡ suc (length axis.physical - 1) =
        omega (arith, ax.intervals) in
      (
        Rising-get_elem?_le 0 e.position offset at_edge axis.physical ax.physical_rising
            (omega arith) ax.physical_start e.physical_at,
        Rising-get_elem?_le e.position (length axis.physical - 1) at_edge (offset + pixels)
            axis.physical ax.physical_rising (omega (arith, inside)) e.physical_at
            (ax.physical_end (length axis.physical - 1) many),
      )

  pub edge_mono : (u v p q : ℕ) → edge axis u ≡ some p → edge axis v ≡ some q → u < v → p < q
  edge_mono u v p q hp hq h =
      let e = edge-EdgeAt axis u p hp in
      let f = edge-EdgeAt axis v q hq in
      elim (Bool-cases (ltb e.position f.position)) [
        | inl before ↦
            Rising-get_elem? e.position f.position p q axis.physical ax.physical_rising
              (ground arith) e.physical_at f.physical_at
        | inr behind ↦
            let le =
              Rising-get_elem?_le f.position e.position v u axis.logical ax.logical_rising
                (ground arith) f.logical_at e.logical_at in
            absurd (omega (arith, le, h))
      ]
