-- ===== src/Viewport/Projection/Hits.antt =====
-- Edges and pixels of an axis of src/k5vision/media/viewport_client_projection.py: `edge` against
-- `inverse`.
use k5_vision.Prelude.{
  ℕ, zero, suc, ◌+◌, ◌-◌, ◌*◌, ◌/◌, ◌≤◌, ◌<◌, ◌≡◌, refl, ◌∙◌, sym, ap, subst, inl, inr, ◌↔◌, some,
  List, leb, false, arith, length, get_elem?, Bool-cases,
}
use native.Mathlib.Nat.{le-div_iff_mul-le, div-lt_iff_lt-mul, mul-le-mul_right, mul-le-mul}
use k5_vision.Viewport.Projection.Axis.{
  AxisProjection, bisect_right, edge, inverse, inverse_at, interpolate,
}
use k5_vision.Viewport.Projection.Rising.{
  Rising-get_elem?, Rising-get_elem?_le, bisect_right_below, bisect_right_above, bisect_right_le,
  get_elem?_below,
}
use k5_vision.Viewport.Projection.Build.{IsAxis}
use k5_vision.Viewport.Projection.Edges.{EdgeAt, edge-EdgeAt}

-- A pixel, the piece of the axis that it stands in, and the logical point that it is read as.
pub record PixelAt (axis : AxisProjection) (pixel point : ℕ) : Type 0 where
  pub position : ℕ
  pub logical_start : ℕ
  pub logical_end : ℕ
  pub physical_start : ℕ
  pub physical_end : ℕ
  pub logical_start_at : get_elem? axis.logical position ≡ some logical_start
  pub logical_end_at : get_elem? axis.logical (suc position) ≡ some logical_end
  pub physical_start_at : get_elem? axis.physical position ≡ some physical_start
  pub physical_end_at : get_elem? axis.physical (suc position) ≡ some physical_end
  pub behind : physical_start ≤ pixel
  pub before : pixel < physical_end
  pub read_as :
      interpolate pixel
        (some logical_start)
        (some logical_end)
        (some physical_start)
        (some physical_end)
      ≡ some point

ceil_bounds :
    (n w d : ℕ) → 1 ≤ n → n ≤ d → 1 ≤ w → (1 ≤ (n * w + d - 1) / d) × ((n * w + d - 1) / d ≤ w)
ceil_bounds n w d hn hd hw =
    let positive : 0 < d = omega arith in
    let least : 1 * 1 ≤ n * w = mul-le-mul hn hw in
    let most : n * w ≤ d * w = mul-le-mul_right w hd in
    let below : (n * w + d - 1) / d < suc w =
      (div-lt_iff_lt-mul {k = d} positive).1 (grind arith) in
    ((le-div_iff_mul-le {k = d} positive).1 (omega arith), omega arith)

pub interpolate_bounds :
    (pixel ls le ps pe point : ℕ)
    → ls < le
    → ps ≤ pixel
    → pixel < pe
    → interpolate pixel (some ls) (some le) (some ps) (some pe) ≡ some point
    → (ls ≤ point) × (point < le)
unfolding interpolate
interpolate_bounds pixel ls le ps pe point rising behind before h =
    let (least, most) =
      ceil_bounds (pixel - ps + 1) (le - ls) (pe - ps) (omega arith) (omega arith) (omega arith) in
    ground arith

inverse_at_lem :
    (logical physical : List ℕ) (pixel i ls le ps pe : ℕ)
    → suc i < length physical
    → get_elem? logical i ≡ some ls
    → get_elem? logical (suc i) ≡ some le
    → get_elem? physical i ≡ some ps
    → get_elem? physical (suc i) ≡ some pe
    → inverse_at logical physical pixel (suc i)
      ≡ interpolate pixel (some ls) (some le) (some ps) (some pe)
unfolding inverse_at
inverse_at_lem logical physical pixel i ls le ps pe h a b c d =
    let test : leb (length physical - 1) i ≡ false = ground arith in rw (test, a, b, c, d) refl

module _ {offset pixels : ℕ} {axis : AxisProjection} (ax : IsAxis offset pixels axis)
    (pixel : ℕ) where
  -- The piece at a position that the search gives.
  piece_at :
      (i : ℕ)
      → bisect_right axis.physical pixel ≡ suc i
      → suc i < length axis.physical
      → (point : ℕ) × (inverse axis pixel ≡ some point) × PixelAt axis pixel point
  unfolding inverse interpolate
  piece_at i e h =
      let (ls, ls_at) = get_elem?_below i axis.logical (omega (arith, ax.same_length)) in
      let (le, le_at) = get_elem?_below (suc i) axis.logical (omega (arith, ax.same_length)) in
      let (ps, ps_at) = get_elem?_below i axis.physical (omega arith) in
      let (pe, pe_at) = get_elem?_below (suc i) axis.physical h in
      (
        ls + ((pixel - ps + 1) * (le - ls) + (pe - ps) - 1) / (pe - ps) - 1,
        ap (inverse_at axis.logical axis.physical pixel) e
            ∙ inverse_at_lem axis.logical axis.physical pixel i ls le ps pe h ls_at le_at ps_at
                pe_at,
        record {
          position = i;
          logical_start = ls;
          logical_end = le;
          physical_start = ps;
          physical_end = pe;
          logical_start_at = ls_at;
          logical_end_at = le_at;
          physical_start_at = ps_at;
          physical_end_at = pe_at;
          behind = bisect_right_below pixel i ps axis.physical e ps_at;
          before = bisect_right_above pixel (suc i) pe axis.physical e pe_at;
          read_as = refl;
        },
      )

  -- Every pixel of the axis is read as a point.
  pub inverse_total :
      offset ≤ pixel
      → pixel < offset + pixels
      → (point : ℕ) × (inverse axis pixel ≡ some point) × PixelAt axis pixel point
  inverse_total h k = from_position (bisect_right axis.physical pixel) refl
    where
      last : (n : ℕ) → (length axis.physical ≡ suc n) → bisect_right axis.physical pixel ≤ n
      last n e = bisect_right_le pixel n (offset + pixels) axis.physical (ax.physical_end n e) k

      many : suc (length axis.physical - 1) ≡ length axis.physical
      many = omega (arith, ax.intervals)

      from_position :
          (n : ℕ)
          → bisect_right axis.physical pixel ≡ n
          → (point : ℕ) × (inverse axis pixel ≡ some point) × PixelAt axis pixel point
      from_position zero e =
          absurd
            (omega (arith, bisect_right_above pixel 0 offset axis.physical e ax.physical_start))
      from_position (suc i) e =
          piece_at i e (omega (arith, last (length axis.physical - 1) (sym many), many))

  pub inverse-PixelAt :
      (point : ℕ)
      → offset ≤ pixel
      → pixel < offset + pixels
      → inverse axis pixel ≡ some point
      → PixelAt axis pixel point
  inverse-PixelAt point h k e =
      let (found, eq, at_pixel) = inverse_total h k in
      subst (λ (p : ℕ). PixelAt axis pixel p) (cc (e, eq)) at_pixel

  EdgeAt-inverse :
      (value at_edge point : ℕ)
      → EdgeAt axis value at_edge
      → PixelAt axis pixel point
      → (at_edge ≤ pixel) ↔ (value ≤ point)
  EdgeAt-inverse value at_edge point e p =
      let logical_le =
        λ (i j u v : ℕ). Rising-get_elem?_le i j u v axis.logical ax.logical_rising in
      let physical_le =
        λ (i j u v : ℕ). Rising-get_elem?_le i j u v axis.physical ax.physical_rising in
      let rising =
        Rising-get_elem? p.position (suc p.position) p.logical_start p.logical_end axis.logical
          ax.logical_rising (omega arith) p.logical_start_at p.logical_end_at in
      let (least, most) =
        interpolate_bounds pixel p.logical_start p.logical_end p.physical_start p.physical_end point
          rising p.behind p.before p.read_as in
      elim (Bool-cases (leb e.position p.position)) [
        | inl behind ↦
            let order : e.position ≤ p.position = ground arith in
            let l = logical_le _ _ _ _ order e.logical_at p.logical_start_at in
            let q = physical_le _ _ _ _ order e.physical_at p.physical_start_at in
            (λ h. omega (arith, l, least), λ h. omega (arith, q, p.behind))
        | inr before ↦
            let order : suc p.position ≤ e.position = ground arith in
            let l = logical_le _ _ _ _ order p.logical_end_at e.logical_at in
            let q = physical_le _ _ _ _ order p.physical_end_at e.physical_at in
            (λ h. absurd (omega (arith, q, p.before)), λ h. absurd (omega (arith, l, most)))
      ]

  -- A pixel is at or behind the pixel of an edge exactly when its point is at or behind the edge.
  pub edge-inverse :
      (value at_edge point : ℕ)
      → edge axis value ≡ some at_edge
      → PixelAt axis pixel point
      → (at_edge ≤ pixel) ↔ (value ≤ point)
  edge-inverse value at_edge point found p =
      EdgeAt-inverse value at_edge point (edge-EdgeAt axis value at_edge found) p
