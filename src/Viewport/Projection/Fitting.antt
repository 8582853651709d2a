-- ===== src/Viewport/Projection/Fitting.antt =====
-- Extents and edges of a valid layout, and what is placed by it
-- (src/k5vision/media/viewport_client_projection.py).
use k5_vision.Prelude.{
  ℕ, suc, ◌*◌, ◌≤◌, ◌≡◌, refl, sym, ◌∙◌, ap, inl, inr, some, List, [], ◌∷◌, max, true, arith,
  length, get_elem?, Option-cases, length-map, all, All, all_unique,
}
use k5_vision.Viewport.Geometry.{
  ViewportGeometry, ViewportPlacement, placement_ok, geometry_ok, composition_ok, layout_ok, slots,
}
use k5_vision.Viewport.Projection.Axis.{AxisProjection}
use k5_vision.Viewport.Projection.Rising.{Has}
use k5_vision.Viewport.Projection.Client.{maximum?, edges, right, bottom, rights, bottoms}
use k5_vision.Viewport.Projection.Projected.{AllPlaced, HasEdges}

pub maximum?_total : (x : ℕ) (xs : List ℕ) → (m : ℕ) × (maximum? (x ∷ xs) ≡ some m)
unfolding maximum?
maximum?_total x xs = elim (Option-cases (maximum? xs)) [
  | inl none_left ↦ (x, rw none_left refl)
  | inr (m, found) ↦ (max x m, rw found refl)
]

pub maximum?_le :
    (bound m : ℕ) (xs : List ℕ) → All (λ x. x ≤ bound) xs → maximum? xs ≡ some m → m ≤ bound
unfolding maximum?
maximum?_le bound m [] a h = absurd (cc h)
maximum?_le bound m (x ∷ xs) a h = elim (Option-cases (maximum? xs)) [
  | inl none_left ↦ ground arith
  | inr (k, found) ↦ let ih = maximum?_le bound k xs a.1 found in ground arith
]

pub rights_le :
    (ps : List ViewportPlacement) → all placement_ok ps ≡ true → All (λ x. x ≤ 2000000) (rights ps)
unfolding placement_ok geometry_ok
rights_le [] valid = tt
rights_le (p ∷ ps) valid = (ground arith, rights_le ps (ground arith))

pub bottoms_le :
    (ps : List ViewportPlacement) → all placement_ok ps ≡ true → All (λ x. x ≤ 2000000) (bottoms ps)
unfolding placement_ok geometry_ok
bottoms_le [] valid = tt
bottoms_le (p ∷ ps) valid = (ground arith, bottoms_le ps (ground arith))

pub length-edges :
    (start end : ViewportGeometry → ℕ) (ps : List ViewportPlacement)
    → length (edges start end ps) ≡ 2 * length ps
unfolding edges
length-edges start end [] = refl
length-edges start end (p ∷ ps) = omega (arith, length-edges start end ps)

-- Axes on which the positions of all edges stand.
module _ (h v : AxisProjection) where
  pub has_edges :
      (ps : List ViewportPlacement)
      → ((i n : ℕ) → get_elem? (edges (λ g. g.x) right ps) i ≡ some n → Has h.logical n)
      → ((i n : ℕ) → get_elem? (edges (λ g. g.y) bottom ps) i ≡ some n → Has v.logical n)
      → HasEdges h v ps
  unfolding edges
  has_edges [] a b = tt
  has_edges (p ∷ ps) a b = (
    (a 0 _ refl, a 1 _ refl, b 0 _ refl, b 1 _ refl),
    has_edges ps (λ i n e. a (suc (suc i)) n e) (λ i n e. b (suc (suc i)) n e),
  )

  pub slots-placed : (ps qs : List ViewportPlacement) → AllPlaced h v ps qs → slots qs ≡ slots ps
  slots-placed [] [] a = refl
  slots-placed [] (q ∷ qs) a = absurd a
  slots-placed (p ∷ ps) [] a = absurd a
  slots-placed (p ∷ ps) (q ∷ qs) a = cc (a.0.same_slot, slots-placed ps qs a.1)

  pub placement_ok-placed :
      (ps qs : List ViewportPlacement) → AllPlaced h v ps qs → all placement_ok qs ≡ true
  placement_ok-placed [] [] a = refl
  placement_ok-placed [] (q ∷ qs) a = absurd a
  placement_ok-placed (p ∷ ps) [] a = absurd a
  placement_ok-placed (p ∷ ps) (q ∷ qs) a =
      let one = a.0.is_ok in let rest = placement_ok-placed ps qs a.1 in ground arith

  pub layout_ok-placed :
      (ps qs : List ViewportPlacement)
      → AllPlaced h v ps qs
      → layout_ok ps ≡ true
      → layout_ok qs ≡ true
  unfolding layout_ok composition_ok
  layout_ok-placed ps qs a valid =
      let same = slots-placed ps qs a in
      let counted : length qs ≡ length ps =
        sym (length-map (λ (q : ViewportPlacement). q.logical_slot) qs)
        ∙ ap length same
        ∙ length-map (λ (p : ViewportPlacement). p.logical_slot) ps in
      let parts = placement_ok-placed ps qs a in let unique = ap all_unique same in ground arith
