-- ===== src/Viewport/Stacking.antt =====
-- What a change of the z order keeps of a layout.
use k5_vision.Prelude.{
  ℕ, suc, ◌≡◌, refl, ap, true, List, [], ◌∷◌, map, arith, ok, inl, inr, ◌⊎◌, Bool-cases,
  Option-cases,
}
use k5_vision.Viewport.Geometry.{composition_ok, ViewportPlacement, layout_ok, slots}
use k5_vision.Viewport.Stack.{
  ViewportStackEdit, stack_order, target_of, moved_order, in_place, restack, apply_viewport_stack,
}

-- Where a placement stands, without its z order.
abbrev pub area : ViewportPlacement → ℕ × ℕ × ℕ × ℕ
area p = let g = p.geometry in (g.x, g.y, g.width, g.height)

-- A valid layout with the slots and areas of another, in the same order.
pub record IsStacked (layout layout' : List ViewportPlacement) : Type 0 where
  pub valid : layout_ok layout' ≡ true
  pub same_slots : slots layout' ≡ slots layout
  pub same_areas : map area layout' ≡ map area layout

pub slots-restack :
    (order : List ℕ) (index : ℕ) (ps : List ViewportPlacement)
    → slots (restack order index ps) ≡ slots ps
unfolding restack
slots-restack order index [] = refl
slots-restack order index (p ∷ ps) = ap (p.logical_slot ∷◌) (slots-restack order (suc index) ps)

pub map-restack :
    (order : List ℕ) (index : ℕ) (ps : List ViewportPlacement)
    → map area (restack order index ps) ≡ map area ps
unfolding restack
map-restack order index [] = refl
map-restack order index (p ∷ ps) = ap (area p ∷◌) (map-restack order (suc index) ps)

pub stack-cases :
    (layout : List ViewportPlacement) (edit : ViewportStackEdit) (layout' : List ViewportPlacement)
    → apply_viewport_stack layout edit ≡ ok layout'
    → (layout' ≡ layout)
      ⊎ ((target : ℕ) × (layout'
            ≡ restack (moved_order edit.action target (stack_order layout)) 0 layout))
unfolding apply_viewport_stack
stack-cases layout edit layout' h = elim (Option-cases (target_of edit.logical_slot 0 layout)) [
  | inl missing ↦ ground arith
  | inr (target, found) ↦
      let order = moved_order edit.action target (stack_order layout) in
      elim (Bool-cases (in_place edit.action target (stack_order layout))) [
        | inl there ↦ inl (ground arith)
        | inr elsewhere ↦ elim (Bool-cases (composition_ok (restack order 0 layout))) [
          | inl passed ↦
              let made : layout' ≡ restack order 0 layout = ground arith in inr (target, made)
          | inr rejected ↦ absurd (ground arith)
        ]
      ]
]
