-- ===== src/Viewport/Accepting.antt =====
-- The z indices of a change of the z order against the bounds of a layout.
use k5_vision.Prelude.{
  ok, map, ap, ◌∙◌, ℕ, suc, ◌+◌, ◌≤◌, ◌≡◌, ◌≢◌, ◌↔◌, refl, sym, true, false, ◌==◌, contains, List,
  [], ◌∷◌, arith, none, some, raise, inl, inr, Bool-cases, Option-cases, length, length-append, all,
  if◌then◌else◌,
}
use k5_vision.Viewport.Geometry.{
  composition_ok, slots, ViewportPlacement, layout_ok, placement_ok, geometry_ok,
}
use k5_vision.Viewport.Stack.{
  Entry, ViewportStackAction, ViewportStackEdit, ViewportStackError, stack_order, entries, before,
  insert_entry, sort_entries, indices, target_of, remove, position_of, moved_order, in_place,
  stacked, restack, apply_viewport_stack,
}
use k5_vision.Viewport.Editing.{composition_ok-layout_ok}
use k5_vision.Viewport.Stacking.{slots-restack, map-restack, stack-cases, area, IsStacked}

length-entries : (index : ℕ) (ps : List ViewportPlacement) → length (entries index ps) ≡ length ps
length-entries index [] = refl
length-entries index (p ∷ ps) = ap suc (length-entries (suc index) ps)

length-insert_entry : (a : Entry) (bs : List Entry) → length (insert_entry a bs) ≡ suc (length bs)
length-insert_entry a [] = refl
length-insert_entry a (b ∷ bs) =
    let ih = length-insert_entry a bs in
    elim (Bool-cases (before a b)) [
      | inl first ↦ ap (λ t. length (if t then a ∷ b ∷ bs else b ∷ insert_entry a bs)) first
      | inr later ↦
          ap (λ t. length (if t then a ∷ b ∷ bs else b ∷ insert_entry a bs)) later ∙ ap suc ih
    ]

length-sort_entries : (as' : List Entry) → length (sort_entries as') ≡ length as'
length-sort_entries [] = refl
length-sort_entries (a ∷ as') =
    length-insert_entry a (sort_entries as') ∙ ap suc (length-sort_entries as')

length-indices : (es : List Entry) → length (indices es) ≡ length es
length-indices [] = refl
length-indices ((z, index) ∷ es) = ap suc (length-indices es)

length-stack_order : (layout : List ViewportPlacement) → length (stack_order layout) ≡ length layout
unfolding stack_order
length-stack_order layout =
    length-indices (sort_entries (entries 0 layout))
    ∙ length-sort_entries (entries 0 layout)
    ∙ length-entries 0 layout

length-remove_le : (target : ℕ) (order : List ℕ) → length (remove target order) ≤ length order
length-remove_le target [] = omega arith
length-remove_le target (i ∷ is) = let ih = length-remove_le target is in ground arith

position_of_le : (index : ℕ) (order : List ℕ) → position_of index order ≤ length order
position_of_le index [] = omega arith
position_of_le index (i ∷ is) = let ih = position_of_le index is in ground arith

length-moved_order_le :
    (action : ViewportStackAction) (target : ℕ) (order : List ℕ)
    → length (moved_order action target order) ≤ length order + 1
length-moved_order_le ViewportStackAction.bring_to_front target order =
    omega (arith, length-append (remove target order) (target ∷ []), length-remove_le target order)
length-moved_order_le ViewportStackAction.send_to_back target order =
    omega (arith, length-remove_le target order)

stacked_ok :
    (p : ViewportPlacement) (z : ℕ)
    → z ≤ 65
    → placement_ok p ≡ true
    → placement_ok (stacked p z) ≡ true
unfolding placement_ok geometry_ok
stacked_ok p z small h = ground arith

all-restack :
    (order : List ℕ) (index : ℕ) (ps : List ViewportPlacement)
    → length order ≤ 65
    → all placement_ok ps ≡ true
    → all placement_ok (restack order index ps) ≡ true
unfolding restack
all-restack order index [] small h = refl
all-restack order index (p ∷ ps) small h =
    let ih = all-restack order (suc index) ps small (ground arith) in
    let z_ok =
      stacked_ok p (position_of index order) (omega (arith, position_of_le index order, small))
        (ground arith) in
    ground arith

length-restack :
    (order : List ℕ) (index : ℕ) (ps : List ViewportPlacement)
    → length (restack order index ps) ≡ length ps
unfolding restack
length-restack order index [] = refl
length-restack order index (p ∷ ps) = ap suc (length-restack order (suc index) ps)

layout_ok-restack :
    (order : List ℕ) (layout : List ViewportPlacement)
    → length order ≤ length layout + 1
    → layout_ok layout ≡ true
    → layout_ok (restack order 0 layout) ≡ true
unfolding layout_ok composition_ok
layout_ok-restack order layout short h =
    let kept = all-restack order 0 layout (ground arith) (ground arith) in
    let same = slots-restack order 0 layout in
    let long = length-restack order 0 layout in rw (same, long, kept) (ground arith)

moved-layout_ok :
    (layout : List ViewportPlacement) (action : ViewportStackAction) (target : ℕ)
    → layout_ok layout ≡ true
    → layout_ok (restack (moved_order action target (stack_order layout)) 0 layout) ≡ true
moved-layout_ok layout action target valid =
    layout_ok-restack (moved_order action target (stack_order layout)) layout
      (omega (
        arith,
        length-moved_order_le action target (stack_order layout),
        length-stack_order layout,
      ))
      valid

-- A change of the z order that a valid layout accepts gives a valid layout with the same slots in
-- the same order, each at its position and of its size.
pub stack-IsStacked :
    (layout : List ViewportPlacement) (edit : ViewportStackEdit) (layout' : List ViewportPlacement)
    → layout_ok layout ≡ true
    → apply_viewport_stack layout edit ≡ ok layout'
    → IsStacked layout layout'
stack-IsStacked layout edit layout' valid h = elim (stack-cases layout edit layout' h) [
  | inl same ↦ record {
    valid = ap layout_ok same ∙ valid;
    same_slots = ap slots same;
    same_areas = ap (map area) same;
  }
  | inr (target, made) ↦
      let order = moved_order edit.action target (stack_order layout) in
      record {
        valid = ap layout_ok made ∙ moved-layout_ok layout edit.action target valid;
        same_slots = ap slots made ∙ slots-restack order 0 layout;
        same_areas = ap (map area) made ∙ map-restack order 0 layout;
      }
]

target_of-none :
    (slot index : ℕ) (ps : List ViewportPlacement)
    → (target_of slot index ps ≡ none) ↔ (contains slot (slots ps) ≡ false)
unfolding target_of
target_of-none slot index [] = (λ _. refl, λ _. refl)
target_of-none slot index (p ∷ ps) =
    let (there, back) = target_of-none slot (suc index) ps in
    elim (Bool-cases (p.logical_slot == slot)) [
      | inl same ↦ (λ h. ground arith, λ h. ground arith)
      | inr other ↦ (λ h. ground (arith, there), λ h. ground (arith, back))
    ]

-- With the slot there, no change of the z order of a valid layout fails.
stack-found :
    (layout : List ViewportPlacement) (edit : ViewportStackEdit) (e : ViewportStackError)
    (target : ℕ)
    → layout_ok layout ≡ true
    → target_of edit.logical_slot 0 layout ≡ some target
    → apply_viewport_stack layout edit ≢ raise e
unfolding apply_viewport_stack
stack-found layout edit e target valid found h =
    let order = moved_order edit.action target (stack_order layout) in
    let passed =
      composition_ok-layout_ok (restack order 0 layout)
        (moved-layout_ok layout edit.action target valid) in
    elim (Bool-cases (in_place edit.action target (stack_order layout))) [
      | inl there ↦ absurd (ground arith)
      | inr elsewhere ↦ absurd (ground arith)
    ]

stack-missing :
    (layout : List ViewportPlacement) (edit : ViewportStackEdit)
    → target_of edit.logical_slot 0 layout ≡ none
    → apply_viewport_stack layout edit ≡ raise ViewportStackError.slot_not_found
unfolding apply_viewport_stack
stack-missing layout edit missing = ground arith

-- On a valid layout a change of the z order fails exactly when its slot is none of the layout's,
-- and then with that error.
pub stack_fails :
    (layout : List ViewportPlacement) (edit : ViewportStackEdit) (e : ViewportStackError)
    → layout_ok layout ≡ true
    → (apply_viewport_stack layout edit ≡ raise e) ↔ (
        (e ≡ ViewportStackError.slot_not_found)
        × (contains edit.logical_slot (slots layout) ≡ false))
stack_fails layout edit e valid =
    let (gone, back) = target_of-none edit.logical_slot 0 layout in
    (
      λ h. elim (Option-cases (target_of edit.logical_slot 0 layout)) [
        | inl missing ↦ (cc (stack-missing layout edit missing, h), gone missing)
        | inr (target, found) ↦ absurd (stack-found layout edit e target valid found h)
      ],
      λ (same, absent). stack-missing layout edit (back absent) ∙ ap raise (sym same),
    )
