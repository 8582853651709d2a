-- ===== src/Viewport/Editing.antt =====
-- What one edit does to a layout.
use k5_vision.Prelude.{
  ℕ, ◌≡◌, ◌≢◌, refl, sym, ◌∙◌, ap, true, some, List, [], ◌∷◌, map, ◌==◌, arith, ok, raise, all, inl,
  inr, Bool-cases, Option-cases, length-map,
}
use k5_vision.Viewport.Geometry.{
  composition_ok, ViewportGeometry, ViewportPlacement, make_geometry, geometry_ok, placement_ok,
  layout_ok, by_slot, slots,
}
use k5_vision.Viewport.Editor.{
  ViewportEdit, ViewportEditorError, edit_slot, edit_geometry, replace_at, apply_viewport_edit,
}

-- The slot's placement takes the edited geometry, which keeps its z order; no other slot changes.
pub record IsEdited (layout : List ViewportPlacement) (edit : ViewportEdit)
    (layout' : List ViewportPlacement) : Type 0 where
  pub valid : layout_ok layout' ≡ true
  pub same_slots : slots layout' ≡ slots layout
  pub old : ViewportGeometry
  pub new : ViewportGeometry
  pub was : by_slot (edit_slot edit) layout ≡ some old
  pub edited : edit_geometry old edit ≡ some new
  pub is : by_slot (edit_slot edit) layout' ≡ some new
  pub same_order : new.z_index ≡ old.z_index
  pub untouched : (slot : ℕ) → slot ≢ edit_slot edit → by_slot slot layout' ≡ by_slot slot layout

slots-replace :
    (slot : ℕ) (g : ViewportGeometry) (ps : List ViewportPlacement)
    → slots (map (replace_at slot g) ps) ≡ slots ps
slots-replace slot g [] = refl
slots-replace slot g (p ∷ ps) = ground (arith, slots-replace slot g ps)

by_slot-replace_other :
    (slot other : ℕ) (g : ViewportGeometry) (ps : List ViewportPlacement)
    → other ≢ slot
    → by_slot other (map (replace_at slot g) ps) ≡ by_slot other ps
unfolding by_slot
by_slot-replace_other slot other g [] h = refl
by_slot-replace_other slot other g (p ∷ ps) h =
    let ih = by_slot-replace_other slot other g ps h in ground arith

by_slot-replace :
    (slot : ℕ) (g : ViewportGeometry) (ps : List ViewportPlacement) {old : ViewportGeometry}
    → by_slot slot ps ≡ some old
    → by_slot slot (map (replace_at slot g) ps) ≡ some g
unfolding by_slot
by_slot-replace slot g [] h = absurd (cc h)
by_slot-replace slot g (p ∷ ps) {old = old} h = elim (Bool-cases (p.logical_slot == slot)) [
  | inl here ↦ ground arith
  | inr there ↦ let ih = by_slot-replace slot g ps {old = old} (ground arith) in ground arith
]

all-replace :
    (slot : ℕ) (g : ViewportGeometry) (ps : List ViewportPlacement)
    → geometry_ok g ≡ true
    → all placement_ok ps ≡ true
    → all placement_ok (map (replace_at slot g) ps) ≡ true
unfolding placement_ok
all-replace slot g [] ok_g h = refl
all-replace slot g (p ∷ ps) ok_g h = let ih = all-replace slot g ps ok_g in ground arith

edit_geometry_ok :
    (g : ViewportGeometry) (edit : ViewportEdit) (g' : ViewportGeometry)
    → edit_geometry g edit ≡ some g'
    → (geometry_ok g' ≡ true) × (g'.z_index ≡ g.z_index)
unfolding edit_geometry make_geometry
edit_geometry_ok g (ViewportEdit.move slot dx dy) g' h = ground arith
edit_geometry_ok g (ViewportEdit.resize slot dw dh) g' h = ground arith

layout_ok-replace :
    (slot : ℕ) (g : ViewportGeometry) (ps : List ViewportPlacement)
    → geometry_ok g ≡ true
    → layout_ok ps ≡ true
    → layout_ok (map (replace_at slot g) ps) ≡ true
unfolding layout_ok composition_ok
layout_ok-replace slot g ps ok_g h =
    let same = slots-replace slot g ps in
    let long = length-map (replace_at slot g) ps in
    let kept = all-replace slot g ps ok_g (ground arith) in rw (same, long, kept) (ground arith)

pub composition_ok-layout_ok :
    (ps : List ViewportPlacement) → layout_ok ps ≡ true → composition_ok ps ≡ true
unfolding layout_ok
composition_ok-layout_ok ps h = ground arith

-- The placement that an accepted edit went by.
record IsAccepted (layout : List ViewportPlacement) (edit : ViewportEdit)
    (layout' : List ViewportPlacement) : Type 0 where
  old : ViewportGeometry
  new : ViewportGeometry
  was : by_slot (edit_slot edit) layout ≡ some old
  edited : edit_geometry old edit ≡ some new
  made : layout' ≡ map (replace_at (edit_slot edit) new) layout

edit-IsAccepted :
    (layout : List ViewportPlacement) (edit : ViewportEdit) (layout' : List ViewportPlacement)
    → apply_viewport_edit layout edit ≡ ok layout'
    → IsAccepted layout edit layout'
unfolding apply_viewport_edit
edit-IsAccepted layout edit layout' h = ground arith

-- An edit that a valid layout accepts gives a valid layout with the same slots in the same order, in
-- which the edited slot has its new geometry at its old z order and every other slot its own.
pub edit-IsEdited :
    (layout : List ViewportPlacement) (edit : ViewportEdit) (layout' : List ViewportPlacement)
    → layout_ok layout ≡ true
    → apply_viewport_edit layout edit ≡ ok layout'
    → IsEdited layout edit layout'
edit-IsEdited layout edit layout' valid h =
    let a = edit-IsAccepted layout edit layout' h in
    let slot = edit_slot edit in
    record {
      valid =
          ap layout_ok a.made
          ∙ layout_ok-replace slot a.new layout (edit_geometry_ok a.old edit a.new a.edited).0
              valid;
      same_slots = ap slots a.made ∙ slots-replace slot a.new layout;
      old = a.old;
      new = a.new;
      was = a.was;
      edited = a.edited;
      is = ap (by_slot slot) a.made ∙ by_slot-replace slot a.new layout a.was;
      same_order = (edit_geometry_ok a.old edit a.new a.edited).1;
      untouched = λ other differs.
          ap (by_slot other) a.made ∙ by_slot-replace_other slot other a.new layout differs;
    }

-- On a valid layout an edit whose slot is there and whose edited geometry is within bounds is
-- accepted, with that geometry in the slot.
pub edit_accepts :
    (layout : List ViewportPlacement) (edit : ViewportEdit) (old new : ViewportGeometry)
    → layout_ok layout ≡ true
    → by_slot (edit_slot edit) layout ≡ some old
    → edit_geometry old edit ≡ some new
    → apply_viewport_edit layout edit ≡ ok (map (replace_at (edit_slot edit) new) layout)
unfolding apply_viewport_edit
edit_accepts layout edit old new valid was edited =
    let passed = composition_ok-layout_ok (map (replace_at (edit_slot edit) new) layout) (
      layout_ok-replace (edit_slot edit) new layout (edit_geometry_ok old edit new edited).0
        valid) in
    ground arith

-- No edit of a valid layout fails by the test of the whole layout that comes last.
pub edit_never_rejected :
    (layout : List ViewportPlacement) (edit : ViewportEdit)
    → layout_ok layout ≡ true
    → apply_viewport_edit layout edit ≢ raise ViewportEditorError.layout_rejected
unfolding apply_viewport_edit
edit_never_rejected layout edit valid h = elim (Option-cases (by_slot (edit_slot edit) layout)) [
  | inl missing ↦ ground arith
  | inr (old, was) ↦ elim (Option-cases (edit_geometry old edit)) [
    | inl outside ↦ ground arith
    | inr (new, edited) ↦
        let accepted = edit_accepts layout edit old new valid was edited in
        absurd (cc (sym accepted ∙ h))
  ]
]
