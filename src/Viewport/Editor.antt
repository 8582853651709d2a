-- ===== src/Viewport/Editor.antt =====
-- `apply_viewport_edit` and `BoundedViewportEditor` of src/k5vision/media/viewport_editor.py.
use k5_vision.Prelude.{
  ℕ, ◌+◌, Bool, ◌&&◌, Option, none, some, List, map, leb, ◌==◌, if◌then◌else◌, Result, ok, raise, ℤ,
  pos, add_ℕ, within,
}
use k5_vision.Viewport.Geometry.{
  ViewportGeometry, ViewportPlacement, make_geometry, composition_ok, by_slot, max_logical_slot,
}

abbrev pub max_edit_delta : ℕ
max_edit_delta = 1_000_000

abbrev pub max_operations : ℕ
max_operations = 1_000_000

-- `layout_rejected` is not a code of the source: it is the `ValidationError` that the last line
-- of `apply_viewport_edit` would let through.
pub data ViewportEditorError : Type 0 where
  invalid_configuration invalid_edit slot_not_found operation_limit : ViewportEditorError
  layout_rejected : ViewportEditorError

pub data ViewportEdit : Type 0 where
  move : ℕ → ℤ → ℤ → ViewportEdit
  resize : ℕ → ℤ → ℤ → ViewportEdit

-- The bounds of an edit's fields.
abbrev pub edit_ok : ViewportEdit → Bool
edit_ok (move slot dx dy) =
    leb slot max_logical_slot && within max_edit_delta dx && within max_edit_delta dy
edit_ok (resize slot dwidth dheight) =
    leb slot max_logical_slot && within max_edit_delta dwidth && within max_edit_delta dheight

abbrev pub edit_slot : ViewportEdit → ℕ
edit_slot (move slot _ _) = slot
edit_slot (resize slot _ _) = slot

-- The new geometry of the selected placement.
unfoldable pub edit_geometry : ViewportGeometry → ViewportEdit → Option ViewportGeometry
edit_geometry g (move _ dx dy) =
    make_geometry (add_ℕ g.x dx) (add_ℕ g.y dy) (pos g.width) (pos g.height) g.z_index
edit_geometry g (resize _ dwidth dheight) =
    make_geometry (pos g.x) (pos g.y) (add_ℕ g.width dwidth) (add_ℕ g.height dheight) g.z_index

abbrev pub replace_at : ℕ → ViewportGeometry → ViewportPlacement → ViewportPlacement
replace_at slot g p =
    if p.logical_slot == slot then record { logical_slot = p.logical_slot; geometry = g } else p

unfoldable pub apply_viewport_edit :
    List ViewportPlacement → ViewportEdit → Result ViewportEditorError (List ViewportPlacement)
apply_viewport_edit layout edit = elim (by_slot (edit_slot edit) layout) [
  | none ↦ raise ViewportEditorError.slot_not_found
  | some current ↦ elim (edit_geometry current edit) [
    | none ↦ raise ViewportEditorError.invalid_edit
    | some geometry ↦
        let placements = map (replace_at (edit_slot edit) geometry) layout in
        if composition_ok placements
        then ok placements
        else raise ViewportEditorError.layout_rejected
  ]
]

pub record BoundedViewportEditor : Type 0 where
  pub layout : List ViewportPlacement
  pub operations : ℕ
  pub max_operations : ℕ

unfoldable pub init : List ViewportPlacement → ℕ → Result ViewportEditorError BoundedViewportEditor
init layout limit =
    if leb 1 limit && leb limit max_operations
    then ok (record { layout = layout; operations = 0; max_operations = limit })
    else raise ViewportEditorError.invalid_configuration

-- `apply`
unfoldable pub apply :
    BoundedViewportEditor → ViewportEdit → Result ViewportEditorError BoundedViewportEditor
apply ed edit =
    if leb ed.max_operations ed.operations
    then raise ViewportEditorError.operation_limit
    else elim (apply_viewport_edit ed.layout edit) [
      | raise e ↦ raise e
      | ok candidate ↦ ok (record ed { layout = candidate; operations = ed.operations + 1 })
    ]
