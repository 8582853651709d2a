-- ===== src/Viewport/Tests.antt =====
-- The viewport theorems at a layout of two placements.
use k5_vision.Prelude.{
  suc, ◌+◌, ◌≡◌, ◌≢◌, refl, true, List, [], ◌∷◌, arith, some, ok, raise, All, pos, negsuc, length,
  false, contains, ◌↔◌,
}
use k5_vision.Viewport.Geometry.{
  composition_ok, slots, ViewportGeometry, geometry_ok, make_geometry, placement_ok, layout_ok,
  by_slot,
}
use k5_vision.Viewport.Editor.{
  ViewportEdit, ViewportEditorError, edit_geometry, apply_viewport_edit,
}
use k5_vision.Viewport.Editing.{IsEdited, edit-IsEdited, edit_never_rejected}
use k5_vision.Viewport.History.{
  Layout, History, Call, init, call_all, undo, redo, undo_candidate, redo_candidate, consume,
  ensure_operation_available,
}
use k5_vision.Viewport.Bounded.{IsBounded, CallOk, call_all-IsBounded}
use k5_vision.Viewport.Reversal.{trail, undo-trail, redo-trail, redo-undo}
use k5_vision.Viewport.Stack.{
  ViewportStackAction, ViewportStackEdit, ViewportStackError, stack_order, target_of, restack,
  apply_viewport_stack,
}
use k5_vision.Viewport.Stacking.{IsStacked}
use k5_vision.Viewport.Accepting.{stack-IsStacked, stack_fails}

abbrev left : ViewportGeometry
left = record { x = 10; y = 0; width = 100; height = 100; z_index = 3 }

abbrev moved : ViewportGeometry
moved = record { x = 5; y = 20; width = 100; height = 100; z_index = 3 }

abbrev right : ViewportGeometry
right = record { x = 110; y = 0; width = 50; height = 100; z_index = 1 }

abbrev layout : Layout
layout =
    record { logical_slot = 4; geometry = left }
    ∷ record { logical_slot = 7; geometry = right }
    ∷ []

abbrev moved_layout : Layout
moved_layout =
    record { logical_slot = 4; geometry = moved }
    ∷ record { logical_slot = 7; geometry = right }
    ∷ []

abbrev edit : ViewportEdit
edit = ViewportEdit.move 4 (negsuc 4) (pos 20)

layout-valid : layout_ok layout ≡ true
unfolding layout_ok composition_ok placement_ok geometry_ok
layout-valid = refl

edit-accepted : apply_viewport_edit layout edit ≡ ok moved_layout
unfolding apply_viewport_edit by_slot edit_geometry make_geometry layout_ok composition_ok
    placement_ok geometry_ok
edit-accepted = refl

edit-geometry : edit_geometry left edit ≡ some moved
unfolding edit_geometry make_geometry geometry_ok
edit-geometry = refl

edit-slot : by_slot 4 layout ≡ some left
unfolding by_slot
edit-slot = refl

edit-IsEdited_example : IsEdited layout edit moved_layout
edit-IsEdited_example = edit-IsEdited layout edit moved_layout layout-valid edit-accepted

edit_never_rejected_example :
    apply_viewport_edit layout edit ≢ raise ViewportEditorError.layout_rejected
edit_never_rejected_example = edit_never_rejected layout edit layout-valid

abbrev history : History
history = record {
  layout = layout;
  max_history = 1;
  max_operations = 9;
  operations = 0;
  undo = [];
  redo = [];
}

history-made : init layout 1 9 ≡ ok history
unfolding init
history-made = refl

-- Two edits on a history of one, of which one fails, then undo twice, redo and a new baseline.
abbrev calls : List Call
calls =
    Call.edits edit
    ∷ Call.edits edit
    ∷ Call.edits (ViewportEdit.resize 7 (negsuc 99) (pos 0))
    ∷ Call.undoes
    ∷ Call.undoes
    ∷ Call.redoes
    ∷ Call.rebases layout
    ∷ []

calls-CallOk : All CallOk calls
calls-CallOk = (tt, (tt, (tt, (tt, (tt, (tt, (layout-valid, tt)))))))

call_all-IsBounded_example : IsBounded (call_all history calls)
call_all-IsBounded_example =
    call_all-IsBounded layout 1 9 history calls layout-valid history-made calls-CallOk

-- A history after one edit, and after taking it back.
abbrev edited : History
edited = record history { layout = moved_layout; operations = 1; undo = layout ∷ [] }

abbrev undone : History
undone = record history { operations = 2; redo = moved_layout ∷ [] }

undo-edited : undo edited ≡ ok undone
unfolding undo undo_candidate consume ensure_operation_available
undo-edited = refl

redo-undone : redo undone ≡ ok (record edited { operations = 3 })
unfolding redo redo_candidate consume ensure_operation_available
redo-undone = refl

undo-trail_example : (trail undone ≡ trail edited) × (length edited.undo ≡ suc (length undone.undo))
undo-trail_example = undo-trail edited undone undo-edited

redo-trail_example :
    (trail (record edited { operations = 3 }) ≡ trail undone)
    × (length edited.undo ≡ suc (length undone.undo))
redo-trail_example = redo-trail undone (record edited { operations = 3 }) redo-undone

redo-undo_example : redo undone ≡ ok (record edited { operations = 1 + 2 })
redo-undo_example = redo-undo edited undone undo-edited (omega arith)

abbrev to_front : ViewportStackEdit
to_front = record { logical_slot = 7; action = ViewportStackAction.bring_to_front }

abbrev stacked_layout : Layout
stacked_layout =
    record {
      logical_slot = 4;
      geometry = record { x = 10; y = 0; width = 100; height = 100; z_index = 0 };
    }
    ∷ record { logical_slot = 7; geometry = right }
    ∷ []

stack-accepted : apply_viewport_stack layout to_front ≡ ok stacked_layout
unfolding apply_viewport_stack stack_order target_of restack layout_ok composition_ok placement_ok
    geometry_ok
stack-accepted = refl

stack-IsStacked_example : IsStacked layout stacked_layout
stack-IsStacked_example = stack-IsStacked layout to_front stacked_layout layout-valid stack-accepted

abbrev absent_slot : ViewportStackEdit
absent_slot = record { logical_slot = 5; action = ViewportStackAction.send_to_back }

stack_fails_example :
    (apply_viewport_stack layout absent_slot ≡ raise ViewportStackError.slot_not_found) ↔ (
      (ViewportStackError.slot_not_found ≡ ViewportStackError.slot_not_found)
      × (contains 5 (slots layout) ≡ false))
stack_fails_example = stack_fails layout absent_slot ViewportStackError.slot_not_found layout-valid
