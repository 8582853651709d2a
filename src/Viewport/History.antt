-- ===== src/Viewport/History.antt =====
-- `BoundedViewportEditorHistory` of src/k5vision/media/viewport_editor_history.py. The lists
-- `_undo` and `_redo` stand with their last element first.
use k5_vision.Prelude.{
  ℕ, ◌+◌, ◌&&◌, List, [], ◌∷◌, leb, ltb, if◌then◌else◌, Result, ok, raise, raise_if, length, ◌>>=◌,
  ◌>>◌,
}
use k5_vision.Viewport.Geometry.{ViewportPlacement}
use k5_vision.Viewport.Editor.{ViewportEdit, ViewportEditorError, apply_viewport_edit}

abbrev pub max_history : ℕ
max_history = 1024

abbrev pub max_operations : ℕ
max_operations = 1_000_000

abbrev pub Layout : Type 0
Layout = List ViewportPlacement

-- `edit_failed` is an exception of `apply_viewport_edit`, which passes through.
pub data HistoryError : Type 0 where
  invalid_configuration nothing_to_undo nothing_to_redo operation_limit : HistoryError
  edit_failed : ViewportEditorError → HistoryError

pub record History : Type 0 where
  pub layout : Layout
  pub max_history : ℕ
  pub max_operations : ℕ
  pub operations : ℕ
  pub undo : List Layout
  pub redo : List Layout

unfoldable pub init : Layout → ℕ → ℕ → Result HistoryError History
init layout history_limit operations_limit =
    if leb 1 history_limit
      && leb history_limit max_history
      && leb 1 operations_limit
      && leb operations_limit max_operations
    then ok (record {
      layout = layout;
      max_history = history_limit;
      max_operations = operations_limit;
      operations = 0;
      undo = [];
      redo = [];
    })
    else raise HistoryError.invalid_configuration

unfoldable pub undo_candidate : History → Result HistoryError Layout
undo_candidate h = elim h.undo [
  | [] ↦ raise HistoryError.nothing_to_undo
  | previous ∷ _ ↦ ok previous
]

unfoldable pub redo_candidate : History → Result HistoryError Layout
redo_candidate h = elim h.redo [
  | [] ↦ raise HistoryError.nothing_to_redo
  | following ∷ _ ↦ ok following
]

unfoldable pub ensure_operation_available : History → Result HistoryError (Unit {0})
ensure_operation_available h =
    raise_if (leb h.max_operations h.operations) HistoryError.operation_limit

-- `_consume`
unfoldable pub consume : History → Result HistoryError History
consume h = do ensure_operation_available h; ok (record h { operations = h.operations + 1 })

-- `rebase`
unfoldable pub rebase : History → Layout → History
rebase h layout = record h { layout = layout; undo = []; redo = [] }

-- `pop`, of a list that has a last element.
abbrev pub pop : List Layout → List Layout
pop [] = []
pop (_ ∷ layouts) = layouts

-- `del self._undo[0]`
abbrev pub delete_oldest : List Layout → List Layout
delete_oldest [] = []
delete_oldest (layout ∷ []) = []
delete_oldest (layout ∷ next ∷ layouts) = layout ∷ delete_oldest (next ∷ layouts)

-- `apply`
unfoldable pub apply : History → ViewportEdit → Result HistoryError History
apply h edit = elim (apply_viewport_edit h.layout edit) [
  | raise e ↦ raise (HistoryError.edit_failed e)
  | ok candidate ↦ do
    h' ← consume h
    let undo = h.layout ∷ h.undo
    ok (record h' {
      undo = if ltb h.max_history (length undo) then delete_oldest undo else undo;
      layout = candidate;
      redo = [];
    })
]

unfoldable pub undo : History → Result HistoryError History
undo h = do
  previous ← undo_candidate h
  h' ← consume h
  ok (record h' { undo = pop h.undo; redo = h.layout ∷ h.redo; layout = previous })

unfoldable pub redo : History → Result HistoryError History
redo h = do
  following ← redo_candidate h
  h' ← consume h
  ok (record h' { redo = pop h.redo; undo = h.layout ∷ h.undo; layout = following })

-- A caller's sequence of calls; one that raises leaves the history as it was.
pub data Call : Type 0 where
  edits : ViewportEdit → Call
  undoes redoes : Call
  rebases : Layout → Call

unfoldable pub call : History → Call → Result HistoryError History
call h (edits edit) = apply h edit
call h undoes = undo h
call h redoes = redo h
call h (rebases layout) = ok (rebase h layout)

unfoldable pub call_all : History → List Call → History
call_all h [] = h
call_all h (c ∷ cs) = elim (call h c) [ ok h' ↦ call_all h' cs | raise _ ↦ call_all h cs ]
