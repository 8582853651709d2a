-- ===== src/Viewport/Bounded.antt =====
-- What holds of the history across any calls, and what undo and redo do.
use k5_vision.Prelude.{
  ℕ, suc, ◌+◌, ◌≤◌, ◌<◌, ◌≡◌, refl, sym, ap, true, List, [], ◌∷◌, arith, ok, Result-cases, subst,
  length, All, inl, inr, ltb, if◌then◌else◌, Bool-cases,
}
use k5_vision.Viewport.Geometry.{layout_ok}
use k5_vision.Viewport.Editor.{ViewportEdit, apply_viewport_edit}
use k5_vision.Viewport.Editing.{edit-IsEdited}
use k5_vision.Viewport.History.{
  Layout, History, Call, init, apply, undo, redo, rebase, consume, call, call_all, undo_candidate,
  redo_candidate, ensure_operation_available, delete_oldest, max_history,
}

-- A layout that passed its tests.
abbrev pub IsValid : Layout → Type 0
IsValid layout = layout_ok layout ≡ true

-- Every layout held is valid, the two branches together are within the limit, and so is the
-- number of operations.
pub record IsBounded (h : History) : Type 0 where
  pub current : IsValid h.layout
  pub undo : All IsValid h.undo
  pub redo : All IsValid h.redo
  pub depth : length h.undo + length h.redo ≤ h.max_history
  pub limit : h.max_history ≤ max_history
  pub operations : h.operations ≤ h.max_operations

-- A caller hands over layouts that passed their tests.
abbrev pub CallOk : Call → Type 0
CallOk (Call.rebases layout) = IsValid layout
CallOk _ = Unit

length-delete_oldest : (l : Layout) (ls : List Layout) → length (delete_oldest (l ∷ ls)) ≡ length ls
length-delete_oldest l [] = refl
length-delete_oldest l (l' ∷ ls) = omega (arith, length-delete_oldest l' ls)

All-delete_oldest : (ls : List Layout) → All IsValid ls → All IsValid (delete_oldest ls)
All-delete_oldest [] v = tt
All-delete_oldest (l ∷ []) v = tt
All-delete_oldest (l ∷ l' ∷ ls) v = (v.0, All-delete_oldest (l' ∷ ls) v.1)

-- An accepted edit, an accepted undo and an accepted redo, as changes of the record.
apply-eq-ok :
    (h : History) (edit : ViewportEdit) (h' : History)
    → apply h edit ≡ ok h'
    → (candidate : Layout) × (apply_viewport_edit h.layout edit ≡ ok candidate)
      × (h.operations < h.max_operations)
      × (h' ≡ record h {
        operations = h.operations + 1;
        undo =
            if ltb h.max_history (1 + length h.undo)
            then delete_oldest (h.layout ∷ h.undo)
            else h.layout ∷ h.undo;
        layout = candidate;
        redo = [];
      })
unfolding apply consume ensure_operation_available
apply-eq-ok h edit h' eq = ground arith

pub undo-eq-ok :
    (h h' : History)
    → undo h ≡ ok h'
    → (previous : Layout) × (rest : List Layout) × (h.undo ≡ previous ∷ rest)
      × (h.operations < h.max_operations)
      × (h' ≡ record h {
        operations = h.operations + 1;
        undo = rest;
        layout = previous;
        redo = h.layout ∷ h.redo;
      })
unfolding undo undo_candidate consume ensure_operation_available
undo-eq-ok h h' eq = ground arith

pub redo-eq-ok :
    (h h' : History)
    → redo h ≡ ok h'
    → (following : Layout) × (rest : List Layout) × (h.redo ≡ following ∷ rest)
      × (h.operations < h.max_operations)
      × (h' ≡ record h {
        operations = h.operations + 1;
        undo = h.layout ∷ h.undo;
        layout = following;
        redo = rest;
      })
unfolding redo redo_candidate consume ensure_operation_available
redo-eq-ok h h' eq = ground arith

apply-IsBounded :
    (h : History) (edit : ViewportEdit) (h' : History)
    → IsBounded h
    → apply h edit ≡ ok h'
    → IsBounded h'
apply-IsBounded h edit h' b eq =
    let (candidate, edited, room, made) = apply-eq-ok h edit h' eq in
    let older = All-delete_oldest (h.layout ∷ h.undo) (b.current, b.undo) in
    let shorter = length-delete_oldest h.layout h.undo in
    let valid = (edit-IsEdited h.layout edit candidate b.current edited).valid in
    let ops : h.operations + 1 ≤ h.max_operations = omega (arith, room) in
    subst IsBounded (sym made) (elim (Bool-cases (ltb h.max_history (1 + length h.undo))) [
      | inl full ↦ record {
        current = valid;
        undo = rw full older;
        redo = tt;
        depth = rw full (omega (arith, shorter, b.depth));
        limit = b.limit;
        operations = ops;
      }
      | inr free ↦ record {
        current = valid;
        undo = rw free (b.current, b.undo);
        redo = tt;
        depth = rw free (ground arith);
        limit = b.limit;
        operations = ops;
      }
    ])

undo-IsBounded : (h h' : History) → IsBounded h → undo h ≡ ok h' → IsBounded h'
undo-IsBounded h h' b eq =
    let (previous, rest, last, room, made) = undo-eq-ok h h' eq in
    let valid : All IsValid (previous ∷ rest) = subst (All IsValid) last b.undo in
    let long : length h.undo ≡ suc (length rest) = ap length last in
    let total : length rest + length (h.layout ∷ h.redo) ≤ h.max_history =
      omega (arith, long, b.depth) in
    let ops : h.operations + 1 ≤ h.max_operations = omega (arith, room) in
    subst IsBounded (sym made) (record {
      current = valid.0;
      undo = valid.1;
      redo = (b.current, b.redo);
      depth = total;
      limit = b.limit;
      operations = ops;
    })

redo-IsBounded : (h h' : History) → IsBounded h → redo h ≡ ok h' → IsBounded h'
redo-IsBounded h h' b eq =
    let (following, rest, last, room, made) = redo-eq-ok h h' eq in
    let valid : All IsValid (following ∷ rest) = subst (All IsValid) last b.redo in
    let long : length h.redo ≡ suc (length rest) = ap length last in
    let total : length (h.layout ∷ h.undo) + length rest ≤ h.max_history =
      omega (arith, long, b.depth) in
    let ops : h.operations + 1 ≤ h.max_operations = omega (arith, room) in
    subst IsBounded (sym made) (record {
      current = valid.0;
      undo = (b.current, b.undo);
      redo = valid.1;
      depth = total;
      limit = b.limit;
      operations = ops;
    })

call-IsBounded :
    (h : History) (c : Call) (h' : History)
    → CallOk c
    → IsBounded h
    → call h c ≡ ok h'
    → IsBounded h'
unfolding call
call-IsBounded h (Call.edits edit) h' given b eq = apply-IsBounded h edit h' b eq
call-IsBounded h Call.undoes h' given b eq = undo-IsBounded h h' b eq
call-IsBounded h Call.redoes h' given b eq = redo-IsBounded h h' b eq
call-IsBounded h (Call.rebases layout) h' given b eq =
    let made : h' ≡ record h { layout = layout; undo = []; redo = [] } =
      unfold rebase in sym (cc eq) in
    subst IsBounded (sym made) (record {
      current = given;
      undo = tt;
      redo = tt;
      depth = omega arith;
      limit = b.limit;
      operations = b.operations;
    })

calls-IsBounded :
    (h : History) (cs : List Call) → All CallOk cs → IsBounded h → IsBounded (call_all h cs)
unfolding call_all
calls-IsBounded h [] given b = b
calls-IsBounded h (c ∷ cs) given b = elim (Result-cases (call h c)) [
  | inl (h', made) ↦
      rw (made, call_all) (calls-IsBounded h' cs given.1 (call-IsBounded h c h' given.0 b made))
  | inr (e, failed) ↦ rw (failed, call_all) (calls-IsBounded h cs given.1 b)
]

init-IsBounded :
    (layout : Layout) (limit operations : ℕ) (h : History)
    → IsValid layout
    → init layout limit operations ≡ ok h
    → IsBounded h
unfolding init
init-IsBounded layout limit operations h valid made = ground arith

-- Whatever calls are made on a new history, in whatever order, and whichever of them raise: from a
-- valid layout, and with valid layouts to rebase on, every layout that it holds is valid, undo and
-- redo branch together stay within the limit of the history, that limit within 1024, and the
-- operations within theirs.
pub call_all-IsBounded :
    (layout : Layout) (limit operations : ℕ) (h : History) (cs : List Call)
    → IsValid layout
    → init layout limit operations ≡ ok h
    → All CallOk cs
    → IsBounded (call_all h cs)
call_all-IsBounded layout limit operations h cs valid made given =
    calls-IsBounded h cs given (init-IsBounded layout limit operations h valid made)
