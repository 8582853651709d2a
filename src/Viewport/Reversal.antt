-- ===== src/Viewport/Reversal.antt =====
-- Undo and redo as moves of a cursor along a trail of layouts.
use k5_vision.Prelude.{suc, ◌+◌, ◌<◌, ◌≡◌, sym, ◌∙◌, ap, List, [], ◌∷◌, arith, ok, length}
use k5_vision.Viewport.History.{
  Layout, History, undo, redo, consume, undo_candidate, redo_candidate, ensure_operation_available,
}
use k5_vision.Viewport.Bounded.{undo-eq-ok, redo-eq-ok}

-- The oldest layout first: what can be undone, the current one, what can be redone.
onto : List Layout → List Layout → List Layout
onto [] ls = ls
onto (u ∷ us) ls = onto us (u ∷ ls)

-- The abstract history: a sequence of layouts and a position in it.
unfoldable pub trail : History → List Layout
unfolding onto
trail h = onto h.undo (h.layout ∷ h.redo)

-- An undo that succeeds keeps the trail and moves the position back by one.
pub undo-trail :
    (h h' : History)
    → undo h ≡ ok h'
    → (trail h' ≡ trail h) × (length h.undo ≡ suc (length h'.undo))
unfolding trail
undo-trail h h' eq =
    let (previous, rest, last, room, made) = undo-eq-ok h h' eq in
    (
      ap trail made ∙ sym (ap (λ u. onto u (h.layout ∷ h.redo)) last),
      ap length last ∙ ap (λ (x : History). suc (length x.undo)) (sym made),
    )

-- A redo that succeeds keeps the trail and moves the position forth by one.
pub redo-trail :
    (h h' : History)
    → redo h ≡ ok h'
    → (trail h' ≡ trail h) × (length h'.undo ≡ suc (length h.undo))
unfolding trail
redo-trail h h' eq =
    let (following, rest, last, room, made) = redo-eq-ok h h' eq in
    (
      ap trail made ∙ sym (ap (λ r. onto h.undo (h.layout ∷ r)) last),
      ap (λ (x : History). length x.undo) made,
    )

-- A redo that still has an operation to spend takes an undo back: all is as before but the count
-- of operations, which is two higher.
pub redo-undo :
    (h h' : History)
    → undo h ≡ ok h'
    → h'.operations < h'.max_operations
    → redo h' ≡ ok (record h { operations = h.operations + 2 })
unfolding undo redo undo_candidate redo_candidate consume ensure_operation_available
redo-undo h h' eq room = ground arith
