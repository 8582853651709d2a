-- ===== src/Viewport/Stack.antt =====
-- `apply_viewport_stack` of src/k5vision/media/viewport_stack.py: a placement to the front or to
-- the back of the z order. A position in the tuple of placements is a number.
use k5_vision.Prelude.{
  ℕ, suc, ◌-◌, Bool, ◌&&◌, ◌||◌, List, [], ◌∷◌, ◌++◌, Option, none, some, ltb, ◌==◌, if◌then◌else◌,
  Result, ok, raise, length,
}
use k5_vision.Viewport.Geometry.{ViewportPlacement, composition_ok}

pub data ViewportStackAction : Type 0 where
  bring_to_front send_to_back : ViewportStackAction

-- `layout_rejected` is the `ValidationError` of the layout built last, which the source lets
-- through.
pub data ViewportStackError : Type 0 where
  invalid_configuration slot_not_found layout_rejected : ViewportStackError

pub record ViewportStackEdit : Type 0 where
  pub logical_slot : ℕ
  pub action : ViewportStackAction

-- A position with its sort key's first part.
abbrev pub Entry : Type 0
Entry = ℕ × ℕ

abbrev pub entries : ℕ → List ViewportPlacement → List Entry
entries index [] = []
entries index (p ∷ ps) = (p.geometry.z_index, index) ∷ entries (suc index) ps

-- `(z_index, index)` compared as Python compares tuples.
abbrev pub before : Entry → Entry → Bool
before a b = ltb a.0 b.0 || ((a.0 == b.0) && ltb a.1 b.1)

abbrev pub insert_entry : Entry → List Entry → List Entry
insert_entry a [] = a ∷ []
insert_entry a (b ∷ bs) =
    let rest = insert_entry a bs in if before a b then a ∷ b ∷ bs else b ∷ rest

abbrev pub sort_entries : List Entry → List Entry
sort_entries [] = []
sort_entries (a ∷ as') = insert_entry a (sort_entries as')

abbrev pub indices : List Entry → List ℕ
indices [] = []
indices ((_, index) ∷ es) = index ∷ indices es

-- `_stack_order`
unfoldable pub stack_order : List ViewportPlacement → List ℕ
stack_order layout = indices (sort_entries (entries 0 layout))

-- The first placement of the slot.
unfoldable pub target_of : ℕ → ℕ → List ViewportPlacement → Option ℕ
target_of slot index [] = none
target_of slot index (p ∷ ps) =
    let rest = target_of slot (suc index) ps in if p.logical_slot == slot then some index else rest

-- `order.remove(target)`
abbrev pub remove : ℕ → List ℕ → List ℕ
remove target [] = []
remove target (i ∷ is) = let rest = remove target is in if i == target then is else i ∷ rest

-- `order.index(index)`, which is also `z_by_index`: the position of an index in an order.
abbrev pub position_of : ℕ → List ℕ → ℕ
position_of index [] = 0
position_of index (i ∷ is) = let rest = position_of index is in if i == index then 0 else suc rest

-- The order without the target, with it at the end or at the start.
abbrev pub moved_order : ViewportStackAction → ℕ → List ℕ → List ℕ
moved_order ViewportStackAction.bring_to_front target order = remove target order ++ (target ∷ [])
moved_order ViewportStackAction.send_to_back target order = target ∷ remove target order

-- Whether the target is where the action would bring it.
abbrev pub in_place : ViewportStackAction → ℕ → List ℕ → Bool
in_place ViewportStackAction.bring_to_front target order =
    position_of target order == length order - 1
in_place ViewportStackAction.send_to_back target order = position_of target order == 0

abbrev pub stacked : ViewportPlacement → ℕ → ViewportPlacement
stacked p z = record {
  logical_slot = p.logical_slot;
  geometry = let g = p.geometry in record g { z_index = z };
}

-- Every placement at its new z index.
unfoldable pub restack : List ℕ → ℕ → List ViewportPlacement → List ViewportPlacement
restack order index [] = []
restack order index (p ∷ ps) = stacked p (position_of index order) ∷ restack order (suc index) ps

unfoldable pub apply_viewport_stack :
    List ViewportPlacement → ViewportStackEdit → Result ViewportStackError (List ViewportPlacement)
apply_viewport_stack layout edit = elim (target_of edit.logical_slot 0 layout) [
  | none ↦ raise ViewportStackError.slot_not_found
  | some target ↦
      let order = stack_order layout in
      if in_place edit.action target order
      then ok layout
      else let placements = restack (moved_order edit.action target order) 0 layout in
        if composition_ok placements
        then ok placements
        else raise ViewportStackError.layout_rejected
]
