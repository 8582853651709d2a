-- ===== src/Generator.antt =====
-- A Python generator, run against one input, as the finite sequence of its suspensions. Each
-- `iter_packets` of the playback stack is one: a layer is a function from the run of the layer
-- below to its own run, and `S` is the state of the object whose method the generator is.
use k5_vision.Prelude.{List, [], ◌∷◌}

-- `yields a s t`: the generator hands out `a` and waits, the object in state `s`; resumed, it
-- goes on as `t`. `returns s` and `raises e s` are its ends. `out_of_fuel` belongs to the model.
pub data Run {ℓ κ μ} (S : Type ℓ) (E : Type κ) (A : Type μ) : Type (ℓ ⊔ κ ⊔ μ) where
  yields : A → S → Run S E A → Run S E A
  returns : S → Run S E A
  raises : E → S → Run S E A
  out_of_fuel : Run S E A

pub data Ending {ℓ κ} (S : Type ℓ) (E : Type κ) : Type (ℓ ⊔ κ) where
  returned : S → Ending S E
  raised : E → S → Ending S E
  stuck : Ending S E

module _ {ℓ κ μ} {S : Type ℓ} {E : Type κ} {A : Type μ} where
  -- What a `for` loop over the generator sees, and how it ends.
  abbrev pub items : Run S E A → List A
  items (yields a _ t) = a ∷ items t
  items (returns _) = []
  items (raises _ _) = []
  items out_of_fuel = []

  abbrev pub ending : Run S E A → Ending S E
  ending (yields _ _ t) = ending t
  ending (returns s) = Ending.returned s
  ending (raises e s) = Ending.raised e s
  ending out_of_fuel = Ending.stuck

  -- What holds of the state at every suspension, where a caller that leaves its loop closes the
  -- generator.
  abbrev pub Suspends {ν} : (S → Type ν) → Run S E A → Type ν
  Suspends P (yields _ s t) = P s × Suspends P t
  Suspends P _ = Unit
