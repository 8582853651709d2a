-- ===== src/Playback/Control/Pausing.antt =====
-- What the virtual clock of `PlaybackPauseControl` (src/k5vision/media/playback_control.py) shows.
use k5_vision.Prelude.{ℕ, ◌+◌, ◌≡◌, refl, Option, none, some, List, [], ◌∷◌, ok}
use k5_vision.Playback.Control.{
  Floats, State, Control, Call, pauses, resumes, new_control, effective_now, monotonic, pause,
  pause_running, resume, resume_paused, call, call_all,
}

-- The pauses that calls complete, each by its begin and its end, and the begin of the pause that
-- they leave open; a call whose reading fails, a pause of a paused control and a resume of one that
-- runs count for nothing.
abbrev pub completed : {K : Type 0} → Option K → List (Call K) → List (K × K)
completed at [] = []
completed none (pauses reading ∷ ks) = completed reading ks
completed none (resumes reading ∷ ks) = completed none ks
completed (some t) (pauses reading ∷ ks) = completed (some t) ks
completed (some t) (resumes none ∷ ks) = completed (some t) ks
completed (some t) (resumes (some now) ∷ ks) = (t, now) ∷ completed none ks

abbrev pub left_open : {K : Type 0} → Option K → List (Call K) → Option K
left_open at [] = at
left_open none (pauses reading ∷ ks) = left_open reading ks
left_open none (resumes reading ∷ ks) = left_open none ks
left_open (some t) (pauses reading ∷ ks) = left_open (some t) ks
left_open (some t) (resumes none ∷ ks) = left_open (some t) ks
left_open (some t) (resumes (some now) ∷ ks) = left_open none ks

-- The time of these pauses, each counted if it is above zero, added to what there was.
abbrev pub pause_total : {K : Type 0} → Floats K → K → List (K × K) → K
pause_total F total [] = total
pause_total F total ((t, now) ∷ ps) = pause_total F (F.add total (F.positive_part (F.sub now t))) ps

-- A control is in the state of a pause that is open or not, and its virtual clock shows the begin
-- of that pause, or the clock's reading if there is none, less the time of the pauses before.
pub record Shows {K : Type 0} (F : Floats K) (at : Option K) (total : K) (c : Control K)
    : Type 0 where
  pub state : c.state ≡ elim at as (λ o. State) [ none ↦ State.running | some t ↦ State.paused ]
  pub clock : (now : K) → monotonic F c (some now) ≡ ok (F.sub (effective_now at now) total)

abbrev control_at : {K : Type 0} → Option K → K → ℕ → ℕ → Control K
control_at none total n k = record {
  state = State.running;
  pause_count = n;
  resume_count = k;
  paused_total = total;
  paused_at = none;
}
control_at (some t) total n k = record {
  state = State.paused;
  pause_count = n;
  resume_count = k;
  paused_total = total;
  paused_at = some t;
}

module _ {K : Type 0} (F : Floats K) where
  control_at-Shows :
      (ks : List (Call K)) (at : Option K) (total : K) (n k : ℕ)
      → Shows F
          (left_open at ks)
          (pause_total F total (completed at ks))
          (call_all F (control_at at total n k) ks)
  unfolding monotonic call_all call pause pause_running resume resume_paused
  control_at-Shows [] none total n k = record { state = refl; clock = λ now. refl }
  control_at-Shows [] (some t) total n k = record { state = refl; clock = λ now. refl }
  control_at-Shows (pauses none ∷ ks) none total n k = control_at-Shows ks none total n k
  control_at-Shows (pauses (some t) ∷ ks) none total n k =
      control_at-Shows ks (some t) total (n + 1) k
  control_at-Shows (resumes reading ∷ ks) none total n k = control_at-Shows ks none total n k
  control_at-Shows (pauses reading ∷ ks) (some t) total n k = control_at-Shows ks (some t) total n k
  control_at-Shows (resumes none ∷ ks) (some t) total n k = control_at-Shows ks (some t) total n k
  control_at-Shows (resumes (some now) ∷ ks) (some t) total n k =
      control_at-Shows ks none (F.add total (F.positive_part (F.sub now t))) n (k + 1)

  -- Behind any calls of a new control, those whose reading fails included, the control is paused
  -- exactly if the calls leave a pause open, and its virtual clock shows the begin of that pause,
  -- or the clock's reading if none is open, less the sum of the pauses that the calls complete,
  -- each from its first pause to the resume that ends it and counted if it is above zero. This is
  -- in the floats' own arithmetic, of which nothing is assumed.
  pub call_all-Shows :
      (ks : List (Call K))
      → Shows F
          (left_open none ks)
          (pause_total F F.zero (completed none ks))
          (call_all F (new_control F) ks)
  call_all-Shows ks = control_at-Shows ks none F.zero 0 0
