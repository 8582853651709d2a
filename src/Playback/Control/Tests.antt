-- ===== src/Playback/Control/Tests.antt =====
-- The theorems of the pause control, with numbers for the floats, at a pause from 1300 to 1800 and a
-- sleep of 1000.
use k5_vision.Prelude.{ℕ, ◌+◌, ◌-◌, ◌≡◌, refl, List, [], ◌∷◌, some, none, ok, ◌==◌}
use k5_vision.Playback.Control.{
  Floats, Call, pauses, resumes, new_control, monotonic, pause, pause_running, resume,
  resume_paused, call, call_all, Wake, woken, woke, sleep_turns, sleep,
}
use k5_vision.Playback.Control.Pausing.{Shows, completed, left_open, pause_total, call_all-Shows}
use k5_vision.Playback.Control.Sleeping.{IsReached, sleep-IsReached}

abbrev numbers : Floats ℕ
numbers = record {
  zero = 0;
  add = ◌+◌;
  sub = ◌-◌;
  positive_part = λ x. x;
  not_positive = λ x. x == 0;
  to_ms = λ x. x;
}

abbrev break : List (Call ℕ)
break = pauses (some 1300) ∷ pauses (some 1400) ∷ resumes none ∷ resumes (some 1800) ∷ []

call_all-Shows_example :
    Shows numbers
      (left_open none break)
      (pause_total numbers 0 (completed none break))
      (call_all numbers (new_control numbers) break)
call_all-Shows_example = call_all-Shows numbers break

abbrev wakes : List (Wake ℕ)
wakes =
    woken (pauses (some 1300) ∷ []) none
    ∷ woken (resumes (some 1800) ∷ []) (some 1850)
    ∷ woken [] (some 2600)
    ∷ []

wakes-return : sleep numbers (new_control numbers) 1000 (some 1050) wakes ≡ woke []
unfolding sleep sleep_turns monotonic call_all call pause pause_running resume resume_paused
wakes-return = refl

sleep-IsReached_example :
    (start : ℕ) × (monotonic numbers (new_control numbers) (some 1050) ≡ ok start)
    × IsReached numbers (new_control numbers) (start + 1000) wakes []
sleep-IsReached_example =
    sleep-IsReached numbers (new_control numbers) 1000 (some 1050) wakes [] refl wakes-return
