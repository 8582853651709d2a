-- ===== src/Playback/Control.antt =====
-- The virtual clock of `PlaybackPauseControl`, src/k5vision/media/playback_control.py. Its lock makes
-- a call one step. The clock's floats are a parameter: their type and the operations that the code
-- applies to them, of which nothing is assumed. A reading is `none` if the clock raises.
use k5_vision.Prelude.{
  ℕ, ◌+◌, min, ◌&&◌, Option, none, some, List, [], ◌∷◌, Result, ok, raise, if◌then◌else◌, leb, Bool,
}
pub mod Pausing
pub mod Sleeping
pub mod Tests

-- Python's floats, as far as the control uses them.
pub record Floats (K : Type 0) : Type 0 where
  pub zero : K
  pub add : K → K → K
  pub sub : K → K → K
  -- `max(0.0, x)`
  pub positive_part : K → K
  -- `x <= 0`
  pub not_positive : K → Bool
  -- `max(0, round(x * 1000))`
  pub to_ms : K → ℕ

pub data State : Type 0 where
  running paused : State

-- `invalid_snapshot` is the `ValidationError` of the snapshot's bounds, `broken_state` the failure
-- of the assertion.
pub data ControlError : Type 0 where
  clock_failure invalid_snapshot broken_state : ControlError

pub record Snapshot : Type 0 where
  pub state : State
  pub pause_count : ℕ
  pub resume_count : ℕ
  pub paused_total_ms : ℕ

pub record Control (K : Type 0) : Type 0 where
  pub state : State
  pub pause_count : ℕ
  pub resume_count : ℕ
  pub paused_total : K
  pub paused_at : Option K

abbrev pub new_control : {K : Type 0} → Floats K → Control K
new_control F = record {
  state = State.running;
  pause_count = 0;
  resume_count = 0;
  paused_total = F.zero;
  paused_at = none;
}

abbrev pub max_count : ℕ
max_count = 1_000_000

abbrev pub max_paused_ms : ℕ
max_paused_ms = 2_147_483_647

abbrev pub effective_now : {K : Type 0} → Option K → K → K
effective_now none raw = raw
effective_now (some paused_at) raw = paused_at

-- `monotonic`
unfoldable pub monotonic : {K : Type 0} → Floats K → Control K → Option K → Result ControlError K
monotonic F c none = raise ControlError.clock_failure
monotonic F c (some raw) = ok (F.sub (effective_now c.paused_at raw) c.paused_total)

-- A call of the control, with the reading of the clock that it makes if it makes one.
pub data Call (K : Type 0) : Type 0 where
  pauses resumes : Option K → Call K

abbrev pub Step : Type 0 → Type 0
Step K = Control K × Result ControlError Snapshot

module _ {K : Type 0} (F : Floats K) where
  unfoldable pub snapshot : Control K → Result ControlError Snapshot
  snapshot c =
      if leb c.pause_count max_count && leb c.resume_count max_count
      then ok (record {
        state = c.state;
        pause_count = c.pause_count;
        resume_count = c.resume_count;
        paused_total_ms = min max_paused_ms (F.to_ms c.paused_total);
      })
      else raise ControlError.invalid_snapshot

  abbrev reports : Control K → Step K
  reports c = (c, snapshot c)

  pause_running : Control K → Option K → Step K
  pause_running c none = (c, raise ControlError.clock_failure)
  pause_running c (some paused_at) = reports (record c {
    state = State.paused;
    pause_count = c.pause_count + 1;
    paused_at = some paused_at;
  })

  -- `pause`
  unfoldable pub pause : Control K → Option K → Step K
  unfolding pause_running
  pause c reading = elim c.state [
    | State.paused ↦ reports c
    | State.running ↦ pause_running c reading
  ]

  resume_paused : Control K → Option K → Option K → Step K
  resume_paused c paused_at none = (c, raise ControlError.clock_failure)
  resume_paused c none (some resumed_at) = (c, raise ControlError.broken_state)
  resume_paused c (some paused_at) (some resumed_at) = reports (record c {
    state = State.running;
    resume_count = c.resume_count + 1;
    paused_total = F.add c.paused_total (F.positive_part (F.sub resumed_at paused_at));
    paused_at = none;
  })

  -- `resume`
  unfoldable pub resume : Control K → Option K → Step K
  unfolding resume_paused
  resume c reading = elim c.state [
    | State.running ↦ reports c
    | State.paused ↦ resume_paused c c.paused_at reading
  ]

  unfoldable pub call : Control K → Call K → Step K
  call c (pauses reading) = pause c reading
  call c (resumes reading) = resume c reading

  unfoldable pub call_all : Control K → List (Call K) → Control K
  unfolding call
  call_all c [] = c
  call_all c (k ∷ ks) = call_all (call c k).0 ks

-- What wakes a turn of `sleep`: the calls made since the turn before, with the reading that it makes
-- if it runs then; or the sleep given to the control fails, or the task is cancelled.
pub data Wake (K : Type 0) : Type 0 where
  woken : List (Call K) → Option K → Wake K
  sleep_fails interrupted : Wake K

-- `woke` has the wakings that are still to come.
pub data Sleep (K : Type 0) : Type 0 where
  asleep cancelled sleep_failure no_clock : Sleep K
  woke : List (Wake K) → Sleep K

module _ {K : Type 0} (F : Floats K) where
  -- The end of a turn that runs: `remaining = target - self.monotonic()`, and its test.
  abbrev pub turn : K → Result ControlError K → List (Wake K) → Sleep K → Sleep K
  turn target (raise e) ws later = Sleep.no_clock
  turn target (ok v) ws later = if F.not_positive (F.sub target v) then Sleep.woke ws else later

  -- The loop of `wait_until_running`.
  unfoldable pub wait_turns : Control K → List (Wake K) → Sleep K
  wait_turns c [] = Sleep.asleep
  wait_turns c (sleep_fails ∷ ws) = Sleep.sleep_failure
  wait_turns c (interrupted ∷ ws) = Sleep.cancelled
  wait_turns c (woken ks reading ∷ ws) =
      let c' = call_all F c ks in
      let later = wait_turns c' ws in
      elim c'.state [ State.paused ↦ later | State.running ↦ Sleep.woke ws ]

  -- The loop of `sleep`; a turn that finds the control paused waits on.
  unfoldable pub sleep_turns : Control K → K → List (Wake K) → Sleep K
  sleep_turns c target [] = Sleep.asleep
  sleep_turns c target (sleep_fails ∷ ws) = Sleep.sleep_failure
  sleep_turns c target (interrupted ∷ ws) = Sleep.cancelled
  sleep_turns c target (woken ks reading ∷ ws) =
      let c' = call_all F c ks in
      let later = sleep_turns c' target ws in
      elim c'.state [
        | State.paused ↦ later
        | State.running ↦ turn target (monotonic F c' reading) ws later
      ]

  -- `wait_until_running`, outside a work deadline.
  unfoldable pub wait_until_running : Control K → List (Wake K) → Sleep K
  wait_until_running c ws = elim c.state [
    | State.running ↦ Sleep.woke ws
    | State.paused ↦ wait_turns c ws
  ]

  -- `sleep`; the first waking is that of the turn that it begins with.
  unfoldable pub sleep : Control K → K → Option K → List (Wake K) → Sleep K
  unfolding wait_until_running
  sleep c delay reading ws =
      if F.not_positive delay then wait_until_running c ws else elim (monotonic F c reading) [
        | raise e ↦ Sleep.no_clock
        | ok v ↦ sleep_turns c (F.add v delay) ws
      ]
