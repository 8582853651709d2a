-- ===== src/Session.antt =====
-- `MediaSession` of src/k5vision/media/session.py. Its lock makes every call atomic; how each
-- awaited call of the runtime ends is an argument.
use k5_vision.Prelude.{
  ℕ, ◌+◌, Bool, true, false, List, [], ◌∷◌, ◌++◌, Result, ok, raise, if◌then◌else◌,
}
pub mod Protocol
pub mod Tests

pub data State : Type 0 where
  created opening running stopping stopped failed closed : State

-- `cancelled` is `asyncio.CancelledError`, which is raised again.
pub data SessionError : Type 0 where
  invalid_state invalid_source runtime_failure cancelled : SessionError

-- How an awaited call of the runtime ends.
pub data Outcome : Type 0 where
  done broken interrupted : Outcome

-- The calls of the runtime, as it sees them.
pub data RuntimeCall : Type 0 where
  starts stops closes : Outcome → RuntimeCall

pub record Session : Type 0 where
  pub state : State
  pub generation : ℕ
  pub calls : List RuntimeCall

abbrev pub new_session : Session
new_session = record { state = State.created; generation = 0; calls = [] }

abbrev pub Step : Type 0
Step = Session × Result SessionError (Unit {0})

-- The two handlers around every await: the state they leave is `FAILED`.
abbrev pub after_call : Session → RuntimeCall → Outcome → Session → Step
after_call s c Outcome.done s' = (record s' { calls = s.calls ++ (c ∷ []) }, ok tt)
after_call s c Outcome.broken s' = (
  record s { calls = s.calls ++ (c ∷ []); state = State.failed },
  raise SessionError.runtime_failure,
)
after_call s c Outcome.interrupted s' =
    (record s { calls = s.calls ++ (c ∷ []); state = State.failed }, raise SessionError.cancelled)

start_idle : Session → Outcome → Step
start_idle s o =
    after_call s (RuntimeCall.starts o) o
      (record s { generation = s.generation + 1; state = State.running })

-- `start`; `blank` says that the source is empty when stripped.
unfoldable pub start : Session → Bool → Outcome → Step
unfolding start_idle
start s true o = (s, raise SessionError.invalid_source)
start s false o = elim s.state [
  | State.running ↦ (s, ok tt)
  | State.created ↦ start_idle s o
  | State.stopped ↦ start_idle s o
  | _ ↦ (s, raise SessionError.invalid_state)
]

-- `_stop_locked`, which is `stop`.
unfoldable pub stop : Session → Outcome → Step
stop s o = elim s.state [
  | State.created ↦ (record s { state = State.stopped }, ok tt)
  | State.stopped ↦ (record s { state = State.stopped }, ok tt)
  | State.running ↦ after_call s (RuntimeCall.stops o) o (record s { state = State.stopped })
  | _ ↦ (s, raise SessionError.invalid_state)
]

unfoldable pub recover : Session → Outcome → Step
recover s o = elim s.state [
  | State.failed ↦ after_call s (RuntimeCall.closes o) o (record s { state = State.stopped })
  | _ ↦ (s, raise SessionError.invalid_state)
]

-- The part of `close` behind the stop.
unfoldable pub close_stopped : Session → Outcome → Step
close_stopped s o = elim s.state [
  | State.failed ↦ (s, raise SessionError.invalid_state)
  | _ ↦ after_call s (RuntimeCall.closes o) o (record s { state = State.closed })
]

-- `close`, with the ends of its stop and of its close.
unfoldable pub close : Session → Outcome → Outcome → Step
unfolding stop close_stopped
close s stop_end o = elim s.state [
  | State.closed ↦ (s, ok tt)
  | State.running ↦
      let (s', result) = stop s stop_end in
      elim result [ raise e ↦ (s', raise e) | ok _ ↦ close_stopped s' o ]
  | _ ↦ close_stopped s o
]

-- A caller's sequence of calls.
pub data Call : Type 0 where
  start_call : (blank : Bool) → Outcome → Call
  stop_call recover_call : Outcome → Call
  close_call : Outcome → Outcome → Call

unfoldable pub call : Session → Call → Step
call s (start_call blank o) = start s blank o
call s (stop_call o) = stop s o
call s (recover_call o) = recover s o
call s (close_call stop_end o) = close s stop_end o

unfoldable pub call_all : Session → List Call → Session
call_all s [] = s
call_all s (c ∷ cs) = call_all (call s c).0 cs
