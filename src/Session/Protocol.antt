-- ===== src/Session/Protocol.antt =====
-- What the runtime behind a media session may rely on.
use k5_vision.Prelude.{
  ℕ, suc, ◌+◌, ◌≡◌, ◌≢◌, refl, sym, ◌∙◌, ap, Bool, true, false, List, [], ◌∷◌, ◌++◌, arith, Option,
  none, some,
}
use k5_vision.Session.{
  State, Outcome, RuntimeCall, Session, Call, new_session, start, stop, recover, close, call,
  call_all, start_idle, close_stopped,
}

-- The runtime as its caller must see it: nothing is active, a source is, a call failed and it is
-- not known, or the session is over. `idle` is also where a cleanup leaves it.
pub data Phase : Type 0 where
  idle active unknown over : Phase

-- The protocol: a start only when idle, a stop only when active, a close when idle or unknown; what
-- follows a call that did not succeed is unknown. `none` is a call out of turn. A close that
-- succeeds when idle is the last call; one that succeeds otherwise is a cleanup.
abbrev pub next : Phase → RuntimeCall → Option Phase
next Phase.idle (RuntimeCall.starts Outcome.done) = some Phase.active
next Phase.idle (RuntimeCall.starts _) = some Phase.unknown
next Phase.active (RuntimeCall.stops Outcome.done) = some Phase.idle
next Phase.active (RuntimeCall.stops _) = some Phase.unknown
next Phase.idle (RuntimeCall.closes Outcome.done) = some Phase.over
next Phase.idle (RuntimeCall.closes _) = some Phase.unknown
next Phase.unknown (RuntimeCall.closes Outcome.done) = some Phase.idle
next Phase.unknown (RuntimeCall.closes _) = some Phase.unknown
next _ _ = none

next_of : Option Phase → RuntimeCall → Option Phase
next_of none c = none
next_of (some phase) c = next phase c

unfoldable pub follow : Option Phase → List RuntimeCall → Option Phase
unfolding next_of
follow phase [] = phase
follow phase (c ∷ cs) = follow (next_of phase c) cs

-- The phase that a state of the session stands for.
abbrev pub phase_of : State → Option Phase
phase_of State.created = some Phase.idle
phase_of State.stopped = some Phase.idle
phase_of State.running = some Phase.active
phase_of State.failed = some Phase.unknown
phase_of State.closed = some Phase.over
phase_of State.opening = none
phase_of State.stopping = none

abbrev pub count_starts : List RuntimeCall → ℕ
count_starts [] = 0
count_starts (RuntimeCall.starts Outcome.done ∷ cs) = suc (count_starts cs)
count_starts (_ ∷ cs) = count_starts cs

pub record IsOrderly (s : Session) : Type 0 where
  pub phase : Phase
  pub known : phase_of s.state ≡ some phase
  pub followed : follow (some Phase.idle) s.calls ≡ some phase
  pub generations : s.generation ≡ count_starts s.calls

follow-append :
    (phase : Option Phase) (cs ds : List RuntimeCall)
    → follow phase (cs ++ ds) ≡ follow (follow phase cs) ds
unfolding follow
follow-append phase [] ds = refl
follow-append phase (c ∷ cs) ds = follow-append (next_of phase c) cs ds

count_starts-append :
    (cs ds : List RuntimeCall) → count_starts (cs ++ ds) ≡ count_starts cs + count_starts ds
count_starts-append [] ds = omega arith
count_starts-append (RuntimeCall.starts Outcome.done ∷ cs) ds =
    omega (arith, count_starts-append cs ds)
count_starts-append (RuntimeCall.starts Outcome.broken ∷ cs) ds = count_starts-append cs ds
count_starts-append (RuntimeCall.starts Outcome.interrupted ∷ cs) ds = count_starts-append cs ds
count_starts-append (RuntimeCall.stops _ ∷ cs) ds = count_starts-append cs ds
count_starts-append (RuntimeCall.closes _ ∷ cs) ds = count_starts-append cs ds

-- A session goes on by one call of the runtime that is in turn.
IsOrderly-call :
    (s : Session) (c : RuntimeCall) (state : State) (generation : ℕ) (before phase : Phase)
    → IsOrderly s
    → phase_of s.state ≡ some before
    → next before c ≡ some phase
    → phase_of state ≡ some phase
    → generation ≡ s.generation + count_starts (c ∷ [])
    → IsOrderly (record { state = state; generation = generation; calls = s.calls ++ (c ∷ []) })
unfolding follow
IsOrderly-call s c state generation before phase o was turn known counted = record {
  phase = phase;
  known = known;
  followed =
      follow-append (some Phase.idle) s.calls (c ∷ [])
      ∙ ap (λ x. next_of x c) (o.followed ∙ sym o.known ∙ was)
      ∙ turn;
  generations = omega (arith, count_starts-append s.calls (c ∷ []), o.generations, counted);
}

abbrev session_at : State → ℕ → List RuntimeCall → Session
session_at state generation calls = record { state = state; generation = generation; calls = calls }

module _ (g : ℕ) (cs : List RuntimeCall) where
  start_at :
      (state : State) (blank : Bool) (e : Outcome)
      → IsOrderly (session_at state g cs)
      → IsOrderly (start (session_at state g cs) blank e).0
  unfolding start start_idle
  start_at st true e o = o
  start_at State.created false Outcome.done o =
      IsOrderly-call (session_at State.created g cs) (RuntimeCall.starts Outcome.done) State.running
        (g + 1) Phase.idle Phase.active o refl refl refl (omega arith)
  start_at State.created false Outcome.broken o =
      IsOrderly-call (session_at State.created g cs) (RuntimeCall.starts Outcome.broken)
        State.failed g Phase.idle Phase.unknown o refl refl refl (omega arith)
  start_at State.created false Outcome.interrupted o =
      IsOrderly-call (session_at State.created g cs) (RuntimeCall.starts Outcome.interrupted)
        State.failed g Phase.idle Phase.unknown o refl refl refl (omega arith)
  start_at State.stopped false Outcome.done o =
      IsOrderly-call (session_at State.stopped g cs) (RuntimeCall.starts Outcome.done) State.running
        (g + 1) Phase.idle Phase.active o refl refl refl (omega arith)
  start_at State.stopped false Outcome.broken o =
      IsOrderly-call (session_at State.stopped g cs) (RuntimeCall.starts Outcome.broken)
        State.failed g Phase.idle Phase.unknown o refl refl refl (omega arith)
  start_at State.stopped false Outcome.interrupted o =
      IsOrderly-call (session_at State.stopped g cs) (RuntimeCall.starts Outcome.interrupted)
        State.failed g Phase.idle Phase.unknown o refl refl refl (omega arith)
  start_at State.running false e o = o
  start_at State.opening false e o = o
  start_at State.stopping false e o = o
  start_at State.failed false e o = o
  start_at State.closed false e o = o

  stop_at :
      (state : State) (e : Outcome)
      → IsOrderly (session_at state g cs)
      → IsOrderly (stop (session_at state g cs) e).0
  unfolding stop
  stop_at State.created e o = record {
    phase = o.phase;
    known = o.known;
    followed = o.followed;
    generations = o.generations;
  }
  stop_at State.stopped e o = o
  stop_at State.running Outcome.done o =
      IsOrderly-call (session_at State.running g cs) (RuntimeCall.stops Outcome.done) State.stopped
        g Phase.active Phase.idle o refl refl refl (omega arith)
  stop_at State.running Outcome.broken o =
      IsOrderly-call (session_at State.running g cs) (RuntimeCall.stops Outcome.broken) State.failed
        g Phase.active Phase.unknown o refl refl refl (omega arith)
  stop_at State.running Outcome.interrupted o =
      IsOrderly-call (session_at State.running g cs) (RuntimeCall.stops Outcome.interrupted)
        State.failed g Phase.active Phase.unknown o refl refl refl (omega arith)
  stop_at State.opening e o = o
  stop_at State.stopping e o = o
  stop_at State.failed e o = o
  stop_at State.closed e o = o

  recover_at :
      (state : State) (e : Outcome)
      → IsOrderly (session_at state g cs)
      → IsOrderly (recover (session_at state g cs) e).0
  unfolding recover
  recover_at State.failed Outcome.done o =
      IsOrderly-call (session_at State.failed g cs) (RuntimeCall.closes Outcome.done) State.stopped
        g Phase.unknown Phase.idle o refl refl refl (omega arith)
  recover_at State.failed Outcome.broken o =
      IsOrderly-call (session_at State.failed g cs) (RuntimeCall.closes Outcome.broken) State.failed
        g Phase.unknown Phase.unknown o refl refl refl (omega arith)
  recover_at State.failed Outcome.interrupted o =
      IsOrderly-call (session_at State.failed g cs) (RuntimeCall.closes Outcome.interrupted)
        State.failed g Phase.unknown Phase.unknown o refl refl refl (omega arith)
  recover_at State.created e o = o
  recover_at State.stopped e o = o
  recover_at State.running e o = o
  recover_at State.opening e o = o
  recover_at State.stopping e o = o
  recover_at State.closed e o = o

  close_stopped_at :
      (state : State) (e : Outcome)
      → state ≢ State.running
      → state ≢ State.closed
      → IsOrderly (session_at state g cs)
      → IsOrderly (close_stopped (session_at state g cs) e).0
  unfolding close_stopped
  close_stopped_at State.created Outcome.done nr nc o =
      IsOrderly-call (session_at State.created g cs) (RuntimeCall.closes Outcome.done) State.closed
        g Phase.idle Phase.over o refl refl refl (omega arith)
  close_stopped_at State.created Outcome.broken nr nc o =
      IsOrderly-call (session_at State.created g cs) (RuntimeCall.closes Outcome.broken)
        State.failed g Phase.idle Phase.unknown o refl refl refl (omega arith)
  close_stopped_at State.created Outcome.interrupted nr nc o =
      IsOrderly-call (session_at State.created g cs) (RuntimeCall.closes Outcome.interrupted)
        State.failed g Phase.idle Phase.unknown o refl refl refl (omega arith)
  close_stopped_at State.stopped Outcome.done nr nc o =
      IsOrderly-call (session_at State.stopped g cs) (RuntimeCall.closes Outcome.done) State.closed
        g Phase.idle Phase.over o refl refl refl (omega arith)
  close_stopped_at State.stopped Outcome.broken nr nc o =
      IsOrderly-call (session_at State.stopped g cs) (RuntimeCall.closes Outcome.broken)
        State.failed g Phase.idle Phase.unknown o refl refl refl (omega arith)
  close_stopped_at State.stopped Outcome.interrupted nr nc o =
      IsOrderly-call (session_at State.stopped g cs) (RuntimeCall.closes Outcome.interrupted)
        State.failed g Phase.idle Phase.unknown o refl refl refl (omega arith)
  close_stopped_at State.failed e nr nc o = o
  close_stopped_at State.opening e nr nc o = absurd (cc o.known)
  close_stopped_at State.stopping e nr nc o = absurd (cc o.known)
  close_stopped_at State.running e nr nc o = absurd (nr refl)
  close_stopped_at State.closed e nr nc o = absurd (nc refl)

IsOrderly-close :
    (state : State) (g : ℕ) (cs : List RuntimeCall) (e e' : Outcome)
    → IsOrderly (session_at state g cs)
    → IsOrderly (close (session_at state g cs) e e').0
unfolding close stop
IsOrderly-close State.created g cs e e' o =
    close_stopped_at g cs State.created e' (λ h. cc h) (λ h. cc h) o
IsOrderly-close State.stopped g cs e e' o =
    close_stopped_at g cs State.stopped e' (λ h. cc h) (λ h. cc h) o
IsOrderly-close State.failed g cs e e' o =
    close_stopped_at g cs State.failed e' (λ h. cc h) (λ h. cc h) o
IsOrderly-close State.opening g cs e e' o = absurd (cc o.known)
IsOrderly-close State.stopping g cs e e' o = absurd (cc o.known)
IsOrderly-close State.closed g cs e e' o = o
IsOrderly-close State.running g cs Outcome.done e' o =
    let stopped = stop_at g cs State.running Outcome.done o in
    close_stopped_at g (cs ++ (RuntimeCall.stops Outcome.done ∷ [])) State.stopped e' (λ h. cc h)
      (λ h. cc h) stopped
IsOrderly-close State.running g cs Outcome.broken e' o = stop_at g cs State.running Outcome.broken o
IsOrderly-close State.running g cs Outcome.interrupted e' o =
    stop_at g cs State.running Outcome.interrupted o

IsOrderly-step : (s : Session) (c : Call) → IsOrderly s → IsOrderly (call s c).0
unfolding call
IsOrderly-step s (Call.start_call blank e) o = start_at s.generation s.calls s.state blank e o
IsOrderly-step s (Call.stop_call e) o = stop_at s.generation s.calls s.state e o
IsOrderly-step s (Call.recover_call e) o = recover_at s.generation s.calls s.state e o
IsOrderly-step s (Call.close_call e e') o = IsOrderly-close s.state s.generation s.calls e e' o

IsOrderly-steps : (s : Session) (cs : List Call) → IsOrderly s → IsOrderly (call_all s cs)
unfolding call_all
IsOrderly-steps s [] o = o
IsOrderly-steps s (c ∷ cs) o = IsOrderly-steps (call s c).0 cs (IsOrderly-step s c o)

-- Whatever calls are made on a new session, however the runtime's own calls end, cancellation
-- included: the runtime is called in turn only, the state of the session is the phase that the
-- runtime is in, and the generation counts the starts that succeeded.
pub call_all-IsOrderly : (cs : List Call) → IsOrderly (call_all new_session cs)
unfolding follow
call_all-IsOrderly cs =
    IsOrderly-steps new_session cs
      (record { phase = Phase.idle; known = refl; followed = refl; generations = refl })
