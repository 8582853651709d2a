-- ===== src/Session/Tests.antt =====
-- The protocol of a media session at one sequence of calls.
use k5_vision.Prelude.{List, [], ◌∷◌, false}
use k5_vision.Session.{Outcome, Call, new_session, call_all}
use k5_vision.Session.Protocol.{IsOrderly, call_all-IsOrderly}

-- A start that is cancelled, the recovery, a start, a stop that breaks and a close out of turn.
abbrev calls : List Call
calls =
    Call.start_call false Outcome.interrupted
    ∷ Call.recover_call Outcome.done
    ∷ Call.start_call false Outcome.done
    ∷ Call.stop_call Outcome.broken
    ∷ Call.close_call Outcome.done Outcome.done
    ∷ []

call_all-IsOrderly_example : IsOrderly (call_all new_session calls)
call_all-IsOrderly_example = call_all-IsOrderly calls
