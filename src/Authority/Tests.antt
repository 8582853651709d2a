-- ===== src/Authority/Tests.antt =====
-- The session theorems at a user who logs in, is resolved, and is revoked while a read is in flight.
use k5_vision.Prelude.{ℕ, zero, suc, ◌≡◌, refl, true, false, List, [], ◌∷◌, arith, some, none}
use k5_vision.Authority.Sessions.{
  UserAccount, UserRole, Manager, Reading, Call, new_manager, init, pop_previous, token_is_valid,
  issue_session, resolve_begin, resolve_found, resolve_finish, answer, is_current, revoke_sessions,
  call, call_all, resolved, issue, begin_resolve, finish_resolve, revoke_user,
}
use k5_vision.Authority.Sessions.Sound.{IsSound}
use k5_vision.Authority.Sessions.Keeping.{AllFresh, call_all-IsSound}
use k5_vision.Authority.Sessions.Authorising.{Authorises, IsHonest, call-Authorises}
use k5_vision.Authority.Sessions.Revoking.{SilentFor, revoke_user-SilentFor, finish_superseded}

-- A digest that serves for a test: the first character of the token.
abbrev first_of : List ℕ → ℕ
first_of [] = 0
first_of (c ∷ _) = c

abbrev repeat : ℕ → ℕ → List ℕ
repeat zero c = []
repeat (suc n) c = c ∷ repeat n c

abbrev token_a : List ℕ
token_a = repeat 32 97

abbrev token_b : List ℕ
token_b = repeat 32 98

abbrev ann : UserAccount
ann = record {
  username = 97 ∷ 110 ∷ 110 ∷ [];
  display_name = 65 ∷ 110 ∷ 110 ∷ [];
  role = UserRole.operator;
  enabled = true;
  id = 5;
}

abbrev log_in : Call
log_in = issue token_a ann none 0 0

abbrev ask : Call
ask = begin_resolve 1 token_a 1000

abbrev manager : Manager
manager = new_manager 300 true

abbrev in_flight : Manager
in_flight = call_all first_of manager (log_in ∷ ask ∷ [])

abbrev answered : Call
answered = finish_resolve 1 (some ann) 2000

abbrev gone : Manager
gone = call_all first_of manager (log_in ∷ ask ∷ revoke_user 5 ∷ [])

abbrev back : Call
back = issue token_b ann none 3000 0

-- What the request holds while its read is in flight.
abbrev read_of_ann : Reading
read_of_ann = record {
  digest = 97;
  record_read = record {
    serial = 0;
    account = ann;
    expires_at = 300_000_000;
    deadline = 300_000_000;
    credential_version = none;
  };
}

in_flight-answers : (call first_of in_flight answered).1 ≡ resolved (some ann)
unfolding call_all call issue_session pop_previous resolve_begin resolve_found token_is_valid
    resolve_finish answer is_current
in_flight-answers = refl

revoked-silent : (call first_of gone answered).1 ≡ resolved none
unfolding call_all call issue_session pop_previous resolve_begin resolve_found token_is_valid
    resolve_finish answer is_current revoke_sessions
revoked-silent = refl

call_all-IsSound_example : IsSound in_flight
unfolding init call issue_session
call_all-IsSound_example =
    call_all-IsSound first_of 300 true manager (log_in ∷ ask ∷ []) refl (refl, (tt, tt))

gone-IsSound : IsSound gone
unfolding init call issue_session
gone-IsSound =
    call_all-IsSound first_of 300 true manager (log_in ∷ ask ∷ revoke_user 5 ∷ []) refl
      (refl, (tt, (tt, tt)))

in_flight-IsSound : IsSound in_flight
unfolding init call issue_session
in_flight-IsSound =
    call_all-IsSound first_of 300 true manager (log_in ∷ ask ∷ []) refl (refl, (tt, tt))

ann-IsHonest : IsHonest in_flight answered
unfolding call_all call issue_session pop_previous resolve_begin resolve_found token_is_valid
ann-IsHonest p h = ground arith

call-Authorises_example : Authorises in_flight answered ann
call-Authorises_example =
    call-Authorises first_of in_flight answered ann in_flight-IsSound ann-IsHonest in_flight-answers

ann-IsHonest_revoked : IsHonest (call first_of in_flight (revoke_user 5)).0 answered
unfolding call_all call issue_session pop_previous resolve_begin resolve_found token_is_valid
    revoke_sessions
ann-IsHonest_revoked p h = ground arith

revoke_user-SilentFor_example :
    SilentFor first_of 5 (call first_of in_flight (revoke_user 5)).0 (answered ∷ [])
revoke_user-SilentFor_example =
    revoke_user-SilentFor first_of 5 in_flight (answered ∷ []) in_flight-IsSound (tt, tt)
      (ann-IsHonest_revoked, tt) (tt, tt)

gone-reading : gone.readings 1 ≡ some read_of_ann
unfolding call_all call issue_session pop_previous resolve_begin resolve_found token_is_valid
    revoke_sessions
gone-reading = refl

gone-stale : is_current gone read_of_ann ≡ false
unfolding call_all call issue_session pop_previous resolve_begin resolve_found token_is_valid
    revoke_sessions is_current
gone-stale = refl

back-fresh : AllFresh first_of gone (back ∷ [])
unfolding call_all call issue_session pop_previous resolve_begin resolve_found token_is_valid
    revoke_sessions
back-fresh = (refl, tt)

back-reading : (call_all first_of gone (back ∷ [])).readings 1 ≡ some read_of_ann
unfolding call_all call issue_session pop_previous resolve_begin resolve_found token_is_valid
    revoke_sessions
back-reading = refl

finish_superseded_example :
    (resolve_finish (call_all first_of gone (back ∷ [])) 1 (some ann) 4000).1 ≡ resolved none
finish_superseded_example =
    finish_superseded first_of gone 1 read_of_ann (back ∷ []) (some ann) 4000 gone-IsSound
      gone-reading gone-stale back-fresh back-reading
