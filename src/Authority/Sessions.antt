-- ===== src/Authority/Sessions.antt =====
-- `UserSessionManager` of src/k5vision/auth_sessions.py. Its lock makes each part of a call under it
-- atomic, so a call is one step, and `resolve` two, with the read of the durable registry between
-- them: other calls may come there. Time is in microseconds; SHA-256 is a parameter.
use k5_vision.Prelude.{
  ℕ, ◌+◌, ◌*◌, Bool, true, false, ◌&&◌, ◌||◌, Option, none, some, List, [], ◌∷◌, leb, ◌==◌,
  if◌then◌else◌, length, all,
}
pub mod Pairing
pub mod Sound
pub mod Running
pub mod Keeping
pub mod Authorising
pub mod Revoking

pub data UserRole : Type 0 where
  viewer operator administrator : UserRole

-- A text is its code points, an UUID its number.
pub record UserAccount : Type 0 where
  pub username : List ℕ
  pub display_name : List ℕ
  pub role : UserRole
  pub enabled : Bool
  pub id : ℕ

-- `serial` tells objects apart, as the source's `is` does.
pub record SessionRecord : Type 0 where
  pub serial : ℕ
  pub account : UserAccount
  pub expires_at : ℕ
  pub deadline : ℕ
  pub credential_version : Option (List ℕ)

-- A dictionary, and the changes made to one.
abbrev pub Dict : Type 0 → Type 0
Dict A = ℕ → Option A

abbrev pub put : {A : Type 0} → ℕ → A → Dict A → Dict A
put k a d j = if k == j then some a else d j

abbrev pub pop : {A : Type 0} → ℕ → Dict A → Dict A
pop k d j = if k == j then none else d j

-- The local variables of a `resolve` whose read is in flight.
pub record Reading : Type 0 where
  pub digest : ℕ
  pub record_read : SessionRecord

-- `resolves`: an account resolver was given. `created` counts the records made, `readings` are the
-- reads in flight by their request, and `notified` the users that listeners were called with, the
-- last first.
pub record Manager : Type 0 where
  pub ttl_seconds : ℕ
  pub resolves : Bool
  pub sessions : Dict SessionRecord
  pub user_tokens : Dict ℕ
  pub created : ℕ
  pub readings : Dict Reading
  pub notified : List ℕ

abbrev pub min_ttl_seconds : ℕ
min_ttl_seconds = 300

abbrev pub max_ttl_seconds : ℕ
max_ttl_seconds = 86_400

abbrev pub microseconds : ℕ
microseconds = 1_000_000

abbrev pub new_manager : ℕ → Bool → Manager
new_manager ttl resolves = record {
  ttl_seconds = ttl;
  resolves = resolves;
  sessions = λ _. none;
  user_tokens = λ _. none;
  created = 0;
  readings = λ _. none;
  notified = [];
}

-- `UserSessionManager(...)`: `none` is a `ValueError`.
unfoldable pub init : ℕ → Bool → Option Manager
init ttl resolves =
    if leb min_ttl_seconds ttl && leb ttl max_ttl_seconds
    then some (new_manager ttl resolves)
    else none

-- `character.isalnum() or character in "_-"`, for an ASCII character.
abbrev token_character : ℕ → Bool
token_character c =
    leb 48 c && leb c 57 || leb 65 c && leb c 90 || leb 97 c && leb c 122 || c == 95 || c == 45

-- `_token_is_valid`
unfoldable pub token_is_valid : List ℕ → Bool
token_is_valid token = leb 32 (length token) && leb (length token) 128 && all token_character token

pub data Call : Type 0 where
  -- The token drawn, the account, the credential version, and the two clocks.
  issue : List ℕ → UserAccount → Option (List ℕ) → ℕ → ℕ → Call
  -- The request, its token and the clock.
  begin_resolve : ℕ → List ℕ → ℕ → Call
  -- The request, what the read returned, and the clock.
  finish_resolve : ℕ → Option UserAccount → ℕ → Call
  -- The request, whose read raised or whose client went away.
  break_resolve : ℕ → Call
  revoke : List ℕ → Call
  revoke_user : ℕ → Call

pub data Reply : Type 0 where
  issued : ℕ → Reply
  invalid_version : Reply
  resolved : Option UserAccount → Reply
  reading : Reply
  no_reading : Reply
  broken : Reply
  revoked : Bool → Reply
  user_revoked : Reply

abbrev pub version_ok : Option (List ℕ) → Bool
version_ok none = true
version_ok (some version) = length version == 32

-- `self._sessions.pop(digest)`, and the user's token with it if it is that one.
unfoldable pub forget : ℕ → SessionRecord → Manager → Manager
forget digest r m =
    let owned : Bool = elim (m.user_tokens r.account.id) [ none ↦ false | some d ↦ d == digest ] in
    record m {
      sessions = pop digest m.sessions;
      user_tokens = if owned then pop r.account.id m.user_tokens else m.user_tokens;
    }

unfoldable pub pop_previous : Option ℕ → Dict SessionRecord → Dict SessionRecord
pop_previous none sessions = sessions
pop_previous (some previous) sessions = pop previous sessions

-- `resolve` with a record found.
unfoldable pub resolve_found : Manager → ℕ → ℕ → SessionRecord → ℕ → Manager × Reply
resolve_found m request digest r now =
    let reads = record m {
      readings = put request (record { digest = digest; record_read = r }) m.readings;
    } in
    if leb r.deadline now
    then (forget digest r m, resolved none)
    else if m.resolves
    then (reads, reading)
    else (m, resolved (some r.account))

module _ (sha256 : List ℕ → ℕ) where
  -- `issue`, whose new record is `created`'s.
  unfoldable pub issue_session :
      Manager → List ℕ → UserAccount → Option (List ℕ) → ℕ → ℕ → Manager × Reply
  unfolding pop_previous
  issue_session m token account version now wall =
      let digest = sha256 token in
      let lifetime = m.ttl_seconds * microseconds in
      let r : SessionRecord = record {
        serial = m.created;
        account = account;
        expires_at = wall + lifetime;
        deadline = now + lifetime;
        credential_version = version;
      } in
      if version_ok version
      then (
        record m {
          sessions = put digest r (pop_previous (m.user_tokens account.id) m.sessions);
          user_tokens = put account.id digest m.user_tokens;
          created = m.created + 1;
        },
        issued (wall + lifetime),
      )
      else (m, invalid_version)

  -- `resolve`, to the read or to an answer without one.
  unfoldable pub resolve_begin : Manager → ℕ → List ℕ → ℕ → Manager × Reply
  unfolding resolve_found
  resolve_begin m request token now =
      let digest = sha256 token in
      if token_is_valid token
      then elim (m.sessions digest) [
        | none ↦ (m, resolved none)
        | some r ↦ resolve_found m request digest r now
      ]
      else (m, resolved none)

  -- `revoke`
  unfoldable pub revoke_token : Manager → List ℕ → Manager × Reply
  revoke_token m token =
      let digest = sha256 token in
      if token_is_valid token
      then elim (m.sessions digest) [
        | none ↦ (m, revoked false)
        | some r ↦
            let m' = forget digest r m in
            (record m' { notified = r.account.id ∷ m.notified }, revoked true)
      ]
      else (m, revoked false)

-- `self._sessions.get(digest) is record`
unfoldable pub is_current : Manager → Reading → Bool
is_current m p = elim (m.sessions p.digest) [
  | none ↦ false
  | some r ↦ r.serial == p.record_read.serial
]

-- `resolve`, behind the read.
unfoldable pub answer : Manager → Reading → Option UserAccount → ℕ → Manager × Reply
answer m p none now =
    if is_current m p then (forget p.digest p.record_read m, resolved none) else (m, resolved none)
answer m p (some account) now =
    if is_current m p
    then if leb p.record_read.deadline now
      then (forget p.digest p.record_read m, resolved none)
      else (m, resolved (some account))
    else (m, resolved none)

unfoldable pub resolve_finish : Manager → ℕ → Option UserAccount → ℕ → Manager × Reply
unfolding answer
resolve_finish m request current now = elim (m.readings request) [
  | none ↦ (m, no_reading)
  | some p ↦ answer (record m { readings = pop request m.readings }) p current now
]

-- `revoke_user`
unfoldable pub revoke_sessions : Manager → ℕ → Manager × Reply
unfolding pop_previous
revoke_sessions m user = (
  record m {
    sessions = pop_previous (m.user_tokens user) m.sessions;
    user_tokens = pop user m.user_tokens;
    notified = user ∷ m.notified;
  },
  user_revoked,
)

module _ (sha256 : List ℕ → ℕ) where
  unfoldable pub call : Manager → Call → Manager × Reply
  call m (issue token account version now wall) =
      issue_session sha256 m token account version now wall
  call m (begin_resolve request token now) = resolve_begin sha256 m request token now
  call m (finish_resolve request current now) = resolve_finish m request current now
  call m (break_resolve request) = (record m { readings = pop request m.readings }, broken)
  call m (revoke token) = revoke_token sha256 m token
  call m (revoke_user user) = revoke_sessions m user

  unfoldable pub call_all : Manager → List Call → Manager
  unfolding call
  call_all m [] = m
  call_all m (c ∷ cs) = call_all (call m c).0 cs
