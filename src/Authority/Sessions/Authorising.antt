-- ===== src/Authority/Sessions/Authorising.antt =====
-- Whom UserSessionManager (src/k5vision/auth_sessions.py) answers for.
use k5_vision.Prelude.{
  ℕ, ◌<◌, ◌≡◌, ◌≢◌, sym, ap, subst, inl, inr, true, Option, none, some, List, arith, Option-cases,
  if_elim,
}
use k5_vision.Authority.Sessions.{
  UserAccount, SessionRecord, pop, Reading, Manager, Call, Reply, resolved, forget, issue_session,
  resolve_begin, resolve_found, resolve_finish, answer, is_current, revoke_token, revoke_sessions,
  call, issue, begin_resolve, finish_resolve, break_resolve, revoke, revoke_user,
}
use k5_vision.Authority.Sessions.Sound.{IsSound, is_current-session}

-- The registry's read answers for the user that it is asked about.
abbrev pub IsHonest : Manager → Call → Type 0
IsHonest m (finish_resolve q (some account) _) =
    (p : Reading) → m.readings q ≡ some p → account.id ≡ p.record_read.account.id
IsHonest m _ = Unit

-- The clock that a call reads, where one is read.
abbrev pub clock : Call → ℕ
clock (issue _ _ _ now _) = now
clock (begin_resolve _ _ now) = now
clock (finish_resolve _ _ now) = now
clock _ = 0

-- A session that lets a call answer for an account.
pub record Authorises (m : Manager) (c : Call) (account : UserAccount) : Type 0 where
  pub digest : ℕ
  pub session : SessionRecord
  pub is_held : m.sessions digest ≡ some session
  pub is_owners : m.user_tokens account.id ≡ some digest
  pub is_of_user : session.account.id ≡ account.id
  pub in_time : clock c < session.deadline

begin_authorised :
    (sha256 : List ℕ → ℕ) (m : Manager) (q : ℕ) (token : List ℕ) (now : ℕ) (account : UserAccount)
    → (resolve_begin sha256 m q token now).1 ≡ resolved (some account)
    → (r : SessionRecord) × (m.sessions (sha256 token) ≡ some r)
      × (now < r.deadline)
      × (r.account ≡ account)
unfolding resolve_begin resolve_found
begin_authorised sha256 m q token now account h = elim (Option-cases (m.sessions (sha256 token))) [
  | inl absent ↦ absurd (ground arith)
  | inr (r, found) ↦ (r, found, ground arith, ground arith)
]

answer_authorised :
    (m : Manager) (p : Reading) (current : Option UserAccount) (now : ℕ) (account : UserAccount)
    → (answer m p current now).1 ≡ resolved (some account)
    → (is_current m p ≡ true) × (now < p.record_read.deadline) × (current ≡ some account)
unfolding answer
answer_authorised m p none now account h = absurd (
    if_elim (λ (t : Manager × Reply). t.1 ≡ resolved (some account) → ⊥) (is_current m p)
      (forget p.digest p.record_read m, resolved none) (m, resolved none) (λ _ e. cc e)
      (λ _ e. cc e) h)
answer_authorised m p (some found) now account h = (ground arith, ground arith, ground arith)

finish_authorised :
    (m : Manager) (q : ℕ) (current : Option UserAccount) (now : ℕ) (account : UserAccount)
    → (resolve_finish m q current now).1 ≡ resolved (some account)
    → (p : Reading) × (m.readings q ≡ some p)
      × (is_current m p ≡ true)
      × (now < p.record_read.deadline)
      × (current ≡ some account)
unfolding resolve_finish is_current
finish_authorised m q current now account h = elim (Option-cases (m.readings q)) [
  | inl absent ↦ absurd (ground arith)
  | inr (p, found) ↦
      let answered : (answer (record m { readings = pop q m.readings }) p current now).1
          ≡ resolved (some account) =
        ground arith in
      let (same, in_time, given) =
        answer_authorised (record m { readings = pop q m.readings }) p current now account
          answered in
      (p, found, same, in_time, given)
]

module _ (sha256 : List ℕ → ℕ) where
  issue_silent :
      (m : Manager) (token : List ℕ) (account : UserAccount) (version : Option (List ℕ))
      (now wall : ℕ) (a : UserAccount)
      → (issue_session sha256 m token account version now wall).1 ≢ resolved (some a)
  unfolding issue_session
  issue_silent m token account version now wall a = ground arith

  revoke_silent :
      (m : Manager) (token : List ℕ) (a : UserAccount)
      → (revoke_token sha256 m token).1 ≢ resolved (some a)
  unfolding revoke_token
  revoke_silent m token a = ground arith

  -- An account is answered only while a session of its user is held, is the one of that user, and
  -- has not reached its deadline on the clock that the call reads, if the registry's read answers
  -- for the user that it is asked about.
  pub call-Authorises :
      (m : Manager) (c : Call) (account : UserAccount)
      → IsSound m
      → IsHonest m c
      → (call sha256 m c).1 ≡ resolved (some account)
      → Authorises m c account
  unfolding call revoke_sessions
  call-Authorises m (issue token a version now wall) account s honest h =
      absurd (issue_silent m token a version now wall account h)
  call-Authorises m (begin_resolve q token now) account s honest h =
      let (r, found, in_time, same) = begin_authorised sha256 m q token now account h in
      let user = ap (λ (x : UserAccount). x.id) same in
      record {
        digest = sha256 token;
        session = r;
        is_held = found;
        is_owners =
            subst (λ (u : ℕ). m.user_tokens u ≡ some (sha256 token)) user
              (s.paired.owned (sha256 token) r found);
        is_of_user = user;
        in_time = in_time;
      }
  call-Authorises m (finish_resolve q current now) account s honest h =
      let (p, read, same, in_time, given) = finish_authorised m q current now account h in
      let held = is_current-session m q p s.numbered read same in
      let user : p.record_read.account.id ≡ account.id = sym (
        subst (λ (o : Option UserAccount). IsHonest m (finish_resolve q o now)) given honest p
          read) in
      record {
        digest = p.digest;
        session = p.record_read;
        is_held = held;
        is_owners =
            subst (λ (u : ℕ). m.user_tokens u ≡ some p.digest) user
              (s.paired.owned p.digest p.record_read held);
        is_of_user = user;
        in_time = in_time;
      }
  call-Authorises m (break_resolve q) account s honest h = absurd (cc h)
  call-Authorises m (revoke token) account s honest h = absurd (revoke_silent m token account h)
  call-Authorises m (revoke_user u) account s honest h = absurd (cc h)
