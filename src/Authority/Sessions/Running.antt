-- ===== src/Authority/Sessions/Running.antt =====
-- The branches of the calls of UserSessionManager (src/k5vision/auth_sessions.py).
use k5_vision.Prelude.{
  ℕ, ◌≡◌, inl, inr, true, false, Option, none, some, List, ◌∷◌, leb, if◌then◌else◌, Option-cases,
  if_elim,
}
use k5_vision.Authority.Sessions.{
  UserAccount, SessionRecord, put, pop, Reading, Manager, Call, Reply, resolved, reading, revoked,
  forget, token_is_valid, resolve_begin, resolve_found, resolve_finish, answer, is_current,
  revoke_token, revoke_sessions, call, issue, begin_resolve, finish_resolve, break_resolve, revoke,
  revoke_user,
}

-- A property of a state that every branch of every call but a new issue leaves true.
pub record IsClosed (m : Manager) (P : Manager → Type 0) : Type 0 where
  pub kept : P m
  pub forgotten : (d : ℕ) (r : SessionRecord) → m.sessions d ≡ some r → P (forget d r m)
  pub revoked_one :
      (d : ℕ) (r : SessionRecord)
      → m.sessions d ≡ some r
      → P (record (forget d r m) { notified = r.account.id ∷ m.notified })
  pub read_one :
      (q d : ℕ) (r : SessionRecord)
      → m.sessions d ≡ some r
      → P (record m { readings = put q (record { digest = d; record_read = r }) m.readings })
  pub dropped : (q : ℕ) → P (record m { readings = pop q m.readings })
  pub ended :
      (q : ℕ) (p : Reading)
      → m.readings q ≡ some p
      → is_current m p ≡ true
      → P (forget p.digest p.record_read (record m { readings = pop q m.readings }))
  pub user_gone : (u : ℕ) → P (revoke_sessions m u).0

abbrev pub IsIssue : Call → Type 0
IsIssue (issue _ _ _ _ _) = Unit
IsIssue _ = ⊥

module _ (m : Manager) (P : Manager → Type 0) (closed : IsClosed m P) where
  -- The property, of the state that a call leaves.
  abbrev Leaves : Manager × Reply → Type 0
  Leaves t = P t.0

  answer_elim :
      (q : ℕ) (p : Reading) (current : Option UserAccount) (now : ℕ)
      → m.readings q ≡ some p
      → P (answer (record m { readings = pop q m.readings }) p current now).0
  unfolding answer is_current
  answer_elim q p none now h =
      let m' : Manager = record m { readings = pop q m.readings } in
      if_elim Leaves (is_current m' p) (forget p.digest p.record_read m', resolved none)
        (m', resolved none) (λ same. closed.ended q p h same) (λ _. closed.dropped q)
  answer_elim q p (some account) now h =
      let m' : Manager = record m { readings = pop q m.readings } in
      if_elim Leaves (is_current m' p)
        (if leb p.record_read.deadline now
          then (forget p.digest p.record_read m', resolved none)
          else (m', resolved (some account)))
        (m', resolved none)
        (λ same.
          if_elim Leaves (leb p.record_read.deadline now)
            (forget p.digest p.record_read m', resolved none) (m', resolved (some account))
            (λ _. closed.ended q p h same) (λ _. closed.dropped q))
        (λ _. closed.dropped q)

  resolve_found_elim :
      (request digest : ℕ) (r : SessionRecord) (now : ℕ)
      → m.sessions digest ≡ some r
      → P (resolve_found m request digest r now).0
  unfolding resolve_found
  resolve_found_elim request digest r now found =
      let reads : Manager = record m {
        readings = put request (record { digest = digest; record_read = r }) m.readings;
      } in
      if_elim Leaves (leb r.deadline now) (forget digest r m, resolved none)
        (if m.resolves then (reads, reading) else (m, resolved (some r.account)))
        (λ _. closed.forgotten digest r found)
        (λ _.
          if_elim Leaves m.resolves (reads, reading) (m, resolved (some r.account))
            (λ _. closed.read_one request digest r found) (λ _. closed.kept))

  resolve_finish_elim :
      (request : ℕ) (current : Option UserAccount) (now : ℕ)
      → P (resolve_finish m request current now).0
  unfolding resolve_finish
  resolve_finish_elim request current now = elim (Option-cases (m.readings request)) [
    | inl absent ↦ rw (absent, resolve_finish) closed.kept
    | inr (p, found) ↦ rw (found, resolve_finish) (answer_elim request p current now found)
  ]

  resolve_begin_elim :
      (sha256 : List ℕ → ℕ) (request : ℕ) (token : List ℕ) (now : ℕ)
      → P (resolve_begin sha256 m request token now).0
  unfolding resolve_begin
  resolve_begin_elim sha256 request token now =
      let digest = sha256 token in
      elim (Option-cases (m.sessions digest)) [
        | inl absent ↦ rw absent (
            if_elim Leaves (token_is_valid token) (m, resolved none) (m, resolved none)
              (λ _. closed.kept) (λ _. closed.kept))
        | inr (r, found) ↦ rw found (
            if_elim Leaves (token_is_valid token) (resolve_found m request digest r now)
              (m, resolved none) (λ _. resolve_found_elim request digest r now found)
              (λ _. closed.kept))
      ]

  revoke_token_elim : (sha256 : List ℕ → ℕ) (token : List ℕ) → P (revoke_token sha256 m token).0
  unfolding revoke_token
  revoke_token_elim sha256 token =
      let digest = sha256 token in
      elim (Option-cases (m.sessions digest)) [
        | inl absent ↦ rw absent (
            if_elim Leaves (token_is_valid token) (m, revoked false) (m, revoked false)
              (λ _. closed.kept) (λ _. closed.kept))
        | inr (r, found) ↦ rw found (
            if_elim Leaves (token_is_valid token)
              (record (forget digest r m) { notified = r.account.id ∷ m.notified }, revoked true)
              (m, revoked false) (λ _. closed.revoked_one digest r found) (λ _. closed.kept))
      ]

  pub call_elim : (sha256 : List ℕ → ℕ) (c : Call) → ¬ (IsIssue c) → P (call sha256 m c).0
  unfolding call
  call_elim sha256 (issue _ _ _ _ _) other = absurd (other tt)
  call_elim sha256 (begin_resolve request token now) other =
      resolve_begin_elim sha256 request token now
  call_elim sha256 (finish_resolve request current now) other =
      resolve_finish_elim request current now
  call_elim sha256 (break_resolve request) other = closed.dropped request
  call_elim sha256 (revoke token) other = revoke_token_elim sha256 token
  call_elim sha256 (revoke_user user) other = closed.user_gone user
