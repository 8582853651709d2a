-- ===== src/Authority/Sessions/Keeping.antt =====
-- What calls of UserSessionManager (src/k5vision/auth_sessions.py) keep, interleaved in any order.
use k5_vision.Prelude.{
  ℕ, ◌+◌, ◌*◌, ◌≤◌, ◌≡◌, refl, sym, ap, subst, ◌⊎◌, inl, inr, Bool, Option, none, some, List, [],
  ◌∷◌, arith, Bool-cases,
}
use k5_vision.Authority.Sessions.{
  UserAccount, SessionRecord, pop, Manager, Call, init, new_manager, forget, issue_session, call,
  call_all, version_ok, microseconds, issue, begin_resolve, finish_resolve, break_resolve, revoke,
  revoke_user,
}
use k5_vision.Authority.Sessions.Sound.{
  IsSound, IsSound-forget, IsSound-drop_reading, IsSound-revoke_sessions, IsSound-read,
  IsSound-issued, session_of_issued, Shrinks, Shrinks-refl, Shrinks-trans, Shrinks-forget,
  Shrinks-drop_reading, Shrinks-revoke_sessions, is_current-session,
}
use k5_vision.Authority.Sessions.Running.{IsClosed, call_elim}

-- The token that `issue` draws has a digest that no session has.
abbrev pub IsFresh : (List ℕ → ℕ) → Manager → Call → Type 0
IsFresh sha256 m (issue token _ _ _ _) = m.sessions (sha256 token) ≡ none
IsFresh sha256 m _ = Unit

abbrev pub AllFresh : (List ℕ → ℕ) → Manager → List Call → Type 0
AllFresh sha256 m [] = Unit
AllFresh sha256 m (c ∷ cs) = IsFresh sha256 m c × AllFresh sha256 (call sha256 m c).0 cs

IsClosed-IsSound : (m : Manager) → IsSound m → IsClosed m IsSound
IsClosed-IsSound m s = record {
  kept = s;
  forgotten = λ d r h. IsSound-forget m d r s h;
  revoked_one = λ d r h.
      let sound = IsSound-forget m d r s h in
      record {
        paired = sound.paired;
        numbered = record {
          of_sessions = sound.numbered.of_sessions;
          of_readings = sound.numbered.of_readings;
          same_record = sound.numbered.same_record;
        };
      };
  read_one = λ q d r h. IsSound-read m q d r s h;
  dropped = λ q. IsSound-drop_reading m q s;
  ended = λ q p h k.
      IsSound-forget (record m { readings = pop q m.readings }) p.digest p.record_read
        (IsSound-drop_reading m q s) (is_current-session m q p s.numbered h k);
  user_gone = λ u. IsSound-revoke_sessions m u s;
}

-- Sessions that a call leaves were there before, but the one that it issues.
abbrev pub IsIssued : Call → Manager → ℕ → SessionRecord → Type 0
IsIssued (issue _ account _ _ _) m d r = (r.serial ≡ m.created) × (r.account.id ≡ account.id)
IsIssued _ m d r = ⊥

pub record Advances (c : Call) (m m' : Manager) : Type 0 where
  pub created_le : m.created ≤ m'.created
  pub sessions_from :
      (d : ℕ) (r : SessionRecord)
      → m'.sessions d ≡ some r
      → (m.sessions d ≡ some r) ⊎ IsIssued c m d r

Advances-Shrinks : (c : Call) (m m' : Manager) → Shrinks m m' → Advances c m m'
Advances-Shrinks c m m' s = record {
  created_le = omega (arith, s.same_created);
  sessions_from = λ d r h. inl (s.fewer_sessions d r h);
}

IsClosed-Advances : (c : Call) (m : Manager) → IsClosed m (Advances c m)
IsClosed-Advances c m = record {
  kept = Advances-Shrinks c m m (Shrinks-refl m);
  forgotten = λ d r h. Advances-Shrinks c m _ (Shrinks-forget m d r);
  revoked_one = λ d r h.
      let s = Shrinks-forget m d r in
      record {
        created_le = omega (arith, s.same_created);
        sessions_from = λ e r' k. inl (s.fewer_sessions e r' k);
      };
  read_one = λ q d r h. record { created_le = omega arith; sessions_from = λ e r' k. inl k };
  dropped = λ q. Advances-Shrinks c m _ (Shrinks-drop_reading m q);
  ended = λ q p h k.
      let m' : Manager = record m { readings = pop q m.readings } in
      Advances-Shrinks c m (forget p.digest p.record_read m') (
        Shrinks-trans m m' (forget p.digest p.record_read m') (Shrinks-drop_reading m q)
          (Shrinks-forget m' p.digest p.record_read));
  user_gone = λ u. Advances-Shrinks c m _ (Shrinks-revoke_sessions m u);
}

module _ (sha256 : List ℕ → ℕ) where
  -- What a new session's issue leaves.
  module _ (m : Manager) (token : List ℕ) (account : UserAccount) (version : Option (List ℕ))
      (now wall : ℕ) (s : IsSound m) (fresh : m.sessions (sha256 token) ≡ none) where
    new_record : SessionRecord
    new_record = record {
      serial = m.created;
      account = account;
      expires_at = wall + m.ttl_seconds * microseconds;
      deadline = now + m.ttl_seconds * microseconds;
      credential_version = version;
    }

    issue-IsSound : IsSound (issue_session sha256 m token account version now wall).0
    unfolding issue_session new_record
    issue-IsSound = elim (Bool-cases (version_ok version)) [
      | inl valid ↦ rw valid (IsSound-issued m (sha256 token) new_record s fresh refl)
      | inr bad ↦ rw bad s
    ]

    issue-Advances :
        Advances
          (issue token account version now wall)
          m
          (issue_session sha256 m token account version now wall).0
    unfolding issue_session new_record
    issue-Advances = elim (Bool-cases (version_ok version)) [
      | inl valid ↦ rw valid (record {
        created_le = omega arith;
        sessions_from = λ d r h.
            elim (session_of_issued m (sha256 token) new_record s fresh refl d r h) [
              | inl (digests, records) ↦ inr (
                sym (ap (λ (x : SessionRecord). x.serial) records),
                sym (ap (λ (x : SessionRecord). x.account.id) records),
              )
              | inr before ↦ inl before
            ];
      })
      | inr bad ↦ rw bad (record { created_le = omega arith; sessions_from = λ d r h. inl h })
    ]

  pub call-IsSound :
      (m : Manager) (c : Call) → IsFresh sha256 m c → IsSound m → IsSound (call sha256 m c).0
  unfolding call
  call-IsSound m (issue token account version now wall) fresh s =
      issue-IsSound m token account version now wall s fresh
  call-IsSound m (begin_resolve q token now) fresh s =
      call_elim m IsSound (IsClosed-IsSound m s) sha256 (begin_resolve q token now) (λ e. e)
  call-IsSound m (finish_resolve q current now) fresh s =
      call_elim m IsSound (IsClosed-IsSound m s) sha256 (finish_resolve q current now) (λ e. e)
  call-IsSound m (break_resolve q) fresh s =
      call_elim m IsSound (IsClosed-IsSound m s) sha256 (break_resolve q) (λ e. e)
  call-IsSound m (revoke token) fresh s =
      call_elim m IsSound (IsClosed-IsSound m s) sha256 (revoke token) (λ e. e)
  call-IsSound m (revoke_user u) fresh s =
      call_elim m IsSound (IsClosed-IsSound m s) sha256 (revoke_user u) (λ e. e)

  pub call-Advances :
      (m : Manager) (c : Call) → IsFresh sha256 m c → IsSound m → Advances c m (call sha256 m c).0
  unfolding call
  call-Advances m (issue token account version now wall) fresh s =
      issue-Advances m token account version now wall s fresh
  call-Advances m (begin_resolve q token now) fresh s =
      let c = begin_resolve q token now in
      call_elim m (Advances c m) (IsClosed-Advances c m) sha256 c (λ e. e)
  call-Advances m (finish_resolve q current now) fresh s =
      let c = finish_resolve q current now in
      call_elim m (Advances c m) (IsClosed-Advances c m) sha256 c (λ e. e)
  call-Advances m (break_resolve q) fresh s =
      let c = break_resolve q in
      call_elim m (Advances c m) (IsClosed-Advances c m) sha256 c (λ e. e)
  call-Advances m (revoke token) fresh s =
      let c = revoke token in call_elim m (Advances c m) (IsClosed-Advances c m) sha256 c (λ e. e)
  call-Advances m (revoke_user u) fresh s =
      let c = revoke_user u in call_elim m (Advances c m) (IsClosed-Advances c m) sha256 c (λ e. e)

  pub call_all-IsSound_from :
      (cs : List Call) (m : Manager)
      → AllFresh sha256 m cs
      → IsSound m
      → IsSound (call_all sha256 m cs)
  unfolding call_all
  call_all-IsSound_from [] m fresh s = s
  call_all-IsSound_from (c ∷ cs) m fresh s =
      call_all-IsSound_from cs (call sha256 m c).0 fresh.1 (call-IsSound m c fresh.0 s)

new_manager-IsSound : (ttl : ℕ) (resolves : Bool) → IsSound (new_manager ttl resolves)
new_manager-IsSound ttl resolves = record {
  paired = record { owned = λ d r h. absurd (cc h); current = λ u d h. absurd (cc h) };
  numbered = record {
    of_sessions = λ d r h. absurd (cc h);
    of_readings = λ q p h. absurd (cc h);
    same_record = λ q p r h k e. absurd (cc h);
  };
}

-- Across any calls of a session manager, interleaved with the reads in flight, every session is the
-- one of its user and every user's token has a session of that user, as long as tokens are drawn
-- whose digests no session has; no record made later has the serial of one made before, and a read
-- in flight holds the very record of its digest if that has its serial.
pub call_all-IsSound :
    (sha256 : List ℕ → ℕ) (ttl : ℕ) (resolves : Bool) (m : Manager) (cs : List Call)
    → init ttl resolves ≡ some m
    → AllFresh sha256 m cs
    → IsSound (call_all sha256 m cs)
unfolding init
call_all-IsSound sha256 ttl resolves m cs h fresh =
    let made : new_manager ttl resolves ≡ m = ground arith in
    call_all-IsSound_from sha256 cs m fresh (subst IsSound made (new_manager-IsSound ttl resolves))
