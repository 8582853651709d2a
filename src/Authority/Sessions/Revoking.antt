-- ===== src/Authority/Sessions/Revoking.antt =====
-- Sessions of UserSessionManager (src/k5vision/auth_sessions.py) that are gone, and the reads that
-- are still in flight for them.
use k5_vision.Prelude.{
  ℕ, ◌<◌, ◌≡◌, ◌≢◌, refl, sym, ◌∙◌, inl, inr, false, Option, none, some, List, [], ◌∷◌, arith,
  Option-cases, All,
}
use k5_vision.Authority.Sessions.{
  UserAccount, SessionRecord, pop, Reading, Manager, Call, resolved, resolve_finish, answer,
  is_current, revoke_sessions, call, call_all, issue, begin_resolve, finish_resolve, break_resolve,
  revoke, revoke_user,
}
use k5_vision.Authority.Sessions.Sound.{IsSound}
use k5_vision.Authority.Sessions.Keeping.{AllFresh, IsIssued, Advances, call-IsSound, call-Advances}
use k5_vision.Authority.Sessions.Authorising.{IsHonest, call-Authorises}

-- No session of a user is held.
NoneOf : ℕ → Manager → Type 0
NoneOf u m = (d : ℕ) (r : SessionRecord) → m.sessions d ≡ some r → r.account.id ≢ u

-- A call that issues no session to the user.
abbrev pub NotIssuedTo : ℕ → Call → Type 0
NotIssuedTo u (issue _ account _ _ _) = account.id ≢ u
NotIssuedTo u _ = Unit

abbrev pub AllHonest : (List ℕ → ℕ) → Manager → List Call → Type 0
AllHonest sha256 m [] = Unit
AllHonest sha256 m (c ∷ cs) = IsHonest m c × AllHonest sha256 (call sha256 m c).0 cs

-- No call answers for an account of the user.
abbrev pub SilentFor : (List ℕ → ℕ) → ℕ → Manager → List Call → Type 0
SilentFor sha256 u m [] = Unit
SilentFor sha256 u m (c ∷ cs) =
    ((account : UserAccount) → (call sha256 m c).1 ≡ resolved (some account) → account.id ≢ u)
    × SilentFor sha256 u (call sha256 m c).0 cs

IsIssued-other :
    (u d : ℕ) (r : SessionRecord) (m : Manager) (c : Call)
    → NotIssuedTo u c
    → IsIssued c m d r
    → r.account.id ≢ u
IsIssued-other u d r m (issue _ account _ _ _) h i = λ e. h (sym i.1 ∙ e)
IsIssued-other u d r m (begin_resolve _ _ _) h i = absurd i
IsIssued-other u d r m (finish_resolve _ _ _) h i = absurd i
IsIssued-other u d r m (break_resolve _) h i = absurd i
IsIssued-other u d r m (revoke _) h i = absurd i
IsIssued-other u d r m (revoke_user _) h i = absurd i

IsIssued-serial :
    (d : ℕ) (r : SessionRecord) (m : Manager) (c : Call) → IsIssued c m d r → r.serial ≡ m.created
IsIssued-serial d r m (issue _ account _ _ _) i = i.0
IsIssued-serial d r m (begin_resolve _ _ _) i = absurd i
IsIssued-serial d r m (finish_resolve _ _ _) i = absurd i
IsIssued-serial d r m (break_resolve _) i = absurd i
IsIssued-serial d r m (revoke _) i = absurd i
IsIssued-serial d r m (revoke_user _) i = absurd i

-- A read whose session is gone: what stands under its digest is not its record.
record IsGone (m : Manager) (p : Reading) : Type 0 where
  made_before : p.record_read.serial < m.created
  not_held : (r : SessionRecord) → m.sessions p.digest ≡ some r → r.serial ≢ p.record_read.serial

not_current-IsGone :
    (m : Manager) (q : ℕ) (p : Reading)
    → IsSound m
    → m.readings q ≡ some p
    → is_current m p ≡ false
    → IsGone m p
unfolding is_current
not_current-IsGone m q p s h other = record {
  made_before = s.numbered.of_readings q p h;
  not_held = λ r found e. ground arith;
}

IsGone-is_current : (m : Manager) (p : Reading) → IsGone m p → is_current m p ≡ false
unfolding is_current
IsGone-is_current m p gone = elim (Option-cases (m.sessions p.digest)) [
  | inl absent ↦ rw (absent, is_current) refl
  | inr (r, found) ↦ let other = gone.not_held r found in ground arith
]

answer_not_current :
    (m : Manager) (p : Reading) (current : Option UserAccount) (now : ℕ)
    → is_current m p ≡ false
    → (answer m p current now).1 ≡ resolved none
unfolding answer
answer_not_current m p none now stale = rw stale refl
answer_not_current m p (some account) now stale = rw stale refl

IsGone-finish :
    (m : Manager) (q : ℕ) (p : Reading) (current : Option UserAccount) (now : ℕ)
    → IsGone m p
    → m.readings q ≡ some p
    → (resolve_finish m q current now).1 ≡ resolved none
unfolding resolve_finish is_current
IsGone-finish m q p current now gone h =
    rw (h, resolve_finish)
      (answer_not_current (record m { readings = pop q m.readings }) p current now
        (IsGone-is_current m p gone))

module _ (sha256 : List ℕ → ℕ) where
  NoneOf-call :
      (u : ℕ) (m : Manager) (c : Call)
      → NotIssuedTo u c
      → Advances c m (call sha256 m c).0
      → NoneOf u m
      → NoneOf u (call sha256 m c).0
  unfolding NoneOf
  NoneOf-call u m c other a none_of d r h = elim (a.sessions_from d r h) [
    | inl before ↦ none_of d r before
    | inr issued ↦ IsIssued-other u d r m c other issued
  ]

  NoneOf-SilentFor :
      (cs : List Call) (u : ℕ) (m : Manager)
      → IsSound m
      → AllFresh sha256 m cs
      → AllHonest sha256 m cs
      → All (NotIssuedTo u) cs
      → NoneOf u m
      → SilentFor sha256 u m cs
  unfolding NoneOf
  NoneOf-SilentFor [] u m s fresh honest other none_of = tt
  NoneOf-SilentFor (c ∷ cs) u m s fresh honest other none_of = (
    λ account h.
        let a = call-Authorises sha256 m c account s honest.0 h in
        λ e. none_of a.digest a.session a.is_held (a.is_of_user ∙ e),
    NoneOf-SilentFor cs u (call sha256 m c).0 (call-IsSound sha256 m c fresh.0 s) fresh.1 honest.1
        other.1 (NoneOf-call u m c other.0 (call-Advances sha256 m c fresh.0 s) none_of),
  )

  revoke_user-NoneOf :
      (u : ℕ) (m : Manager)
      → IsSound (call sha256 m (revoke_user u)).0
      → NoneOf u (call sha256 m (revoke_user u)).0
  unfolding NoneOf call revoke_sessions
  revoke_user-NoneOf u m s d r h e = let owned = s.paired.owned d r h in absurd (ground arith)

  -- Once a user's session is revoked, no call answers for an account of that user until a session
  -- is issued to the user again: not even a read that was in flight at the revocation, whatever it
  -- returned for its user. Tokens are drawn whose digests no session has.
  pub revoke_user-SilentFor :
      (u : ℕ) (m : Manager) (cs : List Call)
      → IsSound m
      → AllFresh sha256 (call sha256 m (revoke_user u)).0 cs
      → AllHonest sha256 (call sha256 m (revoke_user u)).0 cs
      → All (NotIssuedTo u) cs
      → SilentFor sha256 u (call sha256 m (revoke_user u)).0 cs
  revoke_user-SilentFor u m cs s fresh honest other =
      let s' = call-IsSound sha256 m (revoke_user u) tt s in
      NoneOf-SilentFor cs u (call sha256 m (revoke_user u)).0 s' fresh honest other
        (revoke_user-NoneOf u m s')

  IsGone-call_all :
      (cs : List Call) (m : Manager) (p : Reading)
      → IsSound m
      → AllFresh sha256 m cs
      → IsGone m p
      → IsGone (call_all sha256 m cs) p
  unfolding call_all
  IsGone-call_all [] m p s fresh gone = gone
  IsGone-call_all (c ∷ cs) m p s fresh gone =
      let a = call-Advances sha256 m c fresh.0 s in
      IsGone-call_all cs (call sha256 m c).0 p (call-IsSound sha256 m c fresh.0 s) fresh.1 (record {
        made_before = omega (arith, gone.made_before, a.created_le);
        not_held = λ r h e. elim (a.sessions_from p.digest r h) [
          | inl before ↦ gone.not_held r before e
          | inr issued ↦
              absurd (omega (arith, IsIssued-serial p.digest r m c issued, gone.made_before, e))
        ];
      })

  -- A read in flight whose session was revoked, replaced or dropped at its deadline is answered
  -- with nobody whenever it ends, whatever it returned and whatever calls came between.
  pub finish_superseded :
      (m : Manager) (q : ℕ) (p : Reading) (cs : List Call) (current : Option UserAccount) (now : ℕ)
      → IsSound m
      → m.readings q ≡ some p
      → is_current m p ≡ false
      → AllFresh sha256 m cs
      → (call_all sha256 m cs).readings q ≡ some p
      → (resolve_finish (call_all sha256 m cs) q current now).1 ≡ resolved none
  finish_superseded m q p cs current now s h other fresh still =
      IsGone-finish (call_all sha256 m cs) q p current now
        (IsGone-call_all cs m p s fresh (not_current-IsGone m q p s h other)) still
