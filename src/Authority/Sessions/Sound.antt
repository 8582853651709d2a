-- ===== src/Authority/Sessions/Sound.antt =====
-- The state of UserSessionManager (src/k5vision/auth_sessions.py) across calls that are interleaved.
use k5_vision.Prelude.{
  ℕ, ◌+◌, ◌<◌, ◌≡◌, refl, sym, ◌∙◌, ap, ◌⊎◌, inl, inr, true, Option, none, some, ◌==◌, arith,
  Bool-cases, Option-cases, ==_refl,
}
use k5_vision.Authority.Sessions.{
  SessionRecord, Dict, put, pop, Reading, Manager, forget, pop_previous, is_current,
  revoke_sessions,
}
use k5_vision.Authority.Sessions.Pairing.{Paired, Paired-pop, Paired-pop_previous, Paired-issue}

-- Records are told apart by their serials, and a read in flight holds the record that it found.
pub record IsNumbered (m : Manager) : Type 0 where
  pub of_sessions : (d : ℕ) (r : SessionRecord) → m.sessions d ≡ some r → r.serial < m.created
  pub of_readings : (q : ℕ) (p : Reading) → m.readings q ≡ some p → p.record_read.serial < m.created
  pub same_record :
      (q : ℕ) (p : Reading) (r : SessionRecord)
      → m.readings q ≡ some p
      → m.sessions p.digest ≡ some r
      → r.serial ≡ p.record_read.serial
      → r ≡ p.record_read

pub record IsSound (m : Manager) : Type 0 where
  pub paired : Paired m.sessions m.user_tokens
  pub numbered : IsNumbered m

-- A state that only lost sessions and readings.
pub record Shrinks (m m' : Manager) : Type 0 where
  pub same_created : m'.created ≡ m.created
  pub fewer_sessions : (d : ℕ) (r : SessionRecord) → m'.sessions d ≡ some r → m.sessions d ≡ some r
  pub fewer_readings : (q : ℕ) (p : Reading) → m'.readings q ≡ some p → m.readings q ≡ some p

pub Shrinks-refl : (m : Manager) → Shrinks m m
Shrinks-refl m = record {
  same_created = refl;
  fewer_sessions = λ d r h. h;
  fewer_readings = λ q p h. h;
}

pub Shrinks-trans : (a b c : Manager) → Shrinks a b → Shrinks b c → Shrinks a c
Shrinks-trans a b c x y = record {
  same_created = y.same_created ∙ x.same_created;
  fewer_sessions = λ d r h. x.fewer_sessions d r (y.fewer_sessions d r h);
  fewer_readings = λ q p h. x.fewer_readings q p (y.fewer_readings q p h);
}

pub IsNumbered-Shrinks : (m m' : Manager) → Shrinks m m' → IsNumbered m → IsNumbered m'
IsNumbered-Shrinks m m' s n = record {
  of_sessions = λ d r h. omega (arith, n.of_sessions d r (s.fewer_sessions d r h), s.same_created);
  of_readings = λ q p h. omega (arith, n.of_readings q p (s.fewer_readings q p h), s.same_created);
  same_record =
      λ q p r h k. n.same_record q p r (s.fewer_readings q p h) (s.fewer_sessions p.digest r k);
}

pub pop-some : {A : Type 0} (k j : ℕ) (a : A) (d : Dict A) → pop k d j ≡ some a → d j ≡ some a
pop-some k j a d h = ground arith

pub pop_previous-some :
    (previous : Option ℕ) (j : ℕ) (r : SessionRecord) (d : Dict SessionRecord)
    → pop_previous previous d j ≡ some r
    → d j ≡ some r
unfolding pop_previous
pop_previous-some none j r d h = h
pop_previous-some (some k) j r d h = pop-some k j r d h

pub Shrinks-forget : (m : Manager) (d : ℕ) (r : SessionRecord) → Shrinks m (forget d r m)
unfolding forget
Shrinks-forget m d r = record {
  same_created = refl;
  fewer_sessions = λ e s h. pop-some d e s m.sessions h;
  fewer_readings = λ q p h. h;
}

pub Shrinks-drop_reading :
    (m : Manager) (q : ℕ) → Shrinks m (record m { readings = pop q m.readings })
Shrinks-drop_reading m q = record {
  same_created = refl;
  fewer_sessions = λ e s h. h;
  fewer_readings = λ o p h. pop-some q o p m.readings h;
}

pub Shrinks-revoke_sessions : (m : Manager) (u : ℕ) → Shrinks m (revoke_sessions m u).0
unfolding revoke_sessions
Shrinks-revoke_sessions m u = record {
  same_created = refl;
  fewer_sessions = λ e s h. pop_previous-some (m.user_tokens u) e s m.sessions h;
  fewer_readings = λ q p h. h;
}

-- The session forgotten is the one of its user, whose token goes with it.
Paired-forget :
    (m : Manager) (d : ℕ) (r : SessionRecord)
    → Paired m.sessions m.user_tokens
    → m.sessions d ≡ some r
    → Paired (forget d r m).sessions (forget d r m).user_tokens
unfolding forget
Paired-forget m d r p h =
    let owned = p.owned d r h in rw (owned, ==_refl d) (Paired-pop m.sessions m.user_tokens d r p h)

pub IsSound-forget :
    (m : Manager) (d : ℕ) (r : SessionRecord)
    → IsSound m
    → m.sessions d ≡ some r
    → IsSound (forget d r m)
IsSound-forget m d r s h = record {
  paired = Paired-forget m d r s.paired h;
  numbered = IsNumbered-Shrinks m (forget d r m) (Shrinks-forget m d r) s.numbered;
}

pub IsSound-drop_reading :
    (m : Manager) (q : ℕ) → IsSound m → IsSound (record m { readings = pop q m.readings })
IsSound-drop_reading m q s = record {
  paired = s.paired;
  numbered = IsNumbered-Shrinks m _ (Shrinks-drop_reading m q) s.numbered;
}

pub IsSound-revoke_sessions : (m : Manager) (u : ℕ) → IsSound m → IsSound (revoke_sessions m u).0
unfolding revoke_sessions
IsSound-revoke_sessions m u s = record {
  paired = Paired-pop_previous m.sessions m.user_tokens u s.paired;
  numbered = IsNumbered-Shrinks m (revoke_sessions m u).0 (Shrinks-revoke_sessions m u) s.numbered;
}

-- Reading a session that is there.
pub IsSound-read :
    (m : Manager) (q d : ℕ) (r : SessionRecord)
    → IsSound m
    → m.sessions d ≡ some r
    → IsSound (record m { readings = put q (record { digest = d; record_read = r }) m.readings })
IsSound-read m q d r s h = record {
  paired = s.paired;
  numbered = record {
    of_sessions = s.numbered.of_sessions;
    of_readings = λ o p k. elim (Bool-cases (q == o)) [
      | inl same ↦ let n = s.numbered.of_sessions d r h in ground arith
      | inr other ↦ s.numbered.of_readings o p (ground arith)
    ];
    same_record = λ o p r' k l e. elim (Bool-cases (q == o)) [
      | inl same ↦
          let read : ◌≡◌ {A = Reading} (record { digest = d; record_read = r }) p = ground arith in
          let digests : d ≡ p.digest = ap (λ (x : Reading). x.digest) read in
          let records : some r ≡ some r' = sym h ∙ ap m.sessions digests ∙ l in
          let one : r ≡ p.record_read = ap (λ (x : Reading). x.record_read) read in
          cc (records, one)
      | inr other ↦ s.numbered.same_record o p r' (ground arith) l e
    ];
  };
}

-- A new session, under a digest that no session has.
module _ (m : Manager) (d : ℕ) (r : SessionRecord) (s : IsSound m) (fresh : m.sessions d ≡ none)
    (new : r.serial ≡ m.created) where
  abbrev pub issued_to : Manager
  issued_to = record m {
    sessions = put d r (pop_previous (m.user_tokens r.account.id) m.sessions);
    user_tokens = put r.account.id d m.user_tokens;
    created = m.created + 1;
  }

  pub session_of_issued :
      (e : ℕ) (r' : SessionRecord)
      → issued_to.sessions e ≡ some r'
      → ((d ≡ e) × (r ≡ r')) ⊎ (m.sessions e ≡ some r')
  session_of_issued e r' h = elim (Bool-cases (d == e)) [
    | inl same ↦ inl (ground arith, ground arith)
    | inr other ↦
        inr (pop_previous-some (m.user_tokens r.account.id) e r' m.sessions (ground arith))
  ]

  pub IsSound-issued : IsSound issued_to
  IsSound-issued = record {
    paired = Paired-issue m.sessions m.user_tokens d r s.paired fresh;
    numbered = record {
      of_sessions = λ e r' h. elim (session_of_issued e r' h) [
        | inl (digests, records) ↦ omega (arith, new, ap (λ (x : SessionRecord). x.serial) records)
        | inr before ↦ omega (arith, s.numbered.of_sessions e r' before)
      ];
      of_readings = λ q p h. omega (arith, s.numbered.of_readings q p h);
      same_record = λ q p r' h k e. elim (session_of_issued p.digest r' k) [
        | inl (digests, records) ↦ absurd (
            omega (
              arith,
              new,
              e,
              s.numbered.of_readings q p h,
              ap (λ (x : SessionRecord). x.serial) records,
            ))
        | inr before ↦ s.numbered.same_record q p r' h before e
      ];
    };
  }

-- A reading is answered from the session that it read only while that is the current one.
pub is_current-session :
    (m : Manager) (q : ℕ) (p : Reading)
    → IsNumbered m
    → m.readings q ≡ some p
    → is_current m p ≡ true
    → m.sessions p.digest ≡ some p.record_read
unfolding is_current
is_current-session m q p n h k = elim (Option-cases (m.sessions p.digest)) [
  | inl absent ↦ absurd (ground arith)
  | inr (r, found) ↦
      let serials : r.serial ≡ p.record_read.serial = ground arith in
      found ∙ ap some (n.same_record q p r h found serials)
]
