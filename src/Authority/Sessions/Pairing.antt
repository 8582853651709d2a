-- ===== src/Authority/Sessions/Pairing.antt =====
-- The two tables of UserSessionManager (src/k5vision/auth_sessions.py): the sessions, and the tokens
-- by user.
use k5_vision.Prelude.{
  ℕ, ◌≡◌, sym, ◌∙◌, ap, subst, inl, inr, Option, none, some, ◌==◌, arith, Bool-cases, Option-cases,
}
use k5_vision.Authority.Sessions.{SessionRecord, Dict, put, pop, pop_previous}

-- Every session is the one of its user, and every user's token has a session of that user.
pub record Paired (sessions : Dict SessionRecord) (tokens : Dict ℕ) : Type 0 where
  pub owned : (d : ℕ) (r : SessionRecord) → sessions d ≡ some r → tokens r.account.id ≡ some d
  pub current :
      (u d : ℕ)
      → tokens u ≡ some d
      → (r : SessionRecord) × (sessions d ≡ some r) × (r.account.id ≡ u)

-- A session and its user's token go together.
pub Paired-pop :
    (sessions : Dict SessionRecord) (tokens : Dict ℕ) (d : ℕ) (r : SessionRecord)
    → Paired sessions tokens
    → sessions d ≡ some r
    → Paired (pop d sessions) (pop r.account.id tokens)
Paired-pop sessions tokens d r p h = record {
  owned = λ e s k. elim (Bool-cases (d == e)) [
    | inl same ↦ absurd (ground arith)
    | inr other ↦
        let s_at : sessions e ≡ some s = ground arith in
        let s_owned = p.owned e s s_at in
        let r_owned = p.owned d r h in
        elim (Bool-cases (r.account.id == s.account.id)) [
          | inl one ↦
              let users : r.account.id ≡ s.account.id = ground arith in
              let tokens_eq : some d ≡ some e = sym r_owned ∙ ap tokens users ∙ s_owned in
              absurd (ground arith)
          | inr two ↦ ground arith
        ]
  ];
  current = λ u e k. elim (Bool-cases (r.account.id == u)) [
    | inl same ↦ absurd (ground arith)
    | inr other ↦
        let e_at : tokens u ≡ some e = ground arith in
        let (s, s_at, s_user) = p.current u e e_at in
        elim (Bool-cases (d == e)) [
          | inl one ↦
              let digests : d ≡ e = ground arith in
              let records : some r ≡ some s = sym h ∙ ap sessions digests ∙ s_at in
              let users : r.account.id ≡ u = ground arith in absurd (ground arith)
          | inr two ↦ (s, ground arith, s_user)
        ]
  ];
}

pub Paired-put :
    (sessions : Dict SessionRecord) (tokens : Dict ℕ) (d : ℕ) (r : SessionRecord)
    → Paired sessions tokens
    → sessions d ≡ none
    → tokens r.account.id ≡ none
    → Paired (put d r sessions) (put r.account.id d tokens)
Paired-put sessions tokens d r p h k = record {
  owned = λ e s s_at. elim (Bool-cases (d == e)) [
    | inl same ↦ let records : some r ≡ some s = ground arith in ground arith
    | inr other ↦
        let before : sessions e ≡ some s = ground arith in
        let s_owned = p.owned e s before in
        elim (Bool-cases (r.account.id == s.account.id)) [
          | inl one ↦
              let users : r.account.id ≡ s.account.id = ground arith in
              absurd (cc (sym k ∙ ap tokens users ∙ s_owned))
          | inr two ↦ ground arith
        ]
  ];
  current = λ u e e_at. elim (Bool-cases (r.account.id == u)) [
    | inl same ↦ (r, ground arith, ground arith)
    | inr other ↦
        let before : tokens u ≡ some e = ground arith in
        let (s, s_at, s_user) = p.current u e before in
        elim (Bool-cases (d == e)) [
          | inl one ↦
              let digests : d ≡ e = ground arith in absurd (cc (sym h ∙ ap sessions digests ∙ s_at))
          | inr two ↦ (s, ground arith, s_user)
        ]
  ];
}

pub Paired-same_tokens :
    (sessions : Dict SessionRecord) (tokens tokens' : Dict ℕ)
    → ((u : ℕ) → tokens' u ≡ tokens u)
    → Paired sessions tokens
    → Paired sessions tokens'
Paired-same_tokens sessions tokens tokens' same p = record {
  owned = λ d r h. same r.account.id ∙ p.owned d r h;
  current = λ u d h. p.current u d (sym (same u) ∙ h);
}

-- The tables when a user's session is dropped, if there is one.
pub Paired-pop_previous :
    (sessions : Dict SessionRecord) (tokens : Dict ℕ) (u : ℕ)
    → Paired sessions tokens
    → Paired (pop_previous (tokens u) sessions) (pop u tokens)
unfolding pop_previous
Paired-pop_previous sessions tokens u p = elim (Option-cases (tokens u)) [
  | inl absent ↦ rw absent (
      Paired-same_tokens sessions tokens (pop u tokens)
        (λ v. elim (Bool-cases (u == v)) [
          | inl same ↦
              let users : u ≡ v = ground arith in
              let gone : tokens v ≡ none = sym (ap tokens users) ∙ absent in ground arith
          | inr other ↦ ground arith
        ])
        p)
  | inr (d, found) ↦
      let (r, r_at, r_user) = p.current u d found in
      rw found (
        subst (λ (w : ℕ). Paired (pop d sessions) (pop w tokens)) r_user
          (Paired-pop sessions tokens d r p r_at))
]

pub Paired-issue :
    (sessions : Dict SessionRecord) (tokens : Dict ℕ) (d : ℕ) (r : SessionRecord)
    → Paired sessions tokens
    → sessions d ≡ none
    → Paired (put d r (pop_previous (tokens r.account.id) sessions)) (put r.account.id d tokens)
unfolding pop_previous
Paired-issue sessions tokens d r p fresh =
    let u = r.account.id in
    Paired-same_tokens (put d r (pop_previous (tokens u) sessions)) (put u d (pop u tokens))
      (put u d tokens) (λ v. ground arith)
      (Paired-put (pop_previous (tokens u) sessions) (pop u tokens) d r
        (Paired-pop_previous sessions tokens u p) (still_fresh (tokens u)) (ground arith))
  where
    still_fresh : (previous : Option ℕ) → pop_previous previous sessions d ≡ none
    still_fresh none = fresh
    still_fresh (some e) = ground arith
