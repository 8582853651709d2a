-- ===== src/Authority/Roles/Changes.antt =====
-- What the operations of OperatorRolePolicy (src/k5vision/operator_role_policy.py) have passed when
-- they have a state to write.
use k5_vision.Prelude.{
  ℕ, ◌+◌, ◌≡◌, refl, sym, ◌∙◌, ap, subst, inl, inr, false, not, ◌&&◌, Option, none, some, List, leb,
  ◌==◌, length, any, Option-cases, arith, ok, raise, raise_if-ok, >>-ok, ◌>>◌, raise_if,
}
use k5_vision.Authority.Sessions.{UserAccount}
use k5_vision.Authority.Roles.Model.{
  Users, State, Profile, unchanged, replaced, guard, RolePolicyError, Step, get, put, pop, has,
  max_profiles, max_bindings, find_account, check_profile,
}
use k5_vision.Authority.Roles.Policy.{
  base_differs, name_taken, upsert_checked, upsert_state, assign_account, assign_state,
  delete_state,
}

module _ (strip casefold : List ℕ → List ℕ) (users : Users) (s : State) where
  pub record IsUpserted (payload : Profile) (s' : State) (p : Profile) : Type 0 where
    pub checked : check_profile strip casefold payload ≡ some p
    pub room : (not (has payload.id s.profiles) && leb max_profiles (length s.profiles)) ≡ false
    pub same_base : base_differs (get p.id s.profiles) p ≡ false
    pub name_free : any (name_taken strip casefold p) s.profiles ≡ false
    pub guarded : guard users (record s { profiles = put p.id p s.profiles }) unchanged ≡ ok tt
    pub result : record s { profiles = put p.id p s.profiles; revision = s.revision + 1 } ≡ s'

  checked_IsUpserted :
      (payload q : Profile) (s' : State) (p : Profile)
      → check_profile strip casefold payload ≡ some q
      → (not (has payload.id s.profiles) && leb max_profiles (length s.profiles)) ≡ false
      → upsert_checked strip casefold users s (some q) ≡ ok (s', p)
      → IsUpserted payload s' p
  unfolding upsert_checked
  checked_IsUpserted payload q s' p checked room h =
      let (same_base, h1) = raise_if-ok _ _ _ h in
      let (name_free, h2) = raise_if-ok _ _ _ h1 in
      let (guarded, h3) = >>-ok _ _ h2 in
      let same : q ≡ p = cc h3 in
      subst (IsUpserted payload s') same (
        subst (λ (t : State). IsUpserted payload t q) (cc h3)
          (record {
            checked = checked;
            room = room;
            same_base = same_base;
            name_free = name_free;
            guarded = guarded;
            result = refl;
          }))

  pub upsert_state-IsUpserted :
      (payload : Profile) (expected : Option ℕ) (s' : State) (p : Profile)
      → upsert_state strip casefold users payload expected s ≡ ok (s', p)
      → IsUpserted payload s' p
  unfolding upsert_state upsert_checked
  upsert_state-IsUpserted payload expected s' p h =
      let (revision, h1) = raise_if-ok _ _ _ h in
      let (room, h2) = raise_if-ok _ _ _ h1 in
      elim (Option-cases (check_profile strip casefold payload)) [
        | inl invalid ↦ absurd (cc (sym (ap (upsert_checked strip casefold users s) invalid) ∙ h2))
        | inr (q, checked) ↦
            checked_IsUpserted payload q s' p checked room
              (sym (ap (upsert_checked strip casefold users s) checked) ∙ h2)
      ]

module _ (users : Users) (s : State) where
  -- The bindings and the account that an assignment makes.
  abbrev pub Assigned : Option ℕ → UserAccount → List (ℕ × ℕ) → UserAccount → Type 0
  Assigned none account bindings r = (bindings ≡ pop account.id s.bindings) × (r ≡ account)
  Assigned (some role) account bindings r =
      (profile : Profile) × (get role s.profiles ≡ some profile)
      × ((leb max_bindings (length s.bindings) && not (has account.id s.bindings)) ≡ false)
      × (bindings ≡ put account.id role s.bindings)
      × (r ≡ record account { role = profile.base_role })

  pub record IsAssigned (user : ℕ) (role : Option ℕ) (s' : State) (r : UserAccount) : Type 0 where
    pub account : UserAccount
    pub is_found : find_account user users.accounts ≡ some account
    pub bindings : List (ℕ × ℕ)
    pub assigned : Assigned role account bindings r
    pub guarded : guard users (record s { bindings = bindings }) (replaced r) ≡ ok tt
    pub result : record s { bindings = bindings; revision = s.revision + 1 } ≡ s'

  -- The last steps of an assignment.
  abbrev last_steps : List (ℕ × ℕ) → UserAccount → Step (State × UserAccount)
  last_steps bindings r = do
    guard users (record s { bindings = bindings }) (replaced r)
    ok (record s { bindings = bindings; revision = s.revision + 1 }, r)

  guarded_IsAssigned :
      (user : ℕ) (role : Option ℕ) (account q : UserAccount) (bindings : List (ℕ × ℕ)) (s' : State)
      (r : UserAccount)
      → find_account user users.accounts ≡ some account
      → Assigned role account bindings q
      → last_steps bindings q ≡ ok (s', r)
      → IsAssigned user role s' r
  guarded_IsAssigned user role account q bindings s' r found assigned h =
      let (guarded, h1) = >>-ok _ _ h in
      subst (IsAssigned user role s') (cc h1) (
        subst (λ (t : State). IsAssigned user role t q) (cc h1)
          (record {
            account = account;
            is_found = found;
            bindings = bindings;
            assigned = assigned;
            guarded = guarded;
            result = refl;
          }))

  assign_account-IsAssigned :
      (user : ℕ) (role : Option ℕ) (account : UserAccount) (s' : State) (r : UserAccount)
      → find_account user users.accounts ≡ some account
      → assign_account users account role s ≡ ok (s', r)
      → IsAssigned user role s' r
  unfolding assign_account
  assign_account-IsAssigned user none account s' r found h =
      guarded_IsAssigned user none account account (pop account.id s.bindings) s' r found
        (refl, refl) h
  assign_account-IsAssigned user (some role) account s' r found h =
      elim (Option-cases (get role s.profiles)) [
        | inl absent ↦ absurd (ground arith)
        | inr (profile, known) ↦
            let h1 = subst (λ (o : Option Profile). Chain o ≡ ok (s', r)) known h in
            let (room, h2) = raise_if-ok _ _ _ h1 in
            guarded_IsAssigned user (some role) account
              (record account { role = profile.base_role }) (put account.id role s.bindings) s' r
              found (profile, known, room, refl, refl) h2
      ]
    where
      Chain : Option Profile → Step (State × UserAccount)
      Chain o = elim o [
        | none ↦ raise RolePolicyError.roles_not_found
        | some profile ↦ do
          raise_if (leb max_bindings (length s.bindings) && not (has account.id s.bindings))
              RolePolicyError.roles_capacity
          last_steps (put account.id role s.bindings) (record account { role = profile.base_role })
      ]

  pub assign_state-IsAssigned :
      (user : ℕ) (role expected : Option ℕ) (s' : State) (r : UserAccount)
      → assign_state users user role expected s ≡ ok (s', r)
      → IsAssigned user role s' r
  unfolding assign_state
  assign_state-IsAssigned user role expected s' r h =
      elim (Option-cases (find_account user users.accounts)) [
        | inl absent ↦ absurd (ground arith)
        | inr (account, found) ↦
            assign_account-IsAssigned user role account s' r found (ground arith)
      ]

  pub record IsDeleted (role : ℕ) (s' : State) : Type 0 where
    pub unused : any (λ item. item.1 == role) s.bindings ≡ false
    pub guarded : guard users (record s { profiles = pop role s.profiles }) unchanged ≡ ok tt
    pub result : record s { profiles = pop role s.profiles; revision = s.revision + 1 } ≡ s'

  pub delete_state-IsDeleted :
      (role expected : ℕ) (s' : State) (u : Unit {0})
      → delete_state users role expected s ≡ ok (s', u)
      → IsDeleted role s'
  unfolding delete_state
  delete_state-IsDeleted role expected s' u h =
      let (revision, h1) = raise_if-ok _ _ _ h in
      let (unused, h2) = raise_if-ok _ _ _ h1 in
      let (known, h3) = raise_if-ok _ _ _ h2 in
      let left : State = record s { profiles = pop role s.profiles } in
      let after : State = record left { revision = s.revision + 1 } in
      let (guarded, h4) = >>-ok (guard users left unchanged) (ok (after, tt)) h3 in
      subst (IsDeleted role) (cc h4) (record { unused = unused; guarded = guarded; result = refl })
