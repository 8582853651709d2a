-- ===== src/Authority/Roles/Narrowing.antt =====
-- Permissions under OperatorRolePolicy (src/k5vision/operator_role_policy.py) while an assignment is
-- under way.
use k5_vision.Prelude.{
  and_left, and_right, ℕ, ◌≡◌, refl, sym, ◌∙◌, ap, subst, inl, inr, Bool, true, false, ◌&&◌, Option,
  none, some, List, [], ◌∷◌, ◌==◌, if◌then◌else◌, all, contains, Bool-cases, arith, ok, ◌>>=◌,
}
use k5_vision.Authority.Sessions.{UserAccount}
use k5_vision.Authority.Roles.Model.{
  Users, State, Profile, get, put, find_account, check_profile, subset, effective_permissions,
  base_permissions, intersection,
}
use k5_vision.Authority.Roles.Policy.{Write, state_ok, profile_ok, read, assign_state, assign}
use k5_vision.Authority.Roles.Changes.{IsAssigned, assign_state-IsAssigned}
use k5_vision.Authority.Roles.Keeping.{read-ok, commit-ok}

contains-intersection :
    (p : ℕ) (xs ys : List ℕ) → contains p (intersection xs ys) ≡ (contains p xs && contains p ys)
contains-intersection p [] ys = refl
contains-intersection p (x ∷ xs) ys = elim (Bool-cases (x == p)) [
  | inl here ↦
      let same : x ≡ p = ground arith in
      let both : contains x ys ≡ contains p ys = ap (λ (n : ℕ). contains n ys) same in
      ground (arith, contains-intersection p xs ys)
  | inr later ↦ ground (arith, contains-intersection p xs ys)
]

-- To be in a list that is part of another.
contains-subset :
    (p : ℕ) (xs ys : List ℕ) → subset xs ys ≡ true → contains p xs ≡ true → contains p ys ≡ true
contains-subset p [] ys h c = absurd (cc c)
contains-subset p (x ∷ xs) ys h c = elim (Bool-cases (x == p)) [
  | inl here ↦
      let same : x ≡ p = ground arith in
      let both : contains x ys ≡ contains p ys = ap (λ (n : ℕ). contains n ys) same in ground arith
  | inr later ↦ contains-subset p xs ys (ground arith) (ground arith)
]

get-put : {A : Type 0} (k : ℕ) (a : A) (items : List (ℕ × A)) → get k (put k a items) ≡ some a
unfolding get put
get-put k a [] = ground arith
get-put k a ((j, b) ∷ items) = let ih = get-put k a items in ground arith

-- A test of what is made under a condition.
chosen :
    {A : Type 0} (c : Bool) (a : A) (test : A → Bool)
    → (elim (if c then some a else none) as (λ o. Bool) [ none ↦ false | some x ↦ test x ]) ≡ true
    → c ≡ true
chosen true a test h = refl
chosen false a test h = absurd (cc h)

check_profile-subset :
    (strip casefold : List ℕ → List ℕ) (k : ℕ) (p : Profile)
    → profile_ok strip casefold (k, p) ≡ true
    → subset p.permissions (base_permissions p.base_role) ≡ true
unfolding profile_ok check_profile
check_profile-subset strip casefold k p h =
    and_right _ _ (chosen _ _ (λ (q : Profile). k == q.id) h)

profile_of :
    (strip casefold : List ℕ → List ℕ) (role : ℕ) (profile : Profile) (items : List (ℕ × Profile))
    → all (profile_ok strip casefold) items ≡ true
    → get role items ≡ some profile
    → subset profile.permissions (base_permissions profile.base_role) ≡ true
unfolding get
profile_of strip casefold role profile [] h found = absurd (cc found)
profile_of strip casefold role profile ((k, p) ∷ items) h found = elim (Bool-cases (k == role)) [
  | inl here ↦
      let same : p ≡ profile = ground arith in
      subst (λ (q : Profile). subset q.permissions (base_permissions q.base_role) ≡ true) same
        (check_profile-subset strip casefold k p (and_left _ _ h))
  | inr later ↦ profile_of strip casefold role profile items (and_right _ _ h) (ground arith)
]

subset_of :
    (xs ys : List ℕ) → ((p : ℕ) → contains p xs ≡ true → contains p ys ≡ true) → subset xs ys ≡ true
subset_of [] ys h = refl
subset_of (x ∷ xs) ys h =
    let first = h x (ground arith) in
    let rest = subset_of xs ys (λ p c. h p (ground arith)) in ground arith

-- Permissions that a profile keeps of a base that it is made for.
intersection-subset :
    (base own kept : List ℕ)
    → subset kept base ≡ true
    → subset (intersection own kept) (intersection base kept) ≡ true
intersection-subset base own kept h =
    subset_of (intersection own kept) (intersection base kept) (λ p c.
      let in_both = sym (contains-intersection p own kept) ∙ c in
      let in_kept = and_right _ _ in_both in
      let in_base = contains-subset p kept base h in_kept in
      contains-intersection p base kept ∙ rw (in_base, in_kept) refl)

subset_refl : (xs : List ℕ) → subset xs xs ≡ true
subset_refl xs = subset_of xs xs (λ p c. c)

profiles_ok :
    (strip casefold : List ℕ → List ℕ) (s : State)
    → state_ok strip casefold s ≡ true
    → all (profile_ok strip casefold) s.profiles ≡ true
unfolding state_ok
profiles_ok strip casefold s h = and_right _ _ (and_left _ _ (and_left _ _ h))

-- The permissions of an account with a binding.
effective_bound :
    (account : UserAccount) (s : State) (role : ℕ) (profile : Profile)
    → get account.id s.bindings ≡ some role
    → get role s.profiles ≡ some profile
    → effective_permissions account s
      ≡ intersection (base_permissions account.role) profile.permissions
unfolding effective_permissions
effective_bound account s role profile h k = rw (h, k, effective_permissions) refl

module _ (strip casefold : List ℕ → List ℕ) (users : Users) (s s' : State) where
  assigned_narrows :
      (user : ℕ) (role : Option ℕ) (r : UserAccount)
      → state_ok strip casefold s ≡ true
      → (a : IsAssigned users s user role s' r)
      → subset (effective_permissions a.account s') (effective_permissions r s') ≡ true
  assigned_narrows user none r valid a =
      subst
        (λ (x : UserAccount).
          subset (effective_permissions a.account s') (effective_permissions x s') ≡ true)
        (sym a.assigned.1) (subset_refl (effective_permissions a.account s'))
  assigned_narrows user (some role) r valid a =
      let (profile, known, room, bound, changed) = a.assigned in
      let target : UserAccount = record a.account { role = profile.base_role } in
      let bindings_eq : s'.bindings ≡ put a.account.id role s.bindings =
        sym (ap (λ (t : State). t.bindings) a.result) ∙ bound in
      let profiles_eq : s'.profiles ≡ s.profiles = sym (ap (λ (t : State). t.profiles) a.result) in
      let bindings_at : get a.account.id s'.bindings ≡ some role =
        ap (get a.account.id) bindings_eq ∙ get-put a.account.id role s.bindings in
      let profiles_at : get role s'.profiles ≡ some profile = ap (get role) profiles_eq ∙ known in
      let own = base_permissions a.account.role in
      let base = base_permissions profile.base_role in
      let before = effective_bound a.account s' role profile bindings_at profiles_at in
      let after : effective_permissions r s' ≡ intersection base profile.permissions =
        ap (λ (x : UserAccount). effective_permissions x s') changed
        ∙ effective_bound target s' role profile bindings_at profiles_at in
      let kept =
        profile_of strip casefold role profile s.profiles (profiles_ok strip casefold s valid)
          known in
      subst (λ (xs : List ℕ). subset xs (effective_permissions r s') ≡ true) (sym before)
        (subst (λ (ys : List ℕ). subset (intersection own profile.permissions) ys ≡ true)
          (sym after) (intersection-subset base own profile.permissions kept))

-- An assignment that succeeds gives, for the account in the registry, the account to be stored with
-- the role's base. Until that is stored the account has, under the new file, no permission that it
-- will not have then.
pub assign_narrows :
    (strip casefold : List ℕ → List ℕ) (users : Users) (user : ℕ) (role expected : Option ℕ)
    (admitted : Bool) (w : Write) (s : State) (r : UserAccount)
    → (assign strip casefold users user role expected admitted w s).1 ≡ ok r
    → (account : UserAccount) × (find_account user users.accounts ≡ some account)
      × (subset
            (effective_permissions account
              (assign strip casefold users user role expected admitted w s).0)
            (effective_permissions r
              (assign strip casefold users user role expected admitted w s).0)
          ≡ true)
unfolding assign
assign_narrows strip casefold users user role expected admitted w s r h =
    let s' = (assign strip casefold users user role expected admitted w s).0 in
    let step = read strip casefold admitted s >>= assign_state users user role expected in
    let made = commit-ok s w step r h in
    let (valid, assigned) =
      read-ok strip casefold admitted s (assign_state users user role expected) made in
    let a = assign_state-IsAssigned users s user role expected s' r assigned in
    (a.account, a.is_found, assigned_narrows strip casefold users s s' user role r valid a)
