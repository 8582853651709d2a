-- ===== src/Authority/Roles/Keeping.antt =====
-- What the operations of OperatorRolePolicy (src/k5vision/operator_role_policy.py) leave in its file.
use k5_vision.Prelude.{
  and_right, ℕ, ◌+◌, ◌≡◌, refl, ap, subst, inl, inr, Bool, true, ◌&&◌, Option, none, some, List,
  if◌then◌else◌, Bool-cases, ok, raise, ◌>>=◌, ◌⊎◌,
}
use k5_vision.Authority.Sessions.{UserAccount}
use k5_vision.Authority.Roles.Model.{
  Users, State, Change, Profile, get, unchanged, replaced, guard, RolePolicyError, Step, put, pop,
  find_account, effective_permissions,
}
use k5_vision.Authority.Roles.Policy.{
  Write, commit, read, state_ok, Operation, upserts, assigns, deletes, operate, upsert_state,
  upsert, assign_state, assign, delete_state, delete,
}
use k5_vision.Authority.Roles.Guarding.{HasAdministrator, guard-HasAdministrator}
use k5_vision.Authority.Roles.Changes.{
  upsert_state-IsUpserted, Assigned, assign_state-IsAssigned, delete_state-IsDeleted,
}

-- A committed step leaves the state as it was, or the one that it computed.
commit_cases :
    {A : Type 0} (P : State → Type 0) (s : State) (w : Write) (step : Step (State × A))
    → P s
    → ((s' : State) (a : A) → step ≡ ok (s', a) → P s')
    → P (commit s w step).0
commit_cases P s w (raise e) kept changed = kept
commit_cases P s Write.written (ok (s', a)) kept changed = changed s' a refl
commit_cases P s Write.too_large (ok (s', a)) kept changed = kept
commit_cases P s Write.broken_before (ok (s', a)) kept changed = kept
commit_cases P s Write.broken_after (ok (s', a)) kept changed = changed s' a refl

pub commit-ok :
    {A : Type 0} (s : State) (w : Write) (step : Step (State × A)) (a : A)
    → (commit s w step).1 ≡ ok a
    → step ≡ ok ((commit s w step).0, a)
commit-ok s w (raise e) a h = absurd (cc h)
commit-ok s Write.written (ok (s', b)) a h = ap (λ c. ok (s', c)) (cc h)
commit-ok s Write.too_large (ok (s', b)) a h = absurd (cc h)
commit-ok s Write.broken_before (ok (s', b)) a h = absurd (cc h)
commit-ok s Write.broken_after (ok (s', b)) a h = absurd (cc h)

-- The guard reads no revision.
HasAdministrator-revision :
    (users : Users) (s : State) (change : Change) (n : ℕ)
    → guard users s change ≡ ok tt
    → HasAdministrator users (record s { revision = n }) change
unfolding effective_permissions
HasAdministrator-revision users s change n h =
    let a = (guard-HasAdministrator users s change).0 h in
    record {
      row = a.row;
      account = a.account;
      in_reach = a.in_reach;
      is_listed = a.is_listed;
      counts = a.counts;
      is_enabled = a.is_enabled;
      is_administrator = a.is_administrator;
      has_all = a.has_all;
      has_credential = a.has_credential;
    }

-- A step behind a read had a valid file.
pub read-ok :
    {B : Type 0} {b : B} (strip casefold : List ℕ → List ℕ) (admitted : Bool) (s : State)
    (f : State → Step B)
    → (read strip casefold admitted s >>= f) ≡ ok b
    → (state_ok strip casefold s ≡ true) × (f s ≡ ok b)
unfolding read
read-ok {b} strip casefold admitted s f h =
    elim (Bool-cases (admitted && state_ok strip casefold s)) [
      | inl valid ↦ (and_right _ _ valid, subst (λ (c : Bool). (tested c >>= f) ≡ ok b) valid h)
      | inr bad ↦ absurd (cc (subst (λ (c : Bool). (tested c >>= f) ≡ ok b) bad h))
    ]
  where
    tested : Bool → Step State
    tested b = if b then ok s else raise RolePolicyError.roles_unavailable

-- What an assignment makes of an account: a role gives it the base role of the role's profile, and
-- no role leaves it as it is.
abbrev pub Becomes : State → Option ℕ → UserAccount → UserAccount → Type 0
Becomes s none account after = after ≡ account
Becomes s (some role) account after =
    (profile : Profile) × (get role s.profiles ≡ some profile)
    × (after ≡ record account { role = profile.base_role })

-- The change that follows an operation: the account that the registry lists under the user of an
-- assignment is replaced by what the assignment makes of it.
abbrev pub Follows : Users → State → Operation → Change → Type 0
Follows users s (assigns user role _) change =
    (account : UserAccount) × (after : UserAccount) × (find_account user users.accounts
      ≡ some account)
    × Becomes s role account after
    × (change ≡ replaced after)
Follows users s _ change = change ≡ unchanged

Assigned-Becomes :
    (users : Users) (s : State) (role : Option ℕ) (account : UserAccount) (bindings : List (ℕ × ℕ))
    (r : UserAccount)
    → Assigned users s role account bindings r
    → Becomes s role account r
Assigned-Becomes users s none account bindings r a = a.1
Assigned-Becomes users s (some role) account bindings r a = (a.0, a.1, a.4)

abbrev Kept : Users → State → Operation → State → Type 0
Kept users s op s' =
    (s' ≡ s) ⊎ ((change : Change) × Follows users s op change × HasAdministrator users s' change)

module _ (strip casefold : List ℕ → List ℕ) (users : Users) where
  -- Whatever becomes of an operation, a failing write included, the file is as it was, or the
  -- registry has, among its first 100,000 rows as they are when the operation is through, an
  -- enabled administrator with an active credential who holds every permission under the new file.
  -- After an assignment the rows of its user stand for the account listed under it, with the base
  -- role of the assigned role's profile, or as it was where the assignment takes the role away.
  pub operate-HasAdministrator :
      (op : Operation) (admitted : Bool) (w : Write) (s : State)
      → (operate strip casefold users op admitted w s ≡ s)
        ⊎ ((change : Change) × Follows users s op change
            × HasAdministrator users (operate strip casefold users op admitted w s) change)
  unfolding operate upsert assign delete
  operate-HasAdministrator (upserts payload expected) admitted w s =
      commit_cases (Kept users s (upserts payload expected)) s w _ (inl refl) (λ s' p h.
        let (valid, made) =
          read-ok strip casefold admitted s (upsert_state strip casefold users payload expected)
            h in
        let u = upsert_state-IsUpserted strip casefold users s payload expected s' p made in
        let left : State = record s { profiles = put p.id p s.profiles } in
        inr (
          unchanged,
          refl,
          subst (λ (t : State). HasAdministrator users t unchanged) u.result
              (HasAdministrator-revision users left unchanged (s.revision + 1) u.guarded),
        ))
  operate-HasAdministrator (assigns user role expected) admitted w s =
      commit_cases (Kept users s (assigns user role expected)) s w _ (inl refl) (λ s' r h.
        let (valid, made) =
          read-ok strip casefold admitted s (assign_state users user role expected) h in
        let a = assign_state-IsAssigned users s user role expected s' r made in
        let left : State = record s { bindings = a.bindings } in
        inr (
          replaced r,
          (
            a.account,
            r,
            a.is_found,
            Assigned-Becomes users s role a.account a.bindings r a.assigned,
            refl,
          ),
          subst (λ (t : State). HasAdministrator users t (replaced r)) a.result
              (HasAdministrator-revision users left (replaced r) (s.revision + 1) a.guarded),
        ))
  operate-HasAdministrator (deletes role expected) admitted w s =
      commit_cases (Kept users s (deletes role expected)) s w _ (inl refl) (λ s' u h.
        let (valid, made) =
          read-ok strip casefold admitted s (delete_state users role expected) h in
        let d = delete_state-IsDeleted users s role expected s' u made in
        let left : State = record s { profiles = pop role s.profiles } in
        inr (
          unchanged,
          refl,
          subst (λ (t : State). HasAdministrator users t unchanged) d.result
              (HasAdministrator-revision users left unchanged (s.revision + 1) d.guarded),
        ))
