-- ===== src/Authority/Roles/Policy.antt =====
-- The operations of `OperatorRolePolicy` of src/k5vision/operator_role_policy.py, with the reading
-- and writing of its file.
use k5_vision.Prelude.{
  ℕ, ◌+◌, ◌^◌, Bool, true, false, ◌&&◌, not, Option, none, some, List, [], ◌∷◌, map, ltb, leb, ◌==◌,
  if◌then◌else◌, length, any, all, all_unique, ok, raise, ◌>>=◌, ◌>>◌, raise_if,
}
use k5_vision.Authority.Sessions.{UserAccount}
use k5_vision.Authority.Roles.Model.{
  max_profiles, max_bindings, RolePolicyError, Profile, State, Users, get, put, pop, has, same_role,
  find_account, unchanged, replaced, excluded, guard, Step, check_profile,
}

unfoldable pub same_text : List ℕ → List ℕ → Bool
same_text [] [] = true
same_text [] (y ∷ ys) = false
same_text (x ∷ xs) [] = false
same_text (x ∷ xs) (y ∷ ys) = x == y && same_text xs ys

-- `len({...}) == len(...)`, for texts.
unfoldable pub unique_texts : List (List ℕ) → Bool
unique_texts [] = true
unique_texts (x ∷ xs) = not (any (same_text x) xs) && unique_texts xs

abbrev pub items_keys {ℓ} : {A : Type ℓ} → List (ℕ × A) → List ℕ
items_keys = map (λ item. item.0)

abbrev pub conflicts : Option ℕ → State → Bool
conflicts none s = false
conflicts (some expected) s = not (expected == s.revision)

abbrev pub base_differs : Option Profile → Profile → Bool
base_differs none p = false
base_differs (some previous) p = not (same_role previous.base_role p.base_role)

-- `assign` to a role, or to none, of an account that is there.
unfoldable pub assign_account : Users → UserAccount → Option ℕ → State → Step (State × UserAccount)
assign_account users account none s =
    let s' : State = record s { bindings = pop account.id s.bindings } in
    do guard users s' (replaced account); ok (record s' { revision = s.revision + 1 }, account)
assign_account users account (some role) s = elim (get role s.profiles) [
  | none ↦ raise RolePolicyError.roles_not_found
  | some profile ↦
      let s' : State = record s { bindings = put account.id role s.bindings } in
      let replacement : UserAccount = record account { role = profile.base_role } in
      do
        raise_if (leb max_bindings (length s.bindings) && not (has account.id s.bindings))
            RolePolicyError.roles_capacity
        guard users s' (replaced replacement)
        ok (record s' { revision = s.revision + 1 }, replacement)
]

unfoldable pub assign_state : Users → ℕ → Option ℕ → Option ℕ → State → Step (State × UserAccount)
assign_state users user role expected s = do
  raise_if (conflicts expected s) RolePolicyError.roles_revision_conflict
  elim (find_account user users.accounts) [
    | none ↦ raise RolePolicyError.roles_user_not_found
    | some account ↦ assign_account users account role s
  ]

unfoldable pub delete_state : Users → ℕ → ℕ → State → Step (State × Unit {0})
delete_state users role expected s =
    let s' : State = record s { profiles = pop role s.profiles } in
    do
      raise_if (not (expected == s.revision)) RolePolicyError.roles_revision_conflict
      raise_if (any (λ item. item.1 == role) s.bindings) RolePolicyError.roles_in_use
      raise_if (not (has role s.profiles)) RolePolicyError.roles_not_found
      guard users s' unchanged
      ok (record s' { revision = s.revision + 1 }, tt)

module _ (strip casefold : List ℕ → List ℕ) where
  unfoldable pub profile_ok : ℕ × Profile → Bool
  profile_ok (key, p) = elim (check_profile strip casefold p) [
    | none ↦ false
    | some q ↦ key == q.id
  ]

  abbrev pub folded_names : List (ℕ × Profile) → List (List ℕ)
  folded_names = map (λ item. casefold item.1.name)

  -- What `_read` tests of the file.
  unfoldable pub state_ok : State → Bool
  state_ok s =
      leb 1 s.revision
      && ltb s.revision (2 ^ 63)
      && leb (length s.profiles) max_profiles
      && leb (length s.bindings) max_bindings
      && all_unique (items_keys s.profiles)
      && all_unique (items_keys s.bindings)
      && all profile_ok s.profiles
      && unique_texts (folded_names s.profiles)
      && all (λ item. has item.1 s.profiles) s.bindings

  -- `_read`; `admitted` is what the file system and `close` say.
  unfoldable pub read : Bool → State → Step State
  read admitted s = if admitted && state_ok s then ok s else raise RolePolicyError.roles_unavailable

  abbrev pub name_taken : Profile → ℕ × Profile → Bool
  name_taken p item = not (item.1.id == p.id) && same_text (casefold item.1.name) (casefold p.name)

  -- `upsert` behind the check of its payload: the state that is written, and the profile.
  unfoldable pub upsert_checked : Users → State → Option Profile → Step (State × Profile)
  upsert_checked users s none = raise RolePolicyError.invalid_profile
  upsert_checked users s (some p) =
      let s' : State = record s { profiles = put p.id p s.profiles } in
      do
        raise_if (base_differs (get p.id s.profiles) p) RolePolicyError.roles_base_immutable
        raise_if (any (name_taken p) s.profiles) RolePolicyError.roles_name_exists
        guard users s' unchanged
        ok (record s' { revision = s.revision + 1 }, p)

  unfoldable pub upsert_state : Users → Profile → Option ℕ → State → Step (State × Profile)
  upsert_state users payload expected s = do
    raise_if (conflicts expected s) RolePolicyError.roles_revision_conflict
    raise_if (not (has payload.id s.profiles) && leb max_profiles (length s.profiles))
        RolePolicyError.roles_capacity
    upsert_checked users s (check_profile strip casefold payload)

-- How `_write` ends: it may fail before the file is replaced, or behind that.
pub data Write : Type 0 where
  written too_large broken_before broken_after : Write

abbrev pub commit : {A : Type 0} → State → Write → Step (State × A) → State × Step A
commit s w (raise e) = (s, raise e)
commit s written (ok (s', a)) = (s', ok a)
commit s too_large (ok (s', a)) = (s, raise RolePolicyError.roles_capacity)
commit s broken_before (ok (s', a)) = (s, raise RolePolicyError.write_failed)
commit s broken_after (ok (s', a)) = (s', raise RolePolicyError.write_failed)

module _ (strip casefold : List ℕ → List ℕ) where
  -- `upsert`, of a payload with the role's id
  unfoldable pub upsert : Users → Profile → Option ℕ → Bool → Write → State → State × Step Profile
  upsert users payload expected admitted w s =
      commit s w
        (read strip casefold admitted s >>= upsert_state strip casefold users payload expected)

  -- `assign`
  unfoldable pub assign :
      Users → ℕ → Option ℕ → Option ℕ → Bool → Write → State → State × Step UserAccount
  assign users user role expected admitted w s =
      commit s w (read strip casefold admitted s >>= assign_state users user role expected)

  -- `delete`
  unfoldable pub delete : Users → ℕ → ℕ → Bool → Write → State → State × Step (Unit {0})
  delete users role expected admitted w s =
      commit s w (read strip casefold admitted s >>= delete_state users role expected)

  -- `guard_account_change`; `with_role` says that the change has a role.
  unfoldable pub guard_account_change : Users → UserAccount → Bool → Bool → State → Step (Unit {0})
  guard_account_change users changed with_role admitted s = do
    state ← read strip casefold admitted s
    raise_if (has changed.id state.bindings && with_role) RolePolicyError.roles_profile_bound
    guard users state (replaced changed)

  unfoldable pub guard_credential_reset : Users → ℕ → Bool → State → Step (Unit {0})
  guard_credential_reset users user admitted s = do
    state ← read strip casefold admitted s
    guard users state (excluded user)

-- The file that is written where there is none.
abbrev pub initial : State
initial = record { revision = 1; profiles = []; bindings = [] }

pub data Operation : Type 0 where
  -- A payload with the role's id, and the expected revision.
  upserts : Profile → Option ℕ → Operation
  -- The user, the role or none, and the expected revision.
  assigns : ℕ → Option ℕ → Option ℕ → Operation
  -- The role and the expected revision.
  deletes : ℕ → ℕ → Operation

-- The file behind an operation.
unfoldable pub operate :
    (List ℕ → List ℕ) → (List ℕ → List ℕ) → Users → Operation → Bool → Write → State → State
operate strip casefold users (upserts payload expected) admitted w s =
    (upsert strip casefold users payload expected admitted w s).0
operate strip casefold users (assigns user role expected) admitted w s =
    (assign strip casefold users user role expected admitted w s).0
operate strip casefold users (deletes role expected) admitted w s =
    (delete strip casefold users role expected admitted w s).0
