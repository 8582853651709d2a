-- ===== src/Authority/Roles/Model.antt =====
-- `OperatorRolePolicy` of src/k5vision/operator_role_policy.py over the rows of
-- src/k5vision/services/user_registry.py. The policy's file is the state that it holds; whether a
-- read or a write of it is admitted is an argument. A permission is its place among PERMISSIONS in
-- sorted order, and any other text is a number above them; an UUID is its number. `str.strip` and
-- `str.casefold` are parameters. A read of the registry that raises is left out: it ends the call
-- before a write.
use k5_vision.Prelude.{
  ℕ, zero, suc, ◌+◌, Bool, true, false, ◌&&◌, Option, none, some, List, [], ◌∷◌, ltb, leb, ◌==◌,
  if◌then◌else◌, length, take, drop, any, all, contains, all_unique, Result, ok, raise,
}
use k5_vision.Authority.Sessions.{UserAccount, UserRole}

abbrev pub permissions_all : List ℕ
permissions_all = 0 ∷ 1 ∷ 2 ∷ 3 ∷ 4 ∷ 5 ∷ 6 ∷ 7 ∷ 8 ∷ 9 ∷ 10 ∷ 11 ∷ []

-- In sorted order: analytics.manage, audit.read, cameras.export (2), cameras.manage,
-- cameras.playback (4), cameras.view_live (5), integrations.manage, recording.manage, roles.manage,
-- storage.manage, time.manage, users.manage.
abbrev pub base_permissions : UserRole → List ℕ
base_permissions UserRole.viewer = 4 ∷ 5 ∷ []
base_permissions UserRole.operator = 2 ∷ 4 ∷ 5 ∷ []
base_permissions UserRole.administrator = permissions_all

abbrev pub max_profiles : ℕ
max_profiles = 128

abbrev pub max_bindings : ℕ
max_bindings = 100_000

-- `invalid_profile` is the `ValueError` of `_profile`, and `write_failed` what `_write` raises but for
-- its capacity.
pub data RolePolicyError : Type 0 where
  roles_unavailable roles_capacity roles_last_administrator roles_profile_bound : RolePolicyError
  roles_revision_conflict roles_base_immutable roles_name_exists : RolePolicyError
  roles_user_not_found roles_not_found roles_in_use : RolePolicyError
  invalid_profile write_failed : RolePolicyError

pub record Profile : Type 0 where
  pub id : ℕ
  pub name : List ℕ
  pub description : List ℕ
  pub base_role : UserRole
  pub permissions : List ℕ

-- Dictionaries as their items, in order.
pub record State : Type 0 where
  pub revision : ℕ
  pub profiles : List (ℕ × Profile)
  pub bindings : List (ℕ × ℕ)

-- `users`: the rows of the registry in order, and who has an active credential.
pub record Users : Type 0 where
  pub accounts : List UserAccount
  pub is_active : ℕ → Bool

-- `dict.get`, `dict.__setitem__` and `dict.pop`.
unfoldable pub get {ℓ} : {A : Type ℓ} → ℕ → List (ℕ × A) → Option A
get k [] = none
get k ((j, a) ∷ items) = let rest = get k items in if j == k then some a else rest

unfoldable pub put {ℓ} : {A : Type ℓ} → ℕ → A → List (ℕ × A) → List (ℕ × A)
put k a [] = (k, a) ∷ []
put k a ((j, b) ∷ items) =
    let rest = put k a items in if j == k then (k, a) ∷ items else (j, b) ∷ rest

unfoldable pub pop {ℓ} : {A : Type ℓ} → ℕ → List (ℕ × A) → List (ℕ × A)
pop k [] = []
pop k ((j, a) ∷ items) = let rest = pop k items in if j == k then items else (j, a) ∷ rest

abbrev pub has {ℓ} : {A : Type ℓ} → ℕ → List (ℕ × A) → Bool
has k items = elim (get k items) [ none ↦ false | some _ ↦ true ]

-- `sorted`
unfoldable pub insert_sorted : ℕ → List ℕ → List ℕ
insert_sorted v [] = v ∷ []
insert_sorted v (x ∷ xs) = let rest = insert_sorted v xs in if leb v x then v ∷ x ∷ xs else x ∷ rest

unfoldable pub sorted : List ℕ → List ℕ
sorted [] = []
sorted (v ∷ vs) = insert_sorted v (sorted vs)

abbrev pub subset : List ℕ → List ℕ → Bool
subset xs ys = all (λ x. contains x ys) xs

abbrev pub same_role : UserRole → UserRole → Bool
same_role UserRole.viewer UserRole.viewer = true
same_role UserRole.operator UserRole.operator = true
same_role UserRole.administrator UserRole.administrator = true
same_role _ _ = false

-- `users.list`
unfoldable pub list_users : Users → ℕ → ℕ → List UserAccount
list_users users offset limit = take limit (drop offset users.accounts)

-- `users.get`
unfoldable pub find_account : ℕ → List UserAccount → Option UserAccount
find_account id [] = none
find_account id (a ∷ accounts) =
    let rest = find_account id accounts in if a.id == id then some a else rest

-- `base.intersection(...)`
abbrev pub intersection : List ℕ → List ℕ → List ℕ
intersection [] ys = []
intersection (x ∷ xs) ys = let rest = intersection xs ys in if contains x ys then x ∷ rest else rest

-- `_permissions`
unfoldable pub effective_permissions : UserAccount → State → List ℕ
effective_permissions account state =
    let base = base_permissions account.role in
    elim (get account.id state.bindings) [
      | none ↦ base
      | some role ↦ elim (get role state.profiles) [
        | none ↦ base
        | some profile ↦ intersection base profile.permissions
      ]
    ]

-- `_full_administrator`
unfoldable pub full_administrator : UserAccount → State → Bool
full_administrator account state =
    account.enabled
    && same_role account.role UserRole.administrator
    && subset permissions_all (effective_permissions account state)

-- What `_guard` takes a row of the registry for.
pub data Change : Type 0 where
  unchanged : Change
  replaced : UserAccount → Change
  excluded : ℕ → Change

unfoldable pub guards : Users → State → Change → UserAccount → Bool
guards users state unchanged account =
    full_administrator account state && users.is_active account.id
guards users state (replaced replacement) account =
    let changed = if replacement.id == account.id then replacement else account in
    full_administrator changed state && users.is_active changed.id
guards users state (excluded id) account =
    if account.id == id
    then false
    else full_administrator account state && users.is_active account.id

-- The loop of `_guard`, by the pages that are left.
unfoldable pub guard_pages : Users → (UserAccount → Bool) → ℕ → ℕ → Bool
guard_pages users test zero offset = false
guard_pages users test (suc pages) offset =
    let rows = list_users users offset 100 in
    let rest = guard_pages users test pages (offset + 100) in
    if any test rows then true else if ltb (length rows) 100 then false else rest

abbrev pub Step : Type 0 → Type 0
Step A = Result RolePolicyError A

-- `_guard`
unfoldable pub guard : Users → State → Change → Step (Unit {0})
guard users state change =
    if guard_pages users (guards users state change) 1000 0
    then ok tt
    else raise RolePolicyError.roles_last_administrator

module _ (strip casefold : List ℕ → List ℕ) where
  -- `_profile`: `none` is a `ValueError`.
  unfoldable pub check_profile : Profile → Option Profile
  check_profile p =
      if leb 1 (length (strip p.name))
        && leb (length (strip p.name)) 64
        && leb (length p.description) 256
        && all (leb 32) p.name
        && all (leb 32) p.description
        && all_unique p.permissions
        && subset p.permissions (base_permissions p.base_role)
      then some (record p { name = strip p.name; permissions = sorted p.permissions })
      else none
