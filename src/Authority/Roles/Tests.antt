-- ===== src/Authority/Roles/Tests.antt =====
-- The role theorems at an administrator and an operator who is given a narrower role.
use k5_vision.Prelude.{ℕ, ◌≡◌, ◌↔◌, ◌⊎◌, refl, true, List, [], ◌∷◌, some, none, ok, raise}
use k5_vision.Authority.Sessions.{UserAccount, UserRole}
use k5_vision.Authority.Roles.Model.{
  Users, State, Profile, Change, unchanged, excluded, guard, guards, guard_pages, list_users,
  full_administrator, effective_permissions, get, put, check_profile, insert_sorted, sorted,
  find_account, subset, RolePolicyError,
}
use k5_vision.Authority.Roles.Policy.{
  Write, assigns, initial, operate, read, state_ok, profile_ok, unique_texts, assign, assign_state,
  assign_account,
}
use k5_vision.Authority.Roles.Guarding.{HasAdministrator, guard-HasAdministrator}
use k5_vision.Authority.Roles.Keeping.{Follows, operate-HasAdministrator}
use k5_vision.Authority.Roles.Narrowing.{assign_narrows}

abbrev as_is : List ℕ → List ℕ
as_is text = text

abbrev ann : UserAccount
ann = record {
  username = 97 ∷ 110 ∷ 110 ∷ [];
  display_name = 65 ∷ [];
  role = UserRole.administrator;
  enabled = true;
  id = 1;
}

abbrev bob : UserAccount
bob = record {
  username = 98 ∷ 111 ∷ 98 ∷ [];
  display_name = 66 ∷ [];
  role = UserRole.operator;
  enabled = true;
  id = 2;
}

abbrev users : Users
users = record { accounts = ann ∷ bob ∷ []; is_active = λ _. true }

-- Viewers who may not play recordings.
abbrev watch : Profile
watch = record {
  id = 7;
  name = 87 ∷ [];
  description = [];
  base_role = UserRole.viewer;
  permissions = 5 ∷ [];
}

abbrev policy : State
policy = record { revision = 1; profiles = (7, watch) ∷ []; bindings = [] }

abbrev bob_watches : UserAccount
bob_watches = record bob { role = UserRole.viewer }

bob-assigned :
    assign as_is as_is users 2 (some 7) none true Write.written policy
    ≡ (record policy { revision = 2; bindings = (2, 7) ∷ [] }, ok bob_watches)
unfolding assign read state_ok profile_ok check_profile unique_texts assign_state assign_account
    find_account get put guard guard_pages guards list_users full_administrator
    effective_permissions sorted insert_sorted
bob-assigned = refl

initial-ok : state_ok as_is as_is initial ≡ true
unfolding state_ok profile_ok unique_texts
initial-ok = refl

-- The last administrator cannot lose the credential.
ann-guarded : guard users policy (excluded 1) ≡ raise RolePolicyError.roles_last_administrator
unfolding guard guard_pages guards list_users full_administrator effective_permissions get
ann-guarded = refl

guard-HasAdministrator_example :
    (guard users policy unchanged ≡ ok tt) ↔ HasAdministrator users policy unchanged
guard-HasAdministrator_example = guard-HasAdministrator users policy unchanged

operate-HasAdministrator_example :
    (operate as_is as_is users (assigns 2 (some 7) none) true Write.written policy ≡ policy)
    ⊎ ((change : Change) × Follows users policy (assigns 2 (some 7) none) change
        × HasAdministrator users
            (operate as_is as_is users (assigns 2 (some 7) none) true Write.written policy)
            change)
operate-HasAdministrator_example =
    operate-HasAdministrator as_is as_is users (assigns 2 (some 7) none) true Write.written policy

assign_narrows_example :
    (account : UserAccount) × (find_account 2 users.accounts ≡ some account)
    × (subset
          (effective_permissions account
            (assign as_is as_is users 2 (some 7) none true Write.written policy).0)
          (effective_permissions bob_watches
            (assign as_is as_is users 2 (some 7) none true Write.written policy).0)
        ≡ true)
unfolding assign read state_ok profile_ok check_profile unique_texts assign_state assign_account
    find_account get put guard guard_pages guards list_users full_administrator
    effective_permissions sorted insert_sorted
assign_narrows_example =
    assign_narrows as_is as_is users 2 (some 7) none true Write.written policy bob_watches refl
