-- ===== src/Authority/Roles/Guarding.antt =====
-- `_guard` of src/k5vision/operator_role_policy.py: its pages, and the administrator that it finds.
use k5_vision.Prelude.{
  ℕ, ◌≡◌, ◌≢◌, ◌<◌, refl, sym, ◌∙◌, ap, inl, inr, Bool, true, false, ◌&&◌, some, ◌==◌,
  if◌then◌else◌, take, any, get_elem?, Bool-cases, ==_iff, ◌↔◌, ok, raise,
}
use k5_vision.Authority.Sessions.{UserAccount, UserRole}
use k5_vision.Authority.Roles.Model.{
  Users, State, Change, unchanged, replaced, excluded, guards, guard_pages, guard,
  full_administrator, same_role, effective_permissions, permissions_all, subset, RolePolicyError,
  Step,
}
use k5_vision.Authority.Roles.Paging.{
  guard_pages-any, any_found, found_any, get_elem?-take, take-get_elem?,
}

-- The account that a row stands for.
abbrev pub after : Change → UserAccount → UserAccount
after (replaced replacement) account = if replacement.id == account.id then replacement else account
after _ account = account

-- Not the row that is left out.
abbrev pub Counts : Change → UserAccount → Type 0
Counts (excluded id) account = account.id ≢ id
Counts _ account = Unit

-- A row among the first 100,000 that stands for an enabled administrator with every permission
-- and an active credential.
pub record HasAdministrator (users : Users) (state : State) (change : Change) : Type 0 where
  pub row : ℕ
  pub account : UserAccount
  pub in_reach : row < 100_000
  pub is_listed : get_elem? users.accounts row ≡ some account
  pub counts : Counts change account
  pub is_enabled : (after change account).enabled ≡ true
  pub is_administrator : (after change account).role ≡ UserRole.administrator
  pub has_all : subset permissions_all (effective_permissions (after change account) state) ≡ true
  pub has_credential : users.is_active (after change account).id ≡ true

administrator :
    (role : UserRole) → same_role role UserRole.administrator ≡ true → role ≡ UserRole.administrator
administrator UserRole.viewer h = cc h
administrator UserRole.operator h = cc h
administrator UserRole.administrator h = refl

all_four :
    (a b c d : Bool)
    → ((a && b && c) && d) ≡ true
    → (a ≡ true) × (b ≡ true) × (c ≡ true) × (d ≡ true)
all_four true true true true h = (refl, refl, refl, refl)
all_four true true true false h = absurd (cc h)
all_four true true false d h = absurd (cc h)
all_four true false c d h = absurd (cc h)
all_four false b c d h = absurd (cc h)

four_all :
    (a b c d : Bool)
    → (a ≡ true)
    → (b ≡ true)
    → (c ≡ true)
    → (d ≡ true)
    → ((a && b && c) && d) ≡ true
four_all a b c d p q r s = rw (p, q, r, s) refl

passed_over : (out b : Bool) → (if out then false else b) ≡ true → (out ≡ false) × (b ≡ true)
passed_over true b h = absurd (cc h)
passed_over false b h = (refl, h)

not_passed_over : (out b : Bool) → (out ≡ false) → (b ≡ true) → (if out then false else b) ≡ true
not_passed_over out b e h = rw (e, h) refl

-- A full administrator with a credential.
abbrev IsFull : Users → State → UserAccount → Type 0
IsFull users state account =
    (account.enabled ≡ true)
    × (same_role account.role UserRole.administrator ≡ true)
    × (subset permissions_all (effective_permissions account state) ≡ true)
    × (users.is_active account.id ≡ true)

guards-IsFull :
    (users : Users) (state : State) (change : Change) (account : UserAccount)
    → guards users state change account ≡ true
    → Counts change account × IsFull users state (after change account)
unfolding guards full_administrator
guards-IsFull users state unchanged account h = (tt, all_four _ _ _ _ h)
guards-IsFull users state (replaced replacement) account h = (tt, all_four _ _ _ _ h)
guards-IsFull users state (excluded id) account h =
    let (other, full) = passed_over (account.id == id) _ h in
    (λ e. absurd (cc (other, (==_iff account.id id).1 e)), all_four _ _ _ _ full)

IsFull-guards :
    (users : Users) (state : State) (change : Change) (account : UserAccount)
    → Counts change account
    → IsFull users state (after change account)
    → guards users state change account ≡ true
unfolding guards full_administrator
IsFull-guards users state unchanged account c (p, q, r, s) = four_all _ _ _ _ p q r s
IsFull-guards users state (replaced replacement) account c (p, q, r, s) = four_all _ _ _ _ p q r s
IsFull-guards users state (excluded id) account c (p, q, r, s) =
    let other : (account.id == id) ≡ false = elim (Bool-cases (account.id == id)) [
      | inl out ↦ absurd (c ((==_iff account.id id).0 out))
      | inr stays ↦ stays
    ] in
    not_passed_over _ _ other (four_all _ _ _ _ p q r s)

pub ok_unless :
    (b : Bool) (e : RolePolicyError)
    → ◌≡◌ {A = Step (Unit {0})} (if b then ok tt else raise e) (ok tt)
    → b ≡ true
ok_unless true e h = refl
ok_unless false e h = absurd (cc h)

-- The guard lets a change through exactly when a row among the first 100,000 of the registry, read
-- page by page, stands after the change for an enabled administrator who holds every permission and
-- has an active credential.
pub guard-HasAdministrator :
    (users : Users) (state : State) (change : Change)
    → (guard users state change ≡ ok tt) ↔ HasAdministrator users state change
unfolding guard
guard-HasAdministrator users state change =
    let test = guards users state change in
    let pages : guard_pages users test 1000 0 ≡ any test (take 100_000 users.accounts) =
      guard_pages-any users test 1000 0 in
    (
      λ h.
          let passed = sym pages ∙ ok_unless _ RolePolicyError.roles_last_administrator h in
          let (i, account, found, passes) = any_found test (take 100_000 users.accounts) passed in
          let (counts, full) = guards-IsFull users state change account passes in
          record {
            row = i;
            account = account;
            in_reach = (get_elem?-take 100_000 i account users.accounts found).0;
            is_listed = (get_elem?-take 100_000 i account users.accounts found).1;
            counts = counts;
            is_enabled = full.0;
            is_administrator = administrator (after change account).role full.1;
            has_all = full.2;
            has_credential = full.3;
          },
      λ a.
          let admin : same_role (after change a.account).role UserRole.administrator ≡ true =
            ap (λ (r : UserRole). same_role r UserRole.administrator) a.is_administrator in
          let passes =
            IsFull-guards users state change a.account a.counts
              (a.is_enabled, admin, a.has_all, a.has_credential) in
          let found =
            take-get_elem? 100_000 a.row a.account users.accounts a.in_reach a.is_listed in
          let passed =
            pages ∙ found_any test (take 100_000 users.accounts) a.row a.account found passes in
          rw passed refl,
    )
