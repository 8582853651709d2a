-- ===== src/Authority/Roles/Paging.antt =====
-- The pages of `_guard` of src/k5vision/operator_role_policy.py.
use k5_vision.Prelude.{
  ℕ, zero, suc, ◌+◌, ◌*◌, ◌≡◌, ◌<◌, refl, sym, ◌∙◌, ap, inl, inr, Bool, true, false, ◌||◌, some,
  List, [], ◌∷◌, ltb, if◌then◌else◌, length, take, drop, any, get_elem?, Bool-cases, arith,
  any-take_add, drop_add, drop_short, length-take, ltb→lt,
}
use k5_vision.Authority.Sessions.{UserAccount}
use k5_vision.Authority.Roles.Model.{Users, guard_pages, list_users}

any-take_nil : (test : UserAccount → Bool) (n : ℕ) → any test (take n []) ≡ false
any-take_nil test zero = refl
any-take_nil test (suc n) = refl

one_page :
    (found short rest later : Bool)
    → rest ≡ later
    → ((short ≡ true) → later ≡ false)
    → (if found then true else if short then false else rest) ≡ (found || later)
one_page true short rest later e h = refl
one_page false true rest later e h = sym (h refl)
one_page false false rest later e h = e

module _ (users : Users) (test : UserAccount → Bool) where
  -- The pages together are a prefix of the rows.
  pub guard_pages-any :
      (pages offset : ℕ)
      → guard_pages users test pages offset
        ≡ any test (take (pages * 100) (drop offset users.accounts))
  unfolding guard_pages list_users
  guard_pages-any zero offset = refl
  guard_pages-any (suc pages) offset =
      let xs = drop offset users.accounts in
      let count : suc pages * 100 ≡ 100 + pages * 100 = omega arith in
      let split =
        ap (λ (n : ℕ). any test (take n xs)) count ∙ any-take_add test 100 (pages * 100) xs in
      let ih =
        guard_pages-any pages (offset + 100)
        ∙ ap (λ (ys : List UserAccount). any test (take (pages * 100) ys))
            (drop_add offset 100 users.accounts) in
      let short : (length (take 100 xs) < 100)
          → any test (take (pages * 100) (drop 100 xs)) ≡ false =
        λ h.
          ap (λ (ys : List UserAccount). any test (take (pages * 100) ys))
            (drop_short 100 xs (omega (arith, h, length-take {0} 100 xs)))
          ∙ any-take_nil test (pages * 100) in
      one_page (any test (take 100 xs)) (ltb (length (take 100 xs)) 100)
        (guard_pages users test pages (offset + 100)) (any test (take (pages * 100) (drop 100 xs)))
        ih (λ h. short (ltb→lt _ _ h))
      ∙ sym split

-- Some account of a list, by its position, that passes a test.
pub any_found :
    (test : UserAccount → Bool) (xs : List UserAccount)
    → any test xs ≡ true
    → (i : ℕ) × (account : UserAccount) × (get_elem? xs i ≡ some account) × (test account ≡ true)
any_found test [] h = absurd (cc h)
any_found test (x ∷ xs) h = elim (Bool-cases (test x)) [
  | inl here ↦ (0, x, refl, here)
  | inr later ↦
      let (i, account, found, passes) = any_found test xs (ground arith) in
      (suc i, account, found, passes)
]

pub found_any :
    (test : UserAccount → Bool) (xs : List UserAccount) (i : ℕ) (account : UserAccount)
    → get_elem? xs i ≡ some account
    → test account ≡ true
    → any test xs ≡ true
found_any test [] i account h passes = absurd (cc h)
found_any test (x ∷ xs) zero account h passes =
    let same : x ≡ account = ground arith in
    let first : test x ≡ true = ap test same ∙ passes in ground arith
found_any test (x ∷ xs) (suc i) account h passes =
    let rest = found_any test xs i account h passes in ground arith

pub get_elem?-take :
    (n i : ℕ) (account : UserAccount) (xs : List UserAccount)
    → get_elem? (take n xs) i ≡ some account
    → (i < n) × (get_elem? xs i ≡ some account)
get_elem?-take zero i account xs h = absurd (cc h)
get_elem?-take (suc n) i account [] h = absurd (cc h)
get_elem?-take (suc n) zero account (x ∷ xs) h = (omega arith, h)
get_elem?-take (suc n) (suc i) account (x ∷ xs) h =
    let (below, found) = get_elem?-take n i account xs h in (omega (arith, below), found)

pub take-get_elem? :
    (n i : ℕ) (account : UserAccount) (xs : List UserAccount)
    → i < n
    → get_elem? xs i ≡ some account
    → get_elem? (take n xs) i ≡ some account
take-get_elem? zero i account xs h found = absurd (omega arith)
take-get_elem? (suc n) i account [] h found = absurd (cc found)
take-get_elem? (suc n) zero account (x ∷ xs) h found = found
take-get_elem? (suc n) (suc i) account (x ∷ xs) h found =
    take-get_elem? n i account xs (omega arith) found
