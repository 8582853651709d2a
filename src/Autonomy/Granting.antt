-- ===== src/Autonomy/Granting.antt =====
-- What grants and rules of src/k5vision/autonomy_policy.py let through.
use k5_vision.Prelude.{
  ℕ, ◌+◌, ◌<◌, ◌≡◌, ◌↔◌, refl, ap, sym, ◌∙◌, Bool, true, false, ◌&&◌, ◌||◌, not, Option, none, some,
  List, [], ◌∷◌, if◌then◌else◌, leb, ◌==◌, contains, any, arith, Bool-cases, inl, inr,
}
use k5_vision.Autonomy.{
  AutonomyMode, ActionProposal, ExecutionGrant, PolicyOutcome, PolicyRule, PolicyEvaluation,
  matches, is_automatic, first_match, evaluate_live, evaluate_proposal, Ledger, binds_proposal,
  consume,
}

-- A use of the ledger: the grant, the proposal and the instant.
pub record Attempt : Type 0 where
  pub grant : ExecutionGrant
  pub proposal : ActionProposal
  pub now : Option ℕ

abbrev accepts : Option Bool → Bool
accepts none = false
accepts (some accepted) = accepted

turn_count :
    (id gid : ℕ) (consumed ledger : Ledger) (admitted accepted rest : Bool) (n : ℕ)
    → accepted ≡ (admitted && not (contains gid consumed))
    → ledger ≡ (if admitted && not (contains gid consumed) then gid ∷ consumed else consumed)
    → n ≡ (if contains id ledger then 0 else if rest then 1 else 0)
    → (if gid == id && accepted then 1 else 0) + n
      ≡ (if contains id consumed then 0 else if (gid == id && admitted) || rest then 1 else 0)
turn_count id gid consumed ledger admitted accepted rest n a l e = elim (Bool-cases (gid == id)) [
  | inl same ↦
      let ids : gid ≡ id = ground arith in
      let one : contains gid consumed ≡ contains id consumed =
        ap (λ (k : ℕ). contains k consumed) ids in
      elim (Bool-cases (admitted && not (contains gid consumed))) [
        | inl fresh ↦
            let new : contains id ledger ≡ true = ap (contains id) l ∙ rw fresh (ground arith) in
            ground arith
        | inr stale ↦
            let old : contains id ledger ≡ contains id consumed =
              ap (contains id) l ∙ rw stale refl in
            ground arith
      ]
  | inr other ↦
      let kept : contains id ledger ≡ contains id consumed =
        ap (contains id) l ∙ keeps (admitted && not (contains gid consumed)) other in
      ground arith
]
  where
    keeps :
        (fresh : Bool)
        → (gid == id) ≡ false
        → contains id (if fresh then gid ∷ consumed else consumed) ≡ contains id consumed
    keeps true h = ground arith
    keeps false h = refl

module _ (canonical_digest : ActionProposal → ℕ) where
  -- How many attempts with a grant of this identity are accepted, one after the other.
  abbrev pub uses : ℕ → Ledger → List Attempt → ℕ
  uses id consumed [] = 0
  uses id consumed (a ∷ attempts) =
      let (consumed', accepted) = consume canonical_digest consumed a.grant a.proposal a.now in
      (if a.grant.grant_id == id && accepts accepted then 1 else 0) + uses id consumed' attempts

  -- Made at an instant, before both expiries, and with a grant that binds the proposal.
  abbrev pub admissible : Attempt → Bool
  admissible a = elim a.now [
    | none ↦ false
    | some now ↦
        not (leb a.proposal.expires_at now || leb a.grant.expires_at now)
        && binds_proposal canonical_digest a.grant a.proposal
  ]

  consume_lem :
      (consumed : Ledger) (g : ExecutionGrant) (p : ActionProposal) (now : Option ℕ)
      → let a : Attempt = record { grant = g; proposal = p; now = now } in
        let fresh = admissible a && not (contains g.grant_id consumed) in
        ((consume canonical_digest consumed g p now).0
          ≡ (if fresh then g.grant_id ∷ consumed else consumed))
        × (accepts (consume canonical_digest consumed g p now).1 ≡ fresh)
  unfolding consume
  consume_lem consumed g p none = (refl, refl)
  consume_lem consumed g p (some now) = (ground arith, ground arith)

  one_turn :
      (id : ℕ) (consumed : Ledger) (a : Attempt) (attempts : List Attempt)
      → ((ledger : Ledger)
          → uses id ledger attempts ≡ (
              if contains id ledger
              then 0
              else if any (λ b. b.grant.grant_id == id && admissible b) attempts
              then 1
              else 0))
      → uses id consumed (a ∷ attempts) ≡ (
          if contains id consumed
          then 0
          else if any (λ b. b.grant.grant_id == id && admissible b) (a ∷ attempts)
          then 1
          else 0)
  one_turn id consumed a attempts ih =
      let t = consume canonical_digest consumed a.grant a.proposal a.now in
      let (ledger, accepted) = consume_lem consumed a.grant a.proposal a.now in
      turn_count id a.grant.grant_id consumed t.0 (admissible a) (accepts t.1)
        (any (λ b. b.grant.grant_id == id && admissible b) attempts) (uses id t.0 attempts) accepted
        ledger (ih t.0)

  uses_from :
      (id : ℕ) (attempts : List Attempt) (consumed : Ledger)
      → uses id consumed attempts ≡ (
          if contains id consumed
          then 0
          else if any (λ b. b.grant.grant_id == id && admissible b) attempts
          then 1
          else 0)
  uses_from id [] consumed = ground arith
  uses_from id (a ∷ attempts) consumed =
      one_turn id consumed a attempts (λ ledger. uses_from id attempts ledger)

  -- Of all attempts with grants of one identity that are made with a new ledger, one after the other
  -- among any others, exactly one is accepted if any is made at an instant, before both expiries and
  -- with a grant that binds its proposal, and none otherwise.
  pub uses_once :
      (id : ℕ) (attempts : List Attempt)
      → uses id [] attempts
        ≡ (if any (λ a. a.grant.grant_id == id && admissible a) attempts then 1 else 0)
  uses_once id attempts = uses_from id attempts []

match_outcome :
    (p : ActionProposal) (mode : AutonomyMode) (rules : List PolicyRule)
    → ((first_match p mode rules).outcome ≡ PolicyOutcome.allow_auto)
      ↔ ((is_automatic mode ≡ true) × (any (matches p mode) rules ≡ true))
unfolding first_match
match_outcome p mode [] = (λ h. absurd (cc h), λ h. absurd (cc (h.1)))
match_outcome p mode (rule ∷ rules) =
    let ih = match_outcome p mode rules in
    elim (Bool-cases (matches p mode rule)) [
      | inl here ↦ elim (Bool-cases (is_automatic mode)) [
        | inl automatic ↦ (λ h. ground arith, λ h. ground arith)
        | inr assisted ↦ (λ h. absurd (ground arith), λ h. absurd (cc (assisted, h.0)))
      ]
      | inr later ↦ (
        λ h. let old = ih.0 (ground arith) in ground arith,
        λ h. let old = ih.1 (ground arith) in ground arith,
      )
    ]

live_outcome :
    (p : ActionProposal) (mode : AutonomyMode) (rules : List PolicyRule)
    → ((evaluate_live p mode rules).outcome ≡ PolicyOutcome.allow_auto)
      ↔ ((is_automatic mode ≡ true) × (any (matches p mode) rules ≡ true))
unfolding evaluate_live
live_outcome p AutonomyMode.manual rules = (λ h. absurd (cc h), λ h. absurd (cc (h.0)))
live_outcome p AutonomyMode.assisted rules = match_outcome p AutonomyMode.assisted rules
live_outcome p AutonomyMode.auto rules = match_outcome p AutonomyMode.auto rules
live_outcome p AutonomyMode.emergency rules = match_outcome p AutonomyMode.emergency rules

-- An evaluation lets a proposal through without an operator exactly when the proposal is not yet
-- expired, the mode is automatic or emergency, and some rule matches.
pub evaluate_proposal_allows :
    (p : ActionProposal) (mode : AutonomyMode) (now : ℕ) (rules : List PolicyRule)
    (e : PolicyEvaluation)
    → evaluate_proposal p mode (some now) rules ≡ some e
    → (e.outcome ≡ PolicyOutcome.allow_auto)
      ↔ ((now < p.expires_at) × (is_automatic mode ≡ true) × (any (matches p mode) rules ≡ true))
unfolding evaluate_proposal
evaluate_proposal_allows p mode now rules e h =
    let live = live_outcome p mode rules in
    elim (Bool-cases (leb p.expires_at now)) [
      | inl expired ↦
          let denied : e.outcome ≡ PolicyOutcome.deny = ground arith in
          (λ a. absurd (cc (denied, a)), λ a. absurd (ground arith))
      | inr current ↦
          let same : evaluate_live p mode rules ≡ e = ground arith in
          let outcomes = ap (λ (x : PolicyEvaluation). x.outcome) same in
          (
            λ a.
                let (automatic, matched) = live.0 (outcomes ∙ a) in
                (ground arith, automatic, matched),
            λ a. sym outcomes ∙ live.1 (a.1, a.2),
          )
    ]
