-- ===== src/Autonomy.antt =====
-- src/k5vision/autonomy_policy.py over the contracts of src/k5vision/neural_contracts.py that it
-- reads. A text is a number that tells it apart, an instant and a confidence are numbers in their
-- order, and an instant without a time zone is `none`; the digest of a proposal is a parameter.
use k5_vision.Prelude.{
  ℕ, ◌+◌, Bool, true, false, ◌&&◌, ◌||◌, not, Option, none, some, List, [], ◌∷◌, Result, ok, raise,
  if◌then◌else◌, leb, ◌==◌, contains,
}
pub mod Granting
pub mod Tests

pub data AutonomyMode : Type 0 where
  manual assisted auto emergency : AutonomyMode

-- `remainder`: the fields that only the digest reads.
pub record ActionProposal : Type 0 where
  pub proposal_id : ℕ
  pub created_at : ℕ
  pub expires_at : ℕ
  pub action_type : ℕ
  pub target_ref : ℕ
  pub confidence : ℕ
  pub remainder : List ℕ

pub record ExecutionGrant : Type 0 where
  pub grant_id : ℕ
  pub proposal_id : ℕ
  pub proposal_digest : ℕ
  pub issued_at : ℕ
  pub expires_at : ℕ
  pub action_type : ℕ
  pub target_ref : ℕ

pub data PolicyOutcome : Type 0 where
  deny require_operator allow_auto : PolicyOutcome

pub record PolicyRule : Type 0 where
  pub rule_id : ℕ
  pub action_type : ℕ
  pub allowed_targets : List ℕ
  pub min_confidence : ℕ
  pub allowed_modes : List AutonomyMode

pub data Reason : Type 0 where
  proposal_expired manual_mode policy_match assisted_mode no_policy_match : Reason

pub record PolicyEvaluation : Type 0 where
  pub outcome : PolicyOutcome
  pub rule_id : Option ℕ
  pub reason : Reason

abbrev pub same_mode : AutonomyMode → AutonomyMode → Bool
same_mode AutonomyMode.manual AutonomyMode.manual = true
same_mode AutonomyMode.assisted AutonomyMode.assisted = true
same_mode AutonomyMode.auto AutonomyMode.auto = true
same_mode AutonomyMode.emergency AutonomyMode.emergency = true
same_mode _ _ = false

abbrev pub has_mode : AutonomyMode → List AutonomyMode → Bool
has_mode mode [] = false
has_mode mode (m ∷ ms) = same_mode mode m || has_mode mode ms

-- `matches`
unfoldable pub matches : ActionProposal → AutonomyMode → PolicyRule → Bool
matches p mode rule =
    p.action_type == rule.action_type
    && contains p.target_ref rule.allowed_targets
    && leb rule.min_confidence p.confidence
    && has_mode mode rule.allowed_modes

-- `mode in {AUTO, EMERGENCY}`
abbrev pub is_automatic : AutonomyMode → Bool
is_automatic AutonomyMode.auto = true
is_automatic AutonomyMode.emergency = true
is_automatic _ = false

-- The loop over the rules, for a mode that is not manual.
unfoldable pub first_match : ActionProposal → AutonomyMode → List PolicyRule → PolicyEvaluation
first_match p mode [] = record {
  outcome = PolicyOutcome.deny;
  rule_id = none;
  reason = Reason.no_policy_match;
}
first_match p mode (rule ∷ rules) =
    let rest = first_match p mode rules in
    if matches p mode rule
    then if is_automatic mode
      then (record {
        outcome = PolicyOutcome.allow_auto;
        rule_id = some rule.rule_id;
        reason = Reason.policy_match;
      })
      else (record {
        outcome = PolicyOutcome.require_operator;
        rule_id = some rule.rule_id;
        reason = Reason.assisted_mode;
      })
    else rest

unfoldable pub evaluate_live : ActionProposal → AutonomyMode → List PolicyRule → PolicyEvaluation
evaluate_live p AutonomyMode.manual rules = record {
  outcome = PolicyOutcome.require_operator;
  rule_id = none;
  reason = Reason.manual_mode;
}
evaluate_live p AutonomyMode.assisted rules = first_match p AutonomyMode.assisted rules
evaluate_live p AutonomyMode.auto rules = first_match p AutonomyMode.auto rules
evaluate_live p AutonomyMode.emergency rules = first_match p AutonomyMode.emergency rules

-- `evaluate_proposal`: `none` is a `ValueError`.
unfoldable pub evaluate_proposal :
    ActionProposal → AutonomyMode → Option ℕ → List PolicyRule → Option PolicyEvaluation
unfolding evaluate_live
evaluate_proposal p mode none rules = none
evaluate_proposal p mode (some now) rules =
    if leb p.expires_at now
    then some
        (record { outcome = PolicyOutcome.deny; rule_id = none; reason = Reason.proposal_expired })
    else some (evaluate_live p mode rules)

-- The identities that GrantLedger holds.
abbrev pub Ledger : Type 0
Ledger = List ℕ

module _ (canonical_digest : ActionProposal → ℕ) where
  -- `binds_proposal`
  unfoldable pub binds_proposal : ExecutionGrant → ActionProposal → Bool
  binds_proposal g p =
      g.proposal_id == p.proposal_id
      && g.action_type == p.action_type
      && g.target_ref == p.target_ref
      && g.proposal_digest == canonical_digest p

  -- `consume`: `none` is a `ValueError`.
  unfoldable pub consume :
      Ledger → ExecutionGrant → ActionProposal → Option ℕ → Ledger × Option Bool
  consume consumed g p none = (consumed, none)
  consume consumed g p (some now) =
      if leb p.expires_at now || leb g.expires_at now
      then (consumed, some false)
      else if not (binds_proposal g p)
      then (consumed, some false)
      else if contains g.grant_id consumed
      then (consumed, some false)
      else (g.grant_id ∷ consumed, some true)
