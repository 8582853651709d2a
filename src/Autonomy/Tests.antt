-- ===== src/Autonomy/Tests.antt =====
-- The theorems of the autonomy policy at a proposal whose grant is used twice.
use k5_vision.Prelude.{
  ℕ, ◌≡◌, ◌↔◌, ◌<◌, refl, true, ◌&&◌, ◌==◌, if◌then◌else◌, any, List, [], ◌∷◌, some,
}
use k5_vision.Autonomy.{
  AutonomyMode, ActionProposal, ExecutionGrant, PolicyOutcome, PolicyRule, PolicyEvaluation, Reason,
  matches, is_automatic, first_match, evaluate_proposal, binds_proposal, consume,
}
use k5_vision.Autonomy.Granting.{Attempt, uses, admissible, uses_once, evaluate_proposal_allows}

abbrev proposal : ActionProposal
proposal = record {
  proposal_id = 1;
  created_at = 100;
  expires_at = 200;
  action_type = 5;
  target_ref = 9;
  confidence = 80;
  remainder = [];
}

abbrev digest : ActionProposal → ℕ
digest p = p.proposal_id

abbrev grant : ExecutionGrant
grant = record {
  grant_id = 3;
  proposal_id = 1;
  proposal_digest = 1;
  issued_at = 110;
  expires_at = 190;
  action_type = 5;
  target_ref = 9;
}

abbrev attempts : List Attempt
attempts =
    record { grant = grant; proposal = proposal; now = some 150 }
    ∷ record { grant = grant; proposal = proposal; now = some 151 }
    ∷ []

used-once : uses digest 3 [] attempts ≡ 1
unfolding consume binds_proposal
used-once = refl

uses_once_example :
    uses digest 3 [] attempts
    ≡ (if any (λ a. a.grant.grant_id == 3 && admissible digest a) attempts then 1 else 0)
uses_once_example = uses_once digest 3 attempts

abbrev rule : PolicyRule
rule = record {
  rule_id = 7;
  action_type = 5;
  allowed_targets = 8 ∷ 9 ∷ [];
  min_confidence = 70;
  allowed_modes = AutonomyMode.auto ∷ [];
}

abbrev allowed : PolicyEvaluation
allowed = record {
  outcome = PolicyOutcome.allow_auto;
  rule_id = some 7;
  reason = Reason.policy_match;
}

proposal-allowed :
    evaluate_proposal proposal AutonomyMode.auto (some 150) (rule ∷ []) ≡ some allowed
unfolding evaluate_proposal first_match matches
proposal-allowed = refl

evaluate_proposal_allows_example : (allowed.outcome ≡ PolicyOutcome.allow_auto) ↔ (
    (150 < proposal.expires_at)
    × (is_automatic AutonomyMode.auto ≡ true)
    × (any (matches proposal AutonomyMode.auto) (rule ∷ []) ≡ true))
evaluate_proposal_allows_example =
    evaluate_proposal_allows proposal AutonomyMode.auto 150 (rule ∷ []) allowed proposal-allowed
