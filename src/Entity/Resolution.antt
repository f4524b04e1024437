-- ===== src/Entity/Resolution.antt =====
-- backend/domain/entity/resolution.go: consensus results, dissent records and resolutions.
use magi_system.Prelude.{ℕ, ℤ, String, Option, none, some, List, [], ◌∷◌, if◌then◌else◌}
use magi_system.Entity.Vote.{
  VoteDecision, abstain, MagiCode, melchior, balthasar, casper, Vote, AgentAbsence,
  DecisionCondition, decision_eq, is_valid_vote_decision,
}

pub data ConsensusOutcome : Type 0 where
  strong_approval strong_rejection majority_approval_with_dissent : ConsensusOutcome
  majority_rejection_with_dissent deadlock insufficient_quorum : ConsensusOutcome
  -- The last is the empty string of a zero value.
  conditional incomplete no_outcome : ConsensusOutcome

-- The `Detail` text, a constructor for each message that the code formats.
pub data Detail : Type 0 where
  invalid_decision : VoteDecision → Detail
  no_ballot_from : List AgentAbsence → Detail
  no_detail no_votes unanimous_approval unanimous_rejection : Detail
  majority_approval majority_rejection : Detail
  first_round_split reconsider_majority : Detail
  below_quorum : ℕ → ℤ → Detail
  conditional_approval : ℕ → Detail
  no_majority : ℕ → ℕ → ℕ → Detail

pub record ConsensusResult : Type 0 where
  pub outcome : ConsensusOutcome
  pub votes : List Vote
  pub round : ℕ
  pub detail : Detail
  pub conditions : List DecisionCondition

pub record Dissent : Type 0 where
  pub agent_code : MagiCode
  pub decision : VoteDecision
  pub reasoning : String
  pub evidence_ids : List String
  pub claim_ids : List String
  pub conditions : List DecisionCondition

-- `none` is the nil slice, which differs from an empty one.
pub record Resolution : Type 0 where
  pub id : String
  pub case_id : String
  pub execution_generation : ℤ
  pub consensus : ConsensusResult
  pub final_decision : VoteDecision
  pub final_report : String
  pub key_evidence_ids : List String
  pub key_claim_ids : List String
  pub dissent : Option (List Dissent)
  pub vote_ids : List String

pub data DissentState : Type 0 where
  dissent_unknown dissent_none dissent_present : DissentState

unfoldable pub dissent_state_of : Option (List Dissent) → DissentState
dissent_state_of none = dissent_unknown
dissent_state_of (some []) = dissent_none
dissent_state_of (some (d ∷ ds)) = dissent_present

pub data DissentError : Type 0 where
  not_a_voting_persona : MagiCode → DissentError
  not_a_vote_decision is_an_abstention : VoteDecision → DissentError

-- `none` is the nil error.
unfoldable pub validate_decision : Dissent → Option DissentError
unfolding is_valid_vote_decision decision_eq
validate_decision d =
    if is_valid_vote_decision d.decision
    then if decision_eq d.decision abstain then some (is_an_abstention d.decision) else none
    else some (not_a_vote_decision d.decision)

validate_code : MagiCode → Dissent → Option DissentError
unfolding validate_decision
validate_code melchior d = validate_decision d
validate_code balthasar d = validate_decision d
validate_code casper d = validate_decision d
validate_code c d = some (not_a_voting_persona c)

unfoldable pub validate_dissent : Dissent → Option DissentError
unfolding validate_code
validate_dissent d = validate_code d.agent_code d
