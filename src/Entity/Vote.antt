-- ===== src/Entity/Vote.antt =====
-- backend/domain/entity/vote.go and code.go: decisions, ballots, absences and agent codes.
-- The Go string types with a fixed set of constants are data types here; `unknown` stands for every
-- text that is none of the constants. Time stamps are left out.
use magi_system.Prelude.{
  ℕ, ℤ, Float64, String, Bool, true, false, List, ◌≡◌, ◌↔◌, arith, str_eq, eq_iff, float_zero,
  float_one, float_hundred, lt_float, not, ◌&&◌, if◌then◌else◌,
}

pub data VoteDecision : Type 0 where
  approve reject abstain conditional_approve : VoteDecision
  unknown : String → VoteDecision

pub data MagiCode : Type 0 where
  melchior balthasar casper commander : MagiCode
  other : String → MagiCode

pub data AbsenceKind : Type 0 where
  agent_failed timeout cancelled missing invalid : AbsenceKind

-- `==` on decisions, which compares the texts.
unfoldable pub decision_eq : VoteDecision → VoteDecision → Bool
decision_eq approve approve = true
decision_eq reject reject = true
decision_eq abstain abstain = true
decision_eq conditional_approve conditional_approve = true
decision_eq (unknown s) (unknown t) = str_eq s t
decision_eq _ _ = false

unfoldable pub is_valid_vote_decision : VoteDecision → Bool
is_valid_vote_decision approve = true
is_valid_vote_decision reject = true
is_valid_vote_decision abstain = true
is_valid_vote_decision conditional_approve = true
is_valid_vote_decision (unknown s) = false

pub record DecisionCondition : Type 0 where
  pub statement : String
  pub must_hold : Bool

pub record UtilityDimensionScore : Type 0 where
  pub dimension_code : String
  pub score : Float64
  pub evidence_ids : List String
  pub claim_ids : List String
  pub reasoning : String

pub record Vote : Type 0 where
  pub id : String
  pub case_id : String
  pub execution_generation : ℤ
  pub agent_run_id : String
  pub round : ℕ
  pub decision : VoteDecision
  pub confidence : Float64
  pub utility_scores : List UtilityDimensionScore
  pub key_claim_ids : List String
  pub evidence_ids : List String
  pub reasoning_summary : String
  pub conditions : List DecisionCondition

-- Why no ballot arrived; a constructor for each message that the code formats.
pub data AbsenceReason : Type 0 where
  no_result no_final_ballot : AbsenceReason
  loop_failure : String → AbsenceReason
  invalid_decision : VoteDecision → AbsenceReason

pub record AgentAbsence : Type 0 where
  pub agent_code : MagiCode
  pub kind : AbsenceKind
  pub reason : AbsenceReason

-- `v *= 100` is the parameter `percent`: the product of the hardware.
unfoldable pub normalize_confidence : (Float64 → Float64) → Float64 → Float64
normalize_confidence percent v =
    let scaled = if lt_float float_zero v && not (lt_float float_one v) then percent v else v in
    if lt_float scaled float_zero
    then float_zero
    else if lt_float float_hundred scaled
    then float_hundred
    else scaled

pub decision_eq_iff : (a b : VoteDecision) → (decision_eq a b ≡ true) ↔ (a ≡ b)
unfolding decision_eq
decision_eq_iff approve b = ground arith
decision_eq_iff reject b = ground arith
decision_eq_iff abstain b = ground arith
decision_eq_iff conditional_approve b = ground arith
decision_eq_iff (unknown s) (unknown t) = ground (arith, eq_iff s t)
decision_eq_iff (unknown s) b = ground arith
