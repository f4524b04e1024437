-- ===== src/Entity/Evidence.antt =====
-- backend/domain/entity: evidence.go, claim.go, reflection.go, debate.go, and the evidence summary of
-- vote.go with the role assessments of role.go. Time stamps are left out.
use magi_system.Prelude.{ℕ, ℤ, Float64, String, Bool, Option, List}
use magi_system.Entity.Vote.{MagiCode, Vote}

pub data EvidenceSourceType : Type 0 where
  plugin local knowledge workflow coderunner : EvidenceSourceType
  other : String → EvidenceSourceType

pub record ReliabilityScore : Type 0 where
  pub base : Float64
  pub directness : Float64
  pub recency : Float64
  pub corroboration : Float64
  pub extraction : Float64
  pub final : Float64

pub record EvidenceRecord : Type 0 where
  pub id : String
  pub case_id : String
  pub execution_generation : ℤ
  pub agent_run_id : String
  pub tool_call_id : String
  pub tool_name : String
  pub source_type : EvidenceSourceType
  pub source_uri : String
  pub raw_content : String
  pub observation : String
  pub reliability : ReliabilityScore
  pub collected_by : String

pub data ClaimStatus : Type 0 where
  open_claim supported refuted superseded : ClaimStatus

pub record Claim : Type 0 where
  pub id : String
  pub case_id : String
  pub execution_generation : ℤ
  pub agent_run_id : String
  pub statement : String
  pub supports : List String
  pub contradicts : List String
  pub status : ClaimStatus
  pub created_by : String

pub record EvidenceSummaryClaim : Type 0 where
  pub statement : String
  pub supports : List String
  pub contradicts : List String

pub record DimensionAssessment : Type 0 where
  pub dimension_code : String
  pub score : Option Float64
  pub evidence_ids : List String
  pub reasoning : String

pub record TechnicalAssessment : Type 0 where
  pub feasibility_score : Option Float64
  pub quantitative_evidence_ids : List String
  pub assumptions : List String
  pub blockers : List String

pub record RiskAssessment : Type 0 where
  pub worst_case : String
  pub residual_risk : Option Float64
  pub reversibility_score : Option Float64
  pub rollback_plan : String
  pub risk_evidence_ids : List String

pub record OpportunityAssessment : Type 0 where
  pub opportunity_score : Option Float64
  pub time_window : String
  pub opportunity_cost : String
  pub user_signal_evidence_ids : List String

pub record RoleAssessment : Type 0 where
  pub dimension_assessments : List DimensionAssessment
  pub technical : Option TechnicalAssessment
  pub risk : Option RiskAssessment
  pub opportunity : Option OpportunityAssessment

-- The map `EvidenceByType` is the list of its entries.
pub record EvidenceSummary : Type 0 where
  pub evidence_by_type : List (String × List String)
  pub claims : List EvidenceSummaryClaim
  pub role_assessment : Option RoleAssessment
  pub ready : Bool

pub data PositionChange : Type 0 where
  maintain strengthen weaken change abstain_position : PositionChange
  unknown_position : String → PositionChange

-- `dimensions_re_evaluated` is the field of the re-evaluation; `none` is the nil pointer.
pub record Reflection : Type 0 where
  pub id : String
  pub case_id : String
  pub execution_generation : ℤ
  pub agent_run_id : String
  pub round : ℕ
  pub previous_vote_id : String
  pub position_change : PositionChange
  pub accepted_claims : List String
  pub rejected_claims : List String
  pub new_evidence_ids : List String
  pub dimensions_re_evaluated : Option (List String)
  pub reasoning : String
  pub ready_to_revote : Bool

pub record ClaimConflict : Type 0 where
  pub claim_a : String
  pub claim_b : String
  pub reason : String

pub record DebateQuestion : Type 0 where
  pub from : MagiCode
  pub to : MagiCode
  pub text : String

pub record DebatePacket : Type 0 where
  pub round : ℕ
  pub majority_votes : List Vote
  pub minority_votes : List Vote
  pub conflicting_claims : List ClaimConflict
  pub shared_evidence : List EvidenceRecord
  pub questions : List DebateQuestion
