-- ===== src/Runtime/Messages.antt =====
-- The chat messages of an agent run: what backend/domain/runtime/agent_loop.go puts into the history
-- that it sends to the model, and `schema.Message` as far as the loop reads it. A text that the code
-- formats is a constructor that keeps its parts. A token usage is its total.
use magi_system.Prelude.{ℕ, ℤ, String, Bool, true, false, Option, List}
use magi_system.Entity.Evidence.{EvidenceRecord}
use magi_system.Evidence.Gate.{GateResult}
use magi_system.Evidence.RoleGate.{RoleViolation}
use magi_system.Evidence.RoleDecision.{RoleDecisionError}
use magi_system.Runtime.VoteDimensions.{VoteDimensionError}

-- The phases that the loop enters, and any other text that a checkpoint holds.
pub data Phase : Type 0 where
  gather reconsider_gather reconsider_reflect vote_phase : Phase
  unknown_phase : String → Phase

abbrev pub is_gather : Phase → Bool
is_gather gather = true
is_gather reconsider_gather = true
is_gather _ = false

pub record ToolCall : Type 0 where
  pub id : String
  pub name : String
  pub arguments : String

-- A message of the model.
pub record Answer : Type 0 where
  pub content : String
  pub tool_calls : List ToolCall
  pub total_tokens : ℕ

-- The records that `AvailableEvidenceHint` lists, and whether it leaves some out.
pub record EvidenceHint : Type 0 where
  pub listed : List EvidenceRecord
  pub more : Bool

pub data ClaimFeedback : Type 0 where
  no_claims claims_recorded : ClaimFeedback
  -- The first unknown id of each rejected claim.
  claims_rejected : List String → Option EvidenceHint → ClaimFeedback

pub data Notice : Type 0 where
  question compacted_history : String → Notice
  history_omitted : ℕ → Notice
  tool_limit_reached : ℤ → Notice
  claim_feedback : ClaimFeedback → Notice
  gate_failed : GateResult → List RoleViolation → Option EvidenceHint → Notice
  gate_passed_vote gate_passed_reflection reflection_recorded invalid_response : Notice
  vote_dimensions_failed : VoteDimensionError → Notice
  role_decision_failed : RoleDecisionError → Notice

pub data ToolReply : Type 0 where
  skipped : ToolReply
  tool_not_found : String → ToolReply
  tool_runtime_missing : ToolReply
  -- The tool and the text of its error.
  tool_failed : String → String → ToolReply
  tool_rejected : String → ToolReply
  no_execution_result : String → ToolReply
  tool_result : String → ToolReply

pub data Message : Type 0 where
  system : String → Message
  user : Notice → Message
  assistant : Answer → Message
  -- The answer to the tool call with the id.
  tool : ToolReply → String → Message
