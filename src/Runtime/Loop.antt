-- ===== src/Runtime/Loop.antt =====
-- The agent loop of backend/domain/runtime/agent_loop.go: its state, its configuration, what it asks
-- of its collaborators, and `commitCheckpoint`. The handlers are in the child modules. Traces, usage
-- costs, metrics and published events are left out: nothing that the loop decides reads them.
pub mod Compaction
pub mod Model
pub mod Tools
pub mod Responses
pub mod Run
pub mod Ensures
pub mod Growth
pub mod Soundness
pub mod Completion
pub mod WriteAhead
pub mod Calm
pub mod Liveness
pub mod Answers
mod Examples
use magi_system.Prelude.{
  ℕ, pos, Float64, float_zero, String, Bool, true, false, not, Option, none, some, List, [], ◌∷◌,
  is_empty, str_eq, if◌then◌else◌, GoError, lease_lost,
}
use magi_system.Entity.Case.{ExecutionContext}
use magi_system.Entity.Config.{EvidenceStandard, ObjectiveFunction, RolePolicy}
use magi_system.Entity.Evidence.{EvidenceSummary, Reflection, EvidenceSourceType, ReliabilityScore}
use magi_system.Entity.Vote.{Vote}
use magi_system.Evidence.Gate.{RuleRegistry}
use magi_system.Evidence.Ledger.{EvidenceLedger}
use magi_system.Runtime.Result.{LoopStatus, error}
use magi_system.Runtime.Termination.{TerminationState, LoopPolicy}
use magi_system.Runtime.Messages.{Phase, Message, Answer, ToolCall}
use magi_system.Runtime.Response.{Parsers}
use magi_system.Runtime.Checkpoints.{
  CheckpointService, Checkpoint, Pending, InvocationRef, History, Critical, commit_for_execution,
}

-- What the loop reads of a `port.ToolDefinition`.
pub record ToolDefinition : Type 0 where
  pub name : String
  pub source : EvidenceSourceType

-- What the loop reads of its `MagiConfig`; `has_call_timeout` is `CallTimeout > 0`.
pub record AgentConfig : Type 0 where
  pub code : String
  pub policy : LoopPolicy
  pub has_call_timeout : Bool
  pub token_compaction_threshold : Float64
  pub evidence_standard : EvidenceStandard
  pub role_policy : RolePolicy
  pub objective : ObjectiveFunction

-- What an evidence adapter extracts of a result.
pub record Candidate : Type 0 where
  pub source_uri : String
  pub observation : String
  pub reliability : ReliabilityScore

-- A result of the tool runtime: the redacted output with the evidence extracted from the execution,
-- no execution, or an error, of which the loop tells three apart.
pub data ToolRun : Type 0 where
  executed : String → List Candidate → ToolRun
  not_executed : ToolRun
  arguments_invalid tool_error : String → ToolRun
  approval_rejected : String → ToolRun

pub data Generated : Type 0 where
  generated : Answer → Generated
  generation_failed : GoError → Generated

-- The context, the collaborators and their answers. `context_error` is `ctx.Err()`, and `lease_gone`
-- tells whether the cause of the context is a lost lease. `marshal_error` is the error of encoding a
-- checkpoint. A nil recorder answers none. `summarize` is the model's call for a compaction.
pub record AgentWorld : Type 0 where
  pub run_id : String
  pub owner : Option ExecutionContext
  pub has_debate : Bool
  pub manifest_digest : String
  pub tools : List ToolDefinition
  pub has_tool_runtime : Bool
  pub registry : RuleRegistry
  pub parsers : Parsers
  pub checkpoints : CheckpointService
  pub marshal_error : Checkpoint → Option GoError
  pub lease_gone : History → Bool
  pub context_error : History → Option GoError
  pub record_critical : History → Critical → Option GoError
  pub generate : History → List Message → Generated
  pub summarize : History → List Message → Option Answer
  pub message_text : Message → String
  pub run_tool : History → Phase → ToolDefinition → ToolCall → ToolRun

-- The variables of `run`. The result's ledger is the ledger itself.
pub record LoopState : Type 0 where
  pub messages : List Message
  pub phase : Phase
  pub termination : TerminationState
  pub summary : Option EvidenceSummary
  pub reflection : Option Reflection
  pub ledger : EvidenceLedger
  pub compacted : Bool
  pub last_committed : InvocationRef
  pub pending : Option Pending
  pub history : History

-- How the loop ends: the status, the error and the vote of its result.
pub record Ending : Type 0 where
  pub status : LoopStatus
  pub err : Option GoError
  pub vote : Option Vote

-- A part of an iteration: it goes on with a value, or the run returns.
pub data Flow (A : Type 0) : Type 0 where
  next : LoopState → A → Flow A
  stop : LoopState → Ending → Flow A

infixl 5 ◌>>=◌
abbrev pub ◌>>=◌ : {A B : Type 0} → Flow A → (LoopState → A → Flow B) → Flow B
next s a >>= f = f s a
stop s e >>= f = stop s e

-- `result.Status = …; result.Err = err; return result, err`
abbrev pub ends : {A : Type 0} → LoopState → LoopStatus → GoError → Flow A
ends s status e = stop s (record { status = status; err = some e; vote = none })

-- The checkpoint of the state.
unfoldable pub checkpoint_of : AgentWorld → ℕ → Option Pending → LoopState → Checkpoint
checkpoint_of w next_step pending s = record {
  run_id = w.run_id;
  next_step = next_step;
  phase = s.phase;
  messages = s.messages;
  termination = s.termination;
  compacted = s.compacted;
  ledger = s.ledger;
  manifest_digest = w.manifest_digest;
  last_committed = s.last_committed;
  summary = s.summary;
  reflection = s.reflection;
  pending = pending;
}

-- The error of a commit ends the run.
abbrev pub committed : LoopState → History × Option GoError → Flow Unit
committed s (h, none) = next (record s { history = h }) tt
committed s (h, some e) = ends (record s { history = h }) error e

-- `CommitForExecution` of an encoded state.
abbrev pub commit_encoded : AgentWorld → Checkpoint → Option GoError → LoopState → Flow Unit
commit_encoded w c none s = committed s (commit_for_execution w.checkpoints w.owner s.history c)
commit_encoded w c (some e) s = ends s error e

-- `commitCheckpoint`, with the return that follows each of its calls.
unfoldable pub commit_checkpoint : AgentWorld → ℕ → Option Pending → LoopState → Flow Unit
unfolding checkpoint_of
commit_checkpoint w next_step pending s =
    if str_eq w.run_id ""
    then next s tt
    else if w.lease_gone s.history
    then ends s error lease_lost
    else let c = checkpoint_of w next_step pending s in commit_encoded w c (w.marshal_error c) s
