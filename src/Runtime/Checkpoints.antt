-- ===== src/Runtime/Checkpoints.antt =====
-- backend/domain/runtime/checkpoint.go: the checkpoints of an agent run and the service that stores
-- them, with the history of what the run has done to the outside so far, newest first, on which the
-- answers of its collaborators depend. The version, the usage and the time stamps are left out.
pub mod Laws
use magi_system.Prelude.{
  ℕ, String, Bool, true, false, ◌||◌, Option, none, some, List, ◌∷◌, GoError, lease_lost, str_eq,
  if◌then◌else◌,
}
use magi_system.Entity.Case.{ExecutionContext, is_durable}
use magi_system.Entity.Evidence.{EvidenceSummary, Reflection}
use magi_system.Evidence.Ledger.{EvidenceLedger}
use magi_system.Runtime.Messages.{Phase, Message, Answer, ToolCall}
use magi_system.Runtime.Termination.{TerminationState}

-- The ids that `NewInvocationID` makes of a step, and of a tool call by its ordinal.
pub data InvocationRef : Type 0 where
  no_invocation : InvocationRef
  model_invocation : ℕ → InvocationRef
  tool_invocation : ℕ → ℕ → InvocationRef

-- A response that is being worked on, with the tool call it has come to; `none` is the index -1.
pub record Pending : Type 0 where
  pub response : Answer
  pub tool_index : Option ℕ

-- What `buildCheckpointState` encodes.
pub record Checkpoint : Type 0 where
  pub run_id : String
  pub next_step : ℕ
  pub phase : Phase
  pub messages : List Message
  pub termination : TerminationState
  pub compacted : Bool
  pub ledger : EvidenceLedger
  pub manifest_digest : String
  pub last_committed : InvocationRef
  pub summary : Option EvidenceSummary
  pub reflection : Option Reflection
  pub pending : Option Pending

-- A checkpoint was stored, the model was called at a step for a response, the model was called at a
-- step to compact the history, a tool call of a step's response was executed.
pub data Event : Type 0 where
  saved : Checkpoint → Event
  invoked : ℕ → Event
  summarized : ℕ → Event
  tool_executed : ℕ → ℕ → ToolCall → Event

abbrev pub History : Type 0
History = List Event

-- The events whose recording may fail a run.
pub data Critical : Type 0 where
  invocation_started invocation_succeeded : ℕ → Critical
  checkpoint_committed : ℕ → Critical

-- `save_for_execution` and `load_for_execution` are the port `GenerationCheckpointRepository`, which
-- a repository may lack. A load answers an error, no state, or a state.
pub data Loaded : Type 0 where
  load_failed : GoError → Loaded
  loaded : Option Checkpoint → Loaded

pub record GenerationRepository : Type 0 where
  pub save_for_execution : History → ExecutionContext → Checkpoint → Option GoError
  pub load_for_execution : ExecutionContext → String → Loaded

pub record CheckpointRepository : Type 0 where
  pub save : History → Checkpoint → Option GoError
  pub load : String → Loaded
  pub generations : Option GenerationRepository

-- A nil recorder is `none`.
pub record CheckpointService : Type 0 where
  pub repo : Option CheckpointRepository
  pub recorder : Option (History → Critical → Option GoError)

-- The owner, where it is durable.
abbrev durable_owner : Option ExecutionContext → Option ExecutionContext
durable_owner owner = if is_durable owner then owner else none

save_owned : Option GenerationRepository → ExecutionContext → History → Checkpoint → Option GoError
save_owned none owner h state = some lease_lost
save_owned (some generations) owner h state = generations.save_for_execution h owner state

save_state : CheckpointRepository → Option ExecutionContext → History → Checkpoint → Option GoError
unfolding save_owned
save_state repo none h state = repo.save h state
save_state repo (some owner) h state = save_owned repo.generations owner h state

abbrev record_commit : Option (History → Critical → Option GoError) → History → ℕ → Option GoError
record_commit none h step = none
record_commit (some critical) h step = critical h (checkpoint_committed step)

-- The recording of a failure cannot change the result.
after_save : CheckpointService → History → Checkpoint → Option GoError → History × Option GoError
after_save service h state (some e) = (h, some e)
after_save service h state none =
    (saved state ∷ h, record_commit service.recorder (saved state ∷ h) state.next_step)

-- `CommitForExecution`: the history after it, and its error.
commit_in :
    CheckpointService
    → Option CheckpointRepository
    → Option ExecutionContext
    → History
    → Checkpoint
    → History × Option GoError
unfolding save_state after_save
commit_in service none owner h state = (h, none)
commit_in service (some repo) owner h state =
    after_save service h state (save_state repo (durable_owner owner) h state)

unfoldable pub commit_for_execution :
    CheckpointService → Option ExecutionContext → History → Checkpoint → History × Option GoError
unfolding commit_in
commit_for_execution service owner h state = commit_in service service.repo owner h state

load_owned : Option GenerationRepository → ExecutionContext → String → Loaded
load_owned none owner run_id = load_failed lease_lost
load_owned (some generations) owner run_id = generations.load_for_execution owner run_id

load_in : Option CheckpointRepository → Option ExecutionContext → String → Loaded
unfolding load_owned
load_in none owner run_id = loaded none
load_in (some repo) none run_id = repo.load run_id
load_in (some repo) (some owner) run_id = load_owned repo.generations owner run_id

-- `LoadForExecution`
unfoldable pub load_for_execution : CheckpointService → Option ExecutionContext → String → Loaded
unfolding load_in
load_for_execution service owner run_id = load_in service.repo (durable_owner owner) run_id
