-- ===== src/Orchestration/Machine.antt =====
-- `dispatch` of backend/domain/orchestration/steps.go, and `orchestrate` of orchestrator.go: the loop
-- that runs the action of a status and commits the transition it gives.
pub mod Runs
pub mod Progress
pub mod Laws
pub mod Edges
pub mod Cast
pub mod Backing
pub mod Sound
pub mod Safety
use magi_system.Prelude.{
  ℕ, zero, suc, ℤ, pos, leb_ℤ, ltb_ℤ, String, Bool, true, false, ◌&&◌, ◌||◌, not, Option, none,
  some, List, [], ◌∷◌, ◌++◌, is_empty, if◌then◌else◌, GoError, lease_lost, commit_outcome_unknown,
  case_ended, plain, wrapped, errors_is, str_eq,
}
use magi_system.Entity.Case.{
  CaseStatus, draft, failed, cancelled, timed_out, resolved, deadlocked, unknown_status, status_eq,
  ExecutionContext, is_durable,
}
use magi_system.Entity.Resolution.{ConsensusResult, no_outcome, no_detail, Resolution}
use magi_system.Fsm.{
  ActionName, no_action, start, normalize, build_context, retrieve_memory, investigate,
  gate_evidence, collect_votes, check_consensus, debate, reflect, revote, resolve, generate_report,
  save_memory, evaluate, complete, deadlock, other_action, StateTransition, action_for_status,
  action_for, is_no_action, validate_path,
}
use magi_system.Orchestration.Commit.{
  Ports, Effect, DecisionCase, Wrote, advance_status, commit_terminal, is_normal_terminal, fail,
  eq_ℤ,
}
use magi_system.Orchestration.Steps.{
  World, State, StepResult, moved, erred, panicked, step_start, step_normalize, step_build_context,
  step_retrieve_memory, step_investigate, step_gate_evidence, step_collect_votes,
  step_check_consensus, step_debate, step_reflect, step_revote, step_resolve, step_generate_report,
  step_save_memory, step_evaluate, step_complete, step_deadlock,
}

-- `o.actions[action]`, applied.
unfoldable pub run_action : World → DecisionCase → State → ActionName → StepResult
run_action w c st start = step_start st
run_action w c st normalize = step_normalize w st
run_action w c st build_context = step_build_context st
run_action w c st retrieve_memory = step_retrieve_memory st
run_action w c st investigate = step_investigate w st
run_action w c st gate_evidence = step_gate_evidence st
run_action w c st collect_votes = step_collect_votes w c st
run_action w c st check_consensus = step_check_consensus w st
run_action w c st debate = step_debate w st
run_action w c st reflect = step_reflect st
run_action w c st revote = step_revote w c st
run_action w c st resolve = step_resolve w c st
run_action w c st generate_report = step_generate_report w st
run_action w c st save_memory = step_save_memory st
run_action w c st evaluate = step_evaluate st
run_action w c st complete = step_complete st
run_action w c st deadlock = step_deadlock st
run_action w c st no_action = erred (plain "fsm blueprint action is not a registered handler")
run_action w c st (other_action s) =
    erred (plain "fsm blueprint action is not a registered handler")

-- `none` is the empty previous status.
abbrev pub declared_action : World → Option CaseStatus → CaseStatus → ActionName
declared_action w none status = no_action
declared_action w (some prev) status = elim (w.blueprint) [
  | none ↦ no_action
  | some b ↦ action_for b prev status
]

-- The action that is run at a status which has one.
unfoldable pub chosen_action : World → Option CaseStatus → CaseStatus → ActionName
unfolding action_for action_for_status
chosen_action w prev status =
    if is_no_action (declared_action w prev status)
    then action_for_status status
    else declared_action w prev status

unfoldable pub dispatch : World → DecisionCase → Option CaseStatus → CaseStatus → State → StepResult
unfolding chosen_action run_action
dispatch w c prev status st =
    if is_no_action (action_for_status status)
    then erred (wrapped "case ended" case_ended)
    else run_action w c st (chosen_action w prev status)

pub data Ending : Type 0 where
  out_of_fuel crashed : Ending
  returned : Option Resolution → Ending
  returned_error : GoError → Ending

pub record Run : Type 0 where
  pub effects : List Effect
  pub ending : Ending

-- What was written before a run goes on.
abbrev before : List Effect → Run → Run
before es r = record r { effects = es ++ r.effects }

-- `if err := ...; err != nil { return nil, err }`
abbrev pub if_written : Wrote → Run → Run
if_written w next = elim (w.err) [
  | some e ↦ record { effects = w.effects; ending = returned_error e }
  | none ↦ before w.effects next
]

abbrev pub return_resolution : State → Run
return_resolution st = record { effects = []; ending = returned st.resolution }

-- `return o.fail(ctx, case_, cause)`; without an error it returns nil.
abbrev pub failing : World → DecisionCase → ℕ → GoError → Run
failing w c round cause =
    if_written (fail w.ports c round cause) (record { effects = []; ending = returned none })

abbrev is_some_resolution : Option Resolution → Bool
is_some_resolution none = false
is_some_resolution (some r) = true

-- The body of the loop after `dispatch`; `again` is the next iteration.
unfoldable pub after_dispatch :
    World → DecisionCase → CaseStatus → State → StepResult → (CaseStatus → State → Run) → Run
unfolding errors_is fail is_normal_terminal commit_terminal advance_status status_eq
after_dispatch w c status st panicked again = record { effects = []; ending = crashed }
after_dispatch w c status st (erred e) again =
    if errors_is e lease_lost || errors_is e commit_outcome_unknown
    then record { effects = []; ending = returned_error e }
    else failing w c st.round e
after_dispatch w c status st (moved next done later) again =
    if is_normal_terminal next
    then if_written
        (commit_terminal w.ports c next later.round (is_some_resolution later.resolution) w.owner)
        (return_resolution later)
    else if done
    then if status_eq next status
      then return_resolution later
      else if_written (advance_status w.ports c (status ∷ []) next later.round w.owner)
          (return_resolution later)
    else if_written (advance_status w.ports c (status ∷ []) next later.round w.owner)
        (again next later)

-- `ValidatePath` of the last step has a violation.
unfoldable pub violates : World → Option CaseStatus → CaseStatus → Bool
unfolding validate_path
violates w none status = false
violates w (some prev) status = elim (w.blueprint) [
  | none ↦ false
  | some b ↦ not (is_empty (validate_path b (prev ∷ (status ∷ []))))
]

-- The loop. The status of the case is the status of the loop from the first transition on.
unfoldable pub run_from : World → ℕ → DecisionCase → Option CaseStatus → CaseStatus → State → Run
unfolding violates dispatch after_dispatch
run_from w zero c prev status st = record { effects = []; ending = out_of_fuel }
run_from w (suc fuel) c prev status st =
    if violates w prev status
    then failing w c st.round (plain "fsm blueprint violation")
    else after_dispatch w c status st (dispatch w c prev status st)
        (λ next later. run_from w fuel (record c { status = next }) (some status) next later)

abbrev zero_consensus : ConsensusResult
zero_consensus = record {
  outcome = no_outcome;
  votes = [];
  round = 0;
  detail = no_detail;
  conditions = [];
}

abbrev pub initial_state : DecisionCase → State
initial_state c = record {
  max_debate = if eq_ℤ c.max_debate_rounds (pos 0) then pos 1 else c.max_debate_rounds;
  has_task = false;
  round = 1;
  results = [];
  votes = [];
  absences = [];
  consensus = zero_consensus;
  resolution = none;
  remaps = [];
}

-- The empty status starts as a draft.
unfoldable pub start_status : CaseStatus → CaseStatus
unfolding status_eq
start_status status = if status_eq status (unknown_status "") then draft else status

-- `ExecutionSettled` and `ResolutionRepo().Get`, as they answer for this case.
pub record Replay : Type 0 where
  -- `none`: the repository is no settlement reader; otherwise its answer or error.
  pub settled : Option (Option GoError × Bool)
  pub get_error : Option GoError
  pub existing : Option Resolution

abbrev ends_with : Ending → Run
ends_with e = record { effects = []; ending = e }

-- A durable run of a case that is already settled.
unfoldable pub replay_settled : World → Replay → CaseStatus → Run
unfolding status_eq
replay_settled w replay status = elim (replay.settled) [
  | none ↦ ends_with (returned_error lease_lost)
  | some (some e, b) ↦ ends_with (returned_error e)
  | some (none, false) ↦ ends_with (returned_error lease_lost)
  | some (none, true) ↦
      if status_eq status deadlocked then ends_with (returned none) else elim (replay.get_error) [
        | some e ↦ ends_with (returned_error e)
        | none ↦ same_generation w.owner replay.existing
      ]
]
  where
    same_generation : Option ExecutionContext → Option Resolution → Run
    same_generation none r = ends_with (returned_error lease_lost)
    same_generation (some o) none = ends_with (returned_error lease_lost)
    same_generation (some o) (some r) =
        if eq_ℤ r.execution_generation o.generation
        then ends_with (returned (some r))
        else ends_with (returned_error lease_lost)

-- `status == FAILED || status == CANCELLED || status == TIMED_OUT`
abbrev pub is_stopped : CaseStatus → Bool
is_stopped failed = true
is_stopped cancelled = true
is_stopped timed_out = true
is_stopped _ = false

unfoldable pub has_stored_resolution : World → Replay → Bool
has_stored_resolution w replay =
    if w.ports.has_repo
    then elim (replay.get_error) [ some e ↦ false | none ↦ is_some_resolution replay.existing ]
    else false

-- `orchestrate` on a case that is not nil, with the given number of iterations at most.
unfoldable pub orchestrate : World → Replay → ℕ → DecisionCase → Run
unfolding start_status status_eq is_durable replay_settled has_stored_resolution run_from
orchestrate w replay fuel c =
    let status = start_status c.status in
    let is_settled = status_eq status resolved || status_eq status deadlocked in
    if is_durable w.owner && is_settled
    then replay_settled w replay status
    else if status_eq status resolved && has_stored_resolution w replay
    then ends_with (returned replay.existing)
    else if status_eq status deadlocked
    then ends_with (returned none)
    else if is_stopped status
    then ends_with (returned_error lease_lost)
    else run_from w fuel c none status (initial_state c)
