-- ===== src/Fsm.antt =====
-- backend/domain/entity/fsm_blueprint.go: the editable transition table of the decision machine.
-- Statuses stand for their texts, and an action name is a constructor for each known text; `no_action`
-- is the empty text.
pub mod Paths
mod Examples
use magi_system.Prelude.{
  String, Bool, true, false, not, ◌&&◌, Option, none, some, List, [], ◌∷◌, ◌++◌, any, str_eq,
  if◌then◌else◌,
}
use magi_system.Entity.Case.{
  CaseStatus, draft, normalizing, context_building, retrieving_memory, investigating,
  evidence_gating, collecting_votes, consensus_check, resolving, generating_report, saving_memory,
  evaluating, debating, reflecting, revoting, resolved, failed, cancelled, timed_out, deadlocked,
  status_eq,
}

pub data ActionName : Type 0 where
  no_action start normalize build_context retrieve_memory investigate gate_evidence : ActionName
  collect_votes check_consensus debate reflect revote resolve generate_report : ActionName
  save_memory evaluate complete deadlock : ActionName
  other_action : String → ActionName

pub record StateTransition : Type 0 where
  pub from : CaseStatus
  pub to : CaseStatus
  pub action : ActionName

unfoldable pub action_for_status : CaseStatus → ActionName
action_for_status draft = start
action_for_status normalizing = normalize
action_for_status context_building = build_context
action_for_status retrieving_memory = retrieve_memory
action_for_status investigating = investigate
action_for_status evidence_gating = gate_evidence
action_for_status collecting_votes = collect_votes
action_for_status consensus_check = check_consensus
action_for_status debating = debate
action_for_status reflecting = reflect
action_for_status revoting = revote
action_for_status resolving = resolve
action_for_status generating_report = generate_report
action_for_status saving_memory = save_memory
action_for_status evaluating = evaluate
action_for_status resolved = complete
action_for_status deadlocked = deadlock
action_for_status _ = no_action

unfoldable pub is_known_action : ActionName → Bool
is_known_action no_action = false
is_known_action (other_action s) = false
is_known_action _ = true

-- A transition with the action of its target filled in.
abbrev edge : CaseStatus → CaseStatus → StateTransition
edge a b = record { from = a; to = b; action = action_for_status b }

unfoldable pub default_fsm_blueprint : List StateTransition
unfolding action_for_status
default_fsm_blueprint =
    edge draft normalizing
    ∷ edge normalizing context_building
    ∷ edge context_building retrieving_memory
    ∷ edge retrieving_memory investigating
    ∷ edge investigating evidence_gating
    ∷ edge evidence_gating collecting_votes
    ∷ edge collecting_votes consensus_check
    ∷ edge consensus_check resolving
    ∷ edge consensus_check debating
    ∷ edge consensus_check deadlocked
    ∷ edge debating reflecting
    ∷ edge reflecting revoting
    ∷ edge revoting consensus_check
    ∷ edge resolving generating_report
    ∷ edge generating_report saving_memory
    ∷ edge saving_memory evaluating
    ∷ edge evaluating resolved
    ∷ edge failed draft
    ∷ edge timed_out draft
    ∷ edge cancelled draft
    ∷ edge deadlocked draft
    ∷ []

unfoldable pub allowed : List StateTransition → CaseStatus → CaseStatus → Bool
unfolding status_eq
allowed [] from to = false
allowed (t ∷ ts) from to =
    if status_eq t.from from && status_eq t.to to then true else allowed ts from to

unfoldable pub action_for : List StateTransition → CaseStatus → CaseStatus → ActionName
unfolding status_eq
action_for [] from to = no_action
action_for (t ∷ ts) from to =
    if status_eq t.from from && status_eq t.to to then t.action else action_for ts from to

abbrev pub is_no_action : ActionName → Bool
is_no_action no_action = true
is_no_action _ = false

-- The transitions whose action is neither empty nor known.
unfoldable pub unknown_actions : List StateTransition → List StateTransition
unfolding is_known_action
unknown_actions [] = []
unknown_actions (t ∷ ts) =
    let rest = unknown_actions ts in
    if is_no_action t.action then rest else if is_known_action t.action then rest else t ∷ rest

-- One violation of a path: the two statuses that the message names.
pub data Violation : Type 0 where
  not_allowed : CaseStatus → CaseStatus → Violation

unfoldable pub validate_path : List StateTransition → List CaseStatus → List Violation
unfolding allowed status_eq
validate_path b [] = []
validate_path b (s ∷ []) = []
validate_path b (s ∷ (t ∷ path)) =
    let rest = validate_path b (t ∷ path) in
    if status_eq s t then rest else if allowed b s t then rest else not_allowed s t ∷ rest
