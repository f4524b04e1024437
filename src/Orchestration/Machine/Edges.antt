-- ===== src/Orchestration/Machine/Edges.antt =====
-- The handlers move along the transitions of the default blueprint.
use magi_system.Prelude.{
  Bool, true, false, Option, ◌≡◌, ◌⊎◌, inl, inr, refl, arith, if◌then◌else◌, Bool-cases,
}
use magi_system.Entity.Resolution.{
  ConsensusOutcome, strong_approval, strong_rejection, majority_approval_with_dissent,
  majority_rejection_with_dissent, deadlock, insufficient_quorum, conditional,
}
use magi_system.Entity.Case.{
  CaseStatus, draft, normalizing, context_building, retrieving_memory, investigating,
  evidence_gating, collecting_votes, consensus_check, resolving, generating_report, saving_memory,
  evaluating, debating, reflecting, revoting, resolved, deadlocked, status_eq, status_text,
}
use magi_system.Fsm.{action_for_status, is_no_action, allowed, default_fsm_blueprint}
use magi_system.Orchestration.Commit.{DecisionCase, is_normal_terminal}
use magi_system.Orchestration.Steps.{
  World, State, StepResult, moved, erred, panicked, step_start, step_normalize, step_build_context,
  step_retrieve_memory, step_investigate, step_gate_evidence, step_collect_votes,
  step_check_consensus, after_consensus, step_debate, step_reflect, step_revote, step_resolve,
  step_generate_report, step_save_memory, step_evaluate, step_complete, step_deadlock,
  round_consensus, should_debate,
}
use magi_system.Orchestration.Machine.{run_action, dispatch}
use magi_system.Orchestration.Machine.Laws.{IsStandard, chosen_action-standard}

-- The step is a transition of the default blueprint, or stays at a terminal status and is the last.
abbrev pub Follows : CaseStatus → StepResult → Type 0
Follows s panicked = Unit
Follows s (erred e) = Unit
Follows s (moved next done later) =
    ((allowed default_fsm_blueprint s next ≡ true) × (done ≡ false))
    ⊎ ((next ≡ s) × (is_normal_terminal s ≡ true) × (done ≡ true))

if-Follows :
    (b : Bool) (x y : StepResult)
    → Follows consensus_check x
    → Follows consensus_check y
    → Follows consensus_check (if b then x else y)
if-Follows true x y h k = h
if-Follows false x y h k = k

after_consensus-Follows :
    (w : World) (st : State) (o : ConsensusOutcome)
    → Follows consensus_check (after_consensus w st o)
unfolding after_consensus allowed default_fsm_blueprint status_eq status_text
after_consensus-Follows w st majority_approval_with_dissent =
    if-Follows (should_debate w.policy st.round st.max_debate) _ _ (inl (refl, refl))
      (inl (refl, refl))
after_consensus-Follows w st majority_rejection_with_dissent =
    if-Follows (should_debate w.policy st.round st.max_debate) _ _ (inl (refl, refl))
      (inl (refl, refl))
after_consensus-Follows w st strong_approval = inl (refl, refl)
after_consensus-Follows w st strong_rejection = inl (refl, refl)
after_consensus-Follows w st conditional = inl (refl, refl)
after_consensus-Follows w st deadlock = inl (refl, refl)
after_consensus-Follows w st insufficient_quorum = inl (refl, refl)
after_consensus-Follows w st _ = tt

run_action-Follows :
    (w : World) (c : DecisionCase) (s : CaseStatus) (st : State)
    → Follows s (run_action w c st (action_for_status s))
unfolding run_action action_for_status step_start step_normalize step_build_context
    step_retrieve_memory step_investigate step_gate_evidence step_collect_votes step_debate
    step_reflect step_revote step_resolve step_generate_report step_save_memory step_evaluate
    step_complete step_deadlock step_check_consensus allowed default_fsm_blueprint status_eq
    status_text is_normal_terminal
run_action-Follows w c draft st = inl (refl, refl)
run_action-Follows w c normalizing st = ground arith
run_action-Follows w c context_building st = ground arith
run_action-Follows w c retrieving_memory st = inl (refl, refl)
run_action-Follows w c investigating st = inl (refl, refl)
run_action-Follows w c evidence_gating st = inl (refl, refl)
run_action-Follows w c collecting_votes st = ground arith
run_action-Follows w c consensus_check st =
    after_consensus-Follows w (record st { consensus = round_consensus w st })
      (round_consensus w st).outcome
run_action-Follows w c debating st = ground arith
run_action-Follows w c reflecting st = inl (refl, refl)
run_action-Follows w c revoting st = ground arith
run_action-Follows w c resolving st = ground arith
run_action-Follows w c generating_report st = ground arith
run_action-Follows w c saving_memory st = inl (refl, refl)
run_action-Follows w c evaluating st = ground arith
run_action-Follows w c resolved st = inr (refl, refl, refl)
run_action-Follows w c deadlocked st = inr (refl, refl, refl)
run_action-Follows w c _ st = tt

-- Without a blueprint or with the default one, the step of every status is a transition of the
-- default blueprint and does not end the run, or it stays at RESOLVED or DEADLOCKED and ends it, or
-- it fails.
pub dispatch-Follows :
    (w : World) (c : DecisionCase) (prev : Option CaseStatus) (s : CaseStatus) (st : State)
    → IsStandard w
    → Follows s (dispatch w c prev s st)
unfolding dispatch
dispatch-Follows w c prev s st std = elim (Bool-cases (is_no_action (action_for_status s))) [
  | inl e ↦ ground arith
  | inr e ↦ rw (e, chosen_action-standard w prev s std e) (run_action-Follows w c s st)
]
