-- ===== src/Orchestration/Machine/Progress.antt =====
-- How far every step of the machine is from the end of its run.
use magi_system.Prelude.{ℕ, ◌+◌, ◌*◌, ◌-◌, ◌<◌, pos_part, true, ◌≡◌, ◌⊎◌, inl, refl, arith}
use magi_system.Entity.Resolution.{ConsensusOutcome}
use magi_system.Entity.Case.{
  CaseStatus, draft, normalizing, context_building, retrieving_memory, investigating,
  evidence_gating, collecting_votes, consensus_check, resolving, generating_report, saving_memory,
  evaluating, debating, reflecting, revoting, resolved, deadlocked,
}
use magi_system.Fsm.{action_for_status}
use magi_system.Orchestration.Commit.{DecisionCase, is_normal_terminal}
use magi_system.Orchestration.Steps.{
  World, State, StepResult, moved, erred, panicked, step_start, step_normalize, step_build_context,
  step_retrieve_memory, step_investigate, step_gate_evidence, step_collect_votes,
  step_check_consensus, after_consensus, should_debate, step_debate, step_reflect, step_revote,
  step_resolve, step_generate_report, step_save_memory, step_evaluate, step_complete, step_deadlock,
  round_consensus,
}
use magi_system.Orchestration.Machine.{run_action}

-- The rounds that a run can begin.
abbrev pub round_limit : State → ℕ
round_limit st = 2 + pos_part st.max_debate

abbrev rounds_left : State → ℕ
rounds_left st = round_limit st - st.round

-- The steps left: four for each round of debate, and those of the line from the status on.
abbrev pub measure : CaseStatus → State → ℕ
measure draft st = 12 + 4 * rounds_left st
measure normalizing st = 11 + 4 * rounds_left st
measure context_building st = 10 + 4 * rounds_left st
measure retrieving_memory st = 9 + 4 * rounds_left st
measure investigating st = 8 + 4 * rounds_left st
measure evidence_gating st = 7 + 4 * rounds_left st
measure collecting_votes st = 6 + 4 * rounds_left st
measure consensus_check st = 5 + 4 * rounds_left st
measure debating st = 4 + 4 * rounds_left st
measure reflecting st = 3 + 4 * rounds_left st
measure revoting st = 2 + 4 * rounds_left st
measure resolving st = 4
measure generating_report st = 3
measure saving_memory st = 2
measure evaluating st = 1
measure _ st = 0

-- A debate takes place in a round below the limit.
abbrev pub Ready : CaseStatus → State → Type 0
Ready debating st = st.round < round_limit st
Ready reflecting st = st.round < round_limit st
Ready revoting st = st.round < round_limit st
Ready _ st = Unit

-- What a step gives: it is the last, or nearer to the end and again ready.
abbrev pub Advances : CaseStatus → State → CaseStatus → State → Type 0
Advances status st next later =
    (is_normal_terminal next ≡ true) ⊎ ((measure next later < measure status st) × Ready next later)

abbrev pub StepAdvances : CaseStatus → State → StepResult → Type 0
StepAdvances status st panicked = Unit
StepAdvances status st (erred e) = Unit
StepAdvances status st (moved next done later) = Advances status st next later

should_debate-limit :
    (w : World) (st : State)
    → should_debate w.policy st.round st.max_debate ≡ true
    → st.round < round_limit st
unfolding should_debate
should_debate-limit w st h = ground arith

after_consensus-StepAdvances :
    (w : World) (st : State) (o : ConsensusOutcome)
    → StepAdvances consensus_check st (after_consensus w st o)
unfolding after_consensus is_normal_terminal
after_consensus-StepAdvances w st o = ground (arith, should_debate-limit w st)

-- Every action of a status advances.
pub run_action-StepAdvances :
    (w : World) (c : DecisionCase) (status : CaseStatus) (st : State)
    → Ready status st
    → StepAdvances status st (run_action w c st (action_for_status status))
unfolding run_action action_for_status step_start step_normalize is_normal_terminal
    step_build_context step_retrieve_memory step_investigate step_gate_evidence step_collect_votes
    step_debate step_reflect step_revote step_resolve step_generate_report step_save_memory
    step_evaluate step_complete step_deadlock step_check_consensus
run_action-StepAdvances w c draft st h = ground arith
run_action-StepAdvances w c normalizing st h = ground arith
run_action-StepAdvances w c context_building st h = ground arith
run_action-StepAdvances w c retrieving_memory st h = ground arith
run_action-StepAdvances w c investigating st h = ground arith
run_action-StepAdvances w c evidence_gating st h = ground arith
run_action-StepAdvances w c collecting_votes st h = ground arith
run_action-StepAdvances w c consensus_check st h =
    after_consensus-StepAdvances w (record st { consensus = round_consensus w st })
      (round_consensus w st).outcome
run_action-StepAdvances w c debating st h = ground arith
run_action-StepAdvances w c reflecting st h = ground arith
run_action-StepAdvances w c revoting st h = ground arith
run_action-StepAdvances w c resolving st h = ground arith
run_action-StepAdvances w c generating_report st h = ground arith
run_action-StepAdvances w c saving_memory st h = ground arith
run_action-StepAdvances w c evaluating st h = ground arith
run_action-StepAdvances w c resolved st h = inl refl
run_action-StepAdvances w c deadlocked st h = inl refl
run_action-StepAdvances w c _ st h = tt
