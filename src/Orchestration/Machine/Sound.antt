-- ===== src/Orchestration/Machine/Sound.antt =====
-- What holds of the state at each status, and that every handler keeps it.
use magi_system.Prelude.{
  length, ◌∙◌, List, Bool, true, false, Option, none, some, ◌≡◌, inl, inr, refl, arith, Bool-cases,
  GoError, ◌&&◌, not, is_empty, if◌then◌else◌,
}
use magi_system.Entity.Vote.{Vote}
use magi_system.Entity.Resolution.{
  strong_approval, strong_rejection, majority_approval_with_dissent,
  majority_rejection_with_dissent, deadlock, insufficient_quorum, conditional, incomplete,
  no_outcome, ConsensusOutcome, Resolution,
}
use magi_system.Entity.Case.{
  CaseStatus, draft, normalizing, context_building, retrieving_memory, investigating,
  evidence_gating, collecting_votes, consensus_check, resolving, generating_report, saving_memory,
  evaluating, debating, reflecting, revoting, resolved, deadlocked,
}
use magi_system.Fsm.{action_for_status, is_no_action}
use magi_system.Orchestration.Ballots.{collect_ballots, deref_votes}
use magi_system.Orchestration.Commit.{DecisionCase}
use magi_system.Orchestration.Dissent.{final_decision, Extracted, dissent, refused}
use magi_system.Orchestration.Steps.{
  World, State, StepResult, moved, erred, panicked, step_start, step_normalize, step_build_context,
  step_retrieve_memory, step_investigate, step_gate_evidence, step_collect_votes,
  step_check_consensus, after_consensus, should_debate, step_debate, step_reflect, step_revote,
  step_resolve, stored, step_generate_report, step_save_memory, step_evaluate, step_complete,
  step_deadlock, round_consensus, bind_dissent, resolution_of,
}
use magi_system.Orchestration.Enforce.{enforce_reflection_rule}
use magi_system.Orchestration.Machine.Cast.{stored-length, enforce_reflection_rule-length}
use magi_system.Orchestration.Machine.{run_action, dispatch}
use magi_system.Orchestration.Machine.Backing.{
  Gathered, investigated, reconsidered, Certified, AllBacked, Collected, round_consensus-Certified,
  in_round-Certified,
}
use magi_system.Orchestration.Remap.{investigate, reconsider}
use magi_system.Orchestration.Machine.Laws.{IsStandard, chosen_action-standard}

abbrev is_set : Option Resolution → Bool
is_set none = false
is_set (some r) = true

-- What holds of the state when the machine reaches a status in a run from a draft.
abbrev pub Sound : World → CaseStatus → State → Type 0
Sound w context_building st = AllBacked w st.resolution × (st.has_task ≡ true)
Sound w evidence_gating st = AllBacked w st.resolution × Gathered w st.results
Sound w collecting_votes st = AllBacked w st.resolution × Gathered w st.results
Sound w consensus_check st = AllBacked w st.resolution × Collected w st
Sound w debating st = AllBacked w st.resolution × Gathered w st.results
Sound w reflecting st = AllBacked w st.resolution × Gathered w st.results
Sound w revoting st = AllBacked w st.resolution × Gathered w st.results
Sound w resolving st = AllBacked w st.resolution × Certified w st.consensus
Sound w generating_report st = AllBacked w st.resolution × (is_set st.resolution ≡ true)
Sound w saving_memory st = AllBacked w st.resolution × (is_set st.resolution ≡ true)
Sound w evaluating st = AllBacked w st.resolution × (is_set st.resolution ≡ true)
Sound w _ st = AllBacked w st.resolution

abbrev pub StepSound : World → StepResult → Type 0
StepSound w panicked = ⊥
StepSound w (erred e) = Unit
StepSound w (moved next done later) = Sound w next later

pub Sound-AllBacked :
    (w : World) (s : CaseStatus) (st : State) → Sound w s st → AllBacked w st.resolution
Sound-AllBacked w context_building st h = h.0
Sound-AllBacked w evidence_gating st h = h.0
Sound-AllBacked w collecting_votes st h = h.0
Sound-AllBacked w consensus_check st h = h.0
Sound-AllBacked w debating st h = h.0
Sound-AllBacked w reflecting st h = h.0
Sound-AllBacked w revoting st h = h.0
Sound-AllBacked w resolving st h = h.0
Sound-AllBacked w generating_report st h = h.0
Sound-AllBacked w saving_memory st h = h.0
Sound-AllBacked w evaluating st h = h.0
Sound-AllBacked w _ st h = h

if-StepSound :
    (w : World) (b : Bool) (x y : StepResult)
    → StepSound w x
    → StepSound w y
    → StepSound w (if b then x else y)
if-StepSound w true x y h k = h
if-StepSound w false x y h k = k

-- A write before the rest of a step.
unless-StepSound :
    (w : World) (o : Option GoError) (x : StepResult)
    → StepSound w x
    → StepSound w (elim o [ some e ↦ erred e | none ↦ x ])
unless-StepSound w none x h = h
unless-StepSound w (some e) x h = tt

after_consensus-StepSound :
    (w : World) (st : State) (o : ConsensusOutcome)
    → AllBacked w st.resolution
    → Gathered w st.results
    → Certified w st.consensus
    → StepSound w (after_consensus w st o)
unfolding after_consensus
after_consensus-StepSound w st strong_approval h g k = (h, k)
after_consensus-StepSound w st strong_rejection h g k = (h, k)
after_consensus-StepSound w st conditional h g k = (h, k)
after_consensus-StepSound w st majority_approval_with_dissent h g k =
    if-StepSound w (should_debate w.policy st.round st.max_debate) _ _ (h, g) (h, k)
after_consensus-StepSound w st majority_rejection_with_dissent h g k =
    if-StepSound w (should_debate w.policy st.round st.max_debate) _ _ (h, g) (h, k)
after_consensus-StepSound w st incomplete h g k = tt
after_consensus-StepSound w st no_outcome h g k = tt
after_consensus-StepSound w st deadlock h g k = h
after_consensus-StepSound w st insufficient_quorum h g k = h

-- The results of a state, when their ballots are collected.
heard :
    (w : World) (st : State) (votes : List (Option Vote))
    → length (deref_votes votes) ≡ length (deref_votes (collect_ballots w.configs st.results).votes)
    → AllBacked w st.resolution × Gathered w st.results
    → AllBacked w st.resolution
      × Collected w
          (record st { votes = votes; absences = (collect_ballots w.configs st.results).absences })
heard w st votes cast h = (h.0, (h.1, refl, cast))

step_collect_votes-StepSound :
    (w : World) (c : DecisionCase) (st : State)
    → Sound w collecting_votes st
    → StepSound w (step_collect_votes w c st)
unfolding step_collect_votes
step_collect_votes-StepSound w c st h =
    let b = collect_ballots w.configs st.results in
    let absences = b.absences in
    let held =
      heard w st (stored w c investigate st b.votes).votes
        (stored-length w c investigate st b.votes) h in
    elim (Bool-cases (w.fail_case && not (is_empty absences))) [
      | inl e ↦ rw e tt
      | inr e ↦ rw e (unless-StepSound w (w.persist_artifacts investigate st.round) _ held)
    ]

step_debate-StepSound :
    (w : World) (st : State) → Sound w debating st → StepSound w (step_debate w st)
unfolding step_debate
step_debate-StepSound w st h =
    let g = reconsidered st.round h.1 in
    if-StepSound w w.ports.has_repo _ _
      (unless-StepSound w (w.persist_debate_round st.round) _ (h.0, g)) (h.0, g)

step_revote-StepSound :
    (w : World) (c : DecisionCase) (st : State)
    → Sound w revoting st
    → StepSound w (step_revote w c st)
unfolding step_revote
step_revote-StepSound w c st h =
    let n = stored w c reconsider st (collect_ballots w.configs st.results).votes in
    let enforced = enforce_reflection_rule st.votes n.votes st.results w.configs st.round in
    let held =
      heard w st enforced.votes
        (enforce_reflection_rule-length st.votes n.votes st.results w.configs st.round
          ∙ stored-length w c reconsider st (collect_ballots w.configs st.results).votes)
        h in
    unless-StepSound w (w.persist_artifacts reconsider st.round) _ (
      if-StepSound w w.ports.has_repo _ _
        (unless-StepSound w (w.persist_reflections st.round enforced.reflections) _ held) held)

bind_dissent-StepSound :
    (w : World) (st : State) (res : Resolution) (e : Extracted)
    → Certified w res.consensus
    → res.final_decision ≡ final_decision res.consensus.outcome
    → StepSound w (bind_dissent st res e)
bind_dissent-StepSound w st res (refused e) k d = tt
bind_dissent-StepSound w st res (dissent ds) k d = (record { certified = k; decided = d }, refl)

run_action-StepSound :
    (w : World) (c : DecisionCase) (s : CaseStatus) (st : State)
    → Sound w s st
    → StepSound w (run_action w c st (action_for_status s))
unfolding run_action action_for_status step_start step_normalize step_build_context
    step_retrieve_memory step_investigate step_gate_evidence step_collect_votes step_debate
    step_reflect step_revote step_resolve step_generate_report step_save_memory step_evaluate
    step_complete step_deadlock step_check_consensus
run_action-StepSound w c draft st h = h
run_action-StepSound w c normalizing st h = ground arith
run_action-StepSound w c context_building st h = ground arith
run_action-StepSound w c retrieving_memory st h = h
run_action-StepSound w c investigating st h = (h, investigated st.round)
run_action-StepSound w c evidence_gating st h = h
run_action-StepSound w c collecting_votes st h = step_collect_votes-StepSound w c st h
run_action-StepSound w c consensus_check st h =
    after_consensus-StepSound w (record st { consensus = round_consensus w st })
      (round_consensus w st).outcome h.0 h.1.0 (round_consensus-Certified w st h.1)
run_action-StepSound w c debating st h = step_debate-StepSound w st h
run_action-StepSound w c reflecting st h = h
run_action-StepSound w c revoting st h = step_revote-StepSound w c st h
run_action-StepSound w c resolving st h =
    bind_dissent-StepSound w st (resolution_of c st) _
      (in_round-Certified w st.consensus st.round h.1) refl
run_action-StepSound w c generating_report st h = ground arith
run_action-StepSound w c saving_memory st h = h
run_action-StepSound w c evaluating st h = ground arith
run_action-StepSound w c resolved st h = h
run_action-StepSound w c deadlocked st h = h
run_action-StepSound w c _ st h = tt

pub dispatch-StepSound :
    (w : World) (c : DecisionCase) (prev : Option CaseStatus) (s : CaseStatus) (st : State)
    → IsStandard w
    → Sound w s st
    → StepSound w (dispatch w c prev s st)
unfolding dispatch
dispatch-StepSound w c prev s st std h = elim (Bool-cases (is_no_action (action_for_status s))) [
  | inl e ↦ ground arith
  | inr e ↦ rw (e, chosen_action-standard w prev s std e) (run_action-StepSound w c s st h)
]
