-- ===== src/Orchestration/Machine/Laws.antt =====
-- Every run of the machine ends, by the measure of its steps.
use magi_system.Prelude.{
  ℕ, zero, suc, ◌+◌, ◌*◌, ◌<◌, ◌≤◌, Bool, true, false, Option, none, some, ◌≡◌, ◌≢◌, ◌⊎◌, inl, inr,
  refl, arith, List, ◌∷◌, [], String, Bool-cases, ◌||◌, ◌&&◌, GoError, plain, str_eq, eq_iff,
  if◌then◌else◌, All,
}
use magi_system.Entity.Case.{
  CaseStatus, draft, normalizing, context_building, retrieving_memory, investigating,
  evidence_gating, collecting_votes, consensus_check, resolving, generating_report, saving_memory,
  evaluating, debating, reflecting, revoting, resolved, deadlocked, status_eq, status_text,
  is_durable,
}
use magi_system.Fsm.{
  ActionName, no_action, start, normalize, build_context, retrieve_memory, investigate,
  gate_evidence, collect_votes, check_consensus, debate, reflect, revote, resolve, generate_report,
  save_memory, evaluate, complete, deadlock, StateTransition, action_for_status, action_for,
  default_fsm_blueprint, is_no_action,
}
use magi_system.Orchestration.Commit.{DecisionCase}
use magi_system.Orchestration.Steps.{World, State, StepResult, moved, erred, panicked}
use magi_system.Orchestration.Machine.{
  dispatch, chosen_action, Run, Ending, out_of_fuel, violates, run_from, start_status,
  initial_state, orchestrate, Replay, replay_settled, has_stored_resolution, returned,
  returned_error, is_stopped,
}
use magi_system.Orchestration.Machine.Runs.{Gives, if-ending, failing-ending, after_dispatch-ending}
use magi_system.Entity.Resolution.{Resolution}
use magi_system.Orchestration.Machine.Progress.{
  measure, Ready, StepAdvances, run_action-StepAdvances, round_limit,
}

-- There is no blueprint, or it is the default one.
abbrev pub IsStandard : World → Type 0
IsStandard w = (w.blueprint ≡ none) ⊎ (w.blueprint ≡ some default_fsm_blueprint)

-- The action of a status from its text.
text_action : String → ActionName
text_action s =
    if str_eq s "DRAFT"
    then start
    else if str_eq s "NORMALIZING"
    then normalize
    else if str_eq s "CONTEXT_BUILDING"
    then build_context
    else if str_eq s "RETRIEVING_MEMORY"
    then retrieve_memory
    else if str_eq s "INVESTIGATING"
    then investigate
    else if str_eq s "EVIDENCE_GATING"
    then gate_evidence
    else if str_eq s "COLLECTING_VOTES"
    then collect_votes
    else if str_eq s "CONSENSUS_CHECK"
    then check_consensus
    else if str_eq s "DEBATING"
    then debate
    else if str_eq s "REFLECTING"
    then reflect
    else if str_eq s "REVOTING"
    then revote
    else if str_eq s "RESOLVING"
    then resolve
    else if str_eq s "GENERATING_REPORT"
    then generate_report
    else if str_eq s "SAVING_MEMORY"
    then save_memory
    else if str_eq s "EVALUATING"
    then evaluate
    else if str_eq s "RESOLVED"
    then complete
    else if str_eq s "DEADLOCKED"
    then deadlock
    else no_action

action_for_status-text :
    (s : CaseStatus)
    → is_no_action (action_for_status s) ≡ false
    → action_for_status s ≡ text_action (status_text s)
unfolding action_for_status status_text text_action
action_for_status-text draft h = refl
action_for_status-text normalizing h = refl
action_for_status-text context_building h = refl
action_for_status-text retrieving_memory h = refl
action_for_status-text investigating h = refl
action_for_status-text evidence_gating h = refl
action_for_status-text collecting_votes h = refl
action_for_status-text consensus_check h = refl
action_for_status-text debating h = refl
action_for_status-text reflecting h = refl
action_for_status-text revoting h = refl
action_for_status-text resolving h = refl
action_for_status-text generating_report h = refl
action_for_status-text saving_memory h = refl
action_for_status-text evaluating h = refl
action_for_status-text resolved h = refl
action_for_status-text deadlocked h = refl
action_for_status-text _ h = absurd (ground arith)

abbrev ActsByText : StateTransition → Type 0
ActsByText t = t.action ≡ text_action (status_text t.to)

abbrev Declared : CaseStatus → ActionName → Type 0
Declared to a = (is_no_action a ≡ true) ⊎ (a ≡ text_action (status_text to))

action_for-Declared :
    (b : List StateTransition) (from to : CaseStatus)
    → All ActsByText b
    → Declared to (action_for b from to)
unfolding action_for status_eq
action_for-Declared [] from to a = inl refl
action_for-Declared (t ∷ ts) from to (a, rest) =
    ground
      (arith, action_for-Declared ts from to rest, a, eq_iff (status_text t.to) (status_text to))

default-ActsByText : All ActsByText default_fsm_blueprint
unfolding default_fsm_blueprint action_for_status status_text text_action
default-ActsByText = (
  refl,
  (
    refl,
    (
      refl,
      (
        refl,
        (
          refl,
          (
            refl,
            (
              refl,
              (
                refl,
                (
                  refl,
                  (
                    refl,
                    (
                      refl,
                      (
                        refl,
                        (refl, (refl, (refl, (refl, (refl, (refl, (refl, (refl, (refl, tt))))))))),
                      ),
                    ),
                  ),
                ),
              ),
            ),
          ),
        ),
      ),
    ),
  ),
)

pub chosen_action-standard :
    (w : World) (prev : Option CaseStatus) (status : CaseStatus)
    → IsStandard w
    → is_no_action (action_for_status status) ≡ false
    → chosen_action w prev status ≡ action_for_status status
unfolding chosen_action
chosen_action-standard w none status s h = refl
chosen_action-standard w (some prev) status (inl b) h = ground arith
chosen_action-standard w (some prev) status (inr b) h =
    by_declared (action_for-Declared default_fsm_blueprint prev status default-ActsByText)
  where
    by_declared :
        Declared status (action_for default_fsm_blueprint prev status)
        → chosen_action w (some prev) status ≡ action_for_status status
    by_declared (inl e) = ground arith
    by_declared (inr e) = ground (arith, action_for_status-text status h)

dispatch-StepAdvances :
    (w : World) (c : DecisionCase) (prev : Option CaseStatus) (status : CaseStatus) (st : State)
    → IsStandard w
    → Ready status st
    → StepAdvances status st (dispatch w c prev status st)
unfolding dispatch
dispatch-StepAdvances w c prev status st s h =
    elim (Bool-cases (is_no_action (action_for_status status))) [
      | inl e ↦ ground arith
      | inr e ↦
          rw (e, chosen_action-standard w prev status s e) (run_action-StepAdvances w c status st h)
    ]

-- The ending is not that of the fuel.
abbrev Finished : Ending → Type 0
Finished e = e ≢ out_of_fuel

abbrev Ends : Run → Type 0
Ends r = Finished r.ending

error-Finished : (e : GoError) → Finished (returned_error e)
error-Finished e = ground arith

returned-Finished : (r : Option Resolution) → Finished (returned r)
returned-Finished r = ground arith

steps-Gives :
    (status : CaseStatus) (st : State) (r : StepResult) (again : CaseStatus → State → Run)
    → StepAdvances status st r
    → ((next : CaseStatus) (later : State)
        → measure next later < measure status st
        → Ready next later
        → Ends (again next later))
    → Gives Finished error-Finished (returned-Finished none) r again
steps-Gives status st panicked again a k = ground arith
steps-Gives status st (erred e) again a k = tt
steps-Gives status st (moved next done later) again (inl t) k =
    (returned-Finished later.resolution, λ f. absurd (ground (arith, t, f)))
steps-Gives status st (moved next done later) again (inr (m, r)) k =
    (returned-Finished later.resolution, λ f. k next later m r)

run_from-Ends :
    (w : World) (fuel : ℕ) (c : DecisionCase) (prev : Option CaseStatus) (status : CaseStatus)
    (st : State)
    → IsStandard w
    → Ready status st
    → measure status st < fuel
    → Ends (run_from w fuel c prev status st)
unfolding run_from
run_from-Ends w zero c prev status st s r m = absurd (omega arith)
run_from-Ends w (suc fuel) c prev status st s r m = elim (Bool-cases (violates w prev status)) [
  | inl h ↦ rw h (
      failing-ending Finished error-Finished (returned-Finished none) w c st.round
        (plain "fsm blueprint violation"))
  | inr h ↦ rw h (
      after_dispatch-ending Finished error-Finished (returned-Finished none) w c status st
        (dispatch w c prev status st) _
        (steps-Gives status st (dispatch w c prev status st) _
          (dispatch-StepAdvances w c prev status st s r)
          (λ next later near ready.
            run_from-Ends w fuel (record c { status = next }) (some status) next later s ready
              (omega (arith, m, near)))))
]

initial_state-Ready : (c : DecisionCase) (s : CaseStatus) → Ready s (initial_state c)
initial_state-Ready c debating = omega arith
initial_state-Ready c reflecting = omega arith
initial_state-Ready c revoting = omega arith
initial_state-Ready c _ = tt

measure-bound : (s : CaseStatus) (st : State) → measure s st ≤ 12 + 4 * round_limit st
measure-bound s st = ground arith

replay_settled-Ends :
    (w : World) (replay : Replay) (s : CaseStatus) → Ends (replay_settled w replay s)
unfolding replay_settled
replay_settled-Ends w replay s = ground arith

-- The number of iterations that is enough for every case.
abbrev pub enough_fuel : DecisionCase → ℕ
enough_fuel c = 13 + 4 * round_limit (initial_state c)

-- Without a blueprint or with the default one, and with at least 13 + 4 * (2 + max(rounds, 0))
-- iterations, where rounds is the case's limit of debate rounds (1 if it is 0), `orchestrate` ends
-- from every status of the case, whatever the agents, the commander and the repositories answer.
pub orchestrate-ends :
    (w : World) (replay : Replay) (fuel : ℕ) (c : DecisionCase)
    → IsStandard w
    → enough_fuel c ≤ fuel
    → (orchestrate w replay fuel c).ending ≢ out_of_fuel
unfolding orchestrate
orchestrate-ends w replay fuel c s m =
    if-ending Finished (is_durable w.owner && is_settled) _ _ (replay_settled-Ends w replay status)
      (if-ending Finished (status_eq status resolved && has_stored_resolution w replay) _ _
        (ground arith)
        (if-ending Finished (status_eq status deadlocked) _ _ (ground arith) (
          if-ending Finished (is_stopped status) _ _ (ground arith) (
            run_from-Ends w fuel c none status (initial_state c) s (initial_state-Ready c status)
              (omega (arith, m, measure-bound status (initial_state c)))))))
  where
    status : CaseStatus
    status = start_status c.status

    is_settled : Bool
    is_settled = status_eq status resolved || status_eq status deadlocked
