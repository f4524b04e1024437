-- ===== src/Orchestration/Machine/Safety.antt =====
-- What a resolution that a run returns rests on, and that a run which starts as a draft reads no nil
-- pointer.
use magi_system.Prelude.{ℕ, zero, suc, Option, none, some, ◌≡◌, inl, inr, Bool-cases, plain}
use magi_system.Entity.Case.{CaseStatus, draft, status_eq, status_text, is_durable}
use magi_system.Orchestration.Commit.{DecisionCase}
use magi_system.Orchestration.Steps.{World, State, StepResult, moved, erred, panicked}
use magi_system.Orchestration.Machine.{
  dispatch, Run, Ending, crashed, returned, violates, run_from, initial_state, orchestrate, Replay,
  start_status,
}
use magi_system.Orchestration.Machine.Backing.{AllBacked}
use magi_system.Orchestration.Machine.Runs.{Gives, if-ending, failing-ending, after_dispatch-ending}
use magi_system.Orchestration.Machine.Laws.{IsStandard}
use magi_system.Orchestration.Machine.Sound.{Sound, StepSound, Sound-AllBacked, dispatch-StepSound}

-- The run did not crash, and a resolution that it returned is backed.
abbrev pub Safe : World → Ending → Type 0
Safe w crashed = ⊥
Safe w (returned res) = AllBacked w res
Safe w _ = Unit

steps-Gives :
    (w : World) (r : StepResult) (again : CaseStatus → State → Run)
    → StepSound w r
    → ((next : CaseStatus) (later : State) → Sound w next later → Safe w (again next later).ending)
    → Gives (Safe w) (λ e. tt) tt r again
steps-Gives w panicked again a k = a
steps-Gives w (erred e) again a k = tt
steps-Gives w (moved next done later) again a k =
    (Sound-AllBacked w next later a, λ f. k next later a)

run_from-Safe :
    (w : World) (fuel : ℕ) (c : DecisionCase) (prev : Option CaseStatus) (s : CaseStatus)
    (st : State)
    → IsStandard w
    → Sound w s st
    → Safe w (run_from w fuel c prev s st).ending
unfolding run_from
run_from-Safe w zero c prev s st std h = tt
run_from-Safe w (suc fuel) c prev s st std h =
    if-ending (Safe w) (violates w prev s) _ _
      (failing-ending (Safe w) (λ e. tt) tt w c st.round (plain "fsm blueprint violation"))
      (after_dispatch-ending (Safe w) (λ e. tt) tt w c s st (dispatch w c prev s st) _
        (steps-Gives w (dispatch w c prev s st) _ (dispatch-StepSound w c prev s st std h)
          (λ next later sound.
            run_from-Safe w fuel (record c { status = next }) (some s) next later std sound)))

-- Without a blueprint or with the default one, a run of a draft never reads a nil task or resolution.
-- If it returns a resolution, its final decision is the one of its consensus. An approval or a
-- rejection rests on results that the agents gave in a dispatch or a reconsideration, in which no
-- agent is absent, and on the ballots in the consensus: there is one for each result, all are valid,
-- the winning side outnumbers the other, the quorum is met, and the winning side has two ballots or
-- all.
pub orchestrate-Safe :
    (w : World) (replay : Replay) (fuel : ℕ) (c : DecisionCase)
    → IsStandard w
    → c.status ≡ draft
    → Safe w (orchestrate w replay fuel c).ending
unfolding orchestrate start_status status_eq status_text
orchestrate-Safe w replay fuel c std d = elim (Bool-cases (is_durable w.owner)) [
  | inl e ↦
      rw (d, e)
        (run_from-Safe w fuel (record c { status = draft }) none draft (initial_state c) std tt)
  | inr e ↦
      rw (d, e)
        (run_from-Safe w fuel (record c { status = draft }) none draft (initial_state c) std tt)
]
