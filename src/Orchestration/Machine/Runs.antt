-- ===== src/Orchestration/Machine/Runs.antt =====
-- A property of endings through the writes and the branches of the loop.
use magi_system.Prelude.{
  ℕ, Bool, true, false, ◌||◌, ◌++◌, none, some, [], ◌≡◌, inl, inr, if◌then◌else◌, Bool-cases,
  GoError, lease_lost, commit_outcome_unknown, errors_is,
}
use magi_system.Entity.Case.{CaseStatus, status_eq}
use magi_system.Orchestration.Commit.{Wrote, DecisionCase, is_normal_terminal, fail}
use magi_system.Orchestration.Steps.{World, State, StepResult, moved, erred, panicked}
use magi_system.Orchestration.Machine.{
  Run, Ending, crashed, returned, returned_error, after_dispatch, if_written, failing,
  return_resolution,
}

module _ (P : Ending → Type 0) where
  pub if-ending : (b : Bool) (x y : Run) → P x.ending → P y.ending → P (if b then x else y).ending
  if-ending true x y h k = h
  if-ending false x y h k = k

  module _ (error-P : (e : GoError) → P (returned_error e)) (none-P : P (returned none)) where
    pub if_written-ending : (w : Wrote) (next : Run) → P next.ending → P (if_written w next).ending
    if_written-ending w next h =
        elim (w.err)
          as (λ e.
            P
              (elim e as (λ x. Run) [
                | some err ↦ record { effects = w.effects; ending = returned_error err }
                | none ↦ record next { effects = w.effects ++ next.effects }
              ]).ending) [ some e ↦ error-P e | none ↦ h ]

    pub failing-ending :
        (w : World) (c : DecisionCase) (round : ℕ) (cause : GoError)
        → P (failing w c round cause).ending
    failing-ending w c round cause =
        if_written-ending (fail w.ports c round cause)
          (record { effects = []; ending = returned none }) none-P

    -- What the result of a step must give for the property of the run.
    abbrev pub Gives : StepResult → (CaseStatus → State → Run) → Type 0
    Gives panicked again = P crashed
    Gives (erred e) again = Unit
    Gives (moved next done later) again =
        P (returned later.resolution)
        × (is_normal_terminal next ≡ false → P (again next later).ending)

    pub after_dispatch-ending :
        (w : World) (c : DecisionCase) (status : CaseStatus) (st : State) (r : StepResult)
        (again : CaseStatus → State → Run)
        → Gives r again
        → P (after_dispatch w c status st r again).ending
    unfolding after_dispatch
    after_dispatch-ending w c status st panicked again g = g
    after_dispatch-ending w c status st (erred e) again g =
        if-ending (errors_is e lease_lost || errors_is e commit_outcome_unknown) _ _ (error-P e)
          (failing-ending w c st.round e)
    after_dispatch-ending w c status st (moved next done later) again (ret, go) =
        elim (Bool-cases (is_normal_terminal next)) [
          | inl t ↦ rw t (if_written-ending _ (return_resolution later) ret)
          | inr f ↦ rw f (
              if-ending done _ _
                (if-ending (status_eq next status) _ _ ret
                  (if_written-ending _ (return_resolution later) ret))
                (if_written-ending _ (again next later) (go f)))
        ]
