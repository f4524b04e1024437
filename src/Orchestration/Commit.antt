-- ===== src/Orchestration/Commit.antt =====
-- `advanceStatus`, `commitTerminal`, `confirmCurrentStatus`, `isNormalTerminal`, `fail` and
-- `isPublicTerminalCaseStatus` of backend/domain/orchestration/orchestrator.go.
-- The repositories are parameters: which interfaces they implement, and what each call answers for
-- the target status and the round at which it is made. What the code does to them is a list of
-- effects. Metrics, logs and live fan-out are left out.
pub mod Laws
use magi_system.Prelude.{
  ℕ, ℤ, pos, ltb_ℤ, leb_ℤ, String, Bool, true, false, not, ◌&&◌, ◌||◌, Option, none, some, List, [],
  ◌∷◌, ◌++◌, GoError, lease_lost, commit_outcome_unknown, plain, wrapped, errors_is, str_eq,
  if◌then◌else◌, is_empty,
}
use magi_system.Entity.Case.{
  CaseStatus, draft, resolved, memory_indexed, failed, cancelled, timed_out, insufficient_evidence,
  deadlocked, unknown_status, ExecutionContext, is_durable,
}

-- What a conditional write answers: it took place; the row was not in an expected state; an error
-- before anything was written; or `ErrCommitOutcomeUnknown` of backend/domain/port/repository.go, with
-- the text around it: COMMIT was attempted and could not be confirmed, and the Boolean, which the
-- caller does not see, tells whether it took effect.
pub data Answer : Type 0 where
  done not_current : Answer
  broken : GoError → Answer
  unconfirmed : Bool → String → Answer

abbrev pub Call : Type 0
Call = CaseStatus → ℕ → Answer

pub record OwnedCommitter : Type 0 where
  pub commit_status_owned : Call
  pub commit_terminal_owned : Call

-- `none` where the interface is not implemented.
pub record Ports : Type 0 where
  pub has_repo : Bool
  pub has_case_repo : Bool
  pub owned_committer : Option OwnedCommitter
  pub status_committer : Option Call
  pub terminal_committer : Option Call
  pub conditional_writer : Option Call
  -- The plain `UpdateStatus`, and `Publish` of a status or completion event.
  pub update_status : CaseStatus → ℕ → Option GoError
  pub publish : CaseStatus → ℕ → Option GoError
  pub repo_allows_non_atomic : Bool
  pub case_repo_allows_non_atomic : Bool
  -- `verifyResolutionArtifacts`, and `ResolutionRepo().Create`.
  pub verify_artifacts : Option GoError
  pub create_resolution : Option GoError

pub data Effect : Type 0 where
  -- The status and its event, and at the end the resolution, in one transaction.
  committed : CaseStatus → Effect
  -- The status alone.
  status_written : CaseStatus → Effect
  resolution_created : Effect
  event_published : CaseStatus → Effect

pub record DecisionCase : Type 0 where
  pub id : String
  pub status : CaseStatus
  pub execution_generation : ℤ
  pub execution_attempt : ℤ
  pub max_debate_rounds : ℤ

-- A step on the repositories: what took effect there, and its error.
pub record Wrote : Type 0 where
  pub effects : List Effect
  pub err : Option GoError

abbrev pub fails_with : GoError → Wrote
fails_with e = record { effects = []; err = some e }

abbrev pub succeeds : List Effect → Wrote
succeeds es = record { effects = es; err = none }

-- `if err != nil { return err }; if !committed { return ErrLeaseLost }`
abbrev pub after : Answer → List Effect → Wrote
after done es = succeeds es
after not_current es = fails_with lease_lost
after (broken e) es = fails_with e
after (unconfirmed took_effect text) es = record {
  effects = if took_effect then es else [];
  err = some (wrapped text commit_outcome_unknown);
}

-- The statuses that a transition may not leave.
abbrev pub is_fenced : CaseStatus → Bool
is_fenced cancelled = true
is_fenced failed = true
is_fenced timed_out = true
is_fenced _ = false

-- The compare-and-set list of `advanceStatus`.
unfoldable pub expected_statuses : List CaseStatus → List CaseStatus
expected_statuses [] = []
expected_statuses (draft ∷ from) = draft ∷ (unknown_status "" ∷ expected_statuses from)
expected_statuses (s ∷ from) =
    let rest = expected_statuses from in if is_fenced s then rest else s ∷ rest

abbrev generation_of : Option ExecutionContext → ℤ
generation_of none = pos 0
generation_of (some e) = e.generation

abbrev pub eq_ℤ : ℤ → ℤ → Bool
eq_ℤ a b = leb_ℤ a b && leb_ℤ b a

-- `case_.ExecutionGeneration > 0 || (owner != nil && owner.ExecutionGeneration > 0)`
unfoldable pub is_owned_run : DecisionCase → Option ExecutionContext → Bool
is_owned_run c owner = ltb_ℤ (pos 0) c.execution_generation || ltb_ℤ (pos 0) (generation_of owner)

-- The owner is durable and is the owner of this case and generation.
unfoldable pub owns_case : Option ExecutionContext → DecisionCase → Bool
unfolding is_durable
owns_case none c = false
owns_case (some e) c =
    is_durable (some e) && (str_eq e.case_id c.id && eq_ℤ e.generation c.execution_generation)

-- A plain status write, then the event.
abbrev then_publish : Ports → CaseStatus → ℕ → List Effect → Wrote
then_publish ports to round es = elim (ports.publish to round) [
  | some e ↦ record { effects = es; err = some e }
  | none ↦ succeeds (es ++ event_published to ∷ [])
]

-- The unfenced path of `advanceStatus`.
unfoldable pub write_status : Ports → CaseStatus → ℕ → Wrote
write_status ports to round =
    if ports.has_case_repo
    then elim (ports.conditional_writer) [
      | some call ↦ after (call to round) (status_written to ∷ [])
      | none ↦ elim (ports.update_status to round) [
        | some e ↦ fails_with e
        | none ↦ succeeds (status_written to ∷ [])
      ]
    ]
    else succeeds []

abbrev and_then : Wrote → (List Effect → Wrote) → Wrote
and_then w k = elim (w.err) [ some e ↦ w | none ↦ k w.effects ]

-- `advanceStatus`; on success the in-memory status is the target as well.
unfoldable pub advance_status :
    Ports → DecisionCase → List CaseStatus → CaseStatus → ℕ → Option ExecutionContext → Wrote
unfolding expected_statuses is_owned_run owns_case write_status
advance_status ports c from to round owner =
    if is_empty (expected_statuses from)
    then fails_with lease_lost
    else if is_owned_run c owner
    then elim (ports.owned_committer) [
      | none ↦ fails_with lease_lost
      | some oc ↦
          if owns_case owner c
          then after (oc.commit_status_owned to round) (committed to ∷ [])
          else fails_with lease_lost
    ]
    else elim (ports.status_committer) [
      | some call ↦ after (call to round) (committed to ∷ [])
      | none ↦ and_then (write_status ports to round) (λ es. then_publish ports to round es)
    ]

-- `confirmCurrentStatus`
unfoldable pub confirm_current_status : Ports → CaseStatus → ℕ → Wrote
unfolding write_status
confirm_current_status ports to round = write_status ports to round

abbrev refused_text : GoError
refused_text = plain "refusing to commit the outcome non-atomically"

abbrev create_then_publish : Ports → Bool → CaseStatus → ℕ → List Effect → Wrote
create_then_publish ports has_resolution to round es =
    if has_resolution
    then elim (ports.create_resolution) [
      | some e ↦ record { effects = es; err = some (wrapped "persist resolution" e) }
      | none ↦ then_publish ports to round (es ++ resolution_created ∷ [])
    ]
    else then_publish ports to round es

-- The path without any transaction.
unfoldable pub commit_non_atomic : Ports → Bool → CaseStatus → ℕ → Wrote
unfolding confirm_current_status
commit_non_atomic ports has_resolution to round =
    if ports.has_repo
    then if ports.repo_allows_non_atomic
      then elim (if has_resolution then ports.verify_artifacts else none) [
        | some e ↦ fails_with e
        | none ↦
            and_then (confirm_current_status ports to round)
              (λ es. create_then_publish ports has_resolution to round es)
      ]
      else fails_with refused_text
    else if ports.has_case_repo
    then if ports.case_repo_allows_non_atomic
      then confirm_current_status ports to round
      else fails_with refused_text
    else succeeds []

-- `commitTerminal`
unfoldable pub commit_terminal :
    Ports → DecisionCase → CaseStatus → ℕ → Bool → Option ExecutionContext → Wrote
unfolding is_owned_run owns_case commit_non_atomic
commit_terminal ports c to round has_resolution owner =
    if is_owned_run c owner
    then elim (ports.owned_committer) [
      | none ↦ fails_with lease_lost
      | some oc ↦
          if owns_case owner c
          then after (oc.commit_terminal_owned to round) (committed to ∷ [])
          else fails_with lease_lost
    ]
    else elim (ports.terminal_committer) [
      | some call ↦ after (call to round) (committed to ∷ [])
      | none ↦ commit_non_atomic ports has_resolution to round
    ]

unfoldable pub is_normal_terminal : CaseStatus → Bool
is_normal_terminal resolved = true
is_normal_terminal deadlocked = true
is_normal_terminal _ = false

unfoldable pub is_public_terminal : CaseStatus → Bool
is_public_terminal resolved = true
is_public_terminal memory_indexed = true
is_public_terminal failed = true
is_public_terminal cancelled = true
is_public_terminal timed_out = true
is_public_terminal insufficient_evidence = true
is_public_terminal deadlocked = true
is_public_terminal _ = false

-- `fail`: the cause, or the error that takes its place; the case is marked failed only by `none` of
-- the guards.
unfoldable pub fail : Ports → DecisionCase → ℕ → GoError → Wrote
unfolding is_public_terminal commit_terminal
fail ports c round cause =
    let managed = ltb_ℤ (pos 0) c.execution_attempt || ltb_ℤ (pos 0) c.execution_generation in
    if is_public_terminal c.status
    then if managed then fails_with cause else fails_with lease_lost
    else if managed
    then fails_with cause
    else elim ((commit_terminal ports c failed round false none).err) [
      | some e ↦ commit_terminal ports c failed round false none
      | none ↦ record {
        effects = (commit_terminal ports c failed round false none).effects;
        err = some cause;
      }
    ]
