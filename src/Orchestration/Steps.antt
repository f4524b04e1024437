-- ===== src/Orchestration/Steps.antt =====
-- backend/domain/orchestration/steps.go: the shared state and one function for each action, with
-- `retryFailedAgents` and `shouldDebate` of orchestrator.go. Models, tools and repositories are the
-- answers of a parameter, at the round and phase of the call. Events whose errors the code ignores,
-- memory projection, evaluation and the text of the report are left out.
use Prim.Native.String.{◌++◌ as text_append}
use magi_system.Prelude.{
  ℕ, zero, suc, ◌+◌, ℤ, pos, pos_part, ltb_ℤ, String, Bool, true, false, ◌&&◌, not, Option, none,
  some, List, [], ◌∷◌, ◌++◌, length, is_empty, ltb, ◌==◌, if◌then◌else◌, GoError, plain, wrapped,
  agent_failed,
}
use magi_system.Entity.Vote.{Vote, AgentAbsence}
use magi_system.Entity.Resolution.{
  ConsensusOutcome, strong_approval, strong_rejection, majority_approval_with_dissent,
  majority_rejection_with_dissent, deadlock, insufficient_quorum, conditional, incomplete,
  no_outcome, ConsensusResult, Resolution,
}
use magi_system.Entity.Evidence.{EvidenceRecord, Claim, Reflection}
use magi_system.Entity.Case.{
  CaseStatus, normalizing, context_building, retrieving_memory, investigating, evidence_gating,
  collecting_votes, consensus_check, resolving, generating_report, saving_memory, evaluating,
  debating, reflecting, revoting, resolved, deadlocked, ExecutionContext,
}
use magi_system.Evidence.Ledger.{list, list_claims}
use magi_system.Consensus.Engine.{ConsensusPolicy, evaluate_ballots}
use magi_system.Runtime.Result.{LoopResult}
use magi_system.Fsm.{StateTransition}
use magi_system.Orchestration.Ballots.{
  MagiConfig, collect_ballots, deref_votes, vote_ids, is_completed,
}
use magi_system.Orchestration.Dissent.{
  final_decision, Extracted, dissent, refused, extract_checked_dissent,
}
use magi_system.Orchestration.Enforce.{enforce_reflection_rule}
use magi_system.Orchestration.Commit.{Ports, DecisionCase}
use magi_system.Orchestration.Remap.{
  ArtifactRemap, Phase, investigate, reconsider, Namespaced, namespace_artifacts,
  new_artifact_remap, merge_remaps, remap_list,
}

-- What the orchestrator was built with, and what its collaborators answer.
pub record World : Type 0 where
  pub ports : Ports
  pub owner : Option ExecutionContext
  pub blueprint : Option (List StateTransition)
  pub configs : List MagiConfig
  pub policy : ConsensusPolicy
  -- `failPolicy.Mode == "fail_case"`, and `failPolicy.RetryLimit`.
  pub fail_case : Bool
  pub retry_limit : ℤ
  -- `commander.Normalize` and `commander.GenerateReport`.
  pub normalize : Option GoError
  pub report : Option GoError
  -- The results of the agents: a dispatch of a round, and one retry of one agent.
  pub dispatch : ℕ → List (Option LoopResult)
  pub dispatch_reconsider : ℕ → List (Option LoopResult) → List (Option LoopResult)
  pub retry : Phase → ℕ → ℕ → ℕ → Option LoopResult
  -- The error of the first write that fails, if one does.
  pub persist_artifacts : Phase → ℕ → Option GoError
  pub persist_debate_round : ℕ → Option GoError
  pub persist_reflections : ℕ → List Reflection → Option GoError

pub record State : Type 0 where
  pub max_debate : ℤ
  -- Whether `Task` is set.
  pub has_task : Bool
  pub round : ℕ
  pub results : List (Option LoopResult)
  pub votes : List (Option Vote)
  pub absences : List AgentAbsence
  pub consensus : ConsensusResult
  pub resolution : Option Resolution
  pub remaps : List ArtifactRemap

-- The three results of a handler, with the state after it; or a nil pointer that it read.
pub data StepResult : Type 0 where
  panicked : StepResult
  moved : CaseStatus → Bool → State → StepResult
  erred : GoError → StepResult

-- The attempts left for one agent, from attempt number `attempt` on.
unfoldable pub attempts : (ℕ → Option LoopResult) → ℕ → ℕ → Option LoopResult → Option LoopResult
unfolding is_completed
attempts retry zero attempt current = current
attempts retry (suc left) attempt current =
    let later = attempts retry left (suc attempt) (retry attempt) in
    if is_completed (retry attempt) then retry attempt else later

-- The loop over the results from index `i` on; agents without a configuration are left alone.
unfoldable pub retry_from :
    World → Phase → ℕ → ℕ → List (Option LoopResult) → List (Option LoopResult)
unfolding attempts
retry_from w phase round i [] = []
retry_from w phase round i (r ∷ rs) =
    let rest = retry_from w phase round (suc i) rs in
    if is_completed r
    then r ∷ rest
    else if ltb i (length w.configs)
    then attempts (w.retry phase round i) (pos_part w.retry_limit) 1 r ∷ rest
    else r ∷ rest

unfoldable pub retry_failed_agents :
    World → Phase → ℕ → List (Option LoopResult) → List (Option LoopResult)
unfolding retry_from
retry_failed_agents w phase round results =
    if ltb_ℤ (pos 0) w.retry_limit then retry_from w phase round 0 results else results

unfoldable pub should_debate : ConsensusPolicy → ℕ → ℤ → Bool
should_debate policy round max_debate =
    if round == 1 && policy.first_split_goes_to_debate then true else ltb_ℤ (pos round) max_debate

unfoldable pub step_start : State → StepResult
step_start st = moved normalizing false st

unfoldable pub step_normalize : World → State → StepResult
step_normalize w st = elim (w.normalize) [
  | some e ↦ erred (wrapped "normalize" e)
  | none ↦ moved context_building false (record st { has_task = true })
]

unfoldable pub step_build_context : State → StepResult
step_build_context st = if st.has_task then moved retrieving_memory false st else panicked

unfoldable pub step_retrieve_memory : State → StepResult
step_retrieve_memory st = moved investigating false st

unfoldable pub step_investigate : World → State → StepResult
step_investigate w st =
    moved evidence_gating false
      (record st { results = retry_failed_agents w investigate st.round (w.dispatch st.round) })

unfoldable pub step_gate_evidence : State → StepResult
step_gate_evidence st = moved collecting_votes false st

-- What the ballots and the remap of a phase are after they have been stored.
abbrev pub stored : World → DecisionCase → Phase → State → List (Option Vote) → Namespaced
stored w c phase st votes =
    namespace_artifacts c.id c.execution_generation w.configs st.round phase w.ports.has_repo
      st.results votes

unfoldable pub step_collect_votes : World → DecisionCase → State → StepResult
step_collect_votes w c st =
    let b = collect_ballots w.configs st.results in
    let n = stored w c investigate st b.votes in
    if w.fail_case && not (is_empty b.absences)
    then erred (wrapped "agent failed" agent_failed)
    else elim (w.persist_artifacts investigate st.round) [
      | some e ↦ erred e
      | none ↦
          moved consensus_check false (record st {
            votes = n.votes;
            absences = b.absences;
            remaps = st.remaps ++ n.remap ∷ [];
          })
    ]

-- The switch on the outcome.
unfoldable pub after_consensus : World → State → ConsensusOutcome → StepResult
unfolding should_debate
after_consensus w st strong_approval = moved resolving false st
after_consensus w st strong_rejection = moved resolving false st
after_consensus w st conditional = moved resolving false st
after_consensus w st majority_approval_with_dissent =
    if should_debate w.policy st.round st.max_debate
    then moved debating false st
    else moved resolving false st
after_consensus w st majority_rejection_with_dissent =
    if should_debate w.policy st.round st.max_debate
    then moved debating false st
    else moved resolving false st
after_consensus w st no_outcome = erred (plain "unrecognised consensus outcome")
after_consensus w st incomplete = erred (plain "incomplete vote")
after_consensus w st deadlock = moved deadlocked false st
after_consensus w st insufficient_quorum = moved deadlocked false st

-- The consensus over the ballots of the state.
abbrev pub round_consensus : World → State → ConsensusResult
round_consensus w st =
    evaluate_ballots (record { votes = deref_votes st.votes; absences = st.absences }) st.round
      w.policy

unfoldable pub step_check_consensus : World → State → StepResult
unfolding after_consensus
step_check_consensus w st =
    after_consensus w (record st { consensus = round_consensus w st })
      (round_consensus w st).outcome

unfoldable pub step_debate : World → State → StepResult
step_debate w st =
    let next = moved reflecting false (record st {
      results =
          retry_failed_agents w reconsider st.round (w.dispatch_reconsider st.round st.results);
    }) in
    if w.ports.has_repo
    then elim (w.persist_debate_round st.round) [ some e ↦ erred e | none ↦ next ]
    else next

unfoldable pub step_reflect : State → StepResult
step_reflect st = moved revoting false st

-- The ballots are stored before the reflection rule takes unjustified changes back.
unfoldable pub step_revote : World → DecisionCase → State → StepResult
step_revote w c st =
    let b = collect_ballots w.configs st.results in
    let n = stored w c reconsider st b.votes in
    let enforced = enforce_reflection_rule st.votes n.votes st.results w.configs st.round in
    let next = moved consensus_check false (record st {
      votes = enforced.votes;
      absences = b.absences;
      remaps = st.remaps ++ n.remap ∷ [];
      round = st.round + 1;
    }) in
    elim (w.persist_artifacts reconsider st.round) [
      | some e ↦ erred e
      | none ↦
          if w.ports.has_repo
          then elim (w.persist_reflections st.round enforced.reflections) [
            | some e ↦ erred e
            | none ↦ next
          ]
          else next
    ]

abbrev record_ids : List EvidenceRecord → List String
record_ids [] = []
record_ids (e ∷ es) = e.id ∷ record_ids es

abbrev claim_ids : List Claim → List String
claim_ids [] = []
claim_ids (c ∷ cs) = c.id ∷ claim_ids cs

unfoldable pub collect_evidence_ids : List (Option LoopResult) → List String
collect_evidence_ids [] = []
collect_evidence_ids (none ∷ rs) = collect_evidence_ids rs
collect_evidence_ids (some r ∷ rs) =
    elim (r.ledger) [ none ↦ [] | some l ↦ record_ids (list l) ] ++ collect_evidence_ids rs

unfoldable pub collect_claim_ids : List (Option LoopResult) → List String
collect_claim_ids [] = []
collect_claim_ids (none ∷ rs) = collect_claim_ids rs
collect_claim_ids (some r ∷ rs) =
    elim (r.ledger) [ none ↦ [] | some l ↦ claim_ids (list_claims l) ] ++ collect_claim_ids rs

-- The resolution of a state, before its dissent record is bound.
abbrev pub resolution_of : DecisionCase → State → Resolution
resolution_of c st =
    let remap = merge_remaps new_artifact_remap st.remaps in
    record {
      id = text_append "res-" c.id;
      case_id = c.id;
      execution_generation = c.execution_generation;
      consensus = record (st.consensus) { round = st.round };
      final_decision = final_decision st.consensus.outcome;
      final_report = "";
      key_evidence_ids = remap_list remap (collect_evidence_ids st.results);
      key_claim_ids = remap_list remap (collect_claim_ids st.results);
      dissent = none;
      vote_ids = vote_ids st.votes;
    }

abbrev pub bind_dissent : State → Resolution → Extracted → StepResult
bind_dissent st res (refused e) = erred (plain "resolve dissent")
bind_dissent st res (dissent ds) =
    moved generating_report false (record st { resolution = some (record res { dissent = ds }) })

unfoldable pub step_resolve : World → DecisionCase → State → StepResult
step_resolve w c st =
    bind_dissent st (resolution_of c st)
      (extract_checked_dissent w.configs (final_decision st.consensus.outcome) st.votes)

-- The text of the report is left out.
unfoldable pub step_generate_report : World → State → StepResult
step_generate_report w st = elim (st.resolution) [
  | none ↦ panicked
  | some res ↦ elim (w.report) [
    | some e ↦ erred (wrapped "report generation" e)
    | none ↦ moved saving_memory false st
  ]
]

unfoldable pub step_save_memory : State → StepResult
step_save_memory st = moved evaluating false st

-- The evaluation that is stored in the resolution is left out.
unfoldable pub step_evaluate : State → StepResult
step_evaluate st = elim (st.resolution) [ none ↦ panicked | some res ↦ moved resolved false st ]

unfoldable pub step_complete : State → StepResult
step_complete st = moved resolved true st

unfoldable pub step_deadlock : State → StepResult
step_deadlock st = moved deadlocked true st
