-- ===== src/Orchestration/Examples.antt =====
-- The theorems on the orchestration at a case of three agents.
use magi_system.Prelude.{
  pos, true, false, Option, none, some, List, [], ◌∷◌, ◌≡◌, ◌≢◌, ◌⊎◌, inl, inr, refl, length, plain,
  ltb_ℤ, count_of, arith, ap,
}
use magi_system.Entity.Vote.{Vote, VoteDecision, reject, approve, abstain, decision_eq}
use magi_system.Entity.Resolution.{majority_approval_with_dissent, Dissent}
use magi_system.Entity.Evidence.{maintain}
use magi_system.Entity.Case.{draft, resolved, consensus_check, debating}
use magi_system.Consensus.Engine.{
  default_consensus_policy, evaluate_ballots, evaluate_valid, count_and_classify, count_votes,
  classify,
}
use magi_system.Consensus.Counts.{all_valid}
use magi_system.Runtime.Result.{LoopResult}
use magi_system.Evidence.Ledger.{EvidenceLedger, new_evidence_ledger, record_evidence, evidence_id}
use magi_system.Prelude.Dict.{insert}
use magi_system.Orchestration.Ballots.{collect_ballots, deref_votes, ballot}
use magi_system.Orchestration.Ballots as Ballots
use magi_system.Orchestration.Ballots.Laws.{
  Accounts, AllCompleted, collect_ballots-Accounts, decision_needs_all_agents,
}
use magi_system.Orchestration.Dissent.{final_decision, dissent, dissents, extract_checked_dissent}
use magi_system.Orchestration.Dissent.Laws.{extract_checked_dissent_complete}
use magi_system.Orchestration.Commit.{
  is_public_terminal, advance_status, commit_terminal, fail, is_owned_run,
}
use magi_system.Orchestration.Commit.Laws.{
  AtomicByOwner, advance_status-AtomicByOwner, commit_terminal-AtomicByOwner, fail-guarded,
}
use magi_system.Orchestration.Enforce.{enforce_one, enforce_reflection_rule}
use magi_system.Orchestration.Enforce.Laws.{
  FairRound, NewEvidence, enforce_reflection_rule-FairRound, enforce_one-NewEvidence,
}
use magi_system.Orchestration.Machine.{orchestrate, dispatch, initial_state, out_of_fuel}
use magi_system.Orchestration.Machine.Laws.{orchestrate-ends}
use magi_system.Orchestration.Machine.Safety.{Safe, orchestrate-Safe}
use magi_system.Orchestration.Machine.Edges.{Follows, dispatch-Follows}
use magi_system.Samples.{
  approval, rejection, result_of, approving, rejecting, config_of, three_agents, reflection_of,
  observed, no_ports, owned_ports, owner, draft_case, owned_case, world, no_replay,
}

orchestrate-Safe_example : Safe world (orchestrate world no_replay 40 draft_case).ending
orchestrate-Safe_example = orchestrate-Safe world no_replay 40 draft_case (inr refl) refl

orchestrate-ends_example : (orchestrate world no_replay 40 draft_case).ending ≢ out_of_fuel
orchestrate-ends_example = orchestrate-ends world no_replay 40 draft_case (inr refl) (omega arith)

dispatch-Follows_example :
    Follows consensus_check
      (dispatch world draft_case none consensus_check (initial_state draft_case))
dispatch-Follows_example =
    dispatch-Follows world draft_case none consensus_check (initial_state draft_case) (inr refl)

abbrev results : List (Option LoopResult)
results = approving ∷ rejecting ∷ approving ∷ []

collect_ballots-Accounts_example : Accounts 3 (collect_ballots three_agents results)
collect_ballots-Accounts_example = collect_ballots-Accounts three_agents results

decision_needs_all_agents_example : AllCompleted results
unfolding evaluate_ballots evaluate_valid count_and_classify count_votes classify collect_ballots
    deref_votes Ballots.classify
decision_needs_all_agents_example =
    decision_needs_all_agents three_agents results 1 default_consensus_policy (inl refl)

abbrev slots : List (Option Vote)
slots = some approval ∷ some rejection ∷ some approval ∷ []

extract_checked_dissent_complete_example :
    (ds : List Dissent) × (extract_checked_dissent three_agents
        (final_decision majority_approval_with_dissent)
        slots
      ≡ dissent (some ds))
    × (length ds
        ≡ count_of (dissents (final_decision majority_approval_with_dissent)) (deref_votes slots))
unfolding deref_votes all_valid
extract_checked_dissent_complete_example =
    extract_checked_dissent_complete three_agents majority_approval_with_dissent slots
      (ground arith) (refl, (refl, (refl, tt))) (omega arith) refl

advance_status-AtomicByOwner_example :
    AtomicByOwner owned_case
      (some owner)
      debating
      (advance_status owned_ports owned_case (consensus_check ∷ []) debating 1 (some owner))
unfolding is_owned_run
advance_status-AtomicByOwner_example =
    advance_status-AtomicByOwner owned_ports owned_case (consensus_check ∷ []) debating 1
      (some owner) refl

commit_terminal-AtomicByOwner_example :
    AtomicByOwner owned_case
      (some owner)
      resolved
      (commit_terminal owned_ports owned_case resolved 1 true (some owner))
unfolding is_owned_run
commit_terminal-AtomicByOwner_example =
    commit_terminal-AtomicByOwner owned_ports owned_case resolved 1 true (some owner) refl

fail-guarded_example :
    ((fail no_ports draft_case 1 (plain "no")).err ≢ none)
    × (((fail no_ports draft_case 1 (plain "no")).effects ≡ [])
        ⊎ ((is_public_terminal draft ≡ false)
            × (ltb_ℤ (pos 0) (pos 0) ≡ false)
            × (ltb_ℤ (pos 0) (pos 0) ≡ false)))
fail-guarded_example = fail-guarded no_ports draft_case 1 (plain "no")

enforce_reflection_rule-FairRound_example :
    FairRound slots
      (some approval ∷ some approval ∷ some approval ∷ [])
      results
      three_agents
      1
      (enforce_reflection_rule slots
        (some approval ∷ some approval ∷ some approval ∷ [])
        results
        three_agents
        1).votes
enforce_reflection_rule-FairRound_example =
    enforce_reflection_rule-FairRound slots (some approval ∷ some approval ∷ some approval ∷ [])
      results three_agents 1

abbrev ledger : EvidenceLedger
ledger = (record_evidence (new_evidence_ledger "case-1" "run-1" "MELCHIOR") observed).0

-- The new vote is for, where the old one was against, and cites the record.
abbrev informed : Option LoopResult
informed = some (result_of approval none (some ledger))

abbrev decision_in : Option Vote → VoteDecision
decision_in none = abstain
decision_in (some v) = v.decision

kept_new :
    (enforce_one
      (some (config_of magi_system.Entity.Vote.melchior))
      informed
      (some rejection)
      (some approval)
      1).vote
    ≢ some rejection
unfolding enforce_one record_evidence new_evidence_ledger insert evidence_id
kept_new e = absurd (ground (arith, ap decision_in e))

enforce_one-NewEvidence_example : NewEvidence informed rejection approval
unfolding decision_eq
enforce_one-NewEvidence_example =
    enforce_one-NewEvidence (config_of magi_system.Entity.Vote.melchior) informed rejection approval
      1 refl refl refl kept_new

-- The vote has changed, and the agent says that it has not.
abbrev stubborn : Option LoopResult
stubborn = some (result_of approval (some (reflection_of maintain [])) none)
