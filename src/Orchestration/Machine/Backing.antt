-- ===== src/Orchestration/Machine/Backing.antt =====
-- What the outcome of a consensus rests on: the agents' results, and the ballots collected of them.
use magi_system.Prelude.{
  ℕ, true, false, Option, none, some, List, [], ◌≡◌, ◌⊎◌, inl, inr, sym, ◌∙◌, ap, arith, length,
  Bool-cases,
}
use magi_system.Entity.Vote.{Vote}
use magi_system.Entity.Resolution.{ConsensusResult, Resolution}
use magi_system.Runtime.Result.{LoopResult}
use magi_system.Consensus.Engine.{
  ConsensusPolicy, BallotSet, evaluate_ballots, evaluate_valid, count_and_classify, classify,
}
use magi_system.Consensus.Counts.{ayes, nays}
use magi_system.Consensus.Outcome.{
  is_approval, is_rejection, Decides, evaluate_ballots-approval, evaluate_ballots-rejection,
}
use magi_system.Orchestration.Ballots.{collect_ballots, deref_votes}
use magi_system.Orchestration.Dissent.{final_decision}
use magi_system.Orchestration.Machine.Cast.{collect_ballots-length}
use magi_system.Orchestration.Remap.{investigate, reconsider}
use magi_system.Orchestration.Steps.{World, State, retry_failed_agents, round_consensus}

-- Results that the agents gave: those of a dispatch, or of a reconsideration of earlier ones, each
-- with its retries.
pub data Gathered (w : World) : List (Option LoopResult) → Type 0 where
  investigated :
      (round : ℕ) → Gathered w (retry_failed_agents w investigate round (w.dispatch round))
  reconsidered :
      (round : ℕ) {results : List (Option LoopResult)}
      → Gathered w results
      → Gathered w (retry_failed_agents w reconsider round (w.dispatch_reconsider round results))

-- An approval or a rejection rests on results of the agents and on the ballots of the consensus: no
-- agent is absent in the results, there is a ballot for each of them, every ballot is valid, the
-- winning side has the majority, and the quorum is met.
pub data Certified (w : World) (r : ConsensusResult) : Type 0 where
  approves :
      (results : List (Option LoopResult))
      → Gathered w results
      → length r.votes ≡ length results
      → is_approval r.outcome ≡ true
      → Decides w.policy
          (collect_ballots w.configs results).absences
          r.votes
          (ayes w.policy.conditional_as_approve r.votes)
          (nays r.votes)
      → Certified w r
  rejects :
      (results : List (Option LoopResult))
      → Gathered w results
      → length r.votes ≡ length results
      → is_rejection r.outcome ≡ true
      → Decides w.policy
          (collect_ballots w.configs results).absences
          r.votes
          (nays r.votes)
          (ayes w.policy.conditional_as_approve r.votes)
      → Certified w r
  undecided : is_approval r.outcome ≡ false → is_rejection r.outcome ≡ false → Certified w r

-- The consensus is certified, and the final decision is the one of its outcome.
pub record Backed (w : World) (r : Resolution) : Type 0 where
  pub certified : Certified w r.consensus
  pub decided : r.final_decision ≡ final_decision r.consensus.outcome

abbrev pub AllBacked : World → Option Resolution → Type 0
AllBacked w none = Unit
AllBacked w (some r) = Backed w r

evaluate_ballots-votes :
    (b : BallotSet) (round : ℕ) (p : ConsensusPolicy)
    → is_approval (evaluate_ballots b round p).outcome ≡ true
      ⊎ is_rejection (evaluate_ballots b round p).outcome ≡ true
    → (evaluate_ballots b round p).votes ≡ b.votes
unfolding evaluate_ballots evaluate_valid count_and_classify classify
evaluate_ballots-votes b round p h = ground arith

-- As many ballots as were collected of the results.
abbrev AllCast : World → List (Option LoopResult) → List Vote → Type 0
AllCast w results votes =
    length votes ≡ length (deref_votes (collect_ballots w.configs results).votes)

evaluate_ballots-Certified :
    (w : World) (results : List (Option LoopResult)) (b : BallotSet) (round : ℕ)
    → Gathered w results
    → b.absences ≡ (collect_ballots w.configs results).absences
    → AllCast w results b.votes
    → Certified w (evaluate_ballots b round w.policy)
evaluate_ballots-Certified w results b round g same cast =
    let everyone : b.absences ≡ [] → length b.votes ≡ length results =
      λ nobody. cast ∙ collect_ballots-length w.configs results (sym same ∙ nobody) in
    elim (Bool-cases (is_approval (evaluate_ballots b round w.policy).outcome)) [
      | inl h ↦
          let d = evaluate_ballots-approval b round w.policy h in
          let votes = evaluate_ballots-votes b round w.policy (inl h) in
          approves results g (ap length votes ∙ everyone d.nobody_absent) h (rw (votes, ← same) d)
      | inr f ↦ elim (Bool-cases (is_rejection (evaluate_ballots b round w.policy).outcome)) [
        | inl h ↦
            let d = evaluate_ballots-rejection b round w.policy h in
            let votes = evaluate_ballots-votes b round w.policy (inr h) in
            rejects results g (ap length votes ∙ everyone d.nobody_absent) h (rw (votes, ← same) d)
        | inr f' ↦ undecided f f'
      ]
    ]

-- The state holds the agents' results, the absences among them, and a ballot of each other agent.
abbrev pub Collected : World → State → Type 0
Collected w st =
    Gathered w st.results
    × (st.absences ≡ (collect_ballots w.configs st.results).absences)
    × AllCast w st.results (deref_votes st.votes)

pub round_consensus-Certified :
    (w : World) (st : State) → Collected w st → Certified w (round_consensus w st)
round_consensus-Certified w st (g, same, cast) =
    evaluate_ballots-Certified w st.results
      (record { votes = deref_votes st.votes; absences = st.absences }) st.round g same cast

-- The round of a result takes no part.
pub in_round-Certified :
    (w : World) (r : ConsensusResult) (n : ℕ) → Certified w r → Certified w (record r { round = n })
in_round-Certified w r n (approves results g m h d) = approves results g m h d
in_round-Certified w r n (rejects results g m h d) = rejects results g m h d
in_round-Certified w r n (undecided f g) = undecided f g
