-- ===== src/Consensus/Examples.antt =====
-- The theorems on the consensus at concrete ballots.
use mathlib.Core.List.Perm
use magi_system.Prelude.{true, false, [], ◌∷◌, ◌≡◌, ◌≢◌, ◌⊎◌, ◌↔◌, refl}
use magi_system.Entity.Vote.{melchior, agent_failed, no_result}
use magi_system.Entity.Resolution.{incomplete}
use magi_system.Consensus.Engine.{
  BallotSet, default_consensus_policy, evaluate_ballots, evaluate_valid, count_and_classify,
  count_votes, classify,
}
use magi_system.Consensus.Counts.{ayes, nays, all_valid}
use magi_system.Consensus.Outcome.{
  Decides, evaluate_ballots-approval, evaluate_ballots-rejection, evaluate_ballots-incomplete,
}
use magi_system.Consensus.Order.{outcome_in, evaluate_ballots-outcome_in, evaluate_ballots-perm}
use magi_system.Samples.{approval, rejection}

abbrev split : BallotSet
split = record { votes = approval ∷ approval ∷ rejection ∷ []; absences = [] }

abbrev against : BallotSet
against = record { votes = rejection ∷ rejection ∷ []; absences = [] }

abbrev one_absent : BallotSet
one_absent = record {
  votes = approval ∷ approval ∷ [];
  absences = record { agent_code = melchior; kind = agent_failed; reason = no_result } ∷ [];
}

evaluate_ballots-approval_example :
    Decides default_consensus_policy [] split.votes (ayes true split.votes) (nays split.votes)
unfolding evaluate_ballots evaluate_valid count_and_classify count_votes classify
evaluate_ballots-approval_example = evaluate_ballots-approval split 1 default_consensus_policy refl

evaluate_ballots-rejection_example :
    Decides default_consensus_policy [] against.votes (nays against.votes) (ayes true against.votes)
unfolding evaluate_ballots evaluate_valid count_and_classify count_votes classify
evaluate_ballots-rejection_example =
    evaluate_ballots-rejection against 1 default_consensus_policy refl

evaluate_ballots-incomplete_example :
    ((evaluate_ballots one_absent 1 default_consensus_policy).outcome ≡ incomplete)
    ↔ ((one_absent.absences ≢ []) ⊎ (all_valid one_absent.votes ≡ false))
evaluate_ballots-incomplete_example =
    evaluate_ballots-incomplete one_absent 1 default_consensus_policy

evaluate_ballots-outcome_in_example :
    (evaluate_ballots split 1 default_consensus_policy).outcome
    ≡ outcome_in default_consensus_policy split.absences split.votes
evaluate_ballots-outcome_in_example = evaluate_ballots-outcome_in split 1 default_consensus_policy

evaluate_ballots-perm_example :
    (evaluate_ballots split 1 default_consensus_policy).outcome
    ≡ (evaluate_ballots
        (record { votes = approval ∷ rejection ∷ approval ∷ []; absences = [] })
        1
        default_consensus_policy).outcome
evaluate_ballots-perm_example =
    evaluate_ballots-perm (approval ∷ approval ∷ rejection ∷ [])
      (approval ∷ rejection ∷ approval ∷ []) [] 1 default_consensus_policy
      (Perm.cons approval (Perm.swap rejection approval []))
