-- ===== src/Consensus/Engine.antt =====
-- backend/domain/consensus/engine.go and policy.go.
-- The round and the counts are lengths of lists, so they are natural numbers; the quorum is Go's
-- signed `int`. The text of `Detail` is a constructor for each format string.
use magi_system.Prelude.{
  ℕ, ◌+◌, ◌-◌, ℤ, pos, Bool, true, ◌&&◌, Option, none, some, List, [], ◌∷◌, ◌++◌, length, ltb, leb,
  ltb_ℤ, ◌==◌, if◌then◌else◌,
}
use magi_system.Entity.Vote.{
  VoteDecision, approve, reject, abstain, conditional_approve, unknown, Vote, AgentAbsence,
  DecisionCondition, is_valid_vote_decision,
}
use magi_system.Entity.Resolution.{
  ConsensusOutcome, strong_approval, strong_rejection, majority_approval_with_dissent,
  majority_rejection_with_dissent, deadlock, insufficient_quorum, conditional, incomplete, Detail,
  invalid_decision, no_ballot_from, no_votes, unanimous_approval, unanimous_rejection,
  majority_approval, majority_rejection, first_round_split, reconsider_majority, below_quorum,
  conditional_approval, no_majority, ConsensusResult,
}

pub record BallotSet : Type 0 where
  pub votes : List Vote
  pub absences : List AgentAbsence

pub record ConsensusPolicy : Type 0 where
  pub quorum : ℤ
  pub first_split_goes_to_debate : Bool
  pub resolve_on_reconsider_majority : Bool
  pub conditional_as_approve : Bool

abbrev pub default_consensus_policy : ConsensusPolicy
default_consensus_policy = record {
  quorum = pos 2;
  first_split_goes_to_debate = true;
  resolve_on_reconsider_majority = true;
  conditional_as_approve = true;
}

-- The first loop: the first decision that is no defined value.
unfoldable pub first_invalid : List Vote → Option VoteDecision
unfolding is_valid_vote_decision
first_invalid [] = none
first_invalid (v ∷ vs) =
    if is_valid_vote_decision v.decision then first_invalid vs else some v.decision

-- The variables of the counting loop.
pub record Tally : Type 0 where
  pub approvals : ℕ
  pub rejections : ℕ
  pub abstentions : ℕ
  pub conditionals : ℕ
  pub conditions : List DecisionCondition

abbrev pub empty_tally : Tally
empty_tally = record {
  approvals = 0;
  rejections = 0;
  abstentions = 0;
  conditionals = 0;
  conditions = [];
}

-- One round of the loop; `none` is the early return of its `default` branch.
unfoldable pub count_decision : Bool → VoteDecision → List DecisionCondition → Tally → Option Tally
count_decision as_approve conditional_approve cs t =
    let u = record t { conditionals = t.conditionals + 1; conditions = t.conditions ++ cs } in
    if as_approve
    then some (record u { approvals = u.approvals + 1 })
    else some (record u { abstentions = u.abstentions + 1 })
count_decision as_approve approve cs t = some (record t { approvals = t.approvals + 1 })
count_decision as_approve reject cs t = some (record t { rejections = t.rejections + 1 })
count_decision as_approve abstain cs t = some (record t { abstentions = t.abstentions + 1 })
count_decision as_approve (unknown s) cs t = none

-- The counting loop: the tally, or the decision at which it returned.
pub data Counted : Type 0 where
  counted : Tally → Counted
  stopped_at : VoteDecision → Counted

unfoldable pub count_votes : Bool → Tally → List Vote → Counted
unfolding count_decision
count_votes as_approve t [] = counted t
count_votes as_approve t (v ∷ vs) = elim (count_decision as_approve v.decision v.conditions t) [
  | none ↦ stopped_at v.decision
  | some u ↦ count_votes as_approve u vs
]

-- The detail of a majority with dissent.
unfoldable pub split_detail : ConsensusPolicy → ℕ → Detail → Detail
split_detail policy round plain =
    if (round == 1) && policy.first_split_goes_to_debate
    then first_round_split
    else if leb 2 round && policy.resolve_on_reconsider_majority
    then reconsider_majority
    else plain

-- The ladder of tests after the loop, over the ballots and their tally.
unfoldable pub classify : ConsensusPolicy → ℕ → List Vote → Tally → ConsensusResult
unfolding split_detail
classify policy round votes t =
    let result = λ (o : ConsensusOutcome) (d : Detail) (cs : List DecisionCondition).
      let r : ConsensusResult = record {
        outcome = o;
        votes = votes;
        round = round;
        detail = d;
        conditions = cs;
      } in
      r in
    let effective = length votes - t.abstentions in
    if ltb_ℤ (pos effective) policy.quorum
    then result insufficient_quorum (below_quorum effective policy.quorum) []
    else if policy.conditional_as_approve
        && (ltb 0 t.conditionals && (leb 2 t.approvals && ltb t.rejections t.approvals))
    then result conditional (conditional_approval (length t.conditions)) t.conditions
    else if t.approvals == length votes
    then result strong_approval unanimous_approval []
    else if t.rejections == length votes
    then result strong_rejection unanimous_rejection []
    else if leb 2 t.approvals && ltb t.rejections t.approvals
    then result majority_approval_with_dissent (split_detail policy round majority_approval) []
    else if leb 2 t.rejections && ltb t.approvals t.rejections
    then result majority_rejection_with_dissent (split_detail policy round majority_rejection) []
    else result deadlock (no_majority t.approvals t.rejections t.abstentions) []

-- After the guards: the loop, then the ladder.
unfoldable pub count_and_classify : ConsensusPolicy → ℕ → List Vote → ConsensusResult
count_and_classify policy round votes =
    elim (count_votes policy.conditional_as_approve empty_tally votes) [
      | stopped_at d ↦ record {
        outcome = incomplete;
        votes = votes;
        round = round;
        detail = invalid_decision d;
        conditions = [];
      }
      | counted t ↦ classify policy round votes t
    ]

-- The guards on absences and on the empty ballot set.
unfoldable pub evaluate_valid :
    List AgentAbsence → List Vote → ℕ → ConsensusPolicy → ConsensusResult
evaluate_valid (a ∷ as') votes round policy = record {
  outcome = incomplete;
  votes = votes;
  round = round;
  detail = no_ballot_from (a ∷ as');
  conditions = [];
}
evaluate_valid [] [] round policy = record {
  outcome = insufficient_quorum;
  votes = [];
  round = round;
  detail = no_votes;
  conditions = [];
}
evaluate_valid [] (v ∷ vs) round policy = count_and_classify policy round (v ∷ vs)

unfoldable pub evaluate_ballots : BallotSet → ℕ → ConsensusPolicy → ConsensusResult
unfolding first_invalid
evaluate_ballots ballots round policy = elim (first_invalid ballots.votes) [
  | some d ↦ record {
    outcome = incomplete;
    votes = ballots.votes;
    round = round;
    detail = invalid_decision d;
    conditions = [];
  }
  | none ↦ evaluate_valid ballots.absences ballots.votes round policy
]

-- The legacy entry point.
unfoldable pub evaluate : List Vote → ℕ → ConsensusPolicy → ConsensusResult
evaluate votes round policy =
    evaluate_ballots (record { votes = votes; absences = [] }) round policy
