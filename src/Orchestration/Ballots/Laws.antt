-- ===== src/Orchestration/Ballots/Laws.antt =====
-- Ballots and absences account for every agent, and only completed agents have a say.
use magi_system.Prelude.{
  ℕ, suc, ◌+◌, true, Option, none, some, List, [], ◌∷◌, ◌≡◌, ◌↔◌, ◌⊎◌, inl, inr, refl, ap, arith,
  length, All,
}
use magi_system.Entity.Vote.{Vote, MagiCode, is_valid_vote_decision}
use magi_system.Runtime.Result.{LoopResult, completed}
use magi_system.Entity.Resolution.{ConsensusOutcome}
use magi_system.Consensus.Engine.{ConsensusPolicy, evaluate_ballots}
use magi_system.Consensus.Counts.{all_valid}
use magi_system.Consensus.Outcome.{
  is_approval, is_rejection, evaluate_ballots-approval, evaluate_ballots-rejection,
}
use magi_system.Orchestration.Ballots.{
  MagiConfig, Classified, ballot, absence, classify, collect_from, collect_ballots, Ballots,
  deref_votes, ballot_count, is_completed, add_classified, code_of, config_at,
}

-- What a counted ballot needs.
pub record Cast (r : LoopResult) (v : Vote) : Type 0 where
  pub finished : r.status ≡ completed
  pub no_error : r.err ≡ none
  pub has_vote : r.vote ≡ some v
  pub valid : is_valid_vote_decision v.decision ≡ true

-- A result is classified as a ballot exactly if the agent completed without an error and returned
-- that vote with a defined decision; everything else is an absence.
classify-ballot : (r : LoopResult) (v : Vote) → (classify (some r) ≡ ballot v) ↔ Cast r v
unfolding classify
classify-ballot r v = (λ h. ground arith, λ c. ground arith)

classify-valid :
    (r : Option LoopResult) (v : Vote)
    → classify r ≡ ballot v
    → is_valid_vote_decision v.decision ≡ true
unfolding classify
classify-valid none v h = cc
classify-valid (some r) v h = ((classify-ballot r v).0 h).valid

-- What `collect_ballots` promises for `n` agents.
pub record Accounts (n : ℕ) (b : Ballots) : Type 0 where
  pub aligned : length b.votes ≡ n
  pub complete : ballot_count b.votes + length b.absences ≡ n
  pub deref_complete : length (deref_votes b.votes) + length b.absences ≡ n
  pub all_defined : all_valid (deref_votes b.votes) ≡ true

add_classified-Accounts :
    (code : MagiCode) (c : Classified) {n : ℕ} {b : Ballots}
    → ((v : Vote) → c ≡ ballot v → is_valid_vote_decision v.decision ≡ true)
    → Accounts n b
    → Accounts (suc n) (add_classified code c b)
unfolding ballot_count deref_votes all_valid
add_classified-Accounts code (absence a) h acc = record {
  aligned = ap suc acc.aligned;
  complete = omega (arith, acc.complete);
  deref_complete = omega (arith, acc.deref_complete);
  all_defined = acc.all_defined;
}
add_classified-Accounts code (ballot v) h acc = record {
  aligned = ap suc acc.aligned;
  complete = omega (arith, acc.complete);
  deref_complete = omega (arith, acc.deref_complete);
  all_defined = rw (h v refl) acc.all_defined;
}

collect_from-Accounts :
    (configs : List MagiConfig) (i : ℕ) (rs : List (Option LoopResult))
    → Accounts (length rs) (collect_from configs i rs)
unfolding collect_from ballot_count deref_votes all_valid
collect_from-Accounts configs i [] = record {
  aligned = refl;
  complete = omega arith;
  deref_complete = omega arith;
  all_defined = refl;
}
collect_from-Accounts configs i (r ∷ rs) =
    add_classified-Accounts (code_of (config_at configs i)) (classify r) (classify-valid r)
      (collect_from-Accounts configs (suc i) rs)

-- For any results of the agents: the vote slots are as many as the results, the ballots cast and
-- the absences recorded together are as many as the results, and every ballot cast has a defined
-- decision.
pub collect_ballots-Accounts :
    (configs : List MagiConfig) (rs : List (Option LoopResult))
    → Accounts (length rs) (collect_ballots configs rs)
unfolding collect_ballots
collect_ballots-Accounts configs rs = collect_from-Accounts configs 0 rs

abbrev pub AllCompleted : List (Option LoopResult) → Type 0
AllCompleted = All (λ r. is_completed r ≡ true)

classify-is_completed :
    (r : Option LoopResult) (v : Vote) → classify r ≡ ballot v → is_completed r ≡ true
unfolding classify is_completed
classify-is_completed none v h = cc
classify-is_completed (some r) v h = ground arith

no_absence-AllCompleted :
    (configs : List MagiConfig) (i : ℕ) (rs : List (Option LoopResult))
    → (collect_from configs i rs).absences ≡ []
    → AllCompleted rs
unfolding collect_from
no_absence-AllCompleted configs i [] h = tt
no_absence-AllCompleted configs i (r ∷ rs) h =
    by_class (no_absence-AllCompleted configs (suc i) rs) (classify r) refl h
  where
    by_class :
        ((collect_from configs (suc i) rs).absences ≡ [] → AllCompleted rs)
        → (c : Classified) → classify r ≡ c
        → (add_classified
            (code_of (config_at configs i))
            c
            (collect_from configs (suc i) rs)).absences
          ≡ []
        → AllCompleted (r ∷ rs)
    by_class rest (ballot v) e g = (classify-is_completed r v e, rest g)
    by_class rest (absence a) e g = cc

-- The consensus over the collected ballots of a round.
abbrev pub round_outcome :
    List MagiConfig → List (Option LoopResult) → ℕ → ConsensusPolicy → ConsensusOutcome
round_outcome configs rs round p =
    let b = collect_ballots configs rs in
    (evaluate_ballots (record { votes = deref_votes b.votes; absences = b.absences }) round
      p).outcome

-- A round approves or rejects only if every agent completed its run with a vote: a failed, timed
-- out, cancelled or missing agent, or a vote with an undefined decision, can never be outvoted.
pub decision_needs_all_agents :
    (configs : List MagiConfig) (rs : List (Option LoopResult)) (round : ℕ) (p : ConsensusPolicy)
    → (is_approval (round_outcome configs rs round p) ≡ true)
      ⊎ (is_rejection (round_outcome configs rs round p) ≡ true)
    → AllCompleted rs
unfolding collect_ballots
decision_needs_all_agents configs rs round p (inl h) =
    no_absence-AllCompleted configs 0 rs (evaluate_ballots-approval _ round p h).nobody_absent
decision_needs_all_agents configs rs round p (inr h) =
    no_absence-AllCompleted configs 0 rs (evaluate_ballots-rejection _ round p h).nobody_absent
