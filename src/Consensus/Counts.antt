-- ===== src/Consensus/Counts.antt =====
-- The counting loop of the consensus engine against counts of the ballots that do not depend on it.
use magi_system.Prelude.{
  ℕ, ◌+◌, Bool, true, false, not, none, some, List, [], ◌∷◌, ◌++◌, ◌≡◌, refl, ap, ◌∙◌, arith,
  length, count_of, all, if◌then◌else◌,
}
use mathlib.Core.List.{append-nil, append_assoc}
use magi_system.Entity.Vote.{
  VoteDecision, approve, reject, abstain, conditional_approve, unknown, Vote, DecisionCondition,
  is_valid_vote_decision,
}
use magi_system.Consensus.Engine.{
  Tally, empty_tally, counted, count_decision, count_votes, first_invalid,
}

-- A ballot in favour: an approval, or a conditional one where the policy says so.
abbrev pub is_aye : Bool → VoteDecision → Bool
is_aye as_approve approve = true
is_aye as_approve conditional_approve = as_approve
is_aye as_approve _ = false

abbrev pub is_nay : VoteDecision → Bool
is_nay reject = true
is_nay _ = false

abbrev pub is_conditional : VoteDecision → Bool
is_conditional conditional_approve = true
is_conditional _ = false

abbrev pub is_withheld : Bool → VoteDecision → Bool
is_withheld as_approve abstain = true
is_withheld as_approve conditional_approve = not as_approve
is_withheld as_approve _ = false

unfoldable pub ayes : Bool → List Vote → ℕ
unfolding count_of
ayes as_approve = count_of (λ v. is_aye as_approve v.decision)

unfoldable pub nays : List Vote → ℕ
unfolding count_of
nays = count_of (λ v. is_nay v.decision)

unfoldable pub conditionals : List Vote → ℕ
unfolding count_of
conditionals = count_of (λ v. is_conditional v.decision)

unfoldable pub withheld : Bool → List Vote → ℕ
unfolding count_of
withheld as_approve = count_of (λ v. is_withheld as_approve v.decision)

-- The conditions of the conditional ballots, in order.
unfoldable pub conditions_of : List Vote → List DecisionCondition
conditions_of [] = []
conditions_of (v ∷ vs) =
    let rest = conditions_of vs in if is_conditional v.decision then v.conditions ++ rest else rest

unfoldable pub all_valid : List Vote → Bool
unfolding all is_valid_vote_decision
all_valid = all (λ v. is_valid_vote_decision v.decision)

unfoldable pub tally_from : Bool → Tally → List Vote → Tally
unfolding ayes nays conditionals withheld conditions_of
tally_from as_approve t vs = record {
  approvals = t.approvals + ayes as_approve vs;
  rejections = t.rejections + nays vs;
  abstentions = t.abstentions + withheld as_approve vs;
  conditionals = t.conditionals + conditionals vs;
  conditions = t.conditions ++ conditions_of vs;
}

unfoldable pub tally_of : Bool → List Vote → Tally
tally_of as_approve vs = record {
  approvals = ayes as_approve vs;
  rejections = nays vs;
  abstentions = withheld as_approve vs;
  conditionals = conditionals vs;
  conditions = conditions_of vs;
}

pub first_invalid-none : (vs : List Vote) → all_valid vs ≡ true → first_invalid vs ≡ none
unfolding first_invalid all_valid
first_invalid-none [] h = refl
first_invalid-none (v ∷ vs) h = ground (arith, first_invalid-none vs)

pub all_valid-first_invalid : (vs : List Vote) → first_invalid vs ≡ none → all_valid vs ≡ true
unfolding first_invalid all_valid
all_valid-first_invalid [] h = refl
all_valid-first_invalid (v ∷ vs) h = ground (arith, all_valid-first_invalid vs)

pub all_valid-cons :
    (v : Vote) (vs : List Vote)
    → all_valid (v ∷ vs) ≡ true
    → (is_valid_vote_decision v.decision ≡ true) × (all_valid vs ≡ true)
unfolding all_valid
all_valid-cons v vs h = ground arith

pub some_invalid :
    (vs : List Vote) (d : VoteDecision) → first_invalid vs ≡ some d → all_valid vs ≡ false
unfolding first_invalid all_valid
some_invalid [] d h = cc
some_invalid (v ∷ vs) d h = ground (arith, some_invalid vs d)

-- One round of the loop at a valid decision.
tally_step : Bool → VoteDecision → List DecisionCondition → Tally → Tally
tally_step as_approve d cs t = record {
  approvals = t.approvals + (if is_aye as_approve d then 1 else 0);
  rejections = t.rejections + (if is_nay d then 1 else 0);
  abstentions = t.abstentions + (if is_withheld as_approve d then 1 else 0);
  conditionals = t.conditionals + (if is_conditional d then 1 else 0);
  conditions = t.conditions ++ (if is_conditional d then cs else []);
}

count_decision-valid :
    (b : Bool) (d : VoteDecision) (cs : List DecisionCondition) (t : Tally)
    → is_valid_vote_decision d ≡ true
    → count_decision b d cs t ≡ some (tally_step b d cs t)
unfolding count_decision tally_step is_valid_vote_decision
count_decision-valid true approve cs t h = ground (arith, append-nil t.conditions)
count_decision-valid b approve cs t h = ground (arith, append-nil t.conditions)
count_decision-valid b reject cs t h = ground (arith, append-nil t.conditions)
count_decision-valid b abstain cs t h = ground (arith, append-nil t.conditions)
count_decision-valid true conditional_approve cs t h = ground arith
count_decision-valid b conditional_approve cs t h = ground arith
count_decision-valid b (unknown s) cs t h = cc

tally_from-step :
    (b : Bool) (t : Tally) (v : Vote) (vs : List Vote)
    → tally_from b (tally_step b v.decision v.conditions t) vs ≡ tally_from b t (v ∷ vs)
unfolding tally_from tally_step
tally_from-step b t v vs = ground (
  arith,
  append_assoc t.conditions v.conditions (conditions_of vs),
  append_assoc t.conditions [] (conditions_of vs),
  append-nil t.conditions,
)

-- From valid ballots the loop returns the tally that the counts describe.
count_votes-eq-tally_from :
    (b : Bool) (t : Tally) (vs : List Vote)
    → all_valid vs ≡ true
    → count_votes b t vs ≡ counted (tally_from b t vs)
unfolding count_votes all_valid
count_votes-eq-tally_from b t [] h = unfold tally_from in ground (arith, append-nil t.conditions)
count_votes-eq-tally_from b t (v ∷ vs) h =
    rw (count_decision-valid b v.decision v.conditions t (ground arith), count_votes)
      (count_votes-eq-tally_from b (tally_step b v.decision v.conditions t) vs (ground arith)
        ∙ ap counted (tally_from-step b t v vs))

pub count_votes-eq :
    (b : Bool) (vs : List Vote)
    → all_valid vs ≡ true
    → count_votes b empty_tally vs ≡ counted (tally_of b vs)
unfolding tally_from tally_of
count_votes-eq b vs h = rw (count_votes-eq-tally_from b empty_tally vs h) (ground arith)

-- Each valid ballot is counted exactly once.
pub ballots_counted :
    (b : Bool) (vs : List Vote)
    → all_valid vs ≡ true
    → ayes b vs + nays vs + withheld b vs ≡ length vs
unfolding ayes nays withheld all_valid
ballots_counted b [] h = omega arith
ballots_counted b (v ∷ vs) h = ground (arith, ballots_counted b vs, is_counted b v.decision)
  where
    is_counted :
        (b : Bool) (d : VoteDecision)
        → is_valid_vote_decision d ≡ true
        → (if is_aye b d then 1 else 0)
            + (if is_nay d then 1 else 0)
            + (if is_withheld b d then 1 else 0)
          ≡ 1
    is_counted b d h = ground arith
