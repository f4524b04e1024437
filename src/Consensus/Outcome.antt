-- ===== src/Consensus/Outcome.antt =====
-- What the outcome of a consensus evaluation says of the ballots.
use magi_system.Prelude.{
  ℕ, ◌+◌, ◌≤◌, ◌<◌, pos_part, neg_part, Bool, true, false, List, [], ◌∷◌, ◌≡◌, ◌≢◌, ◌↔◌, ◌⊎◌, refl,
  sym, arith, length, Option-cases, inl, inr, ap, ◌∙◌,
}
use magi_system.Entity.Vote.{Vote, AgentAbsence}
use magi_system.Entity.Resolution.{
  ConsensusOutcome, strong_approval, strong_rejection, majority_approval_with_dissent,
  majority_rejection_with_dissent, insufficient_quorum, conditional, incomplete, ConsensusResult,
}
use magi_system.Consensus.Engine.{
  BallotSet, ConsensusPolicy, first_invalid, classify, count_and_classify, evaluate_valid,
  evaluate_ballots,
}
use magi_system.Consensus.Counts.{
  ayes, nays, all_valid, tally_of, all_valid-first_invalid, count_votes-eq, ballots_counted,
  some_invalid,
}

abbrev pub is_approval : ConsensusOutcome → Bool
is_approval strong_approval = true
is_approval majority_approval_with_dissent = true
is_approval conditional = true
is_approval _ = false

abbrev pub is_rejection : ConsensusOutcome → Bool
is_rejection strong_rejection = true
is_rejection majority_rejection_with_dissent = true
is_rejection _ = false

count_and_classify-eq :
    (round : ℕ) (p : ConsensusPolicy) (vs : List Vote)
    → all_valid vs ≡ true
    → count_and_classify p round vs ≡ classify p round vs (tally_of p.conditional_as_approve vs)
unfolding count_and_classify
count_and_classify-eq round p vs valid =
    rw (count_votes-eq p.conditional_as_approve vs valid, count_and_classify)

-- The three ways in which an evaluation ends.
pub data Evaluated (p : ConsensusPolicy) (round : ℕ)
    : List AgentAbsence → List Vote → ConsensusResult → Type 0 where
  without_ballots :
      {r : ConsensusResult} → r.outcome ≡ insufficient_quorum → Evaluated p round [] [] r
  absent :
      {r : ConsensusResult} (a : AgentAbsence) (as' : List AgentAbsence) (vs : List Vote)
      → r.outcome ≡ incomplete
      → Evaluated p round (a ∷ as') vs r
  malformed :
      {r : ConsensusResult} (as' : List AgentAbsence) (vs : List Vote)
      → all_valid vs ≡ false
      → r.outcome ≡ incomplete
      → Evaluated p round as' vs r
  classified :
      {r : ConsensusResult} (v : Vote) (vs : List Vote)
      → all_valid (v ∷ vs) ≡ true
      → r ≡ classify p round (v ∷ vs) (tally_of p.conditional_as_approve (v ∷ vs))
      → Evaluated p round [] (v ∷ vs) r

evaluate_valid-Evaluated :
    (as' : List AgentAbsence) (vs : List Vote) (round : ℕ) (p : ConsensusPolicy)
    → all_valid vs ≡ true
    → Evaluated p round as' vs (evaluate_valid as' vs round p)
unfolding evaluate_valid
evaluate_valid-Evaluated (a ∷ as') vs round p valid = absent a as' vs refl
evaluate_valid-Evaluated [] [] round p valid = without_ballots refl
evaluate_valid-Evaluated [] (v ∷ vs) round p valid =
    rw (count_and_classify-eq round p (v ∷ vs) valid) (classified v vs valid refl)

pub evaluate_ballots-Evaluated :
    (b : BallotSet) (round : ℕ) (p : ConsensusPolicy)
    → Evaluated p round b.absences b.votes (evaluate_ballots b round p)
unfolding evaluate_ballots
evaluate_ballots-Evaluated b round p = elim (Option-cases (first_invalid b.votes)) [
  | inl e ↦
      rw (e, evaluate_ballots)
        (evaluate_valid-Evaluated b.absences b.votes round p (all_valid-first_invalid b.votes e))
  | inr (d, e) ↦
      rw (e, evaluate_ballots) (malformed b.absences b.votes (some_invalid b.votes d e) refl)
]

module _ (p : ConsensusPolicy) (round : ℕ) (v : Vote) (vs : List Vote) where
  abbrev whole : List Vote
  whole = v ∷ vs

  classify-approval :
      all_valid whole ≡ true
      → is_approval (classify p round whole (tally_of p.conditional_as_approve whole)).outcome
        ≡ true
      → (nays whole < ayes p.conditional_as_approve whole)
        × (pos_part p.quorum ≤ ayes p.conditional_as_approve whole + nays whole + neg_part p.quorum)
        × ((2 ≤ ayes p.conditional_as_approve whole)
            ⊎ (ayes p.conditional_as_approve whole ≡ length whole))
  unfolding classify tally_of
  classify-approval valid h = ground (arith, ballots_counted p.conditional_as_approve whole valid)

  classify-rejection :
      all_valid whole ≡ true
      → is_rejection (classify p round whole (tally_of p.conditional_as_approve whole)).outcome
        ≡ true
      → (ayes p.conditional_as_approve whole < nays whole)
        × (pos_part p.quorum ≤ ayes p.conditional_as_approve whole + nays whole + neg_part p.quorum)
        × ((2 ≤ nays whole) ⊎ (nays whole ≡ length whole))
  unfolding classify tally_of
  classify-rejection valid h = ground (arith, ballots_counted p.conditional_as_approve whole valid)

  classify-ne-incomplete :
      (classify p round whole (tally_of p.conditional_as_approve whole)).outcome ≢ incomplete
  unfolding classify
  classify-ne-incomplete h = ground arith

-- What an approval or a rejection rests on: every expected participant cast a valid ballot, the
-- quorum is met by the ballots that do not abstain, and the losing side is strictly smaller.
pub record Decides (p : ConsensusPolicy) (as' : List AgentAbsence) (vs : List Vote)
    (winning losing : ℕ) : Type 0 where
  pub nobody_absent : as' ≡ []
  pub ballots_valid : all_valid vs ≡ true
  pub majority : losing < winning
  pub quorum_met : pos_part p.quorum ≤ winning + losing + neg_part p.quorum
  pub two_or_all : (2 ≤ winning) ⊎ (winning ≡ length vs)

approval-Decides :
    {p : ConsensusPolicy} {round : ℕ} {as' : List AgentAbsence} {vs : List Vote}
    {r : ConsensusResult}
    → Evaluated p round as' vs r
    → is_approval r.outcome ≡ true
    → Decides p as' vs (ayes p.conditional_as_approve vs) (nays vs)
approval-Decides (without_ballots o) h = cc (ap is_approval o)
approval-Decides (absent a as' vs o) h = cc (ap is_approval o)
approval-Decides (malformed as' vs bad o) h = cc (ap is_approval o)
approval-Decides {p} {round} (classified v vs valid e) h =
    let (m, q, t) =
      classify-approval p round v vs valid
        (sym (ap (λ (x : ConsensusResult). is_approval x.outcome) e) ∙ h) in
    record {
      nobody_absent = refl;
      ballots_valid = valid;
      majority = m;
      quorum_met = q;
      two_or_all = t;
    }

rejection-Decides :
    {p : ConsensusPolicy} {round : ℕ} {as' : List AgentAbsence} {vs : List Vote}
    {r : ConsensusResult}
    → Evaluated p round as' vs r
    → is_rejection r.outcome ≡ true
    → Decides p as' vs (nays vs) (ayes p.conditional_as_approve vs)
rejection-Decides (without_ballots o) h = cc (ap is_rejection o)
rejection-Decides (absent a as' vs o) h = cc (ap is_rejection o)
rejection-Decides (malformed as' vs bad o) h = cc (ap is_rejection o)
rejection-Decides {p} {round} (classified v vs valid e) h =
    let (m, q, t) =
      classify-rejection p round v vs valid
        (sym (ap (λ (x : ConsensusResult). is_rejection x.outcome) e) ∙ h) in
    record {
      nobody_absent = refl;
      ballots_valid = valid;
      majority = m;
      quorum_met = omega (arith, q);
      two_or_all = t;
    }

-- An approving outcome (strong, with dissent, or conditional) is given only if no participant is
-- absent, every ballot has a defined decision, the approvals outnumber the rejections, approvals
-- and rejections together meet the quorum, and at least two ballots, or all of them, approve.
-- A conditional ballot counts as an approval exactly if the policy says so.
pub evaluate_ballots-approval :
    (b : BallotSet) (round : ℕ) (p : ConsensusPolicy)
    → is_approval (evaluate_ballots b round p).outcome ≡ true
    → Decides p b.absences b.votes (ayes p.conditional_as_approve b.votes) (nays b.votes)
evaluate_ballots-approval b round p h = approval-Decides (evaluate_ballots-Evaluated b round p) h

-- A rejecting outcome (strong or with dissent) is given only under the same conditions, with the
-- rejections as the winning side.
pub evaluate_ballots-rejection :
    (b : BallotSet) (round : ℕ) (p : ConsensusPolicy)
    → is_rejection (evaluate_ballots b round p).outcome ≡ true
    → Decides p b.absences b.votes (nays b.votes) (ayes p.conditional_as_approve b.votes)
evaluate_ballots-rejection b round p h = rejection-Decides (evaluate_ballots-Evaluated b round p) h

Evaluated-incomplete :
    {p : ConsensusPolicy} {round : ℕ} {as' : List AgentAbsence} {vs : List Vote}
    {r : ConsensusResult}
    → Evaluated p round as' vs r
    → r.outcome ≡ incomplete
    → (as' ≢ []) ⊎ (all_valid vs ≡ false)
Evaluated-incomplete (without_ballots o) h = cc
Evaluated-incomplete (absent a as' vs o) h = inl (λ e. cc)
Evaluated-incomplete (malformed as' vs bad o) h = inr bad
Evaluated-incomplete {p} {round} (classified v vs valid e) h =
    absurd
      (classify-ne-incomplete p round v vs (sym (ap (λ (x : ConsensusResult). x.outcome) e) ∙ h))

incomplete-Evaluated :
    {p : ConsensusPolicy} {round : ℕ} {as' : List AgentAbsence} {vs : List Vote}
    {r : ConsensusResult}
    → Evaluated p round as' vs r
    → (as' ≢ []) ⊎ (all_valid vs ≡ false)
    → r.outcome ≡ incomplete
unfolding all_valid
incomplete-Evaluated (without_ballots o) (inl h) = absurd (h refl)
incomplete-Evaluated (without_ballots o) (inr h) = cc
incomplete-Evaluated (absent a as' vs o) h = o
incomplete-Evaluated (malformed as' vs bad o) h = o
incomplete-Evaluated (classified v vs valid e) (inl h) = absurd (h refl)
incomplete-Evaluated (classified v vs valid e) (inr h) = cc (valid, h)

-- A round is incomplete exactly if an expected participant is absent or some ballot has a decision
-- that is none of the defined values, however the other ballots fall and whatever the policy.
pub evaluate_ballots-incomplete :
    (b : BallotSet) (round : ℕ) (p : ConsensusPolicy)
    → ((evaluate_ballots b round p).outcome ≡ incomplete)
      ↔ ((b.absences ≢ []) ⊎ (all_valid b.votes ≡ false))
evaluate_ballots-incomplete b round p =
    let e = evaluate_ballots-Evaluated b round p in (Evaluated-incomplete e, incomplete-Evaluated e)
