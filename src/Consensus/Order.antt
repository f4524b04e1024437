-- ===== src/Consensus/Order.antt =====
-- The outcome of a consensus evaluation does not depend on the order of the ballots.
use mathlib.Core.Logic.{∥∥₁_elim}
use mathlib.Core.List.{Perm, Permᴰ}
use native.Mathlib.Nat.{ℕ_set}
use magi_system.Prelude.{
  ℕ, suc, ◌+◌, ◌-◌, ◌<◌, pos, ltb_ℤ, leb, ltb, ◌==◌, if◌then◌else◌, ◌&&◌, Bool, List, [], ◌∷◌, ◌≡◌,
  refl, sym, ap, ◌∙◌, arith, length, is_empty, count_of, all,
}
use magi_system.Entity.Vote.{Vote, AgentAbsence, is_valid_vote_decision}
use magi_system.Entity.Resolution.{
  ConsensusOutcome, strong_approval, strong_rejection, majority_approval_with_dissent,
  majority_rejection_with_dissent, deadlock, conditional, ConsensusResult, incomplete,
  insufficient_quorum,
}
use magi_system.Consensus.Engine.{BallotSet, ConsensusPolicy, Tally, classify, evaluate_ballots}
use magi_system.Consensus.Counts.{
  ayes, nays, conditionals, withheld, all_valid, tally_of, is_aye, is_nay, is_withheld,
  is_conditional, ballots_counted,
}
use magi_system.Consensus.Outcome.{
  Evaluated, without_ballots, absent, malformed, classified, evaluate_ballots-Evaluated,
}

module _ {ℓ} {A : Type ℓ} where
  count_of-Permᴰ : (p : A → Bool) {xs ys : List A} → Permᴰ xs ys → count_of p xs ≡ count_of p ys
  unfolding count_of
  count_of-Permᴰ p Permᴰ.nil = refl
  count_of-Permᴰ p (Permᴰ.cons e r) = cc (e, count_of-Permᴰ p r)
  count_of-Permᴰ p (Permᴰ.swap e f) = rw (e, f) (omega arith)
  count_of-Permᴰ p (Permᴰ.trans r s) = count_of-Permᴰ p r ∙ count_of-Permᴰ p s

  count_of-perm : (p : A → Bool) {xs ys : List A} → Perm xs ys → count_of p xs ≡ count_of p ys
  count_of-perm p r = ∥∥₁_elim r (ℕ_set _ _) (count_of-Permᴰ p)

  length-Permᴰ : {xs ys : List A} → Permᴰ xs ys → length xs ≡ length ys
  length-Permᴰ Permᴰ.nil = refl
  length-Permᴰ (Permᴰ.cons e r) = ap suc (length-Permᴰ r)
  length-Permᴰ (Permᴰ.swap e f) = refl
  length-Permᴰ (Permᴰ.trans r s) = length-Permᴰ r ∙ length-Permᴰ s

  length-perm : {xs ys : List A} → Perm xs ys → length xs ≡ length ys
  length-perm r = ∥∥₁_elim r (ℕ_set _ _) length-Permᴰ

  all-Permᴰ : (p : A → Bool) {xs ys : List A} → Permᴰ xs ys → all p xs ≡ all p ys
  unfolding all
  all-Permᴰ p Permᴰ.nil = refl
  all-Permᴰ p (Permᴰ.cons e r) = cc (e, all-Permᴰ p r)
  all-Permᴰ p (Permᴰ.swap {a = a} {b = b} {l = l} e f) = rw (e, f) (ground arith)
  all-Permᴰ p (Permᴰ.trans r s) = all-Permᴰ p r ∙ all-Permᴰ p s

Bool-set : IsSet Bool
Bool-set = hlevel

all_valid-perm : {xs ys : List Vote} → Perm xs ys → all_valid xs ≡ all_valid ys
unfolding all_valid
all_valid-perm r = ∥∥₁_elim r (Bool-set _ _) (all-Permᴰ (λ v. is_valid_vote_decision v.decision))

-- The outcome of a complete round, from the numbers alone: ballots, ayes, nays, abstentions and
-- conditional ballots.
unfoldable pub outcome_of : ConsensusPolicy → ℕ → ℕ → ℕ → ℕ → ℕ → ConsensusOutcome
outcome_of p total aye nay out cond =
    if ltb_ℤ (pos (total - out)) p.quorum
    then insufficient_quorum
    else if leb 2 aye && ltb nay aye
    then if p.conditional_as_approve && ltb 0 cond
      then conditional
      else if aye == total
      then strong_approval
      else majority_approval_with_dissent
    else if leb 2 nay && ltb aye nay
    then if nay == total then strong_rejection else majority_rejection_with_dissent
    else if aye == total
    then strong_approval
    else if nay == total
    then strong_rejection
    else deadlock

classify-outcome_of :
    (p : ConsensusPolicy) (round : ℕ) (vs : List Vote) (t : Tally)
    → 0 < length vs
    → t.approvals + t.rejections + t.abstentions ≡ length vs
    → (classify p round vs t).outcome
      ≡ outcome_of p (length vs) t.approvals t.rejections t.abstentions t.conditionals
unfolding classify outcome_of
classify-outcome_of p round vs t some_vote total = ground arith

abbrev outcome_at : ConsensusPolicy → List Vote → ConsensusOutcome
outcome_at p vs =
    outcome_of p (length vs) (ayes p.conditional_as_approve vs) (nays vs)
      (withheld p.conditional_as_approve vs) (conditionals vs)

outcome_at-perm :
    (p : ConsensusPolicy) {xs ys : List Vote} → Perm xs ys → outcome_at p xs ≡ outcome_at p ys
unfolding ayes nays withheld conditionals
outcome_at-perm p r = cc (
  length-perm r,
  count_of-perm (λ v. is_aye p.conditional_as_approve v.decision) r,
  count_of-perm (λ v. is_nay v.decision) r,
  count_of-perm (λ v. is_withheld p.conditional_as_approve v.decision) r,
  count_of-perm (λ v. is_conditional v.decision) r,
)

-- The outcome of any round.
unfoldable pub outcome_in : ConsensusPolicy → List AgentAbsence → List Vote → ConsensusOutcome
outcome_in p as' vs =
    if is_empty as' && all_valid vs
    then if length vs == 0 then insufficient_quorum else outcome_at p vs
    else incomplete

Evaluated-outcome_in :
    {p : ConsensusPolicy} {round : ℕ} {as' : List AgentAbsence} {vs : List Vote}
    {r : ConsensusResult}
    → Evaluated p round as' vs r
    → r.outcome ≡ outcome_in p as' vs
unfolding outcome_in tally_of ayes
Evaluated-outcome_in (without_ballots o) = unfold all_valid in o
Evaluated-outcome_in (absent a as' vs o) = o
Evaluated-outcome_in (malformed [] vs bad o) = ground arith
Evaluated-outcome_in (malformed (a ∷ as') vs bad o) = o
Evaluated-outcome_in {p} {round} (classified v vs valid e) = rw valid (
    ap (λ (x : ConsensusResult). x.outcome) e
    ∙ classify-outcome_of p round (v ∷ vs) (tally_of p.conditional_as_approve (v ∷ vs))
        (omega arith) (ballots_counted p.conditional_as_approve (v ∷ vs) valid)
    ∙ ground arith)

-- In every round the outcome is the one that the numbers determine: incomplete if a participant is
-- absent or a ballot malformed, otherwise read off the numbers of ballots cast, for, against,
-- abstaining and conditional, and the policy; the round number does not matter.
pub evaluate_ballots-outcome_in :
    (b : BallotSet) (round : ℕ) (p : ConsensusPolicy)
    → (evaluate_ballots b round p).outcome ≡ outcome_in p b.absences b.votes
evaluate_ballots-outcome_in b round p = Evaluated-outcome_in (evaluate_ballots-Evaluated b round p)

-- The outcome does not depend on the order in which the ballots are listed, whatever the absences
-- and the policy.
pub evaluate_ballots-perm :
    (xs ys : List Vote) (as' : List AgentAbsence) (round : ℕ) (p : ConsensusPolicy)
    → Perm xs ys
    → (evaluate_ballots (record { votes = xs; absences = as' }) round p).outcome
      ≡ (evaluate_ballots (record { votes = ys; absences = as' }) round p).outcome
unfolding outcome_in
evaluate_ballots-perm xs ys as' round p r =
    evaluate_ballots-outcome_in (record { votes = xs; absences = as' }) round p
    ∙ cc (all_valid-perm r, length-perm r, outcome_at-perm p r)
    ∙ sym (evaluate_ballots-outcome_in (record { votes = ys; absences = as' }) round p)
