-- ===== src/Debate/Packet.antt =====
-- backend/domain/debate/engine.go. The conflict finder is an interface of the engine, so it is an
-- argument; the fixed questions to the three roles are kept as data.
pub mod Laws
use magi_system.Prelude.{
  ℕ, ◌+◌, String, Bool, true, false, ◌&&◌, List, [], ◌∷◌, ◌++◌, length, is_empty, not, leb, ltb,
  if◌then◌else◌,
}
use magi_system.Entity.Vote.{
  Vote, VoteDecision, approve, reject, conditional_approve, melchior, balthasar, casper, commander,
}
use magi_system.Entity.Evidence.{Claim, ClaimConflict, DebatePacket, DebateQuestion, EvidenceRecord}

-- The three slices of the grouping loop.
pub record Groups : Type 0 where
  pub approves : List Vote
  pub rejects : List Vote
  pub others : List Vote

abbrev add_vote : VoteDecision → Vote → Groups → Groups
add_vote approve v g = record g { approves = v ∷ g.approves }
add_vote conditional_approve v g = record g { approves = v ∷ g.approves }
add_vote reject v g = record g { rejects = v ∷ g.rejects }
add_vote _ v g = record g { others = v ∷ g.others }

unfoldable pub group_votes : List Vote → Groups
group_votes [] = record { approves = []; rejects = []; others = [] }
group_votes (v ∷ vs) = add_vote v.decision v (group_votes vs)

pub record Split : Type 0 where
  pub majority : List Vote
  pub minority : List Vote

unfoldable pub split_groups : Groups → Split
split_groups g =
    if ltb (length g.rejects) (length g.approves) && ltb 0 (length g.approves)
    then record { majority = g.approves; minority = g.rejects ++ g.others }
    else if ltb (length g.approves) (length g.rejects) && ltb 0 (length g.rejects)
    then record { majority = g.rejects; minority = g.approves ++ g.others }
    else record { majority = []; minority = g.approves ++ (g.rejects ++ g.others) }

abbrev opposing : String → String → ClaimConflict
opposing a b = record { claim_a = a; claim_b = b; reason = "opposing-vote" }

-- The innermost loop; it returns as soon as three conflicts are out.
unfoldable pub pair_claims : List ClaimConflict → List String → List String → List ClaimConflict
pair_claims out [] bs = out
pair_claims out (a ∷ as') [] = out
pair_claims out (a ∷ as') (b ∷ bs) =
    let grown = out ++ opposing a b ∷ [] in
    let rest = pair_claims grown as' bs in if leb 3 (length grown) then grown else rest

-- The middle loop, over the minority.
unfoldable pub pair_minority : List ClaimConflict → Vote → List Vote → List ClaimConflict
unfolding pair_claims
pair_minority out maj [] = out
pair_minority out maj (min ∷ mins) =
    let grown = pair_claims out maj.key_claim_ids min.key_claim_ids in
    let rest = pair_minority grown maj mins in if leb 3 (length grown) then grown else rest

-- The outer loop, over the majority; the returns of the inner loops end it too.
unfoldable pub pair_majority : List ClaimConflict → List Vote → List Vote → List ClaimConflict
unfolding pair_minority
pair_majority out [] mins = out
pair_majority out (maj ∷ majs) mins =
    let grown = pair_minority out maj mins in
    let rest = pair_majority grown majs mins in if leb 3 (length grown) then grown else rest

unfoldable pub synthesize_conflicts : List Vote → List Vote → List ClaimConflict
unfolding pair_majority
synthesize_conflicts majority minority = pair_majority [] majority minority

abbrev default_role_questions : List DebateQuestion
default_role_questions =
    record {
      from = commander;
      to = melchior;
      text = "Which quantitative assumption or technical blocker would most change your vote?";
    }
    ∷ record {
      from = commander;
      to = balthasar;
      text =
          "What is the worst credible failure, how reversible is it, and what residual risk remains after rollback?";
    }
    ∷ record {
      from = commander;
      to = casper;
      text =
          "What opportunity is time-sensitive, what is the cost of waiting, and what user or market signal supports it?";
    }
    ∷ []

-- The conflicts that were found, or else the synthesized ones where both sides have votes.
unfoldable pub choose_conflicts : List ClaimConflict → Split → List ClaimConflict
unfolding synthesize_conflicts
choose_conflicts found s =
    if is_empty found && (not (is_empty s.majority) && not (is_empty s.minority))
    then synthesize_conflicts s.majority s.minority
    else found

unfoldable pub build_packet :
    (List Claim → List ClaimConflict)
    → List Vote
    → List Claim
    → ℕ
    → List EvidenceRecord
    → DebatePacket
unfolding split_groups group_votes choose_conflicts
build_packet find votes claims round shared =
    let s = split_groups (group_votes votes) in
    record {
      round = round;
      majority_votes = s.majority;
      minority_votes = s.minority;
      conflicting_claims = choose_conflicts (find claims) s;
      shared_evidence = shared;
      questions = default_role_questions;
    }
