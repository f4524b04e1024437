-- ===== src/Debate/Reflection/Laws.antt =====
-- What a reflection must cite.
use magi_system.Prelude.{
  String, Bool, true, false, none, some, List, [], ◌∷◌, ◌≡◌, arith, All, inl, inr, Bool-cases,
}
use magi_system.Prelude.Dict.{member}
use magi_system.Entity.Vote.{Vote}
use magi_system.Entity.Evidence.{Reflection, PositionChange, weaken, change}
use magi_system.Evidence.Ledger.{EvidenceLedger, exists_collected}
use magi_system.Debate.Reflection.{
  validate_reflection, validate_position, cites_something, check_citations, first_missing,
}

first_missing-none :
    (exists : String → Bool) (ids : List String)
    → first_missing exists ids ≡ none
    → All (λ id. exists id ≡ true) ids
unfolding first_missing
first_missing-none exists [] h = tt
first_missing-none exists (id ∷ ids) h = elim (Bool-cases (exists id)) [
  | inl e ↦ (e, first_missing-none exists ids (ground arith))
  | inr e ↦ absurd (ground arith)
]

-- The position is given up or weakened.
abbrev pub moves : PositionChange → Bool
moves change = true
moves weaken = true
moves _ = false

-- What a position that moves must rest on.
pub record Justified (r : Reflection) (ledger : EvidenceLedger) (claim_ids : List String)
    : Type 0 where
  pub cites : cites_something r ≡ true
  pub evidence_known : All (λ id. exists_collected ledger id "" ≡ true) r.new_evidence_ids
  pub accepted_known : All (λ id. member id claim_ids ≡ true) r.accepted_claims
  pub rejected_known : All (λ id. member id claim_ids ≡ true) r.rejected_claims

check_citations-none :
    (r : Reflection) (ledger : EvidenceLedger) (claim_ids : List String)
    → check_citations r ledger claim_ids ≡ none
    → All (λ id. exists_collected ledger id "" ≡ true) r.new_evidence_ids
      × All (λ id. member id claim_ids ≡ true) r.accepted_claims
      × All (λ id. member id claim_ids ≡ true) r.rejected_claims
unfolding check_citations
check_citations-none r ledger claim_ids h = (
  first_missing-none (λ id. exists_collected ledger id "") r.new_evidence_ids (ground arith),
  first_missing-none (λ id. member id claim_ids) r.accepted_claims (ground arith),
  first_missing-none (λ id. member id claim_ids) r.rejected_claims (ground arith),
)

validate_moves :
    (p : PositionChange) (r : Reflection) (ledger : EvidenceLedger) (claim_ids : List String)
    (require_new : Bool)
    → moves p ≡ true
    → validate_position p r ledger claim_ids require_new ≡ none
    → Justified r ledger claim_ids
unfolding validate_position
validate_moves p r ledger claim_ids require_new m h =
    let checked = check_citations-none r ledger claim_ids (ground arith) in
    record {
      cites = ground arith;
      evidence_known = checked.0;
      accepted_known = checked.1;
      rejected_known = checked.2;
    }

-- A reflection that changes or weakens a position is accepted only if it cites new evidence, an
-- accepted or rejected claim, or a re-evaluated dimension, and every evidence id that it cites is in
-- the ledger and every claim id among the known ones.
pub validate_reflection-Justified :
    (r : Reflection) (v : Vote) (ledger : EvidenceLedger) (claim_ids : List String)
    (require_new : Bool)
    → moves r.position_change ≡ true
    → validate_reflection (some r) (some v) ledger claim_ids require_new ≡ none
    → Justified r ledger claim_ids
unfolding validate_reflection
validate_reflection-Justified r v ledger claim_ids require_new m h =
    validate_moves r.position_change r ledger claim_ids require_new m h
