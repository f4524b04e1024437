-- ===== src/Orchestration/Dissent.antt =====
-- `ExtractDissent` of backend/domain/service/dissent.go, with `finalDecision` and `extractDissent` of
-- backend/domain/orchestration/orchestrator.go.
pub mod Laws
use magi_system.Prelude.{
  ℕ, suc, String, Bool, true, false, ◌||◌, Option, none, some, List, [], ◌∷◌, if◌then◌else◌,
  get_elem?,
}
use magi_system.Entity.Vote.{
  Vote, VoteDecision, approve, reject, abstain, conditional_approve, unknown, MagiCode, decision_eq,
}
use magi_system.Entity.Resolution.{
  ConsensusOutcome, strong_approval, strong_rejection, majority_approval_with_dissent,
  majority_rejection_with_dissent, conditional, Dissent, DissentError, validate_dissent,
}
use magi_system.Orchestration.Ballots.{MagiConfig, config_at, code_of, no_code}

unfoldable pub final_decision : ConsensusOutcome → VoteDecision
final_decision strong_approval = approve
final_decision majority_approval_with_dissent = approve
final_decision strong_rejection = reject
final_decision majority_rejection_with_dissent = reject
final_decision conditional = conditional_approve
final_decision _ = abstain

abbrev code_at : List MagiCode → ℕ → MagiCode
code_at codes i = elim (get_elem? codes i) [ none ↦ no_code | some c ↦ c ]

-- A ballot that is neither the final decision nor an abstention.
unfoldable pub dissents : VoteDecision → Vote → Bool
unfolding decision_eq
dissents final v =
    if decision_eq v.decision final || decision_eq v.decision abstain then false else true

abbrev dissent_of : MagiCode → Vote → Dissent
dissent_of code v = record {
  agent_code = code;
  decision = v.decision;
  reasoning = v.reasoning_summary;
  evidence_ids = v.evidence_ids;
  claim_ids = v.key_claim_ids;
  conditions = v.conditions;
}

-- The loop from index `i` on.
unfoldable pub extract_from : VoteDecision → List MagiCode → ℕ → List (Option Vote) → List Dissent
unfolding dissents
extract_from final codes i [] = []
extract_from final codes i (none ∷ vs) = extract_from final codes (suc i) vs
extract_from final codes i (some v ∷ vs) =
    let rest = extract_from final codes (suc i) vs in
    if dissents final v then dissent_of (code_at codes i) v ∷ rest else rest

-- `none` is the nil slice.
unfoldable pub extract_dissent :
    VoteDecision → List (Option Vote) → List MagiCode → Option (List Dissent)
unfolding decision_eq extract_from
extract_dissent final [] codes = none
extract_dissent final (v ∷ vs) codes =
    if decision_eq final (unknown "") then none else some (extract_from final codes 0 (v ∷ vs))

-- The codes of the slots that hold a ballot; the others keep the empty text.
unfoldable pub slot_codes : List MagiConfig → ℕ → List (Option Vote) → List MagiCode
unfolding config_at code_of
slot_codes configs i [] = []
slot_codes configs i (none ∷ vs) = no_code ∷ slot_codes configs (suc i) vs
slot_codes configs i (some v ∷ vs) = code_of (config_at configs i) ∷ slot_codes configs (suc i) vs

unfoldable pub first_error : List Dissent → Option DissentError
unfolding validate_dissent
first_error [] = none
first_error (d ∷ ds) = elim (validate_dissent d) [ some e ↦ some e | none ↦ first_error ds ]

-- The record to persist, or the error of the first minority position that cannot be trusted.
pub data Extracted : Type 0 where
  dissent : Option (List Dissent) → Extracted
  refused : DissentError → Extracted

abbrev checked : Option (List Dissent) → Extracted
checked none = dissent none
checked (some ds) = elim (first_error ds) [ none ↦ dissent (some ds) | some e ↦ refused e ]

-- The method `extractDissent`, at the final decision and the ballots of the state.
unfoldable pub extract_checked_dissent :
    List MagiConfig → VoteDecision → List (Option Vote) → Extracted
unfolding extract_dissent slot_codes first_error
extract_checked_dissent configs final votes =
    checked (extract_dissent final votes (slot_codes configs 0 votes))
