-- ===== src/Debate/Reflection.antt =====
-- backend/domain/debate/reflection.go. A nil pointer is `none`; the ledger is asked whether it holds
-- an id, and the known claim ids are a list.
pub mod Laws
use magi_system.Prelude.{
  ℕ, pos, String, Bool, true, false, not, ◌&&◌, ◌||◌, Option, none, some, List, [], ◌∷◌, is_empty,
  if◌then◌else◌,
}
use magi_system.Prelude.Dict.{member}
use magi_system.Entity.Vote.{Vote, decision_eq}
use magi_system.Entity.Evidence.{
  Reflection, PositionChange, maintain, strengthen, weaken, change, abstain_position,
  unknown_position,
}
use magi_system.Evidence.Ledger.{EvidenceLedger, exists_collected}

pub data ReflectionError : Type 0 where
  nil_reflection nil_previous_vote new_evidence_required nothing_cited : ReflectionError
  evidence_not_found accepted_not_found rejected_not_found : String → ReflectionError
  unknown_position_change : String → ReflectionError

-- The first cited id that fails a test.
unfoldable pub first_missing : (String → Bool) → List String → Option String
first_missing exists [] = none
first_missing exists (id ∷ ids) = if exists id then first_missing exists ids else some id

abbrev has_reevaluation : Option (List String) → Bool
has_reevaluation none = false
has_reevaluation (some ds) = not (is_empty ds)

-- At least one of the four criteria.
unfoldable pub cites_something : Reflection → Bool
cites_something r =
    not (is_empty r.new_evidence_ids)
    || (not (is_empty r.accepted_claims)
        || (not (is_empty r.rejected_claims) || has_reevaluation r.dimensions_re_evaluated))

-- The three loops over the cited ids.
unfoldable pub check_citations : Reflection → EvidenceLedger → List String → Option ReflectionError
unfolding first_missing exists_collected
check_citations r ledger claim_ids =
    elim (first_missing (λ id. exists_collected ledger id "") r.new_evidence_ids) [
      | some id ↦ some (evidence_not_found id)
      | none ↦ elim (first_missing (λ id. member id claim_ids) r.accepted_claims) [
        | some id ↦ some (accepted_not_found id)
        | none ↦ elim (first_missing (λ id. member id claim_ids) r.rejected_claims) [
          | some id ↦ some (rejected_not_found id)
          | none ↦ none
        ]
      ]
    ]

-- The switch on the position change; `none` is the nil error.
unfoldable pub validate_position :
    PositionChange → Reflection → EvidenceLedger → List String → Bool → Option ReflectionError
unfolding cites_something check_citations
validate_position change r ledger claim_ids require_new =
    if cites_something r then check_citations r ledger claim_ids else some nothing_cited
validate_position weaken r ledger claim_ids require_new =
    if cites_something r then check_citations r ledger claim_ids else some nothing_cited
validate_position (unknown_position s) r ledger claim_ids require_new =
    some (unknown_position_change s)
validate_position _ r ledger claim_ids require_new =
    if require_new && is_empty r.new_evidence_ids then some new_evidence_required else none

unfoldable pub validate_reflection :
    Option Reflection → Option Vote → EvidenceLedger → List String → Bool → Option ReflectionError
unfolding validate_position
validate_reflection none prev ledger claim_ids require_new = some nil_reflection
validate_reflection (some r) none ledger claim_ids require_new = some nil_previous_vote
validate_reflection (some r) (some v) ledger claim_ids require_new =
    validate_position r.position_change r ledger claim_ids require_new

-- The ids of the new vote that the previous one does not cite.
unfoldable pub new_ids : List String → List String → List String
unfolding member
new_ids prev [] = []
new_ids prev (id ∷ ids) = let rest = new_ids prev ids in if member id prev then rest else id ∷ rest

abbrev pub inferred_from : Vote → Vote → ℕ → Reflection
inferred_from pv nv round = record {
  id = "";
  case_id = "";
  execution_generation = pos 0;
  agent_run_id = nv.agent_run_id;
  round = round;
  previous_vote_id = pv.id;
  position_change = if decision_eq pv.decision nv.decision then maintain else change;
  accepted_claims = [];
  rejected_claims = [];
  new_evidence_ids = new_ids pv.evidence_ids nv.evidence_ids;
  dimensions_re_evaluated = none;
  reasoning = "inferred from vote diff";
  ready_to_revote = true;
}

unfoldable pub infer_reflection : Option Vote → Option Vote → ℕ → Option Reflection
unfolding new_ids decision_eq
infer_reflection (some pv) (some nv) round = some (inferred_from pv nv round)
infer_reflection _ _ round = none
