-- ===== src/Debate/Examples.antt =====
-- The packet of a split round, and a reflection that is accepted.
use magi_system.Prelude.{Bool, true, List, [], ◌∷◌, refl}
use magi_system.Entity.Vote.{Vote, approve, decision_eq}
use magi_system.Entity.Evidence.{change, ClaimConflict, Claim}
use magi_system.Evidence.Ledger.{EvidenceLedger, new_evidence_ledger, record_evidence, evidence_id}
use magi_system.Prelude.Dict.{insert}
use magi_system.Debate.Reflection.{validate_reflection}
use magi_system.Debate.Reflection.Laws.{Justified, validate_reflection-Justified}
use magi_system.Samples.{approval, rejection, reflection_of, observed}

abbrev votes : List Vote
votes = approval ∷ rejection ∷ approval ∷ []

abbrev approves : Vote → Bool
approves v = decision_eq v.decision approve

abbrev no_conflicts : List Claim → List ClaimConflict
no_conflicts cs = []

abbrev one_record : EvidenceLedger
unfolding record_evidence new_evidence_ledger
one_record = (record_evidence (new_evidence_ledger "case-1" "run-1" "MELCHIOR") observed).0

validate_reflection-Justified_example :
    Justified (reflection_of change ("EV-001" ∷ [])) one_record []
unfolding validate_reflection record_evidence new_evidence_ledger insert evidence_id
validate_reflection-Justified_example =
    validate_reflection-Justified (reflection_of change ("EV-001" ∷ [])) approval one_record [] true
      refl refl
