-- ===== src/Debate/Claims/Examples.antt =====
-- Two claims, of which one contradicts the other, and a nil claim.
use magi_system.Prelude.{
  pos, true, false, ◌⊎◌, String, Option, none, some, List, [], ◌∷◌, ◌≡◌, refl, length,
}
use magi_system.Prelude.Dict.{member}
use magi_system.Entity.Evidence.{Claim, open_claim}
use magi_system.Debate.Claims.{conflict_key, find_conflicts}
use magi_system.Debate.Claims.Laws.{asserted}
use magi_system.Debate.Claims.Pairs.{conflict_keys, distinct, Reported}
use magi_system.Debate.Claims.Reports.{find_conflicts-asserted}

abbrev claim_of : String → List String → Claim
claim_of id targets = record {
  id = id;
  case_id = "case-1";
  execution_generation = pos 0;
  agent_run_id = "run-1";
  statement = "it is so";
  supports = [];
  contradicts = targets;
  status = open_claim;
  created_by = "CASPER";
}

abbrev two_claims : List (Option Claim)
two_claims =
    some (claim_of "CL-001" ("CL-002" ∷ [])) ∷ none ∷ some (claim_of "CL-002" ("CL-001" ∷ [])) ∷ []

find_conflicts-asserted_example :
    Reported (λ a b. asserted a b two_claims) (find_conflicts two_claims)
    × (distinct (conflict_keys (find_conflicts two_claims)) ≡ true)
    × ((asserted "CL-002" "CL-001" two_claims ≡ false)
        ⊎ (member (conflict_key "CL-002" "CL-001") (conflict_keys (find_conflicts two_claims))
            ≡ true))
find_conflicts-asserted_example = find_conflicts-asserted two_claims "CL-002" "CL-001"

-- One conflict is reported for the two directions.
one_conflict : length (find_conflicts two_claims) ≡ 1
unfolding find_conflicts
one_conflict = refl
