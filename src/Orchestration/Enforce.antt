-- ===== src/Orchestration/Enforce.antt =====
-- `EnforceReflectionRule` of backend/domain/orchestration/orchestrator.go: unjustified changes of a
-- vote between two rounds are taken back. The configurations are not nil.
pub mod Laws
use magi_system.Prelude.{
  ℕ, String, Bool, true, false, Option, none, some, List, [], ◌∷◌, ◌==◌, if◌then◌else◌,
}
use magi_system.Entity.Vote.{Vote, decision_eq}
use magi_system.Entity.Evidence.{Reflection, Claim}
use magi_system.Evidence.Ledger.{EvidenceLedger, new_evidence_ledger, list_claims}
use magi_system.Debate.Reflection.{ReflectionError, infer_reflection, validate_reflection}
use magi_system.Runtime.Result.{LoopResult}
use magi_system.Orchestration.Ballots.{MagiConfig}

abbrev pub reflection_in : Option LoopResult → Option Reflection
reflection_in none = none
reflection_in (some r) = r.reflection

abbrev ledger_in : Option LoopResult → Option EvidenceLedger
ledger_in none = none
ledger_in (some r) = r.ledger

abbrev at_round : ℕ → Reflection → Reflection
at_round round r = if r.round == 0 then record r { round = round } else r

-- The agent's own reflection, or the one inferred from the two votes.
unfoldable pub reflection_for : Option LoopResult → Vote → Vote → ℕ → Option Reflection
unfolding infer_reflection
reflection_for result pv nv round = elim (reflection_in result) [
  | some r ↦ some (at_round round r)
  | none ↦ elim (infer_reflection (some pv) (some nv) round) [
    | some r ↦ some (at_round round r)
    | none ↦ none
  ]
]

abbrev claim_ids_of : List Claim → List String
claim_ids_of [] = []
claim_ids_of (c ∷ cs) = c.id ∷ claim_ids_of cs

-- The ledger of the agent's run, or an empty one.
abbrev ledger_or_empty : Option LoopResult → EvidenceLedger
ledger_or_empty result = elim (ledger_in result) [
  | some l ↦ l
  | none ↦ new_evidence_ledger "" "" ""
]

abbrev known_claims : Option LoopResult → List String
known_claims result = elim (ledger_in result) [ some l ↦ claim_ids_of (list_claims l) | none ↦ [] ]

unfoldable pub validated :
    MagiConfig → Option LoopResult → Vote → Reflection → Option ReflectionError
unfolding validate_reflection
validated config result pv r =
    validate_reflection (some r) (some pv) (ledger_or_empty result) (known_claims result)
      config.require_new_evidence

-- The vote that stays, and the reflection that is kept.
pub record Enforced : Type 0 where
  pub vote : Option Vote
  pub reflection : Option Reflection

abbrev pub judged : MagiConfig → Option LoopResult → Vote → Vote → Option Reflection → Enforced
judged config result pv nv none = record { vote = some nv; reflection = none }
judged config result pv nv (some r) = elim (validated config result pv r) [
  | none ↦ record { vote = some nv; reflection = some r }
  | some e ↦ record { vote = some pv; reflection = some r }
]

-- One round of the loop. Without a configuration at the index nothing is enforced.
unfoldable pub enforce_one :
    Option MagiConfig → Option LoopResult → Option Vote → Option Vote → ℕ → Enforced
unfolding decision_eq reflection_for validated
enforce_one (some config) result (some pv) (some nv) round =
    if decision_eq pv.decision nv.decision
    then record { vote = some nv; reflection = none }
    else if config.require_justification
    then judged config result pv nv (reflection_for result pv nv round)
    else record { vote = some nv; reflection = none }
enforce_one config result pv nv round = record { vote = nv; reflection = none }

abbrev pub first {ℓ} : {A : Type ℓ} → List A → Option A
first [] = none
first (x ∷ xs) = some x

abbrev pub first_slot : List (Option LoopResult) → Option LoopResult
first_slot [] = none
first_slot (x ∷ xs) = x

abbrev pub rest_of {ℓ} : {A : Type ℓ} → List A → List A
rest_of [] = []
rest_of (x ∷ xs) = xs

pub record EnforcedRound : Type 0 where
  pub votes : List (Option Vote)
  pub reflections : List Reflection

abbrev add_enforced : Enforced → EnforcedRound → EnforcedRound
add_enforced e rest = record {
  votes = e.vote ∷ rest.votes;
  reflections = elim (e.reflection) [ none ↦ rest.reflections | some r ↦ r ∷ rest.reflections ];
}

-- The loop over the indices that both vote slices have; the results and the configurations may be
-- shorter. The new votes are written in place: what stands beyond is left as it is.
unfoldable pub enforce_reflection_rule :
    List (Option Vote)
    → List (Option Vote)
    → List (Option LoopResult)
    → List MagiConfig
    → ℕ
    → EnforcedRound
unfolding enforce_one
enforce_reflection_rule prevs [] results configs round = record { votes = []; reflections = [] }
enforce_reflection_rule [] (nv ∷ news) results configs round = record {
  votes = nv ∷ news;
  reflections = [];
}
enforce_reflection_rule (pv ∷ prevs) (nv ∷ news) results configs round =
    add_enforced (enforce_one (first configs) (first_slot results) pv nv round)
      (enforce_reflection_rule prevs news (rest_of results) (rest_of configs) round)
