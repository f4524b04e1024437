-- ===== src/Orchestration/Remap.antt =====
-- backend/domain/entity/idmap.go (the remap itself), and what `persistArtifacts` of
-- backend/domain/orchestration/orchestrator.go writes into the ballots before it stores them.
-- The repository's answers to the single writes are a parameter of the state machine.
pub mod Laws
use Prim.Native.String.{◌++◌ as text_append}
use magi_system.Prelude.{
  ℕ, suc, ℤ, pos_part, String, Bool, true, false, ◌||◌, Option, none, some, List, [], ◌∷◌, str_eq,
  decimal, if◌then◌else◌,
}
use magi_system.Prelude.Dict.{lookup, insert}
use magi_system.Entity.Vote.{Vote, MagiCode, melchior, balthasar, casper, commander, other}
use magi_system.Entity.Evidence.{EvidenceRecord, Claim}
use magi_system.Evidence.Ledger.{EvidenceLedger, list, list_claims}
use magi_system.Runtime.Result.{LoopResult}
use magi_system.Orchestration.Ballots.{MagiConfig, config_at, code_of}

pub record ArtifactRemap : Type 0 where
  pub evidence : List (String × String)
  pub claims : List (String × String)

unfoldable pub new_artifact_remap : ArtifactRemap
new_artifact_remap = record { evidence = []; claims = [] }

unfoldable pub add_evidence : String → String → ArtifactRemap → ArtifactRemap
unfolding insert
add_evidence old new m =
    if str_eq old "" || str_eq new "" then m else record m { evidence = insert old new m.evidence }

unfoldable pub add_claim : String → String → ArtifactRemap → ArtifactRemap
unfolding insert
add_claim old new m =
    if str_eq old "" || str_eq new "" then m else record m { claims = insert old new m.claims }

unfoldable pub lookup_id : ArtifactRemap → String → String
unfolding lookup
lookup_id m id = elim (lookup id m.evidence) [
  | some v ↦ v
  | none ↦ elim (lookup id m.claims) [ some v ↦ v | none ↦ id ]
]

unfoldable pub remap_list : ArtifactRemap → List String → List String
unfolding lookup_id
remap_list m [] = []
remap_list m (id ∷ ids) = lookup_id m id ∷ remap_list m ids

unfoldable pub merge_into : List (String × String) → List (String × String) → List (String × String)
unfolding insert
merge_into m [] = m
merge_into m ((k, v) ∷ entries) = merge_into (insert k v m) entries

unfoldable pub merge : ArtifactRemap → ArtifactRemap → ArtifactRemap
unfolding merge_into
merge m added = record {
  evidence = merge_into m.evidence added.evidence;
  claims = merge_into m.claims added.claims;
}

unfoldable pub merge_remaps : ArtifactRemap → List ArtifactRemap → ArtifactRemap
unfolding merge
merge_remaps out [] = out
merge_remaps out (r ∷ rs) = merge_remaps (merge out r) rs

-- "investigate" and "reconsider"
pub data Phase : Type 0 where
  investigate reconsider : Phase

abbrev pub phase_text : Phase → String
phase_text investigate = "investigate"
phase_text reconsider = "reconsider"

abbrev code_text : MagiCode → String
code_text melchior = "melchior"
code_text balthasar = "balthasar"
code_text casper = "casper"
code_text commander = "commander"
code_text (other s) = s

infixr 66 ◌&◌
abbrev ◌&◌ : String → String → String
a & b = text_append a b

-- `executionRunID`; generations that reach it are not negative.
unfoldable pub execution_run_id : String → MagiCode → ℤ → ℕ → Phase → String
unfolding decimal
execution_run_id case_id code generation round phase =
    case_id
    & "-"
    & code_text code
    & "-g"
    & decimal (pos_part generation)
    & "-r"
    & decimal round
    & "-"
    & phase_text phase

unfoldable pub add_evidence_ids : String → List EvidenceRecord → ArtifactRemap → ArtifactRemap
unfolding add_evidence
add_evidence_ids prefix [] m = m
add_evidence_ids prefix (ev ∷ evs) m =
    add_evidence_ids prefix evs (add_evidence ev.id (prefix & "-" & ev.id) m)

unfoldable pub add_claim_ids : String → List Claim → ArtifactRemap → ArtifactRemap
unfolding add_claim
add_claim_ids prefix [] m = m
add_claim_ids prefix (cl ∷ cls) m =
    add_claim_ids prefix cls (add_claim cl.id (prefix & "-" & cl.id) m)

abbrev add_ledger : String → Option EvidenceLedger → ArtifactRemap → ArtifactRemap
add_ledger prefix none m = m
add_ledger prefix (some l) m =
    add_claim_ids prefix (list_claims l) (add_evidence_ids prefix (list l) m)

abbrev result_ledger : Option LoopResult → Option EvidenceLedger
result_ledger none = none
result_ledger (some r) = r.ledger

-- What is written into one ballot.
unfoldable pub namespaced : ArtifactRemap → String → String → ℤ → ℕ → Vote → Vote
unfolding remap_list
namespaced m prefix case_id generation round v = record v {
  id = "vote-" & prefix;
  case_id = case_id;
  execution_generation = generation;
  agent_run_id = prefix;
  round = round;
  key_claim_ids = remap_list m v.key_claim_ids;
  evidence_ids = remap_list m v.evidence_ids;
}

pub record Namespaced : Type 0 where
  pub remap : ArtifactRemap
  pub votes : List (Option Vote)

abbrev namespaced_slot : ArtifactRemap → String → String → ℤ → ℕ → Option Vote → Option Vote
namespaced_slot m prefix case_id generation round none = none
namespaced_slot m prefix case_id generation round (some v) =
    some (namespaced m prefix case_id generation round v)

module _ (case_id : String) (generation : ℤ) (configs : List MagiConfig) (round : ℕ)
    (phase : Phase) where
  unfoldable pub run_prefix : ℕ → String
  unfolding execution_run_id config_at code_of
  run_prefix i = execution_run_id case_id (code_of (config_at configs i)) generation round phase

  abbrev pub remap_after : ArtifactRemap → ℕ → Option LoopResult → ArtifactRemap
  remap_after m i r = add_ledger (run_prefix i) (result_ledger r) m

  -- The loop over the results from index `i` on, with the remap that it has built so far. The slots
  -- are as many as the results.
  unfoldable pub namespace_from :
      ArtifactRemap → ℕ → List (Option LoopResult) → List (Option Vote) → Namespaced
  unfolding run_prefix add_evidence_ids add_claim_ids namespaced
  namespace_from m i [] votes = record { remap = m; votes = votes }
  namespace_from m i (r ∷ rs) [] = namespace_from (remap_after m i r) (suc i) rs []
  namespace_from m i (r ∷ rs) (v ∷ votes) =
      let rest = namespace_from (remap_after m i r) (suc i) rs votes in
      record rest {
        votes =
            namespaced_slot (remap_after m i r) (run_prefix i) case_id generation round v
            ∷ rest.votes;
      }

  -- `persistArtifacts` returns an empty remap and leaves the ballots alone without a repository.
  unfoldable pub namespace_artifacts :
      Bool → List (Option LoopResult) → List (Option Vote) → Namespaced
  unfolding namespace_from new_artifact_remap
  namespace_artifacts true results votes = namespace_from new_artifact_remap 0 results votes
  namespace_artifacts false results votes = record { remap = new_artifact_remap; votes = votes }
