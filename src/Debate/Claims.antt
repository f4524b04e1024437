-- ===== src/Debate/Claims.antt =====
-- backend/domain/claim: the claim graph of graph.go and the finder of conflict.go that the debate
-- engine asks. Maps are association lists and sets are lists without repetition, so where the code
-- ranges over a map, the order is that of the list. A nil claim is `none`.
pub mod Laws
pub mod Pairs
pub mod Reports
mod Examples
use Prim.Native.String.{◌++◌ as ◌<>◌, compare}
use text.Mathlib.Text.{is_lt}
use magi_system.Prelude.{
  String, Bool, true, false, Option, none, some, List, [], ◌∷◌, ◌++◌, if◌then◌else◌,
}
use magi_system.Prelude.Dict.{lookup, insert, member}
use magi_system.Entity.Evidence.{Claim, ClaimConflict}

pub record Graph : Type 0 where
  pub claims : List (String × Claim)
  pub evidence_to_claims : List (String × List String)
  pub contradictions : List (String × List String)

unfoldable pub empty_graph : Graph
empty_graph = record { claims = []; evidence_to_claims = []; contradictions = [] }

-- `m[key]` of a map to lists or sets: a missing key reads as the empty one.
unfoldable pub row : String → List (String × List String) → List String
unfolding lookup
row key m = elim (lookup key m) [ none ↦ [] | some ids ↦ ids ]

-- `set[id] = true`
unfoldable pub add_member : String → List String → List String
unfolding member
add_member id ids = if member id ids then ids else ids ++ id ∷ []

-- One direction of an edge, in a row that is made if it is missing.
unfoldable pub set_edge :
    String → String → List (String × List String) → List (String × List String)
unfolding insert row add_member
set_edge a b m = insert a (add_member b (row a m)) m

-- `addContradiction`
unfoldable pub add_contradiction :
    String → String → List (String × List String) → List (String × List String)
unfolding set_edge
add_contradiction a b m = set_edge b a (set_edge a b m)

unfoldable pub add_contradictions :
    String → List String → List (String × List String) → List (String × List String)
unfolding add_contradiction
add_contradictions a [] m = m
add_contradictions a (b ∷ bs) m = add_contradictions a bs (add_contradiction a b m)

add_supports : String → List String → List (String × List String) → List (String × List String)
unfolding insert row
add_supports id [] m = m
add_supports id (ev ∷ evs) m = add_supports id evs (insert ev (row ev m ++ id ∷ []) m)

unfoldable pub add_claim : Option Claim → Graph → Graph
unfolding insert add_supports add_contradictions
add_claim none g = g
add_claim (some c) g = record {
  claims = insert c.id c g.claims;
  evidence_to_claims = add_supports c.id c.supports g.evidence_to_claims;
  contradictions = add_contradictions c.id c.contradicts g.contradictions;
}

unfoldable pub add_claims : List (Option Claim) → Graph → Graph
unfolding add_claim
add_claims [] g = g
add_claims (c ∷ cs) g = add_claims cs (add_claim c g)

-- `NewGraph`
unfoldable pub new_graph : List (Option Claim) → Graph
unfolding add_claims empty_graph
new_graph claims = add_claims claims empty_graph

unfoldable pub supports : Graph → String → List String
unfolding lookup
supports g id = elim (lookup id g.claims) [ none ↦ [] | some c ↦ c.supports ]

unfoldable pub contradicts : Graph → String → List String
unfolding row
contradicts g id = row id g.contradictions

unfoldable pub claims_for_evidence : Graph → String → List String
unfolding row
claims_for_evidence g ev = row ev g.evidence_to_claims

unfoldable pub conflict_key : String → String → String
conflict_key a b = if is_lt (compare a b) then a <> "|" <> b else b <> "|" <> a

abbrev pub asserted_conflict : String → String → ClaimConflict
asserted_conflict a b = record { claim_a = a; claim_b = b; reason = "agent-asserted" }

-- One turn of the loops of `Conflicts`: the keys seen and the conflicts out.
unfoldable pub offer :
    String → String → List String × List ClaimConflict → List String × List ClaimConflict
unfolding member conflict_key
offer a b (seen, out) =
    if member (conflict_key a b) seen
    then (seen, out)
    else (seen ++ conflict_key a b ∷ [], out ++ asserted_conflict a b ∷ [])

-- The inner loop, over the targets of one claim.
unfoldable pub conflicts_of :
    String → List String → List String × List ClaimConflict → List String × List ClaimConflict
unfolding offer
conflicts_of a [] found = found
conflicts_of a (b ∷ bs) found = conflicts_of a bs (offer a b found)

unfoldable pub conflicts_in :
    List (String × List String)
    → List String × List ClaimConflict
    → List String × List ClaimConflict
unfolding conflicts_of
conflicts_in [] found = found
conflicts_in ((a, bs) ∷ m) found = conflicts_in m (conflicts_of a bs found)

-- `Conflicts`, and `GraphConflictFinder.Find`.
unfoldable pub conflicts : Graph → List ClaimConflict
unfolding conflicts_in
conflicts g = (conflicts_in g.contradictions ([], [])).1

unfoldable pub find_conflicts : List (Option Claim) → List ClaimConflict
unfolding conflicts new_graph
find_conflicts claims = conflicts (new_graph claims)
