-- ===== src/Debate/Claims/Laws.antt =====
-- The contradictions of a claim graph.
use magi_system.Prelude.{
  String, Bool, true, false, Option, none, some, List, [], ◌∷◌, ◌++◌, ◌≡◌, refl, sym, ◌∙◌, arith,
  ◌&&◌, ◌||◌, str_eq, eq_iff, if◌then◌else◌,
}
use magi_system.Prelude.Dict.{lookup, member, lookup-insert}
use magi_system.Entity.Evidence.{Claim}
use magi_system.Debate.Claims.{
  Graph, row, add_member, set_edge, add_contradiction, add_contradictions, add_claim, add_claims,
  new_graph, empty_graph, contradicts,
}

member-snoc :
    (id other : String) (ids : List String)
    → member id (ids ++ other ∷ []) ≡ (str_eq other id || member id ids)
unfolding member
member-snoc id other [] = ground arith
member-snoc id other (j ∷ ids) = ground (arith, member-snoc id other ids)

member-add_member :
    (id other : String) (ids : List String)
    → member id (add_member other ids) ≡ (str_eq other id || member id ids)
unfolding add_member
member-add_member id other ids = ground (arith, member-snoc id other ids, eq_iff other id)

-- An edge is there after it is set in one direction, if it was or if it is the one.
row-set_edge :
    (a b x y : String) (m : List (String × List String))
    → member y (row x (set_edge a b m)) ≡ ((str_eq a x && str_eq b y) || member y (row x m))
unfolding set_edge row
row-set_edge a b x y m = ground (
  arith,
  lookup-insert a x (add_member b (row a m)) m,
  member-add_member y b (row a m),
  eq_iff a x,
)

-- A claim contradicts another, as this list says or the other's.
abbrev names : String → List String → String → String → Bool
names a bs x y = (str_eq a x && member y bs) || (str_eq a y && member x bs)

regroup :
    (ax by ay bx ym xm held : Bool)
    → (((ax && ym) || (ay && xm)) || ((bx && ay) || ((ax && by) || held)))
      ≡ (((ax && (if by then true else ym)) || (ay && (if bx then true else xm))) || held)
regroup ax by ay bx ym xm held = ground arith

row-add_contradictions :
    (a : String) (bs : List String) (x y : String) (m : List (String × List String))
    → member y (row x (add_contradictions a bs m)) ≡ (names a bs x y || member y (row x m))
unfolding add_contradictions add_contradiction member
row-add_contradictions a [] x y m = ground arith
row-add_contradictions a (b ∷ bs) x y m =
    rw
      (
        row-add_contradictions a bs x y (add_contradiction a b m),
        row-set_edge b a x y (set_edge a b m),
        row-set_edge a b x y m,
      )
      (regroup (str_eq a x) (str_eq b y) (str_eq a y) (str_eq b x) (member y bs) (member x bs)
        (member y (row x m)))

-- Does one of the claims assert the contradiction, in one direction or the other?
unfoldable pub asserted : String → String → List (Option Claim) → Bool
unfolding member
asserted x y [] = false
asserted x y (none ∷ cs) = asserted x y cs
asserted x y (some c ∷ cs) = names c.id c.contradicts x y || asserted x y cs

row-add_claims :
    (claims : List (Option Claim)) (x y : String) (g : Graph)
    → member y (row x (add_claims claims g).contradictions)
      ≡ (asserted x y claims || member y (row x g.contradictions))
unfolding add_claims asserted add_claim
row-add_claims [] x y g = refl
row-add_claims (none ∷ cs) x y g = row-add_claims cs x y g
row-add_claims (some c ∷ cs) x y g = ground (
  arith,
  row-add_claims cs x y (add_claim (some c) g),
  row-add_contradictions c.id c.contradicts x y g.contradictions,
)

or_false : (b : Bool) → (b || false) ≡ b
or_false true = refl
or_false false = refl

asserted_sym :
    (x y : String) (claims : List (Option Claim)) → asserted x y claims ≡ asserted y x claims
unfolding asserted
asserted_sym x y [] = refl
asserted_sym x y (none ∷ cs) = asserted_sym x y cs
asserted_sym x y (some c ∷ cs) = ground (arith, asserted_sym x y cs)

-- A claim contradicts another in the graph exactly if one of the claims with either id asserts it of
-- the other: the adjacency is the symmetric closure of what the claims say.
pub contradicts-asserted :
    (claims : List (Option Claim)) (x y : String)
    → (member y (contradicts (new_graph claims) x) ≡ asserted x y claims)
      × (member y (contradicts (new_graph claims) x) ≡ member x (contradicts (new_graph claims) y))
unfolding new_graph contradicts empty_graph row lookup member
contradicts-asserted claims x y =
    (direct x y, direct x y ∙ asserted_sym x y claims ∙ sym (direct y x))
  where
    direct :
        (x y : String)
        → member y (row x (add_claims claims empty_graph).contradictions) ≡ asserted x y claims
    direct x y = row-add_claims claims x y empty_graph ∙ or_false (asserted x y claims)
