-- ===== src/Debate/Claims/Reports.antt =====
-- What `GraphConflictFinder.Find` reports.
use magi_system.Prelude.{
  String, Bool, true, false, ◌⊎◌, Option, none, some, List, [], ◌∷◌, ◌≡◌, refl, ◌∙◌, arith, All,
  str_eq, eq_iff, eq_refl, Bool-cases, inl, inr, if◌then◌else◌,
}
use magi_system.Prelude.Dict.{lookup, insert, member}
use magi_system.Entity.Evidence.{Claim}
use magi_system.Debate.Claims.{
  Graph, row, add_member, set_edge, add_contradiction, add_contradictions, add_claim, add_claims,
  new_graph, empty_graph, contradicts, conflicts, conflict_key, find_conflicts,
}
use magi_system.Debate.Claims.Laws.{asserted, contradicts-asserted}
use magi_system.Debate.Claims.Pairs.{
  conflict_keys, distinct, Tracks, Edges, Reported, All-snoc, conflicts_in-Tracks, conflicts_in_all,
  conflicts_in-Reported,
}

row_cons :
    (a x : String) (bs : List String) (m : List (String × List String))
    → row a ((x, bs) ∷ m) ≡ (if str_eq x a then bs else row a m)
unfolding row lookup
row_cons a x bs m = ground arith

module _ (P : String → String → Bool) where
  row-Edges :
      (a : String) (m : List (String × List String)) → Edges P m → All (λ b. P a b ≡ true) (row a m)
  row-Edges a [] h = unfold row lookup in tt
  row-Edges a ((x, bs) ∷ m) (p, h) = elim (Bool-cases (str_eq x a)) [
    | inl e ↦ rw (row_cons a x bs m, e) (rw ((eq_iff x a).0 e) at p)
    | inr e ↦ rw (row_cons a x bs m, e) (row-Edges a m h)
  ]

  insert-Edges :
      (a : String) (bs : List String) (m : List (String × List String))
      → All (λ b. P a b ≡ true) bs
      → Edges P m
      → Edges P (insert a bs m)
  unfolding insert
  insert-Edges a bs [] p h = (p, tt)
  insert-Edges a bs ((x, cs) ∷ m) p (q, h) = elim (Bool-cases (str_eq x a)) [
    | inl e ↦ rw e (p, h)
    | inr e ↦ rw e (q, insert-Edges a bs m p h)
  ]

  set_edge-Edges :
      (a b : String) (m : List (String × List String))
      → P a b ≡ true
      → Edges P m
      → Edges P (set_edge a b m)
  unfolding set_edge add_member
  set_edge-Edges a b m p h =
      let held = row-Edges a m h in
      insert-Edges a (add_member b (row a m)) m
        (elim (Bool-cases (member b (row a m))) [
          | inl e ↦ rw e held
          | inr e ↦ rw e (All-snoc P (λ (c : String). P a c ≡ true) (row a m) b held p)
        ])
        h

  add_contradictions-Edges :
      (a : String) (bs : List String) (m : List (String × List String))
      → All (λ b. (P a b ≡ true) × (P b a ≡ true)) bs
      → Edges P m
      → Edges P (add_contradictions a bs m)
  unfolding add_contradictions add_contradiction
  add_contradictions-Edges a [] m p h = h
  add_contradictions-Edges a (b ∷ bs) m ((p, q), ps) h =
      add_contradictions-Edges a bs (add_contradiction a b m) ps
        (set_edge-Edges b a (set_edge a b m) q (set_edge-Edges a b m p h))

  -- What a claim lists is asserted.
  listed :
      (a : String) (bs all_bs : List String)
      → ((b : String) → member b all_bs ≡ true → (P a b ≡ true) × (P b a ≡ true))
      → ((b : String) → member b bs ≡ true → member b all_bs ≡ true)
      → All (λ b. (P a b ≡ true) × (P b a ≡ true)) bs
  unfolding member
  listed a [] all_bs holds within = tt
  listed a (b ∷ bs) all_bs holds within = (
    holds b (within b (ground (arith, eq_refl b))),
    listed a bs all_bs holds (λ c m. within c (ground arith)),
  )

  add_claims-Edges :
      (claims : List (Option Claim)) (g : Graph)
      → ((x y : String) → asserted x y claims ≡ true → P x y ≡ true)
      → Edges P g.contradictions
      → Edges P (add_claims claims g).contradictions
  unfolding add_claims add_claim asserted
  add_claims-Edges [] g holds h = h
  add_claims-Edges (none ∷ cs) g holds h = add_claims-Edges cs g holds h
  add_claims-Edges (some c ∷ cs) g holds h =
      add_claims-Edges cs (add_claim (some c) g) (λ x y e. holds x y (ground arith))
        (add_contradictions-Edges c.id c.contradicts g.contradictions
          (listed c.id c.contradicts c.contradicts
            (λ b m. (
              holds c.id b (ground (arith, eq_refl c.id)),
              holds b c.id (ground (arith, eq_refl c.id)),
            ))
            (λ b m. m))
          h)

-- For every list of claims: each conflict that the finder reports is asserted by a claim, in one
-- direction or the other; no two conflicts have the same key; and for any two ids, either no claim
-- asserts that they contradict each other or a conflict with the key of their pair is reported.
pub find_conflicts-asserted :
    (claims : List (Option Claim)) (x y : String)
    → Reported (λ a b. asserted a b claims) (find_conflicts claims)
      × (distinct (conflict_keys (find_conflicts claims)) ≡ true)
      × ((asserted x y claims ≡ false)
          ⊎ (member (conflict_key x y) (conflict_keys (find_conflicts claims)) ≡ true))
unfolding find_conflicts conflicts
find_conflicts-asserted claims x y =
    let m = (new_graph claims).contradictions in
    let start : Tracks ([], []) = record {
      same = unfold conflict_keys in refl;
      once = unfold distinct in refl;
    } in
    let tracked = conflicts_in-Tracks m ([], []) start in
    (
      conflicts_in-Reported (λ a b. asserted a b claims) m ([], [])
          (unfold new_graph empty_graph in
            add_claims-Edges (λ a b. asserted a b claims) claims empty_graph (λ a b e. e) tt)
          tt,
      rw (← tracked.same) tracked.once,
      elim (Bool-cases (asserted x y claims)) [
        | inr e ↦ inl e
        | inl e ↦ inr (
            let edge : member y (row x m) ≡ true =
              unfold contradicts in (contradicts-asserted claims x y).0 ∙ e in
            rw (← tracked.same) (conflicts_in_all x y m ([], []) edge))
      ],
    )
