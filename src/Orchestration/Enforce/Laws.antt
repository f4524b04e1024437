-- ===== src/Orchestration/Enforce/Laws.antt =====
-- Which changes of a vote survive the reflection rule.
use magi_system.Prelude.{
  ℕ, true, false, Option, none, some, List, [], ◌∷◌, ◌≡◌, ◌≢◌, ◌⊎◌, refl, arith, inl, inr,
  Option-cases, Bool-cases, is_empty, All,
}
use magi_system.Entity.Vote.{Vote, decision_eq}
use magi_system.Entity.Evidence.{Reflection, maintain}
use magi_system.Runtime.Result.{LoopResult}
use magi_system.Debate.Reflection.{
  infer_reflection, validate_reflection, validate_position, cites_something, new_ids, inferred_from,
}
use magi_system.Debate.Reflection.Laws.{validate_reflection-Justified, moves}
use magi_system.Evidence.Ledger.{exists_collected}
use mathlib.Core.Path.{subst}
use magi_system.Orchestration.Ballots.{MagiConfig}
use magi_system.Orchestration.Enforce.{
  enforce_one, enforce_reflection_rule, reflection_for, validated, ledger_or_empty, known_claims,
  reflection_in, at_round, first_slot, rest_of,
}

-- The vote that stays after one agent's round is the previous one; or it is the new one, and then the
-- decisions agree, or no justification is required, or the reflection was validated.
abbrev pub Fair : MagiConfig → Option LoopResult → Vote → Vote → ℕ → Option Vote → Type 0
Fair config result pv nv round kept =
    (kept ≡ some pv)
    ⊎ ((kept ≡ some nv)
        × ((decision_eq pv.decision nv.decision ≡ true)
            ⊎ (config.require_justification ≡ false)
            ⊎ ((r : Reflection) × (reflection_for result pv nv round ≡ some r)
                × (validated config result pv r ≡ none))))

reflection_for-some :
    (result : Option LoopResult) (pv nv : Vote) (round : ℕ)
    → (r : Reflection) × (reflection_for result pv nv round ≡ some r)
unfolding reflection_for infer_reflection
reflection_for-some result pv nv round = elim (Option-cases (reflection_in result)) [
  | inl e ↦ (at_round round (inferred_from pv nv round), ground arith)
  | inr (r, e) ↦ (at_round round r, ground arith)
]

enforce_one-Fair :
    (config : MagiConfig) (result : Option LoopResult) (pv nv : Vote) (round : ℕ)
    → Fair config result pv nv round
        (enforce_one (some config) result (some pv) (some nv) round).vote
unfolding enforce_one
enforce_one-Fair config result pv nv round = by_reflection (reflection_for-some result pv nv round)
  where
    by_reflection :
        (r : Reflection) × (reflection_for result pv nv round ≡ some r)
        → Fair config result pv nv round
            (enforce_one (some config) result (some pv) (some nv) round).vote
    by_reflection (r, e) = elim (Bool-cases (decision_eq pv.decision nv.decision)) [
      | inl same ↦ inr (ground (arith, same), inl same)
      | inr other ↦ elim (Bool-cases (config.require_justification)) [
        | inr lax ↦ inr (ground (arith, other, lax), inr (inl lax))
        | inl strict ↦ elim (Option-cases (validated config result pv r)) [
          | inl ok ↦ inr (ground (arith, e, ok, other, strict), inr (inr (r, e, ok)))
          | inr (x, bad) ↦ inl (ground (arith, e, bad, other, strict))
        ]
      ]
    ]

change_validated :
    (config : MagiConfig) (result : Option LoopResult) (pv nv : Vote) (round : ℕ)
    (kept : Option Vote)
    → Fair config result pv nv round kept
    → kept ≢ some pv
    → decision_eq pv.decision nv.decision ≡ false
    → config.require_justification ≡ true
    → (r : Reflection) × (reflection_for result pv nv round ≡ some r)
      × (validated config result pv r ≡ none)
change_validated config result pv nv round kept (inl e) ne other strict = absurd (ne e)
change_validated config result pv nv round kept (inr (e, inl same)) ne other strict =
    cc (same, other)
change_validated config result pv nv round kept (inr (e, inr (inl lax))) ne other strict =
    cc (lax, strict)
change_validated config result pv nv round kept (inr (e, inr (inr ok))) ne other strict = ok

-- The same for every index that both rounds have; a slot without both ballots, or without a
-- configuration, keeps its new value.
pub FairRound :
    List (Option Vote)
    → List (Option Vote)
    → List (Option LoopResult)
    → List MagiConfig
    → ℕ
    → List (Option Vote)
    → Type 0
FairRound prevs [] results configs round kept = kept ≡ []
FairRound [] (n ∷ news) results configs round kept = kept ≡ n ∷ news
FairRound (p ∷ prevs) (n ∷ news) results configs round [] = ⊥
FairRound (some pv ∷ prevs) (some nv ∷ news) results (c ∷ configs) round (k ∷ kept) =
    Fair c (first_slot results) pv nv round k
    × FairRound prevs news (rest_of results) configs round kept
FairRound (p ∷ prevs) (n ∷ news) results configs round (k ∷ kept) =
    (k ≡ n) × FairRound prevs news (rest_of results) (rest_of configs) round kept

-- After the rule has run over a round, every slot with a previous and a new ballot and a configuration
-- holds one of the two, and, where the configuration requires justification, it holds a changed
-- decision only with a reflection that was validated. All other slots hold their new value.
pub enforce_reflection_rule-FairRound :
    (prevs news : List (Option Vote)) (results : List (Option LoopResult))
    (configs : List MagiConfig) (round : ℕ)
    → FairRound prevs news results configs round
        (enforce_reflection_rule prevs news results configs round).votes
unfolding enforce_reflection_rule FairRound
enforce_reflection_rule-FairRound prevs [] results configs round = refl
enforce_reflection_rule-FairRound [] (n ∷ news) results configs round = refl
enforce_reflection_rule-FairRound (none ∷ prevs) (n ∷ news) results [] round =
    (refl, enforce_reflection_rule-FairRound prevs news (rest_of results) [] round)
enforce_reflection_rule-FairRound (none ∷ prevs) (n ∷ news) results (c ∷ configs) round =
    (refl, enforce_reflection_rule-FairRound prevs news (rest_of results) configs round)
enforce_reflection_rule-FairRound (some pv ∷ prevs) (none ∷ news) results [] round =
    (refl, enforce_reflection_rule-FairRound prevs news (rest_of results) [] round)
enforce_reflection_rule-FairRound (some pv ∷ prevs) (none ∷ news) results (c ∷ configs) round =
    (refl, enforce_reflection_rule-FairRound prevs news (rest_of results) configs round)
enforce_reflection_rule-FairRound (some pv ∷ prevs) (some nv ∷ news) results [] round =
    (refl, enforce_reflection_rule-FairRound prevs news (rest_of results) [] round)
enforce_reflection_rule-FairRound (some pv ∷ prevs) (some nv ∷ news) results (c ∷ configs) round = (
  enforce_one-Fair c (first_slot results) pv nv round,
  enforce_reflection_rule-FairRound prevs news (rest_of results) configs round,
)

-- What an agent with no reflection of its own needs for a changed decision to stay.
pub record NewEvidence (result : Option LoopResult) (pv nv : Vote) : Type 0 where
  pub cites_new : is_empty (new_ids pv.evidence_ids nv.evidence_ids) ≡ false
  pub all_known :
      All
        (λ id. exists_collected (ledger_or_empty result) id "" ≡ true)
        (new_ids pv.evidence_ids nv.evidence_ids)

-- Where justification is required, an agent that submits no reflection changes its decision only by
-- citing evidence that its previous vote did not cite, all of it in the ledger of its run; otherwise
-- its previous vote stands.
pub enforce_one-NewEvidence :
    (config : MagiConfig) (result : Option LoopResult) (pv nv : Vote) (round : ℕ)
    → config.require_justification ≡ true
    → reflection_in result ≡ none
    → decision_eq pv.decision nv.decision ≡ false
    → (enforce_one (some config) result (some pv) (some nv) round).vote ≢ some pv
    → NewEvidence result pv nv
enforce_one-NewEvidence config result pv nv round strict silent other kept =
    let (r, e, ok) =
      change_validated config result pv nv round _ (enforce_one-Fair config result pv nv round) kept
        other strict in
    let inferred : r ≡ at_round round (inferred_from pv nv round) = inferred_reflection r e in
    let j =
      validate_reflection-Justified r pv (ledger_or_empty result) (known_claims result)
        config.require_new_evidence (inferred_moves r inferred) (unfold validated in ok) in
    record { cites_new = cites r inferred j.cites; all_known = known r inferred j.evidence_known }
  where
    inferred_reflection :
        (r : Reflection)
        → reflection_for result pv nv round ≡ some r
        → r ≡ at_round round (inferred_from pv nv round)
    inferred_reflection r e = unfold reflection_for infer_reflection in ground arith

    inferred_moves :
        (r : Reflection)
        → r ≡ at_round round (inferred_from pv nv round)
        → moves r.position_change ≡ true
    inferred_moves r e = rw e (ground arith)

    cites :
        (r : Reflection)
        → r ≡ at_round round (inferred_from pv nv round)
        → cites_something r ≡ true
        → is_empty (new_ids pv.evidence_ids nv.evidence_ids) ≡ false
    cites r e h = unfold cites_something in ground arith

    known :
        (r : Reflection)
        → r ≡ at_round round (inferred_from pv nv round)
        → All (λ id. exists_collected (ledger_or_empty result) id "" ≡ true) r.new_evidence_ids
        → All
            (λ id. exists_collected (ledger_or_empty result) id "" ≡ true)
            (new_ids pv.evidence_ids nv.evidence_ids)
    known r e h =
        subst (λ ids. All (λ id. exists_collected (ledger_or_empty result) id "" ≡ true) ids)
          (ids_of r e) h
      where
        ids_of :
            (r : Reflection)
            → r ≡ at_round round (inferred_from pv nv round)
            → r.new_evidence_ids ≡ new_ids pv.evidence_ids nv.evidence_ids
        ids_of r e = ground arith

-- A reflection that the agent itself submits as `maintain` is accepted whatever the two votes are:
-- without the demand for new evidence, any change of the decision stays, with nothing cited.
enforce_one_maintain :
    (config : MagiConfig) (result : Option LoopResult) (pv nv : Vote) (round : ℕ) (r : Reflection)
    → config.require_new_evidence ≡ false
    → reflection_in result ≡ some r
    → r.position_change ≡ maintain
    → (enforce_one (some config) result (some pv) (some nv) round).vote ≡ some nv
unfolding enforce_one reflection_for validated validate_reflection validate_position
enforce_one_maintain config result pv nv round r lax own same = ground arith
