-- ===== src/Orchestration/Machine/Cast.antt =====
-- How many ballots there are: neither the ids that are written into them nor the reflection rule adds
-- a ballot or takes one away.
use magi_system.Prelude.{
  ℕ, suc, ◌+◌, Option, none, some, List, [], ◌∷◌, ◌≡◌, refl, sym, ◌∙◌, ap, arith, length,
  Bool-cases, inl, inr,
}
use mathlib.Core.Path.{subst}
use magi_system.Entity.Evidence.{Reflection}
use magi_system.Entity.Vote.{Vote, decision_eq}
use magi_system.Runtime.Result.{LoopResult}
use magi_system.Orchestration.Ballots.{MagiConfig, deref_votes, collect_ballots}
use magi_system.Orchestration.Ballots.Laws.{collect_ballots-Accounts}
use magi_system.Orchestration.Commit.{DecisionCase}
use magi_system.Orchestration.Enforce.{
  judged, reflection_for, enforce_one, enforce_reflection_rule, first, first_slot, rest_of,
}
use magi_system.Orchestration.Remap.{Phase}
use magi_system.Orchestration.Remap.Laws.{decisions, decisions-namespace_artifacts}
use magi_system.Orchestration.Steps.{World, State, stored}

abbrev count_some {ℓ} : {A : Type ℓ} → List (Option A) → ℕ
count_some [] = 0
count_some (none ∷ xs) = count_some xs
count_some (some x ∷ xs) = suc (count_some xs)

length-deref_votes : (vs : List (Option Vote)) → length (deref_votes vs) ≡ count_some (decisions vs)
unfolding deref_votes
length-deref_votes [] = refl
length-deref_votes (none ∷ vs) = length-deref_votes vs
length-deref_votes (some v ∷ vs) = ap suc (length-deref_votes vs)

pub stored-length :
    (w : World) (c : DecisionCase) (phase : Phase) (st : State) (votes : List (Option Vote))
    → length (deref_votes (stored w c phase st votes).votes) ≡ length (deref_votes votes)
stored-length w c phase st votes =
    let written = (stored w c phase st votes).votes in
    length-deref_votes written
    ∙ ap count_some (
        decisions-namespace_artifacts c.id c.execution_generation w.configs st.round phase
          w.ports.has_repo st.results votes)
    ∙ sym (length-deref_votes votes)

abbrev cast : Option Vote → ℕ
cast none = 0
cast (some v) = 1

deref_votes-cons :
    (v : Option Vote) (vs : List (Option Vote))
    → length (deref_votes (v ∷ vs)) ≡ cast v + length (deref_votes vs)
unfolding deref_votes
deref_votes-cons none vs = omega arith
deref_votes-cons (some v) vs = omega arith

judged-cast :
    (config : MagiConfig) (result : Option LoopResult) (pv nv : Vote) (o : Option Reflection)
    → cast (judged config result pv nv o).vote ≡ 1
judged-cast config result pv nv none = refl
judged-cast config result pv nv (some r) = ground arith

enforce_one-cast :
    (config : Option MagiConfig) (result : Option LoopResult) (pv nv : Option Vote) (round : ℕ)
    → cast (enforce_one config result pv nv round).vote ≡ cast nv
unfolding enforce_one
enforce_one-cast none result pv nv round = refl
enforce_one-cast (some config) result none nv round = refl
enforce_one-cast (some config) result (some pv) none round = refl
enforce_one-cast (some config) result (some pv) (some nv) round =
    elim (Bool-cases (decision_eq pv.decision nv.decision)) [
      | inl e ↦ rw e refl
      | inr e ↦ elim (Bool-cases config.require_justification) [
        | inl j ↦ simp (e, j) (judged-cast config result pv nv (reflection_for result pv nv round))
        | inr j ↦ rw (e, j) refl
      ]
    ]

pub enforce_reflection_rule-length :
    (prevs news : List (Option Vote)) (results : List (Option LoopResult))
    (configs : List MagiConfig) (round : ℕ)
    → length (deref_votes (enforce_reflection_rule prevs news results configs round).votes)
      ≡ length (deref_votes news)
unfolding enforce_reflection_rule
enforce_reflection_rule-length prevs [] results configs round = refl
enforce_reflection_rule-length [] (nv ∷ news) results configs round = refl
enforce_reflection_rule-length (pv ∷ prevs) (nv ∷ news) results configs round =
    let rest =
      enforce_reflection_rule-length prevs news (rest_of results) (rest_of configs) round in
    let kept = enforce_one-cast (first configs) (first_slot results) pv nv round in
    let one = (enforce_one (first configs) (first_slot results) pv nv round).vote in
    let others =
      (enforce_reflection_rule prevs news (rest_of results) (rest_of configs) round).votes in
    deref_votes-cons one others ∙ omega (arith, rest, kept) ∙ sym (deref_votes-cons nv news)

-- Where nobody is absent there is a ballot for each result.
pub collect_ballots-length :
    (configs : List MagiConfig) (results : List (Option LoopResult))
    → (collect_ballots configs results).absences ≡ []
    → length (deref_votes (collect_ballots configs results).votes) ≡ length results
collect_ballots-length configs results nobody =
    let b = collect_ballots configs results in
    let all : length (deref_votes b.votes) + 0 ≡ length results =
      subst (λ as'. length (deref_votes b.votes) + length as' ≡ length results) nobody
        (collect_ballots-Accounts configs results).deref_complete in
    omega (arith, all)
