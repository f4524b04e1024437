-- ===== src/Fsm/Paths.antt =====
-- Paths that validate are walks along the blueprint's transitions.
use magi_system.Prelude.{true, List, [], ◌∷◌, ◌≡◌, inl, inr, refl, ◌↔◌, arith, Bool-cases}
use magi_system.Entity.Case.{CaseStatus, status_eq}
use magi_system.Fsm.{StateTransition, allowed, validate_path}

-- A walk that may stay where it is, and otherwise follows a transition of the blueprint.
pub data Walk (b : List StateTransition) : List CaseStatus → Type 0 where
  none : Walk b []
  one : (s : CaseStatus) → Walk b (s ∷ [])
  stay :
      (s t : CaseStatus) (path : List CaseStatus)
      → status_eq s t ≡ true
      → Walk b (t ∷ path)
      → Walk b (s ∷ (t ∷ path))
  move :
      (s t : CaseStatus) (path : List CaseStatus)
      → allowed b s t ≡ true
      → Walk b (t ∷ path)
      → Walk b (s ∷ (t ∷ path))

no_violation-Walk :
    (b : List StateTransition) (path : List CaseStatus) → validate_path b path ≡ [] → Walk b path
unfolding validate_path
no_violation-Walk b [] h = none
no_violation-Walk b (s ∷ []) h = one s
no_violation-Walk b (s ∷ (t ∷ path)) h = elim (Bool-cases (status_eq s t)) [
  | inl same ↦ stay s t path same (no_violation-Walk b (t ∷ path) (ground arith))
  | inr other ↦ elim (Bool-cases (allowed b s t)) [
    | inl ok ↦ move s t path ok (no_violation-Walk b (t ∷ path) (ground arith))
    | inr bad ↦ absurd (ground arith)
  ]
]

Walk-no_violation :
    (b : List StateTransition) {path : List CaseStatus} → Walk b path → validate_path b path ≡ []
unfolding validate_path
Walk-no_violation b none = refl
Walk-no_violation b (one s) = refl
Walk-no_violation b (stay s t path e w) = ground (arith, Walk-no_violation b w)
Walk-no_violation b (move s t path e w) = ground (arith, Walk-no_violation b w)

-- Validation reports nothing exactly for the walks along the blueprint, whatever the blueprint.
pub validate_path-Walk :
    (b : List StateTransition) (path : List CaseStatus) → (validate_path b path ≡ []) ↔ Walk b path
validate_path-Walk b path = (no_violation-Walk b path, Walk-no_violation b)
