-- ===== src/Evidence/RoleGate/Dimensions.antt =====
-- The loops of backend/domain/evidence/role_gate.go when they report nothing.
use mathlib.Core.Path.{subst}
use magi_system.Prelude.{
  String, Bool, true, false, not, ◌&&◌, Option, none, some, List, [], ◌∷◌, ◌++◌, ◌≡◌, refl, ◌↔◌,
  ◌⊎◌, arith, All, is_empty, float_hundred, Option-cases, inl, inr, str_eq, eq_iff, if◌then◌else◌,
}
use magi_system.Prelude.Texts.{is_blank}
use magi_system.Prelude.Dict.{lookup, insert, lookup-insert}
use magi_system.Entity.Evidence.{DimensionAssessment}
use magi_system.Entity.Config.{ObjectiveFunction, UtilityDimension}
use magi_system.Evidence.Ledger.{EvidenceLedger}
use magi_system.Evidence.RoleGate.{
  RoleViolation, one_if, outside, has_records, is_foreign, validate_evidence_ids, invalid_ids,
  duplicates, index_assessments, has_dimension, unknown_dimensions, check_assessment,
  check_dimensions, validate_dimension_assessments, dimension_assessment_missing,
  dimension_score_invalid, dimension_reasoning_missing, dimension_evidence_missing,
  dimension_evidence_invalid, unknown_dimension_assessment,
}

append_empty : (xs ys : List RoleViolation) → (xs ++ ys ≡ []) ↔ ((xs ≡ []) × (ys ≡ []))
append_empty [] ys = ground arith
append_empty (x ∷ xs) ys = ground arith

-- Two checks in a row report nothing when both do.
pub join :
    {xs ys : List RoleViolation} {P Q : Type 0}
    → (xs ≡ []) ↔ P
    → (ys ≡ []) ↔ Q
    → (xs ++ ys ≡ []) ↔ (P × Q)
join {xs} {ys} p q = ground (arith, append_empty xs ys, p, q)

pub one_if_empty : (b : Bool) (v : RoleViolation) → (one_if b v ≡ []) ↔ (b ≡ false)
unfolding one_if
one_if_empty true v = ground arith
one_if_empty false v = ground arith

-- The first assessment of a dimension.
unfoldable pub find_assessment : String → List DimensionAssessment → Option DimensionAssessment
find_assessment code [] = none
find_assessment code (a ∷ assessments) =
    if str_eq a.dimension_code code then some a else find_assessment code assessments

module _ (ledger : Option EvidenceLedger) (collector : String) where
  -- With a ledger that has records, every id is one that the collector recorded.
  abbrev pub Own : List String → Type 0
  Own ids = (has_records ledger ≡ false) ⊎ All (λ id. is_foreign ledger collector id ≡ false) ids

  invalid_ids_empty :
      (v : String → RoleViolation) (ids : List String)
      → (invalid_ids v ledger collector ids ≡ [])
        ↔ All (λ id. is_foreign ledger collector id ≡ false) ids
  unfolding invalid_ids
  invalid_ids_empty v [] = ground arith
  invalid_ids_empty v (id ∷ ids) =
      join (one_if_empty (is_foreign ledger collector id) (v id)) (invalid_ids_empty v ids)

  pub validate_evidence_ids_empty :
      (v : String → RoleViolation) (ids : List String)
      → (validate_evidence_ids v ledger collector ids ≡ []) ↔ Own ids
  unfolding validate_evidence_ids
  validate_evidence_ids_empty v ids = ground (arith, invalid_ids_empty v ids)

  module _ (require_evidence : Bool) where
    -- An assessment with a score between 0 and 100, with its reasons, and with evidence of its own.
    pub record IsSound (a : DimensionAssessment) : Type 0 where
      pub score : outside float_hundred a.score ≡ false
      pub reasoned : is_blank a.reasoning ≡ false
      pub backed : (require_evidence && is_empty a.evidence_ids) ≡ false
      pub own : Own a.evidence_ids

    check_assessment_empty :
        (code : String) (a : DimensionAssessment)
        → (check_assessment ledger collector require_evidence code a ≡ []) ↔ IsSound a
    unfolding check_assessment
    check_assessment_empty code a =
        let checks =
          join
            (join
              (join (one_if_empty (outside float_hundred a.score) (dimension_score_invalid code))
                (one_if_empty (is_blank a.reasoning) (dimension_reasoning_missing code)))
              (one_if_empty (require_evidence && is_empty a.evidence_ids)
                (dimension_evidence_missing code)))
            (validate_evidence_ids_empty dimension_evidence_invalid a.evidence_ids) in
        (
          λ h.
              let (((score, reasoned), backed), own) = checks.0 h in
              record { score = score; reasoned = reasoned; backed = backed; own = own },
          λ s. checks.1 (((s.score, s.reasoned), s.backed), s.own),
        )

    looked_up :
        (d : UtilityDimension) (o : Option DimensionAssessment)
        → ((elim o as (λ _. List RoleViolation) [
          | none ↦ dimension_assessment_missing d.code ∷ []
          | some a ↦ check_assessment ledger collector require_evidence d.code a
        ])
            ≡ [])
          ↔ ((a : DimensionAssessment) × (o ≡ some a) × IsSound a)
    looked_up d none = (λ h. absurd (ground arith), λ (a, e, s). absurd (ground arith))
    looked_up d (some a) =
        let sound = check_assessment_empty d.code a in
        (
          λ h. (a, refl, sound.0 h),
          λ (b, e, s). let same : b ≡ a = ground arith in sound.1 (subst (λ x. IsSound x) same s),
        )

    check_dimensions_empty :
        (assessments : List DimensionAssessment) (by_code : List (String × DimensionAssessment))
        (dimensions : List UtilityDimension)
        → ((code : String) → lookup code by_code ≡ find_assessment code assessments)
        → (check_dimensions ledger collector require_evidence by_code dimensions ≡ [])
          ↔ All
              (λ d.
                (a : DimensionAssessment) × (find_assessment d.code assessments ≡ some a)
                × IsSound a)
              dimensions
    unfolding check_dimensions
    check_dimensions_empty assessments by_code [] same = ground arith
    check_dimensions_empty assessments by_code (d ∷ dimensions) same =
        join (rw (← same d.code) (looked_up d (lookup d.code by_code)))
          (check_dimensions_empty assessments by_code dimensions same)

-- No code comes twice, after those in front.
abbrev pub Fresh : List DimensionAssessment → List DimensionAssessment → Type 0
Fresh seen [] = Unit
Fresh seen (a ∷ assessments) =
    (find_assessment a.dimension_code seen ≡ none) × Fresh (seen ++ a ∷ []) assessments

find_snoc :
    (code : String) (a : DimensionAssessment) (seen : List DimensionAssessment)
    → find_assessment code (seen ++ a ∷ [])
      ≡ elim (find_assessment code seen) as (λ _. Option DimensionAssessment) [
        | some b ↦ some b
        | none ↦ if str_eq a.dimension_code code then some a else none
      ]
unfolding find_assessment
find_snoc code a [] = refl
find_snoc code a (b ∷ seen) = ground (arith, find_snoc code a seen)

-- The map holds the first assessment of each code.
abbrev Indexes : List (String × DimensionAssessment) → List DimensionAssessment → Type 0
Indexes by_code seen = (code : String) → lookup code by_code ≡ find_assessment code seen

insert-Indexes :
    (by_code : List (String × DimensionAssessment)) (seen : List DimensionAssessment)
    (a : DimensionAssessment)
    → Indexes by_code seen
    → find_assessment a.dimension_code seen ≡ none
    → Indexes (insert a.dimension_code a by_code) (seen ++ a ∷ [])
insert-Indexes by_code seen a same new code = ground (
  arith,
  lookup-insert a.dimension_code code a by_code,
  same code,
  find_snoc code a seen,
  eq_iff a.dimension_code code,
)

duplicates_empty :
    (by_code : List (String × DimensionAssessment)) (seen assessments : List DimensionAssessment)
    → Indexes by_code seen
    → (duplicates by_code assessments ≡ []) ↔ Fresh seen assessments
unfolding duplicates
duplicates_empty by_code seen [] same = ground arith
duplicates_empty by_code seen (a ∷ assessments) same =
    elim (Option-cases (find_assessment a.dimension_code seen)) [
      | inl e ↦
          let rest =
            duplicates_empty (insert a.dimension_code a by_code) (seen ++ a ∷ []) assessments
              (insert-Indexes by_code seen a same e) in
          ground (arith, rest, same a.dimension_code)
      | inr (b, e) ↦ ground (arith, same a.dimension_code)
    ]

lookup-index_assessments :
    (by_code : List (String × DimensionAssessment)) (assessments : List DimensionAssessment)
    (code : String)
    → lookup code (index_assessments by_code assessments)
      ≡ elim (lookup code by_code) as (λ _. Option DimensionAssessment) [
        | some b ↦ some b
        | none ↦ find_assessment code assessments
      ]
unfolding index_assessments find_assessment
lookup-index_assessments by_code [] code = ground arith
lookup-index_assessments by_code (a ∷ assessments) code =
    elim (Option-cases (lookup a.dimension_code by_code)) [
      | inl e ↦ ground (
        arith,
        lookup-index_assessments (insert a.dimension_code a by_code) assessments code,
        lookup-insert a.dimension_code code a by_code,
        eq_iff a.dimension_code code,
      )
      | inr (b, e) ↦
          ground
            (arith, lookup-index_assessments by_code assessments code, eq_iff a.dimension_code code)
    ]

unknown_dimensions_empty :
    (dimensions : List UtilityDimension) (assessments : List DimensionAssessment)
    → (unknown_dimensions dimensions assessments ≡ [])
      ↔ All (λ a. has_dimension a.dimension_code dimensions ≡ true) assessments
unfolding unknown_dimensions
unknown_dimensions_empty dimensions [] = ground arith
unknown_dimensions_empty dimensions (a ∷ assessments) =
    let known = has_dimension a.dimension_code dimensions in
    let rest = unknown_dimensions_empty dimensions assessments in
    let first = one_if_empty (not known) (unknown_dimension_assessment a.dimension_code) in
    let whole = join first rest in ground (arith, whole)

module _ (ledger : Option EvidenceLedger) (collector : String) (require_evidence : Bool) where
  -- Each dimension of the objective is assessed once and soundly, and nothing else is.
  pub record Covers (assessments : List DimensionAssessment) (objective : ObjectiveFunction)
      : Type 0 where
    pub once : Fresh [] assessments
    pub assessed :
        All
          (λ d.
            (a : DimensionAssessment) × (find_assessment d.code assessments ≡ some a)
            × IsSound ledger collector require_evidence a)
          objective.dimensions
    pub known : All (λ a. has_dimension a.dimension_code objective.dimensions ≡ true) assessments

  pub validate_dimension_assessments_empty :
      (assessments : List DimensionAssessment) (objective : ObjectiveFunction)
      → (validate_dimension_assessments ledger collector require_evidence assessments objective
          ≡ [])
        ↔ Covers assessments objective
  unfolding validate_dimension_assessments
  validate_dimension_assessments_empty assessments objective =
      let checks =
        join
          (join (duplicates_empty [] [] assessments (λ code. unfold lookup find_assessment in refl))
            (check_dimensions_empty ledger collector require_evidence assessments
              (index_assessments [] assessments) objective.dimensions
              (λ code. unfold lookup in lookup-index_assessments [] assessments code)))
          (unknown_dimensions_empty objective.dimensions assessments) in
      (
        λ h.
            let ((once, assessed), known) = checks.0 h in
            record { once = once; assessed = assessed; known = known },
        λ c. checks.1 ((c.once, c.assessed), c.known),
      )
