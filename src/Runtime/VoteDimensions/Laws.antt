-- ===== src/Runtime/VoteDimensions/Laws.antt =====
-- What `ValidateVoteDimensions` lets through: a score for each dimension of the objective.
use magi_system.Prelude.{
  ℕ, ◌+◌, String, Bool, true, false, ◌≡◌, ◌↔◌, refl, arith, none, some, List, [], ◌∷◌, All, str_eq,
  eq_iff, if◌then◌else◌,
}
use magi_system.Prelude.Dict.{member}
use magi_system.Entity.Vote.{Vote, UtilityDimensionScore}
use magi_system.Entity.Config.{ObjectiveFunction}
use magi_system.Runtime.VoteDimensions.{
  validate_vote_dimensions, check_scores, check_missing, dimension_codes, out_of_percent,
}

-- How many scores a dimension has.
unfoldable pub times : String → List UtilityDimensionScore → ℕ
times code [] = 0
times code (us ∷ scores) = (if str_eq us.dimension_code code then 1 else 0) + times code scores

abbrev pub Fits : List String → UtilityDimensionScore → Type 0
Fits valid us = (member us.dimension_code valid ≡ true) × (out_of_percent us.score ≡ false)

-- Each score is one of the objective's and in its range, and each dimension has one score.
pub record Scored (vote : Vote) (objective : ObjectiveFunction) : Type 0 where
  pub fits : All (Fits (dimension_codes objective.dimensions)) vote.utility_scores
  pub once :
      (code : String)
      → member code (dimension_codes objective.dimensions) ≡ true
      → times code vote.utility_scores ≡ 1

abbrev count : Bool → ℕ
count b = if b then 1 else 0

check_missing-member :
    (seen codes : List String)
    → check_missing seen codes ≡ none
    → (code : String) → member code codes ≡ true
    → member code seen ≡ true
unfolding check_missing member
check_missing-member seen [] h code m = absurd (ground arith)
check_missing-member seen (c ∷ codes) h code m =
    ground (arith, eq_iff c code, check_missing-member seen codes _ code)

check_missing-all :
    (seen codes : List String)
    → ((code : String) → member code codes ≡ true → member code seen ≡ true)
    → check_missing seen codes ≡ none
unfolding check_missing member
check_missing-all seen [] h = refl
check_missing-all seen (c ∷ codes) h =
    ground (arith, eq_iff c c, h c, check_missing-all seen codes (λ code m. h code (ground arith)))

module _ (valid : List String) where
  check_scores-Fits :
      (seen : List String) (scores : List UtilityDimensionScore)
      → check_scores valid seen scores ≡ none
      → All (Fits valid) scores
  unfolding check_scores
  check_scores-Fits seen [] h = tt
  check_scores-Fits seen (us ∷ scores) h =
      ground (arith, check_scores-Fits (us.dimension_code ∷ seen) scores)

  -- A dimension that was seen is not scored again, and each has a score in the end.
  check_scores-once :
      (seen : List String) (scores : List UtilityDimensionScore)
      → check_scores valid seen scores ≡ none
      → (code : String) → member code valid ≡ true
      → count (member code seen) + times code scores ≡ 1
  unfolding check_scores times member
  check_scores-once seen [] h code m = ground (arith, check_missing-member seen valid h code m)
  check_scores-once seen (us ∷ scores) h code m = ground (
    arith,
    eq_iff us.dimension_code code,
    check_scores-once (us.dimension_code ∷ seen) scores _ code m,
  )

  check_scores-none :
      (seen : List String) (scores : List UtilityDimensionScore)
      → All (Fits valid) scores
      → ((code : String)
          → member code valid ≡ true
          → count (member code seen) + times code scores ≡ 1)
      → check_scores valid seen scores ≡ none
  unfolding check_scores times member
  check_scores-none seen [] fits once =
      check_missing-all seen valid (λ code m. ground (arith, once code m))
  check_scores-none seen (us ∷ scores) fits once = ground (
    arith,
    eq_iff us.dimension_code us.dimension_code,
    once us.dimension_code,
    check_scores-none (us.dimension_code ∷ seen) scores fits.1
        (λ code m. ground (arith, once code m)),
  )

-- A vote passes exactly if each of its scores is for a dimension of the objective and between 0 and
-- 100, and each dimension of the objective has exactly one score.
pub validate_vote_dimensions-Scored :
    (vote : Vote) (objective : ObjectiveFunction)
    → (validate_vote_dimensions (some vote) objective ≡ none) ↔ Scored vote objective
unfolding validate_vote_dimensions member
validate_vote_dimensions-Scored vote objective =
    let codes = dimension_codes objective.dimensions in
    (
      λ h. record {
        fits = check_scores-Fits codes [] vote.utility_scores h;
        once = λ code m. ground (arith, check_scores-once codes [] vote.utility_scores h code m);
      },
      λ s.
          check_scores-none codes [] vote.utility_scores s.fits
            (λ code m. ground (arith, s.once code m)),
    )
