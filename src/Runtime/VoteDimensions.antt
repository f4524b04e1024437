-- ===== src/Runtime/VoteDimensions.antt =====
-- `ValidateVoteDimensions` of backend/domain/runtime/prompt.go: the check of a vote's utility scores
-- against the agent's objective. The two sets are lists; the last loop ranges over a Go map, so of
-- several missing dimensions the one reported is not determined, and the model takes the first.
pub mod Laws
use magi_system.Prelude.{
  Float64, float_zero, float_hundred, lt_float, String, Bool, ◌||◌, Option, none, some, List, [],
  ◌∷◌, if◌then◌else◌,
}
use magi_system.Prelude.Dict.{member}
use magi_system.Entity.Vote.{Vote, UtilityDimensionScore}
use magi_system.Entity.Config.{ObjectiveFunction, UtilityDimension}

-- A constructor for each message.
pub data VoteDimensionError : Type 0 where
  vote_is_nil : VoteDimensionError
  not_in_objective duplicate_dimension missing_dimension : String → VoteDimensionError
  out_of_range : String → Float64 → VoteDimensionError

-- The keys of `validDims`.
abbrev pub dimension_codes : List UtilityDimension → List String
dimension_codes [] = []
dimension_codes (d ∷ dimensions) = d.code ∷ dimension_codes dimensions

abbrev pub out_of_percent : Float64 → Bool
out_of_percent score = lt_float score float_zero || lt_float float_hundred score

-- The last loop.
unfoldable pub check_missing : List String → List String → Option VoteDimensionError
unfolding member
check_missing seen [] = none
check_missing seen (code ∷ codes) =
    if member code seen then check_missing seen codes else some (missing_dimension code)

-- The loop over the scores, with the codes seen so far, and the last loop after it.
unfoldable pub check_scores :
    List String → List String → List UtilityDimensionScore → Option VoteDimensionError
unfolding member check_missing
check_scores valid seen [] = check_missing seen valid
check_scores valid seen (us ∷ scores) =
    let rest = check_scores valid (us.dimension_code ∷ seen) scores in
    if member us.dimension_code valid
    then if out_of_percent us.score
      then some (out_of_range us.dimension_code us.score)
      else if member us.dimension_code seen
      then some (duplicate_dimension us.dimension_code)
      else rest
    else some (not_in_objective us.dimension_code)

-- A nil vote is `none`; the result `none` is the nil error.
unfoldable pub validate_vote_dimensions :
    Option Vote → ObjectiveFunction → Option VoteDimensionError
unfolding check_scores
validate_vote_dimensions none objective = some vote_is_nil
validate_vote_dimensions (some vote) objective =
    check_scores (dimension_codes objective.dimensions) [] vote.utility_scores
