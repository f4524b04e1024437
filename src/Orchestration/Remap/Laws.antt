-- ===== src/Orchestration/Remap/Laws.antt =====
-- Rewriting ids touches no decision, so it cannot change an outcome.
use magi_system.Prelude.{
  ℕ, suc, ℤ, String, Bool, true, false, Option, none, some, List, [], ◌∷◌, ◌≡◌, refl, ap,
}
use magi_system.Entity.Vote.{Vote, VoteDecision}
use magi_system.Runtime.Result.{LoopResult}
use magi_system.Orchestration.Ballots.{MagiConfig}
use magi_system.Orchestration.Remap.{
  ArtifactRemap, Phase, namespace_from, namespace_artifacts, namespaced, remap_after,
  new_artifact_remap,
}

abbrev pub decisions : List (Option Vote) → List (Option VoteDecision)
decisions [] = []
decisions (none ∷ vs) = none ∷ decisions vs
decisions (some v ∷ vs) = some v.decision ∷ decisions vs

module _ (case_id : String) (generation : ℤ) (configs : List MagiConfig) (round : ℕ)
    (phase : Phase) where
  decisions-namespace_from :
      (m : ArtifactRemap) (i : ℕ) (rs : List (Option LoopResult)) (vs : List (Option Vote))
      → decisions (namespace_from case_id generation configs round phase m i rs vs).votes
        ≡ decisions vs
  unfolding namespace_from namespaced
  decisions-namespace_from m i [] vs = refl
  decisions-namespace_from m i (r ∷ rs) [] =
      decisions-namespace_from (remap_after case_id generation configs round phase m i r) (suc i) rs
        []
  decisions-namespace_from m i (r ∷ rs) (none ∷ vs) =
      ap (λ l. none ∷ l)
        (decisions-namespace_from (remap_after case_id generation configs round phase m i r) (suc i)
          rs vs)
  decisions-namespace_from m i (r ∷ rs) (some v ∷ vs) =
      ap (λ l. some v.decision ∷ l)
        (decisions-namespace_from (remap_after case_id generation configs round phase m i r) (suc i)
          rs vs)

  -- The ids that are written into the ballots before they are stored change no decision in any slot.
  pub decisions-namespace_artifacts :
      (has_repo : Bool) (rs : List (Option LoopResult)) (vs : List (Option Vote))
      → decisions (namespace_artifacts case_id generation configs round phase has_repo rs vs).votes
        ≡ decisions vs
  unfolding namespace_artifacts
  decisions-namespace_artifacts true rs vs = decisions-namespace_from new_artifact_remap 0 rs vs
  decisions-namespace_artifacts false rs vs = refl
