-- ===== src/Orchestration/Dissent/Laws.antt =====
-- What the dissent record of a resolution holds.
use magi_system.Prelude.{
  ℕ, zero, suc, ◌+◌, Bool, true, false, Option, none, some, List, [], ◌∷◌, ◌++◌, ◌≡◌, ◌≢◌, refl,
  arith, length, count_of, get_elem?, All, Bool-cases, inl, inr, ◌≤◌, ◌<◌, ap, sym, ◌∙◌,
  length-append,
}
use mathlib.Core.List.{append_assoc}
use magi_system.Entity.Vote.{
  Vote, VoteDecision, unknown, MagiCode, melchior, balthasar, casper, decision_eq,
  is_valid_vote_decision,
}
use magi_system.Entity.Resolution.{ConsensusOutcome, Dissent, validate_dissent}
use magi_system.Consensus.Counts.{all_valid, all_valid-cons}
use magi_system.Orchestration.Ballots.{MagiConfig, deref_votes, config_at, code_of, no_code}
use magi_system.Orchestration.Dissent.{
  final_decision, dissents, extract_from, extract_dissent, slot_codes, first_error,
  extract_checked_dissent, dissent, checked, code_at, dissent_of,
}

length-extract_from :
    (final : VoteDecision) (codes : List MagiCode) (i : ℕ) (vs : List (Option Vote))
    → length (extract_from final codes i vs) ≡ count_of (dissents final) (deref_votes vs)
unfolding extract_from count_of deref_votes
length-extract_from final codes i [] = refl
length-extract_from final codes i (none ∷ vs) = length-extract_from final codes (suc i) vs
length-extract_from final codes i (some v ∷ vs) =
    ground (arith, length-extract_from final codes (suc i) vs)

abbrev pub is_voting : MagiCode → Bool
is_voting melchior = true
is_voting balthasar = true
is_voting casper = true
is_voting _ = false

-- Every slot with a ballot has the code of a voting persona at its index.
SlotsVoting : List MagiCode → ℕ → List (Option Vote) → Type 0
SlotsVoting codes i [] = Unit
SlotsVoting codes i (none ∷ vs) = SlotsVoting codes (suc i) vs
SlotsVoting codes i (some v ∷ vs) =
    (is_voting (code_at codes i) ≡ true) × SlotsVoting codes (suc i) vs

validate_dissent_of :
    (code : MagiCode) (final : VoteDecision) (v : Vote)
    → is_voting code ≡ true
    → is_valid_vote_decision v.decision ≡ true
    → dissents final v ≡ true
    → validate_dissent (dissent_of code v) ≡ none
unfolding validate_dissent dissents
validate_dissent_of code final v voting valid other = ground arith

extract_from-first_error :
    (final : VoteDecision) (codes : List MagiCode) (i : ℕ) (vs : List (Option Vote))
    → SlotsVoting codes i vs
    → all_valid (deref_votes vs) ≡ true
    → first_error (extract_from final codes i vs) ≡ none
unfolding extract_from first_error SlotsVoting deref_votes
extract_from-first_error final codes i [] s h = refl
extract_from-first_error final codes i (none ∷ vs) s h =
    extract_from-first_error final codes (suc i) vs s h
extract_from-first_error final codes i (some v ∷ vs) s h =
    let valid = all_valid-cons v (deref_votes vs) h in
    let rest = extract_from-first_error final codes (suc i) vs s.1 valid.1 in
    elim (Bool-cases (dissents final v)) [
      | inl other ↦
          rw (other, validate_dissent_of (code_at codes i) final v s.0 valid.0 other, first_error)
            rest
      | inr same ↦ rw same rest
    ]

get_elem?-All {ℓ κ} :
    {A : Type ℓ} (P : A → Type κ) (xs : List A) (i : ℕ)
    → All P xs
    → i < length xs
    → (x : A) × (get_elem? xs i ≡ some x) × P x
get_elem?-All P [] i h lt = elim lt [ ]
get_elem?-All P (x ∷ xs) zero h lt = (x, refl, h.0)
get_elem?-All P (x ∷ xs) (suc i) h lt = get_elem?-All P xs i h.1 (omega arith)

abbrev pub AllVoting : List MagiConfig → Type 0
AllVoting = All (λ c. is_voting c.code ≡ true)

length-snoc {ℓ} : {A : Type ℓ} (xs : List A) (x : A) → length (xs ++ x ∷ []) ≡ suc (length xs)
length-snoc xs x = omega (arith, length-append xs (x ∷ []))

code_at-append :
    (pre rest : List MagiCode) (c : MagiCode) → code_at (pre ++ c ∷ rest) (length pre) ≡ c
code_at-append [] rest c = refl
code_at-append (x ∷ pre) rest c = code_at-append pre rest c

slot_code :
    (codes pre rest : List MagiCode) (c : MagiCode) (i : ℕ)
    → i ≡ length pre
    → codes ≡ pre ++ c ∷ rest
    → code_at codes i ≡ c
slot_code codes pre rest c i at e = rw (e, at) (code_at-append pre rest c)

-- The codes after the slots before index `i` are those of the configured agents.
slot_codes-SlotsVoting :
    (configs : List MagiConfig) (codes pre : List MagiCode) (i : ℕ) (vs : List (Option Vote))
    → AllVoting configs
    → i ≡ length pre
    → codes ≡ pre ++ slot_codes configs i vs
    → i + length vs ≤ length configs
    → SlotsVoting codes i vs
unfolding SlotsVoting slot_codes
slot_codes-SlotsVoting configs codes pre i [] h at e fits = tt
slot_codes-SlotsVoting configs codes pre i (none ∷ vs) h at e fits =
    slot_codes-SlotsVoting configs codes (pre ++ no_code ∷ []) (suc i) vs h
      (ap suc at ∙ sym (length-snoc pre no_code))
      (e ∙ sym (append_assoc pre (no_code ∷ []) (slot_codes configs (suc i) vs))) (omega arith)
slot_codes-SlotsVoting configs codes pre i (some v ∷ vs) h at e fits =
    let c = code_of (config_at configs i) in
    let (config, found, voting) =
      get_elem?-All (λ d. is_voting d.code ≡ true) configs i h (omega arith) in
    (
      ap is_voting (slot_code codes pre (slot_codes configs (suc i) vs) c i at e)
          ∙ slot_code_voting found voting,
      slot_codes-SlotsVoting configs codes (pre ++ c ∷ []) (suc i) vs h
          (ap suc at ∙ sym (length-snoc pre c))
          (e ∙ sym (append_assoc pre (c ∷ []) (slot_codes configs (suc i) vs))) (omega arith),
    )
  where
    slot_code_voting :
        {config : MagiConfig}
        → get_elem? configs i ≡ some config
        → is_voting config.code ≡ true
        → is_voting (code_of (config_at configs i)) ≡ true
    slot_code_voting found voting = ground arith

final_decision-named : (o : ConsensusOutcome) → decision_eq (final_decision o) (unknown "") ≡ false
unfolding final_decision decision_eq
final_decision-named o = ground arith

-- At least one slot, every cast ballot with a defined decision, and an agent that is one of the
-- three voting personas for each slot: then the dissent record of the outcome's final decision is
-- made, it is not nil, and it lists as many positions as there are ballots that are neither the
-- final decision nor an abstention.
pub extract_checked_dissent_complete :
    (configs : List MagiConfig) (o : ConsensusOutcome) (slots : List (Option Vote))
    → slots ≢ []
    → AllVoting configs
    → length slots ≤ length configs
    → all_valid (deref_votes slots) ≡ true
    → (ds : List Dissent) × (extract_checked_dissent configs (final_decision o) slots
        ≡ dissent (some ds))
      × (length ds ≡ count_of (dissents (final_decision o)) (deref_votes slots))
unfolding extract_checked_dissent extract_dissent
extract_checked_dissent_complete configs o [] ne h fits valid = absurd (ne refl)
extract_checked_dissent_complete configs o (s ∷ slots) ne h fits valid =
    let codes = slot_codes configs 0 (s ∷ slots) in
    let voting = slot_codes-SlotsVoting configs codes [] 0 (s ∷ slots) h refl refl (omega arith) in
    let ds = extract_from (final_decision o) codes 0 (s ∷ slots) in
    (
      ds,
      rw (final_decision-named o) (
          rw (extract_from-first_error (final_decision o) codes 0 (s ∷ slots) voting valid, checked)
            refl),
      length-extract_from (final_decision o) codes 0 (s ∷ slots),
    )
