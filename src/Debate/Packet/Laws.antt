-- ===== src/Debate/Packet/Laws.antt =====
-- The packet of a debate shows every vote on exactly one side, and bounded synthesized conflicts.
use mathlib.Core.List.{append_assoc, append-nil}
use magi_system.Prelude.{
  ℕ, zero, suc, ◌+◌, ◌≤◌, ◌<◌, String, Bool, List, [], ◌∷◌, ◌++◌, ◌≡◌, refl, sym, ap, ◌∙◌, arith,
  length, length-append, count_of, take, leb, if◌then◌else◌, Bool-cases, leb→le, inl, inr,
}
use magi_system.Entity.Vote.{
  Vote, VoteDecision, approve, reject, abstain, conditional_approve, unknown,
}
use magi_system.Entity.Evidence.{ClaimConflict, Claim, EvidenceRecord}
use magi_system.Debate.Packet.{
  Groups, add_vote, group_votes, split_groups, pair_claims, pair_minority, pair_majority,
  synthesize_conflicts, opposing, build_packet,
}

pub count_of-append {ℓ} :
    {A : Type ℓ} (p : A → Bool) (xs ys : List A)
    → count_of p (xs ++ ys) ≡ count_of p xs + count_of p ys
unfolding count_of
count_of-append p [] ys = omega arith
count_of-append p (x ∷ xs) ys = omega (arith, count_of-append p xs ys)

module _ (p : Vote → Bool) where
  in_groups : Groups → ℕ
  in_groups g = count_of p g.approves + count_of p g.rejects + count_of p g.others

  in_groups-add_vote :
      (d : VoteDecision) (v : Vote) (g : Groups)
      → in_groups (add_vote d v g) ≡ (if p v then 1 else 0) + in_groups g
  unfolding in_groups count_of
  in_groups-add_vote approve v g = omega arith
  in_groups-add_vote reject v g = omega arith
  in_groups-add_vote abstain v g = omega arith
  in_groups-add_vote conditional_approve v g = omega arith
  in_groups-add_vote (unknown s) v g = omega arith

  in_groups-group_votes : (vs : List Vote) → in_groups (group_votes vs) ≡ count_of p vs
  unfolding group_votes count_of
  in_groups-group_votes [] = unfold in_groups in omega arith
  in_groups-group_votes (v ∷ vs) =
      omega (arith, in_groups-add_vote v.decision v (group_votes vs), in_groups-group_votes vs)

  in_split :
      (g : Groups)
      → count_of p (split_groups g).majority + count_of p (split_groups g).minority ≡ in_groups g
  unfolding split_groups in_groups count_of
  in_split g = ground (
    arith,
    count_of-append p g.rejects g.others,
    count_of-append p g.approves g.others,
    count_of-append p g.approves (g.rejects ++ g.others),
  )

-- Every vote of the round stands on exactly one side of the packet, as often as it was cast: for any
-- property of votes, as many votes of the two sides have it as of the round.
build_packet-partition :
    (find : List Claim → List ClaimConflict) (votes : List Vote) (claims : List Claim) (round : ℕ)
    (shared : List EvidenceRecord) (p : Vote → Bool)
    → count_of p (build_packet find votes claims round shared).majority_votes
        + count_of p (build_packet find votes claims round shared).minority_votes
      ≡ count_of p votes
unfolding build_packet
build_packet-partition find votes claims round shared p =
    in_split p (group_votes votes) ∙ in_groups-group_votes p votes

-- All conflicts that the three loops could pair, in their order.
all_pairs : List String → List String → List ClaimConflict
all_pairs [] bs = []
all_pairs (a ∷ as') [] = []
all_pairs (a ∷ as') (b ∷ bs) = opposing a b ∷ all_pairs as' bs

all_minority : Vote → List Vote → List ClaimConflict
unfolding all_pairs
all_minority maj [] = []
all_minority maj (min ∷ mins) =
    all_pairs maj.key_claim_ids min.key_claim_ids ++ all_minority maj mins

pub all_conflicts : List Vote → List Vote → List ClaimConflict
unfolding all_minority
all_conflicts [] mins = []
all_conflicts (maj ∷ majs) mins = all_minority maj mins ++ all_conflicts majs mins

take-append_full {ℓ} :
    {A : Type ℓ} (n : ℕ) (xs ys : List A) → n ≤ length xs → take n (xs ++ ys) ≡ take n xs
take-append_full zero xs ys h = refl
take-append_full (suc n) [] ys h = absurd (omega arith)
take-append_full (suc n) (x ∷ xs) ys h = rw (take-append_full n xs ys (omega arith))

take-length {ℓ} : {A : Type ℓ} (n : ℕ) (xs : List A) → length xs ≤ n → take n xs ≡ xs
take-length zero [] h = refl
take-length zero (x ∷ xs) h = absurd (omega arith)
take-length (suc n) [] h = refl
take-length (suc n) (x ∷ xs) h = rw (take-length n xs (omega arith))

take-take-append {ℓ} :
    {A : Type ℓ} (n : ℕ) (xs ys : List A) → take n (take n xs ++ ys) ≡ take n (xs ++ ys)
take-take-append zero xs ys = refl
take-take-append (suc n) [] ys = refl
take-take-append (suc n) (x ∷ xs) ys = rw (take-take-append n xs ys)

length-take_le {ℓ} : {A : Type ℓ} (n : ℕ) (xs : List A) → length (take n xs) ≤ n
length-take_le zero xs = omega arith
length-take_le (suc n) [] = omega arith
length-take_le (suc n) (x ∷ xs) = omega (arith, length-take_le n xs)

-- The early return keeps the first three of what the loop would have gone on to collect.
return_at_three {ℓ} :
    {A : Type ℓ} (grown more rest : List A)
    → length grown ≤ 3
    → (length grown < 3 → rest ≡ take 3 (grown ++ more))
    → (if leb 3 (length grown) then grown else rest) ≡ take 3 (grown ++ more)
return_at_three grown more rest small go = elim (Bool-cases (leb 3 (length grown))) [
  | inl full ↦ rw full (
      sym
        (take-append_full 3 grown more (leb→le 3 (length grown) full) ∙ take-length 3 grown small))
  | inr open_still ↦ rw open_still (go (ground arith))
]

pair_claims-take :
    (out : List ClaimConflict) (as' bs : List String)
    → length out < 3
    → pair_claims out as' bs ≡ take 3 (out ++ all_pairs as' bs)
unfolding pair_claims all_pairs
pair_claims-take out [] bs h = rw append-nil (sym (take-length 3 out (omega arith)))
pair_claims-take out (a ∷ as') [] h = rw append-nil (sym (take-length 3 out (omega arith)))
pair_claims-take out (a ∷ as') (b ∷ bs) h =
    return_at_three (out ++ opposing a b ∷ []) (all_pairs as' bs)
      (pair_claims (out ++ opposing a b ∷ []) as' bs)
      (omega (arith, length-append out (opposing a b ∷ [])))
      (pair_claims-take (out ++ opposing a b ∷ []) as' bs)
    ∙ ap (take 3) (append_assoc out (opposing a b ∷ []) (all_pairs as' bs))

-- One more round of a loop whose rounds each keep the first three.
next_round {ℓ} :
    {A : Type ℓ} (out more_now more_later grown rest : List A)
    → grown ≡ take 3 (out ++ more_now)
    → (length grown < 3 → rest ≡ take 3 (grown ++ more_later))
    → (if leb 3 (length grown) then grown else rest) ≡ take 3 (out ++ (more_now ++ more_later))
next_round out more_now more_later grown rest e go =
    return_at_three grown more_later rest (rw e (length-take_le 3 (out ++ more_now))) go
    ∙ ap (λ g. take 3 (g ++ more_later)) e
    ∙ take-take-append 3 (out ++ more_now) more_later
    ∙ ap (take 3) (append_assoc out more_now more_later)

pair_minority-take :
    (out : List ClaimConflict) (maj : Vote) (mins : List Vote)
    → length out < 3
    → pair_minority out maj mins ≡ take 3 (out ++ all_minority maj mins)
unfolding pair_minority all_minority
pair_minority-take out maj [] h = rw append-nil (sym (take-length 3 out (omega arith)))
pair_minority-take out maj (min ∷ mins) h =
    next_round out (all_pairs maj.key_claim_ids min.key_claim_ids) (all_minority maj mins)
      (pair_claims out maj.key_claim_ids min.key_claim_ids)
      (pair_minority (pair_claims out maj.key_claim_ids min.key_claim_ids) maj mins)
      (pair_claims-take out maj.key_claim_ids min.key_claim_ids h)
      (pair_minority-take (pair_claims out maj.key_claim_ids min.key_claim_ids) maj mins)

pair_majority-take :
    (out : List ClaimConflict) (majs mins : List Vote)
    → length out < 3
    → pair_majority out majs mins ≡ take 3 (out ++ all_conflicts majs mins)
unfolding pair_majority all_conflicts
pair_majority-take out [] mins h = rw append-nil (sym (take-length 3 out (omega arith)))
pair_majority-take out (maj ∷ majs) mins h =
    next_round out (all_minority maj mins) (all_conflicts majs mins) (pair_minority out maj mins)
      (pair_majority (pair_minority out maj mins) majs mins) (pair_minority-take out maj mins h)
      (pair_majority-take (pair_minority out maj mins) majs mins)

-- The three loops with their early returns give the first three of all index-wise pairs of a
-- majority vote's and a minority vote's key claims, taken in the order of the votes.
synthesize_conflicts-take :
    (majority minority : List Vote)
    → synthesize_conflicts majority minority ≡ take 3 (all_conflicts majority minority)
unfolding synthesize_conflicts
synthesize_conflicts-take majority minority = pair_majority-take [] majority minority (omega arith)
