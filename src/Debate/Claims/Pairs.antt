-- ===== src/Debate/Claims/Pairs.antt =====
-- The conflicts that are reported.
use magi_system.Prelude.{
  String, Bool, true, false, List, [], ◌∷◌, ◌++◌, ◌≡◌, inl, inr, refl, arith, ◌&&◌, ◌||◌, All,
  str_eq, eq_iff, eq_refl, Bool-cases, if◌then◌else◌,
}
use magi_system.Prelude.Dict.{member, lookup}
use magi_system.Entity.Evidence.{ClaimConflict}
use magi_system.Debate.Claims.{
  row, conflicts_in, conflicts_of, offer, conflict_key, asserted_conflict,
}

abbrev key_of : ClaimConflict → String
key_of c = conflict_key c.claim_a c.claim_b

unfoldable pub conflict_keys : List ClaimConflict → List String
unfolding conflict_key
conflict_keys [] = []
conflict_keys (c ∷ cs) = conflict_key c.claim_a c.claim_b ∷ conflict_keys cs

-- No key comes twice.
unfoldable pub distinct : List String → Bool
unfolding member
distinct [] = true
distinct (k ∷ ks) = (if member k ks then false else true) && distinct ks

conflict_keys-append :
    (cs ds : List ClaimConflict) → conflict_keys (cs ++ ds) ≡ conflict_keys cs ++ conflict_keys ds
unfolding conflict_keys
conflict_keys-append [] ds = refl
conflict_keys-append (c ∷ cs) ds = rw (conflict_keys-append cs ds)

member-snoc :
    (k j : String) (ks : List String) → member k (ks ++ j ∷ []) ≡ (str_eq j k || member k ks)
unfolding member
member-snoc k j [] = ground arith
member-snoc k j (i ∷ ks) = ground (arith, member-snoc k j ks)

distinct-snoc :
    (k : String) (ks : List String)
    → member k ks ≡ false
    → distinct ks ≡ true
    → distinct (ks ++ k ∷ []) ≡ true
unfolding distinct member
distinct-snoc k [] new h = refl
distinct-snoc k (j ∷ ks) new h =
    ground (arith, distinct-snoc k ks, member-snoc j k ks, eq_iff j k, eq_iff k j)

-- The keys seen are those of the conflicts out, each once.
pub record Tracks (found : List String × List ClaimConflict) : Type 0 where
  pub same : found.0 ≡ conflict_keys found.1
  pub once : distinct found.0 ≡ true

module _ (a b : String) where
  offer-Tracks :
      (found : List String × List ClaimConflict) → Tracks found → Tracks (offer a b found)
  unfolding offer
  offer-Tracks (seen, out) t = elim (Bool-cases (member (conflict_key a b) seen)) [
    | inl e ↦ rw e t
    | inr e ↦ rw e (record {
      same =
          rw (conflict_keys-append out (asserted_conflict a b ∷ []))
            (unfold conflict_keys in rw t.same refl);
      once = distinct-snoc (conflict_key a b) seen e t.once;
    })
  ]

  -- A key that was seen is, and so is the key of the pair.
  offer_seen :
      (k : String) (found : List String × List ClaimConflict)
      → member k found.0 ≡ true
      → member k (offer a b found).0 ≡ true
  unfolding offer
  offer_seen k (seen, out) h = ground (arith, member-snoc k (conflict_key a b) seen)

  offer_key :
      (found : List String × List ClaimConflict)
      → member (conflict_key a b) (offer a b found).0 ≡ true
  unfolding offer
  offer_key (seen, out) =
      ground
        (arith, member-snoc (conflict_key a b) (conflict_key a b) seen, eq_refl (conflict_key a b))

conflicts_of-Tracks :
    (a : String) (bs : List String) (found : List String × List ClaimConflict)
    → Tracks found
    → Tracks (conflicts_of a bs found)
unfolding conflicts_of
conflicts_of-Tracks a [] found t = t
conflicts_of-Tracks a (b ∷ bs) found t =
    conflicts_of-Tracks a bs (offer a b found) (offer-Tracks a b found t)

conflicts_of_seen :
    (k a : String) (bs : List String) (found : List String × List ClaimConflict)
    → member k found.0 ≡ true
    → member k (conflicts_of a bs found).0 ≡ true
unfolding conflicts_of
conflicts_of_seen k a [] found h = h
conflicts_of_seen k a (b ∷ bs) found h =
    conflicts_of_seen k a bs (offer a b found) (offer_seen a b k found h)

conflicts_of_all :
    (a b : String) (bs : List String) (found : List String × List ClaimConflict)
    → member b bs ≡ true
    → member (conflict_key a b) (conflicts_of a bs found).0 ≡ true
unfolding conflicts_of
conflicts_of_all a b [] found h = absurd (unfold member in ground arith)
conflicts_of_all a b (c ∷ bs) found h = elim (Bool-cases (str_eq c b)) [
  | inl e ↦
      conflicts_of_seen (conflict_key a b) a bs (offer a c found)
        (rw ((eq_iff c b).0 e) (offer_key a b found))
  | inr e ↦ conflicts_of_all a b bs (offer a c found) (unfold member in ground arith)
]

pub conflicts_in-Tracks :
    (m : List (String × List String)) (found : List String × List ClaimConflict)
    → Tracks found
    → Tracks (conflicts_in m found)
unfolding conflicts_in
conflicts_in-Tracks [] found t = t
conflicts_in-Tracks ((a, bs) ∷ m) found t =
    conflicts_in-Tracks m (conflicts_of a bs found) (conflicts_of-Tracks a bs found t)

conflicts_in_seen :
    (k : String) (m : List (String × List String)) (found : List String × List ClaimConflict)
    → member k found.0 ≡ true
    → member k (conflicts_in m found).0 ≡ true
unfolding conflicts_in
conflicts_in_seen k [] found h = h
conflicts_in_seen k ((a, bs) ∷ m) found h =
    conflicts_in_seen k m (conflicts_of a bs found) (conflicts_of_seen k a bs found h)

-- Every edge of the map has its key seen.
pub conflicts_in_all :
    (x y : String) (m : List (String × List String)) (found : List String × List ClaimConflict)
    → member y (row x m) ≡ true
    → member (conflict_key x y) (conflicts_in m found).0 ≡ true
unfolding conflicts_in
conflicts_in_all x y [] found h = absurd (unfold row lookup member in ground arith)
conflicts_in_all x y ((a, bs) ∷ m) found h = elim (Bool-cases (str_eq a x)) [
  | inl e ↦
      conflicts_in_seen (conflict_key x y) m (conflicts_of a bs found)
        (rw ((eq_iff a x).0 e) (conflicts_of_all x y bs found (unfold row lookup in ground arith)))
  | inr e ↦ conflicts_in_all x y m (conflicts_of a bs found) (unfold row lookup in ground arith)
]

-- All edges of a map, and all conflicts of a list, satisfy a test.
module _ (P : String → String → Bool) where
  abbrev pub Edges : List (String × List String) → Type 0
  Edges m = All (λ (a, bs). All (λ b. P a b ≡ true) bs) m

  abbrev pub Reported : List ClaimConflict → Type 0
  Reported cs = All (λ c. P c.claim_a c.claim_b ≡ true) cs

  pub All-snoc {ℓ} :
      {A : Type ℓ} (Q : A → Type 0) (xs : List A) (x : A) → All Q xs → Q x → All Q (xs ++ x ∷ [])
  All-snoc Q [] x h q = (q, tt)
  All-snoc Q (y ∷ xs) x (p, h) q = (p, All-snoc Q xs x h q)

  offer-Reported :
      (a b : String) (found : List String × List ClaimConflict)
      → P a b ≡ true
      → Reported found.1
      → Reported (offer a b found).1
  unfolding offer
  offer-Reported a b (seen, out) p h = elim (Bool-cases (member (conflict_key a b) seen)) [
    | inl e ↦ rw e h
    | inr e ↦ rw e (All-snoc (λ (c : ClaimConflict). P c.claim_a c.claim_b ≡ true) out _ h p)
  ]

  conflicts_of-Reported :
      (a : String) (bs : List String) (found : List String × List ClaimConflict)
      → All (λ b. P a b ≡ true) bs
      → Reported found.1
      → Reported (conflicts_of a bs found).1
  unfolding conflicts_of
  conflicts_of-Reported a [] found ps h = h
  conflicts_of-Reported a (b ∷ bs) found (p, ps) h =
      conflicts_of-Reported a bs (offer a b found) ps (offer-Reported a b found p h)

  pub conflicts_in-Reported :
      (m : List (String × List String)) (found : List String × List ClaimConflict)
      → Edges m
      → Reported found.1
      → Reported (conflicts_in m found).1
  unfolding conflicts_in
  conflicts_in-Reported [] found ps h = h
  conflicts_in-Reported ((a, bs) ∷ m) found (p, ps) h =
      conflicts_in-Reported m (conflicts_of a bs found) ps (conflicts_of-Reported a bs found p h)
