-- ===== src/Evidence/Ledger/Ids.antt =====
-- The ids that a ledger gives out, and the maps that it keeps under them.
use Prim.Native.String.{◌∷◌ as cons}
use magi_system.Prelude.{
  ℕ, zero, suc, ◌<◌, String, false, some, List, [], ◌∷◌, ◌++◌, ◌≡◌, refl, sym, ap, ◌∙◌, arith,
  str_eq, eq_iff, Bool-cases, inl, inr, value, value-decimal_3,
}
use magi_system.Prelude.Dict.{lookup, insert, member, keys}
use magi_system.Evidence.Ledger.{evidence_id, claim_id, values_at}

-- What follows the three characters of the prefix.
strip : String → String
strip (cons a (cons b (cons c s))) = s
strip s = s

pub evidence_id-injective : (m n : ℕ) → evidence_id m ≡ evidence_id n → m ≡ n
unfolding evidence_id strip
evidence_id-injective m n e =
    sym (value-decimal_3 m) ∙ ap (λ s. value 0 (strip s)) e ∙ value-decimal_3 n

pub claim_id-injective : (m n : ℕ) → claim_id m ≡ claim_id n → m ≡ n
unfolding claim_id strip
claim_id-injective m n e =
    sym (value-decimal_3 m) ∙ ap (λ s. value 0 (strip s)) e ∙ value-decimal_3 n

-- The ids 1, …, n in order.
unfoldable pub ids : (ℕ → String) → ℕ → List String
ids name zero = []
ids name (suc n) = ids name n ++ name (suc n) ∷ []

pub member-append :
    (k : String) (xs ys : List String)
    → member k xs ≡ false
    → member k ys ≡ false
    → member k (xs ++ ys) ≡ false
unfolding member
member-append k [] ys h g = g
member-append k (x ∷ xs) ys h g = ground (arith, member-append k xs ys)

-- A later id is none of the earlier ones.
pub member-ids :
    (name : ℕ → String)
    → ((m n : ℕ) → name m ≡ name n → m ≡ n)
    → (n m : ℕ) → n < m
    → member (name m) (ids name n) ≡ false
unfolding member ids
member-ids name inj zero m h = refl
member-ids name inj (suc n) m h =
    member-append (name m) (ids name n) (name (suc n) ∷ []) (member-ids name inj n m (omega arith))
      (elim (Bool-cases (str_eq (name (suc n)) (name m))) [
        | inl same ↦ absurd (omega (arith, inj (suc n) m ((eq_iff (name (suc n)) (name m)).0 same)))
        | inr other ↦ rw other
      ])

module _ {ℓ} {V : Type ℓ} where
  -- At a new key a write goes to the end.
  pub insert_fresh :
      (k : String) (v : V) (m : List (String × V))
      → member k (keys m) ≡ false
      → insert k v m ≡ m ++ (k, v) ∷ []
  unfolding insert member
  insert_fresh k v [] h = refl
  insert_fresh k v ((j, w) ∷ m) h = ground (arith, insert_fresh k v m)

  pub keys-append : (m n : List (String × V)) → keys (m ++ n) ≡ keys m ++ keys n
  keys-append [] n = refl
  keys-append ((j, w) ∷ m) n = rw (keys-append m n)

  pub lookup-append_known :
      (k : String) (v : V) (m n : List (String × V))
      → lookup k m ≡ some v
      → lookup k (m ++ n) ≡ some v
  unfolding lookup
  lookup-append_known k v [] n h = cc
  lookup-append_known k v ((j, w) ∷ m) n h = ground (arith, lookup-append_known k v m n)

  pub lookup-append_fresh :
      (k : String) (v : V) (m : List (String × V))
      → member k (keys m) ≡ false
      → lookup k (m ++ (k, v) ∷ []) ≡ some v
  unfolding lookup member
  lookup-append_fresh k v [] h = ground (arith, eq_iff k k)
  lookup-append_fresh k v ((j, w) ∷ m) h = ground (arith, lookup-append_fresh k v m)

  lookup-append_ne :
      (k j : String) (v : V) (m : List (String × V))
      → str_eq k j ≡ false
      → lookup j (m ++ (k, v) ∷ []) ≡ lookup j m
  unfolding lookup
  lookup-append_ne k j v [] h = ground arith
  lookup-append_ne k j v ((i, w) ∷ m) h = ground (arith, lookup-append_ne k j v m)

  values_at-append_ne :
      (k : String) (v : V) (m : List (String × V)) (xs : List String)
      → member k xs ≡ false
      → values_at (m ++ (k, v) ∷ []) xs ≡ values_at m xs
  unfolding values_at member
  values_at-append_ne k v m [] h = refl
  values_at-append_ne k v m (x ∷ xs) h =
      ground (arith, lookup-append_ne k x v m, values_at-append_ne k v m xs, eq_iff k x, eq_iff x k)

  -- The listed values after a new entry is added at the end of the map and of the order.
  pub values_at-snoc :
      (k : String) (v : V) (m : List (String × V)) (xs : List String)
      → member k (keys m) ≡ false
      → member k xs ≡ false
      → values_at (m ++ (k, v) ∷ []) (xs ++ k ∷ []) ≡ values_at m xs ++ v ∷ []
  unfolding values_at member
  values_at-snoc k v m [] fresh other = rw (lookup-append_fresh k v m fresh, values_at)
  values_at-snoc k v m (x ∷ xs) fresh other =
      ground (arith, lookup-append_ne k x v m, values_at-snoc k v m xs, eq_iff k x, eq_iff x k)
