-- ===== src/Evidence/Ledger/Snapshot/Rows.antt =====
-- The rows of a snapshot are restored to the map and the order that they came from.
use magi_system.Prelude.{
  ap, String, false, Option, none, some, List, [], ◌∷◌, ◌++◌, ◌≡◌, refl, ◌∙◌, arith, str_eq,
}
use mathlib.Core.List.{append_assoc, append-nil}
use magi_system.Prelude.Dict.{lookup, insert, member, keys, lookup-unkeyed}
use magi_system.Evidence.Ledger.Ids.{
  insert_fresh, keys-append, member-append, lookup-append_known, lookup-append_fresh,
}
use magi_system.Evidence.Ledger.Snapshot.{pointers_at, restore_rows, RestoreError, restored}

module _ {V : Type 0} (id_of : V → String) where
  -- Every row stands under its own id, which is not empty and comes for the first time.
  abbrev pub Separate : List String → List (String × V) → Type 0
  Separate seen [] = Unit
  Separate seen ((k, v) ∷ m) =
      (str_eq k "" ≡ false) × (id_of v ≡ k) × (member k seen ≡ false) × Separate (seen ++ k ∷ []) m

  pub Separate-snoc :
      (seen : List String) (m : List (String × V)) (k : String) (v : V)
      → str_eq k "" ≡ false
      → id_of v ≡ k
      → member k seen ≡ false
      → member k (keys m) ≡ false
      → Separate seen m
      → Separate seen (m ++ (k, v) ∷ [])
  Separate-snoc seen [] k v named own new other s = (named, own, new, tt)
  Separate-snoc seen ((j, w) ∷ m) k v named own new other (a, b, c, s) =
      let apart : str_eq j k ≡ false = (unfold member in ground arith) in
      let after : member k (keys m) ≡ false = (unfold member in ground arith) in
      let later : member k (seen ++ j ∷ []) ≡ false =
        member-append k seen (j ∷ []) new (unfold member in rw apart refl) in
      (a, b, c, Separate-snoc (seen ++ j ∷ []) m k v named own later after s)

  values : List (String × V) → List (Option V)
  values [] = []
  values ((k, v) ∷ m) = some v ∷ values m

  -- The pointers that the order of a map yields are its values.
  pointers_at-keys :
      (done m : List (String × V)) (seen : List String)
      → keys done ≡ seen
      → Separate seen m
      → pointers_at (done ++ m) (keys m) ≡ values m
  unfolding pointers_at values
  pointers_at-keys done [] seen e s = refl
  pointers_at-keys done ((k, v) ∷ m) seen e (named, own, new, s) =
      let unkeyed : member k (keys done) ≡ false = rw e new in
      let rest =
        pointers_at-keys (done ++ (k, v) ∷ []) m (seen ++ k ∷ [])
          (keys-append done ((k, v) ∷ []) ∙ ap (λ x. x ++ k ∷ []) e) s in
      let front : done ++ (k, v) ∷ [] ++ m ≡ done ++ (k, v) ∷ m =
        append_assoc done ((k, v) ∷ []) m in
      let here =
        lookup-append_known k v (done ++ (k, v) ∷ []) m (lookup-append_fresh k v done unkeyed) in
      rw (rw front at here) (ap (λ x. some v ∷ x) (rw front at rest))

  module _ (invalid : RestoreError) (duplicate : String → RestoreError) where
    -- A named row with a new id.
    restore_rows-cons :
        (v : V) (vs : List (Option V)) (done : List (String × V)) (seen : List String)
        → str_eq (id_of v) "" ≡ false
        → lookup (id_of v) done ≡ none
        → restore_rows id_of invalid duplicate (some v ∷ vs) (done, seen)
          ≡ restore_rows id_of invalid duplicate vs (insert (id_of v) v done, seen ++ id_of v ∷ [])
    unfolding restore_rows
    restore_rows-cons v vs done seen named fresh = rw (named, fresh) refl

    restore-values :
        (done m : List (String × V)) (seen : List String)
        → keys done ≡ seen
        → Separate seen m
        → restore_rows id_of invalid duplicate (values m) (done, seen)
          ≡ restored (done ++ m, seen ++ keys m)
    unfolding restore_rows values
    restore-values done [] seen e s = rw (append-nil done, append-nil seen) refl
    restore-values done ((k, v) ∷ m) seen e (named, own, new, s) =
        let unkeyed : member k (keys done) ≡ false = rw e new in
        let rest =
          restore-values (done ++ (k, v) ∷ []) m (seen ++ k ∷ [])
            (keys-append done ((k, v) ∷ []) ∙ ap (λ x. x ++ k ∷ []) e) s in
        let fresh = lookup-unkeyed k done unkeyed in
        restore_rows-cons v (values m) done seen (rw own named) (rw own fresh)
        ∙ ap
            (λ x. restore_rows id_of invalid duplicate (values m) (insert x v done, seen ++ x ∷ []))
            own
        ∙ rw (insert_fresh k v done unkeyed)
            (rw (append_assoc done ((k, v) ∷ []) m, append_assoc seen (k ∷ []) (keys m)) at rest)

    -- The two loops are inverse to each other on such a map.
    pub restore_rows-pointers_at :
        (m : List (String × V))
        → Separate [] m
        → restore_rows id_of invalid duplicate (pointers_at m (keys m)) ([], [])
          ≡ restored (m, keys m)
    restore_rows-pointers_at m s =
        rw (pointers_at-keys [] m [] refl s) (restore-values [] m [] refl s)
