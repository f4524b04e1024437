-- ===== src/Prelude/Dict.antt =====
-- Go maps with text keys, as association lists. The code never depends on the order of iteration.
use Prim.Native.String.{String}
use mathlib.Core.Path.{◌≡◌, refl}
use mathlib.Core.Bool.{Bool, true, false}
use mathlib.Core.Option.{Option, none, some}
use mathlib.Core.List.{List, [], ◌∷◌}
use native.Mathlib.Omega.{arith}
use text.Mathlib.Text.{◌==◌ as str_eq}
use text.Mathlib.TextEquality.{eq_iff}
use magi_system.Prelude.Tests.{if◌then◌else◌}

-- `m[k]` for a set of texts.
unfoldable pub member : String → List String → Bool
member k [] = false
member k (j ∷ l) = if str_eq j k then true else member k l

module _ {ℓ} {V : Type ℓ} where
  -- `m[key]` with its second result.
  unfoldable pub lookup : String → List (String × V) → Option V
  lookup key [] = none
  lookup key ((first, value) ∷ rest) = if str_eq first key then some value else lookup key rest

  -- `m[key] = value`
  unfoldable pub insert : String → V → List (String × V) → List (String × V)
  insert key value [] = (key, value) ∷ []
  insert key value ((first, old) ∷ rest) =
      if str_eq first key then (key, value) ∷ rest else (first, old) ∷ insert key value rest

  abbrev pub keys : List (String × V) → List String
  keys [] = []
  keys ((first, value) ∷ rest) = first ∷ keys rest

  -- A write is read back at its key, and changes no other.
  pub lookup-insert :
      (key other : String) (value : V) (entries : List (String × V))
      → lookup other (insert key value entries)
        ≡ (if str_eq key other then some value else lookup other entries)
  unfolding lookup insert
  lookup-insert key other value [] = refl
  lookup-insert key other value ((first, old) ∷ rest) = ground (
    arith,
    lookup-insert key other value rest,
    eq_iff first key,
    eq_iff key other,
    eq_iff first other,
  )

  pub lookup-unkeyed :
      (key : String) (entries : List (String × V))
      → member key (keys entries) ≡ false
      → lookup key entries ≡ none
  unfolding lookup member
  lookup-unkeyed key [] h = refl
  lookup-unkeyed key ((first, value) ∷ rest) h = ground (arith, lookup-unkeyed key rest)
