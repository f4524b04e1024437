-- ===== src/Evidence/SourceUri.antt =====
-- The truncation of a source URI in `EvidenceLedger.Record` (backend/domain/evidence/ledger.go) to
-- `validation.MaxEvidenceSourceURIBytes` bytes of UTF-8.
use Prim.Native.Nat.{ℕ, zero, suc, ◌+◌, ◌-◌, ◌≤◌}
use Prim.Native.Char.{Char, code}
use Prim.Native.String.{String, [], ◌∷◌}
use mathlib.Core.Bool.{Bool, true, false}
use native.Mathlib.Omega.{arith}
use mathlib.Core.Logic.{inl, inr}
use magi_system.Prelude.{ltb, if◌then◌else◌, Bool-cases}

abbrev pub max_evidence_source_uri_bytes : ℕ
max_evidence_source_uri_bytes = 512

-- The bytes of one character in UTF-8.
unfoldable pub char_bytes : Char → ℕ
char_bytes c =
    if ltb (code c) 0x80
    then 1
    else if ltb (code c) 0x800
    then 2
    else if ltb (code c) 0x10000
    then 3
    else 4

-- `len(s)`
unfoldable pub byte_count : String → ℕ
unfolding char_bytes
byte_count [] = 0
byte_count (c ∷ s) = char_bytes c + byte_count s

-- `utf8.ValidString(s[:n])` of a valid text `s`: `n` falls between two characters.
unfoldable pub is_boundary : String → ℕ → Bool
unfolding char_bytes
is_boundary s zero = true
is_boundary [] (suc n) = false
is_boundary (c ∷ s) (suc n) =
    let rest = is_boundary s (suc n - char_bytes c) in
    if ltb (suc n) (char_bytes c) then false else rest

-- `for cut > 0 && !utf8.ValidString(s[:cut]) { cut-- }`
unfoldable pub find_cut : String → ℕ → ℕ
unfolding is_boundary
find_cut s zero = zero
find_cut s (suc cut) =
    let smaller = find_cut s cut in if is_boundary s (suc cut) then suc cut else smaller

-- `s[:n]` where `n` falls between two characters.
unfoldable pub prefix_bytes : String → ℕ → String
unfolding char_bytes
prefix_bytes [] n = []
prefix_bytes (c ∷ s) n =
    let rest = prefix_bytes s (n - char_bytes c) in if ltb n (char_bytes c) then [] else c ∷ rest

unfoldable pub truncate_uri : String → String
unfolding byte_count find_cut prefix_bytes
truncate_uri s =
    if ltb max_evidence_source_uri_bytes (byte_count s)
    then prefix_bytes s (find_cut s max_evidence_source_uri_bytes)
    else s

pub find_cut-le : (s : String) (n : ℕ) → find_cut s n ≤ n
unfolding find_cut
find_cut-le s zero = omega arith
find_cut-le s (suc n) = ground (arith, find_cut-le s n)

pub byte_count-prefix_bytes : (s : String) (n : ℕ) → byte_count (prefix_bytes s n) ≤ n
unfolding byte_count prefix_bytes
byte_count-prefix_bytes [] n = omega arith
byte_count-prefix_bytes (c ∷ s) n = elim (Bool-cases (ltb n (char_bytes c))) [
  | inl short ↦ rw short (omega arith)
  | inr long ↦ rw long (ground (arith, byte_count-prefix_bytes s (n - char_bytes c)))
]

-- What is kept of a URI is at most 512 bytes long.
truncate_uri_bounded : (s : String) → byte_count (truncate_uri s) ≤ max_evidence_source_uri_bytes
unfolding truncate_uri
truncate_uri_bounded s =
    ground (arith, find_cut-le s 512, byte_count-prefix_bytes s (find_cut s 512))
