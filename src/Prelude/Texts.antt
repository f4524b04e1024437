-- ===== src/Prelude/Texts.antt =====
-- The functions of Go's package strings that the code calls on texts.
use Prim.Native.Char.{Char, code}
use Prim.Native.String.{String, [], ◌∷◌}
use Prim.Native.Nat.{ℕ}
use mathlib.Core.Bool.{Bool, true, false, ◌&&◌, ◌||◌}
use mathlib.Core.Option.{none, some}
use text.Mathlib.Text.{find?}
use magi_system.Prelude.Tests.{if◌then◌else◌, ◌==◌, leb}

abbrev between : ℕ → ℕ → ℕ → Bool
between lo hi n = leb lo n && leb n hi

-- `unicode.IsSpace`: tab to carriage return, space, NEL, no-break space, and the spaces above Latin-1.
is_space : Char → Bool
is_space c =
    between 0x9 0xd (code c)
    || (code c == 0x20)
    || (code c == 0x85)
    || (code c == 0xa0)
    || (code c == 0x1680)
    || between 0x2000 0x200a (code c)
    || between 0x2028 0x2029 (code c)
    || (code c == 0x202f)
    || (code c == 0x205f)
    || (code c == 0x3000)

-- A character before a text without trailing spaces: it goes if it is a space and the last.
keep_unless_space : Char → String → String
unfolding is_space
keep_unless_space c [] = if is_space c then [] else c ∷ []
keep_unless_space c (d ∷ s) = c ∷ d ∷ s

trim_left : String → String
unfolding is_space
trim_left [] = []
trim_left (c ∷ s) = let rest = trim_left s in if is_space c then rest else c ∷ s

trim_right : String → String
unfolding keep_unless_space
trim_right [] = []
trim_right (c ∷ s) = keep_unless_space c (trim_right s)

-- `strings.TrimSpace`
unfoldable pub trim_space : String → String
unfolding trim_left trim_right
trim_space s = trim_right (trim_left s)

-- `strings.TrimSpace(s) == ""`: every character is a space.
unfoldable pub is_blank : String → Bool
unfolding is_space
is_blank [] = true
is_blank (c ∷ s) = is_space c && is_blank s

-- `strings.Contains(s, part)`
unfoldable pub contains : String → String → Bool
contains s part = elim (find? s part) [ none ↦ false | some i ↦ true ]
