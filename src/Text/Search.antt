-- ===== src/Text/Search.antt =====
-- Substring search and the tests on strings that the program uses.
pub mod Lengths
use kiro_trust.Prelude.{
  ℕ, Bool, true, false, ◌||◌, Option, none, some, List, [], ◌∷◌, ◌==◌, if◌then◌else◌,
}
use mathlib.Core.Option
use kiro_trust.Text.{Text}

abbrev pub is_empty {ℓ} : {A : Type ℓ} → List A → Bool
is_empty [] = true
is_empty (x ∷ xs) = false

-- `contains(c)` for a character
unfoldable pub has_char : ℕ → Text → Bool
has_char c [] = false
has_char c (d ∷ s) = c == d || has_char c s

unfoldable pub strip_prefix : Text → Text → Option Text
strip_prefix [] s = some s
strip_prefix (p ∷ ps) [] = none
strip_prefix (p ∷ ps) (c ∷ s) = let rest = strip_prefix ps s in if p == c then rest else none

abbrev consing : ℕ → Text × Text → Text × Text
consing c (before, behind) = (c ∷ before, behind)

-- `find(needle)` and the slices on both sides of the first match
unfoldable pub find_split : Text → Text → Option (Text × Text)
unfolding strip_prefix
find_split needle [] = Option.map (λ rest. ([], rest)) (strip_prefix needle [])
find_split needle (c ∷ s) = elim (strip_prefix needle (c ∷ s)) [
  | some rest ↦ some ([], rest)
  | none ↦ Option.map (consing c) (find_split needle s)
]
