-- ===== src/Std/Split.antt =====
-- `str::split` and `str::rsplit_once` at an ASCII character.
pub mod Laws
use utx0_node.Base.{ℕ, Option, none, some, Text, List, [], ◌∷◌, ◌==◌, if◌then◌else◌}

abbrev add_head : ℕ → List Text → List Text
add_head b [] = (b ∷ []) ∷ []
add_head b (t ∷ ts) = (b ∷ t) ∷ ts

unfoldable pub split : ℕ → Text → List Text
split c [] = [] ∷ []
split c (b ∷ s) = let rest = split c s in if b == c then [] ∷ rest else add_head b rest

unfoldable pub rsplit_once : ℕ → Text → Option (Text × Text)
rsplit_once c [] = none
rsplit_once c (b ∷ s) = elim (rsplit_once c s) [
  | some (before, after) ↦ some (b ∷ before, after)
  | none ↦ if b == c then some ([], s) else none
]
