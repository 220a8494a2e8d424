-- ===== src/Std/Utf8.antt =====
-- `std::str::from_utf8`: whether bytes are UTF-8.
pub mod Laws
use utx0_node.Base.{
  ℕ, ◌≡◌, refl, Bool, true, false, ◌&&◌, Option, none, some, Bytes, List, [], ◌∷◌, leb, ◌==◌,
  if◌then◌else◌,
}

abbrev between : ℕ → ℕ → ℕ → Bool
between lo hi b = leb lo b && leb b hi

-- The ranges of the bytes that must follow a leading byte.
follow : ℕ → Option (List (ℕ × ℕ))
follow b =
    if leb b 0x7f
    then some []
    else if between 0xc2 0xdf b
    then some ((0x80, 0xbf) ∷ [])
    else if b == 0xe0
    then some ((0xa0, 0xbf) ∷ (0x80, 0xbf) ∷ [])
    else if b == 0xed
    then some ((0x80, 0x9f) ∷ (0x80, 0xbf) ∷ [])
    else if between 0xe1 0xef b
    then some ((0x80, 0xbf) ∷ (0x80, 0xbf) ∷ [])
    else if b == 0xf0
    then some ((0x90, 0xbf) ∷ (0x80, 0xbf) ∷ (0x80, 0xbf) ∷ [])
    else if between 0xf1 0xf3 b
    then some ((0x80, 0xbf) ∷ (0x80, 0xbf) ∷ (0x80, 0xbf) ∷ [])
    else if b == 0xf4
    then some ((0x80, 0x8f) ∷ (0x80, 0xbf) ∷ (0x80, 0xbf) ∷ [])
    else none

continues : List (ℕ × ℕ) → Bytes → Bool
continues [] [] = true
continues (r ∷ pending) [] = false
continues [] (b ∷ s) = elim (follow b) [ none ↦ false | some pending ↦ continues pending s ]
continues ((lo, hi) ∷ pending) (b ∷ s) = between lo hi b && continues pending s

unfoldable pub is_utf8 : Bytes → Bool
unfolding continues follow
is_utf8 s = continues [] s

sigma_is_utf8 : is_utf8 (0xcf ∷ 0x83 ∷ b'a' ∷ []) ≡ true
unfolding is_utf8
sigma_is_utf8 = refl

surrogate_is_not : is_utf8 (0xed ∷ 0xa0 ∷ 0x80 ∷ []) ≡ false
unfolding is_utf8
surrogate_is_not = refl
