-- ===== src/Std/Trim.antt =====
-- `str::trim`: the characters with the property White_Space go at both ends. A text is UTF-8, so
-- these are recognised by their bytes, from either side.
pub mod Laws
use mathlib.Core.List.{reverse}
use utx0_node.Base.{ℕ, Bool, ◌&&◌, ◌||◌, Text, [], ◌∷◌, leb, ◌==◌, if◌then◌else◌}

-- Tab to carriage return, and space.
abbrev pub white1 : ℕ → Bool
white1 a = (leb 9 a && leb a 13) || a == 32

-- U+0085, U+00A0
abbrev pub white2 : ℕ → ℕ → Bool
white2 a b = a == 0xc2 && (b == 0x85 || b == 0xa0)

-- U+1680, U+2000 to U+200A, U+2028, U+2029, U+202F, U+205F, U+3000
abbrev pub white3 : ℕ → ℕ → ℕ → Bool
white3 a b c =
    (a == 0xe1 && b == 0x9a && c == 0x80)
    || (a == 0xe2
        && b == 0x80
        && ((leb 0x80 c && leb c 0x8a) || c == 0xa8 || c == 0xa9 || c == 0xaf))
    || (a == 0xe2 && b == 0x81 && c == 0x9f)
    || (a == 0xe3 && b == 0x80 && c == 0x80)

skip_white : (ℕ → ℕ → Bool) → (ℕ → ℕ → ℕ → Bool) → Text → Text
skip_white w2 w3 [] = []
skip_white w2 w3 (a ∷ []) = if white1 a then [] else a ∷ []
skip_white w2 w3 (a ∷ b ∷ []) =
    let one = skip_white w2 w3 (b ∷ []) in
    if white1 a then one else if w2 a b then [] else a ∷ b ∷ []
skip_white w2 w3 (a ∷ b ∷ c ∷ s) =
    let one = skip_white w2 w3 (b ∷ c ∷ s) in
    let two = skip_white w2 w3 (c ∷ s) in
    let three = skip_white w2 w3 s in
    if white1 a then one else if w2 a b then two else if w3 a b c then three else a ∷ b ∷ c ∷ s

unfoldable pub trim_start : Text → Text
unfolding skip_white
trim_start s = skip_white white2 white3 s

unfoldable pub trim_end : Text → Text
unfolding skip_white
trim_end s = reverse (skip_white (λ a b. white2 b a) (λ a b c. white3 c b a) (reverse s))

unfoldable pub trim : Text → Text
unfolding trim_start trim_end
trim s = trim_end (trim_start s)
