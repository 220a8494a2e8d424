-- ===== src/Std/Utf8/Laws.antt =====
-- UTF-8 and ASCII texts.
use utx0_node.Base.{◌≡◌, refl, true, Text, [], ◌∷◌, leb, arith}
use utx0_node.Std.Utf8.{is_utf8, continues, follow}

abbrev pub IsAscii : Text → Type 0
IsAscii [] = Unit
IsAscii (c ∷ s) = (leb c 0x7f ≡ true) × IsAscii s

continues-IsAscii : (s : Text) → IsAscii s → continues [] s ≡ true
unfolding continues follow
continues-IsAscii [] h = refl
continues-IsAscii (c ∷ s) (a, h) = ground (arith, continues-IsAscii s h)

pub is_utf8-IsAscii : (s : Text) → IsAscii s → is_utf8 s ≡ true
unfolding is_utf8
is_utf8-IsAscii s h = continues-IsAscii s h
