-- ===== src/Std/Split/Laws.antt =====
-- Splitting what was joined.
use utx0_node.Base.{ℕ, ◌≡◌, refl, false, none, some, Text, [], ◌∷◌, ◌++◌, ◌==◌, arith}
use utx0_node.Std.Split.{split, rsplit_once}

-- The character does not occur.
abbrev pub Lacks : ℕ → Text → Type 0
Lacks c [] = Unit
Lacks c (b ∷ s) = ((b == c) ≡ false) × Lacks c s

pub split-Lacks : (c : ℕ) (s : Text) → Lacks c s → split c s ≡ s ∷ []
unfolding split
split-Lacks c [] h = refl
split-Lacks c (b ∷ s) (ne, h) = rw (ne, split-Lacks c s h)

pub split-append : (c : ℕ) (s t : Text) → Lacks c s → split c (s ++ c ∷ t) ≡ s ∷ split c t
unfolding split
split-append c [] t h = ground arith
split-append c (b ∷ s) t (ne, h) = rw (ne, split-append c s t h)

rsplit_once-Lacks : (c : ℕ) (s : Text) → Lacks c s → rsplit_once c s ≡ none
unfolding rsplit_once
rsplit_once-Lacks c [] h = refl
rsplit_once-Lacks c (b ∷ s) (ne, h) = rw (rsplit_once-Lacks c s h, ne)

pub rsplit_once-append : (c : ℕ) (s t : Text) → Lacks c t → rsplit_once c (s ++ c ∷ t) ≡ some (s, t)
unfolding rsplit_once
rsplit_once-append c [] t h = rw (rsplit_once-Lacks c t h) (ground arith)
rsplit_once-append c (b ∷ s) t h = rw (rsplit_once-append c s t h)

pub Lacks-append : (c : ℕ) (s t : Text) → Lacks c s → Lacks c t → Lacks c (s ++ t)
Lacks-append c [] t h k = k
Lacks-append c (b ∷ s) t (ne, h) k = (ne, Lacks-append c s t h k)
