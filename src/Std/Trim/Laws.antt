-- ===== src/Std/Trim/Laws.antt =====
-- `trim` on a text that begins and ends with a digit, and on a line with a JSON object.
use mathlib.Core.List.{reverse, reverse-append, reverse-reverse}
use utx0_node.Base.{ℕ, ◌≡◌, refl, lit, sym, ap, ◌∙◌, Bool, true, false, Text, [], ◌∷◌, ◌++◌, arith}
use utx0_node.Std.Decimal.{is_digit, StartsWithDigit, starts}
use utx0_node.Std.Trim.{skip_white, white1, white2, white3, trim, trim_start, trim_end}

skip_white-cons :
    (w2 : ℕ → ℕ → Bool) (w3 : ℕ → ℕ → ℕ → Bool) (a : ℕ) (s : Text)
    → white1 a ≡ false
    → ((b : ℕ) → w2 a b ≡ false)
    → ((b c : ℕ) → w3 a b c ≡ false)
    → skip_white w2 w3 (a ∷ s) ≡ a ∷ s
unfolding skip_white
skip_white-cons w2 w3 a [] h1 h2 h3 = rw h1
skip_white-cons w2 w3 a (b ∷ []) h1 h2 h3 = rw (h1, h2 b)
skip_white-cons w2 w3 a (b ∷ c ∷ s) h1 h2 h3 = rw (h1, h2 b, h3 b c)

trim_start-digit : (a : ℕ) (s : Text) → is_digit a ≡ true → trim_start (a ∷ s) ≡ a ∷ s
unfolding trim_start
trim_start-digit a s d =
    skip_white-cons white2 white3 a s (ground arith) (λ b. ground arith) (λ b c. ground arith)

trim_end-digit : (s : Text) (a : ℕ) → is_digit a ≡ true → trim_end (s ++ a ∷ []) ≡ s ++ a ∷ []
unfolding trim_end
trim_end-digit s a d =
    ap (λ t. reverse (skip_white (λ x y. white2 y x) (λ x y z. white3 z y x) t))
      (reverse-append s (a ∷ []))
    ∙ ap reverse (
        skip_white-cons (λ x y. white2 y x) (λ x y z. white3 z y x) a (reverse s) (ground arith)
          (λ b. ground arith) (λ b c. ground arith))
    ∙ ap reverse (sym (reverse-append s (a ∷ [])))
    ∙ reverse-reverse (s ++ a ∷ [])

pub trim-digits :
    {s : Text} (t : Text) (a : ℕ)
    → StartsWithDigit s
    → s ≡ t ++ a ∷ []
    → is_digit a ≡ true
    → trim s ≡ s
unfolding trim
trim-digits t a (starts {c} s d) e h =
    ap trim_end (trim_start-digit c s d) ∙ ap trim_end e ∙ trim_end-digit t a h ∙ sym e

skip_white-newline :
    (w2 : ℕ → ℕ → Bool) (w3 : ℕ → ℕ → ℕ → Bool) (b : ℕ) (s : Text)
    → skip_white w2 w3 (b'\n' ∷ b ∷ s) ≡ skip_white w2 w3 (b ∷ s)
unfolding skip_white
skip_white-newline w2 w3 b [] = refl
skip_white-newline w2 w3 b (c ∷ s) = refl

trim_start-brace : (s : Text) → trim_start (b'{' ∷ s) ≡ b'{' ∷ s
unfolding trim_start
trim_start-brace s = skip_white-cons white2 white3 b'{' s refl (λ b. refl) (λ b c. refl)

trim_end-brace : (s : Text) → trim_end ((s ++ lit "}") ++ lit "\n") ≡ s ++ lit "}"
unfolding trim_end
trim_end-brace s =
    let w2 : ℕ → ℕ → Bool = λ x y. white2 y x in
    let w3 : ℕ → ℕ → ℕ → Bool = λ x y z. white3 z y x in
    ap (λ t. reverse (skip_white w2 w3 t))
      (reverse-append (s ++ lit "}") (lit "\n") ∙ ap (λ t. b'\n' ∷ t) (reverse-append s (lit "}")))
    ∙ ap reverse (
        skip_white-newline w2 w3 b'}' (reverse s)
        ∙ skip_white-cons w2 w3 b'}' (reverse s) refl (λ b. ground arith) (λ b c. ground arith))
    ∙ ap reverse (sym (reverse-append s (lit "}")))
    ∙ reverse-reverse (s ++ lit "}")

pub trim-braces : (s : Text) → trim ((b'{' ∷ s ++ lit "}") ++ lit "\n") ≡ b'{' ∷ s ++ lit "}"
unfolding trim
trim-braces s =
    ap trim_end (trim_start-brace ((s ++ lit "}") ++ lit "\n")) ∙ trim_end-brace (b'{' ∷ s)
