-- ===== src/Std/Ipv4/Laws.antt =====
-- IPv4 addresses and their texts.
use utx0_node.Base.{
  ℕ, zero, suc, ◌+◌, ◌-◌, ◌*◌, ◌<◌, ◌≡◌, refl, ap, ◌∙◌, Bool, true, false, ◌&&◌, none, some, Text,
  List, [], ◌∷◌, ◌==◌, arith,
}
use utx0_node.Std.Decimal.{
  is_digit, to_string, IsDigits, to_string-IsDigits, StartsWithDigit, StartsWithDigit-append,
  to_string-StartsWithDigit,
}
use utx0_node.Std.Split.{split}
use utx0_node.Std.Split.Laws.{Lacks, split-Lacks, split-append}
use utx0_node.Std.Ipv4.{Ipv4, octet_digits, parse_octet, four, parse, show, InRange}

pub IsDigits-Lacks : (c : ℕ) (s : Text) → is_digit c ≡ false → IsDigits s → Lacks c s
IsDigits-Lacks c [] h d = tt
IsDigits-Lacks c (b ∷ s) h (d, ds) = (ground arith, IsDigits-Lacks c s h ds)

pub to_string-Lacks : (c n : ℕ) → is_digit c ≡ false → Lacks c (to_string n)
to_string-Lacks c n h = IsDigits-Lacks c (to_string n) h (to_string-IsDigits n)

reads_back : ℕ → Bool
reads_back n = elim (parse_octet (to_string n)) [ none ↦ false | some m ↦ m == n ]

all_below : ℕ → (ℕ → Bool) → Bool
all_below zero p = true
all_below (suc n) p = p n && all_below n p

all_below_lem : (n : ℕ) (p : ℕ → Bool) (x : ℕ) → all_below n p ≡ true → x < n → p x ≡ true
unfolding all_below
all_below_lem zero p x h lt = absurd (omega arith)
all_below_lem (suc n) p x h lt = ground (arith, all_below_lem n p x)

octet_table : all_below 256 reads_back ≡ true
unfolding all_below reads_back parse_octet to_string
octet_table = refl

reads_back-eq-true : (n : ℕ) → reads_back n ≡ true → parse_octet (to_string n) ≡ some n
unfolding reads_back
reads_back-eq-true n h = ground arith

pub parse_octet-to_string : (n : ℕ) → n < 256 → parse_octet (to_string n) ≡ some n
parse_octet-to_string n h = reads_back-eq-true n (all_below_lem 256 reads_back n octet_table h)

four-eq-some :
    (s t u v : Text) (i : Ipv4)
    → parse_octet s ≡ some i.a
    → parse_octet t ≡ some i.b
    → parse_octet u ≡ some i.c
    → parse_octet v ≡ some i.d
    → four (s ∷ t ∷ u ∷ v ∷ []) ≡ some i
unfolding four
four-eq-some s t u v i ha hb hc hd = ground arith

split-show :
    (i : Ipv4)
    → split b'.' (show i) ≡ to_string i.a ∷ to_string i.b ∷ to_string i.c ∷ to_string i.d ∷ []
unfolding show
split-show i = rw (
  split-append b'.' (to_string i.a) _ (to_string-Lacks b'.' i.a refl),
  split-append b'.' (to_string i.b) _ (to_string-Lacks b'.' i.b refl),
  split-append b'.' (to_string i.c) _ (to_string-Lacks b'.' i.c refl),
  split-Lacks b'.' (to_string i.d) (to_string-Lacks b'.' i.d refl),
)

pub parse-show : (i : Ipv4) → InRange i → parse (show i) ≡ some i
unfolding parse
parse-show i r =
    ap four (split-show i)
    ∙ four-eq-some (to_string i.a) (to_string i.b) (to_string i.c) (to_string i.d) i
        (parse_octet-to_string i.a r.a) (parse_octet-to_string i.b r.b)
        (parse_octet-to_string i.c r.c) (parse_octet-to_string i.d r.d)

octet_digits-lt : (acc : ℕ) (s : Text) (n : ℕ) → acc < 256 → octet_digits acc s ≡ some n → n < 256
unfolding octet_digits
octet_digits-lt acc [] n small h = ground arith
octet_digits-lt acc (c ∷ s) n small h = ground (arith, octet_digits-lt (acc * 10 + (c - 48)) s n)

parse_octet-lt : (s : Text) (n : ℕ) → parse_octet s ≡ some n → n < 256
unfolding parse_octet
parse_octet-lt [] n h = cc
parse_octet-lt (c ∷ s) n h = ground (arith, octet_digits-lt 0 (c ∷ s) n)

four-InRange : (l : List Text) (i : Ipv4) → four l ≡ some i → InRange i
unfolding four
four-InRange (s ∷ t ∷ u ∷ v ∷ []) i h =
    ground (
      arith,
      parse_octet-lt s i.a,
      parse_octet-lt t i.b,
      parse_octet-lt u i.c,
      parse_octet-lt v i.d,
    )
four-InRange _ i h = cc

pub parse-InRange : (s : Text) (i : Ipv4) → parse s ≡ some i → InRange i
unfolding parse
parse-InRange s i h = four-InRange (split b'.' s) i h

pub show-StartsWithDigit : (i : Ipv4) → StartsWithDigit (show i)
unfolding show
show-StartsWithDigit i = StartsWithDigit-append _ (to_string-StartsWithDigit i.a)
