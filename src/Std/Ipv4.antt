-- ===== src/Std/Ipv4.antt =====
-- `Ipv4Addr`: `str::parse` and `to_string`.
pub mod Laws
use utx0_node.Base.{
  ℕ, suc, ◌+◌, ◌-◌, ◌*◌, ◌<◌, Bool, ◌&&◌, ◌||◌, Option, none, some, Text, List, [], ◌∷◌, ◌++◌, ltb,
  leb, ◌==◌, length, if◌then◌else◌,
}
use utx0_node.Std.Decimal.{is_digit, to_string}
use utx0_node.Std.Split.{split}

pub record Ipv4 : Type 0 where
  pub a : ℕ
  pub b : ℕ
  pub c : ℕ
  pub d : ℕ

octet_digits : ℕ → Text → Option ℕ
octet_digits acc [] = some acc
octet_digits acc (c ∷ s) =
    let more = octet_digits (acc * 10 + (c - 48)) s in
    if is_digit c && leb (acc * 10 + (c - 48)) 255 then more else none

-- One to three digits, with no leading zero, up to 255.
pub parse_octet : Text → Option ℕ
unfolding octet_digits
parse_octet [] = none
parse_octet (c ∷ s) =
    if ltb 2 (length s) || (c == 48 && ltb 0 (length s)) then none else octet_digits 0 (c ∷ s)

pub four : List Text → Option Ipv4
unfolding parse_octet
four (s ∷ t ∷ u ∷ v ∷ []) = elim (parse_octet s) [
  | none ↦ none
  | some a ↦ elim (parse_octet t) [
    | none ↦ none
    | some b ↦ elim (parse_octet u) [
      | none ↦ none
      | some c ↦ elim (parse_octet v) [
        | none ↦ none
        | some d ↦ some (record { a = a; b = b; c = c; d = d })
      ]
    ]
  ]
]
four _ = none

unfoldable pub parse : Text → Option Ipv4
unfolding four
parse s = four (split b'.' s)

unfoldable pub show : Ipv4 → Text
show i = to_string i.a ++ b'.' ∷ (to_string i.b ++ b'.' ∷ (to_string i.c ++ b'.' ∷ to_string i.d))

pub record InRange (i : Ipv4) : Type 0 where
  pub a : i.a < 256
  pub b : i.b < 256
  pub c : i.c < 256
  pub d : i.d < 256
