-- ===== src/State/Peers/Lines.antt =====
-- One line of the peers file of src/state/peers.rs, written and read.
use mathlib.Core.List.{append_assoc}
use utx0_node.Base.{
  ℕ, ◌≡◌, refl, ap, sym, subst, ◌∙◌, Bool, true, false, ◌||◌, some, Text, List, [], ◌∷◌, ◌++◌, ◌==◌,
  arith,
}
use utx0_node.Peer.{Peer}
use utx0_node.Peer.Laws.{IsAddress}
use utx0_node.Std.Decimal
use utx0_node.Std.Decimal.{
  is_digit, IsDigits, to_string-IsDigits, to_string-last, parse_u16, parse_u16-to_string,
  StartsWithDigit, StartsWithDigit-append,
}
use utx0_node.Std.Ipv4
use utx0_node.Std.Ipv4.{Ipv4}
use utx0_node.Std.Ipv4.Laws.{show-StartsWithDigit, to_string-Lacks}
use utx0_node.Std.Split.{split}
use utx0_node.Std.Split.Laws.{Lacks, Lacks-append, split-append, split-Lacks}
use utx0_node.Std.Trim.{trim}
use utx0_node.Std.Trim.Laws.{trim-digits}
use utx0_node.Std.Utf8.{is_utf8}
use utx0_node.Std.Utf8.Laws.{IsAscii, is_utf8-IsAscii}
use utx0_node.State.Peers.{key, load_line, parse_fields, insert}

-- The characters of an address.
abbrev pub is_dotted : ℕ → Bool
is_dotted c = is_digit c || c == b'.'

abbrev pub IsDotted : Text → Type 0
IsDotted [] = Unit
IsDotted (c ∷ s) = (is_dotted c ≡ true) × IsDotted s

IsDotted-append : (s t : Text) → IsDotted s → IsDotted t → IsDotted (s ++ t)
IsDotted-append [] t h k = k
IsDotted-append (c ∷ s) t (d, h) k = (d, IsDotted-append s t h k)

IsDigits-IsDotted : (s : Text) → IsDigits s → IsDotted s
IsDigits-IsDotted [] h = tt
IsDigits-IsDotted (c ∷ s) (d, h) = (ground arith, IsDigits-IsDotted s h)

pub number-IsDotted : (n : ℕ) → IsDotted (Decimal.to_string n)
number-IsDotted n = IsDigits-IsDotted (Decimal.to_string n) (to_string-IsDigits n)

show-IsDotted : (i : Ipv4) → IsDotted (Ipv4.show i)
unfolding Ipv4.show
show-IsDotted i = IsDotted-append (Decimal.to_string i.a) _ (number-IsDotted i.a) (
  refl,
  IsDotted-append (Decimal.to_string i.b) _ (number-IsDotted i.b) (
    refl,
    IsDotted-append (Decimal.to_string i.c) _ (number-IsDotted i.c) (refl, number-IsDotted i.d),
  ),
)

pub host-IsDotted : (p : Peer) → IsAddress p → IsDotted p.host
host-IsDotted p a = subst IsDotted (sym a.host_text) (show-IsDotted a.address)

IsDotted-IsAscii : (s : Text) → IsDotted s → IsAscii s
IsDotted-IsAscii [] h = tt
IsDotted-IsAscii (c ∷ s) (d, h) = (ground arith, IsDotted-IsAscii s h)

pub IsDotted-Lacks : (c : ℕ) (s : Text) → is_dotted c ≡ false → IsDotted s → Lacks c s
IsDotted-Lacks c [] h d = tt
IsDotted-Lacks c (b ∷ s) h (d, ds) = (ground arith, IsDotted-Lacks c s h ds)

IsAscii-append : (s t : Text) → IsAscii s → IsAscii t → IsAscii (s ++ t)
IsAscii-append [] t h k = k
IsAscii-append (c ∷ s) t (d, h) k = (d, IsAscii-append s t h k)

key-is_utf8 : (p : Peer) → IsAddress p → is_utf8 (key p) ≡ true
unfolding key
key-is_utf8 p a = is_utf8-IsAscii (key p) (
    IsAscii-append p.host _ (IsDotted-IsAscii p.host (host-IsDotted p a))
      (refl, IsDotted-IsAscii _ (number-IsDotted p.port)))

-- No newline and no carriage return stands in a line.
pub key-Lacks :
    (c : ℕ) (p : Peer) → IsAddress p → is_dotted c ≡ false → (b',' == c) ≡ false → Lacks c (key p)
unfolding key
key-Lacks c p a h comma =
    Lacks-append c p.host (b',' ∷ Decimal.to_string p.port)
      (IsDotted-Lacks c p.host h (host-IsDotted p a))
      (comma, IsDotted-Lacks c _ h (number-IsDotted p.port))

trim-key : (p : Peer) → IsAddress p → trim (key p) ≡ key p
unfolding key
trim-key p a =
    let (s, c, port, d) = to_string-last p.port in
    trim-digits (p.host ++ b',' ∷ s) c
      (subst (λ h. StartsWithDigit (h ++ b',' ∷ Decimal.to_string p.port)) (sym a.host_text)
        (StartsWithDigit-append _ (show-StartsWithDigit a.address)))
      (ap (λ t. p.host ++ b',' ∷ t) port ∙ sym (append_assoc p.host (b',' ∷ s) (c ∷ []))) d

trim-show : (i : Ipv4) → trim (Ipv4.show i) ≡ Ipv4.show i
unfolding Ipv4.show
trim-show i =
    let (s, c, last, d) = to_string-last i.d in
    trim-digits
      (Decimal.to_string i.a
        ++ b'.' ∷ (Decimal.to_string i.b ++ b'.' ∷ (Decimal.to_string i.c ++ b'.' ∷ s)))
      c (show-StartsWithDigit i) (rw last (simp append_assoc)) d

trim-host : (p : Peer) → IsAddress p → trim p.host ≡ p.host
trim-host p a = ap trim a.host_text ∙ trim-show a.address ∙ sym a.host_text

split-key : (p : Peer) → IsAddress p → split b',' (key p) ≡ p.host ∷ Decimal.to_string p.port ∷ []
unfolding key
split-key p a =
    split-append b',' p.host _ (IsDotted-Lacks b',' p.host refl (host-IsDotted p a))
    ∙ ap (λ l. p.host ∷ l)
        (split-Lacks b',' (Decimal.to_string p.port) (to_string-Lacks b',' p.port refl))

parse_fields-key :
    (p : Peer) → IsAddress p → parse_fields (p.host ∷ Decimal.to_string p.port ∷ []) ≡ some p
unfolding parse_fields
parse_fields-key p a = ground (arith, parse_u16-to_string p.port a.port_range, trim-host p a)

pub load_line-key :
    (p : Peer) (map : List Peer) → IsAddress p → load_line (key p) map ≡ insert p map
unfolding load_line
load_line-key p map a = rw (key-is_utf8 p a, trim-key p a, split-key p a, parse_fields-key p a)
