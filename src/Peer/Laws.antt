-- ===== src/Peer/Laws.antt =====
-- Peers and their texts, in src/protocol/peerlist.rs.
use utx0_node.Base.{
  ◌^◌, ◌<◌, ◌≡◌, refl, ap, sym, subst, ◌∙◌, some, Text, [], ◌∷◌, ◌++◌, ok, >>=-eq-ok, map_err-eq-ok,
  ok_or, map_err, Option-cases, inl, inr, arith,
}
use mathlib.Core.List.{append_assoc}
use utx0_node.Std.Decimal
use utx0_node.Std.Decimal.{
  parse_u16, parse_u16-to_string, parse_u16-lt, to_string-StartsWithDigit, to_string-last,
  StartsWithDigit, StartsWithDigit-append,
}
use utx0_node.Std.Ipv4
use utx0_node.Std.Ipv4.{Ipv4, InRange}
use utx0_node.Std.Ipv4.Laws.{parse-show, parse-InRange, to_string-Lacks, show-StartsWithDigit}
use utx0_node.Std.Split.{rsplit_once}
use utx0_node.Std.Split.Laws.{rsplit_once-append}
use utx0_node.Std.Trim.{trim}
use utx0_node.Std.Trim.Laws.{trim-digits}
use utx0_node.Peer.{Peer, to_string, try_from, parse_host, missing_separator, invalid_port}

-- The host is the text of an IPv4 address, and the port a u16.
pub record IsAddress (p : Peer) : Type 0 where
  pub address : Ipv4
  pub in_range : InRange address
  pub host_text : p.host ≡ Ipv4.show address
  pub port_range : p.port < 2 ^ 16

parse_host-show : (i : Ipv4) → InRange i → parse_host (Ipv4.show i) ≡ ok (Ipv4.show i)
unfolding parse_host
parse_host-show i r = ground (arith, parse-show i r)

parse_host-eq-ok : (s h : Text) → parse_host s ≡ ok h → (i : Ipv4) × InRange i × (h ≡ Ipv4.show i)
unfolding parse_host
parse_host-eq-ok s h e = elim (Option-cases (Ipv4.parse s)) [
  | inl bad ↦ ground arith
  | inr (i, parsed) ↦ (i, parse-InRange s i parsed, ground arith)
]

trim-to_string : (p : Peer) → IsAddress p → trim (to_string p) ≡ to_string p
unfolding to_string
trim-to_string p a =
    let (s, c, port, d) = to_string-last p.port in
    trim-digits (p.host ++ b':' ∷ s) c
      (subst (λ h. StartsWithDigit (h ++ b':' ∷ Decimal.to_string p.port)) (sym a.host_text)
        (StartsWithDigit-append _ (show-StartsWithDigit a.address)))
      (ap (λ t. p.host ++ b':' ∷ t) port ∙ sym (append_assoc p.host (b':' ∷ s) (c ∷ []))) d

rsplit_once-to_string :
    (p : Peer) → rsplit_once b':' (to_string p) ≡ some (p.host, Decimal.to_string p.port)
unfolding to_string
rsplit_once-to_string p =
    rsplit_once-append b':' p.host (Decimal.to_string p.port) (to_string-Lacks b':' p.port refl)

parse_host-address : (p : Peer) → IsAddress p → parse_host p.host ≡ ok p.host
parse_host-address p a =
    ap parse_host a.host_text ∙ parse_host-show a.address a.in_range ∙ ap ok (sym a.host_text)

-- A peer whose host is an IPv4 address and whose port is a u16 is read back from its text.
pub try_from-to_string : (p : Peer) → IsAddress p → try_from (to_string p) ≡ ok p
unfolding try_from
try_from-to_string p a = rw (
  trim-to_string p a,
  rsplit_once-to_string p,
  parse_u16-to_string p.port a.port_range,
  parse_host-address p a,
)

-- Whatever text is read as a peer, the peer's host is an IPv4 address and its port a u16.
pub try_from-IsAddress : (value : Text) (p : Peer) → try_from value ≡ ok p → IsAddress p
unfolding try_from
try_from-IsAddress value p e =
    let (parts, cut, h₁) =
      >>=-eq-ok (ok_or missing_separator (rsplit_once b':' (trim value))) _ e in
    let (port, is_port, h₂) = >>=-eq-ok (map_err invalid_port (parse_u16 parts.1)) _ h₁ in
    let (host, is_host, made) = >>=-eq-ok (parse_host parts.0) _ h₂ in
    let (i, range, text) = parse_host-eq-ok parts.0 host is_host in
    record {
      address = i;
      in_range = range;
      host_text = ground (arith);
      port_range = ground (
        arith,
        parse_u16-lt parts.1 port (map_err-eq-ok invalid_port (parse_u16 parts.1) is_port),
      );
    }
