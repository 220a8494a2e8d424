-- ===== src/Peer.antt =====
-- src/protocol/peerlist.rs: a peer's address, and its text.
pub mod Laws
use utx0_node.Base.{
  ℕ, ◌≡◌, ◌↔◌, Bool, true, false, ◌&&◌, none, some, Text, ◌∷◌, ◌++◌, Result, ok, err, ◌>>=◌,
  map_err, ok_or, text_eq, text_eq_iff, ◌==◌, if◌then◌else◌, arith,
}
use utx0_node.Std.Decimal
use utx0_node.Std.Decimal.{ParseIntError, parse_u16}
use utx0_node.Std.Ipv4
use utx0_node.Std.Split.{rsplit_once}
use utx0_node.Std.Trim.{trim}

pub record Peer : Type 0 where
  pub host : Text
  pub port : ℕ

-- The derived `==`.
unfoldable pub peer_eq : Peer → Peer → Bool
peer_eq p q = text_eq p.host q.host && p.port == q.port

pub peer_eq_iff : (p q : Peer) → (peer_eq p q ≡ true) ↔ (p ≡ q)
unfolding peer_eq
peer_eq_iff p q = ground (arith, text_eq_iff p.host q.host)

pub peer_eq_sym : (p q : Peer) → peer_eq p q ≡ peer_eq q p
peer_eq_sym p q = ground (arith, peer_eq_iff p q, peer_eq_iff q p)

-- `Display`
unfoldable pub to_string : Peer → Text
to_string p = p.host ++ b':' ∷ Decimal.to_string p.port

-- `invalid_ipv4` carries the text of its error.
pub data PeerParseError : Type 0 where
  missing_separator : PeerParseError
  invalid_port : ParseIntError → PeerParseError
  port_out_of_range : PeerParseError
  invalid_ipv4 : Text → PeerParseError
  invalid_hostname : Text → PeerParseError

unfoldable pub is_valid_dns_name : Text → Bool
is_valid_dns_name host_name = false

-- The host, from the text before the colon.
unfoldable pub parse_host : Text → Result PeerParseError Text
unfolding is_valid_dns_name
parse_host host_raw = elim (Ipv4.parse host_raw) [
  | some ipv4 ↦ ok (Ipv4.show ipv4)
  | none ↦
      if is_valid_dns_name host_raw then ok (trim host_raw) else err (invalid_hostname host_raw)
]

-- `TryFrom<&str>`
unfoldable pub try_from : Text → Result PeerParseError Peer
try_from value = do
  (host_raw, port_raw) ← ok_or missing_separator (rsplit_once b':' (trim value))
  port ← map_err invalid_port (parse_u16 port_raw)
  host ← parse_host host_raw
  ok (record { host = host; port = port })
