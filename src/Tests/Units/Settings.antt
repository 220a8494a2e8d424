-- ===== src/Tests/Units/Settings.antt =====
-- The unit tests of src/protocol/peerlist.rs and src/config.rs.
use utx0_node.Base.{◌≡◌, refl, arith, true, Text, lit, [], ok, err}
use utx0_node.Config
use utx0_node.Config.{default_max_outbound, default_service_loop_delay}
use utx0_node.Peer.{
  Peer, missing_separator, invalid_port, invalid_hostname, try_from, to_string, parse_host,
}
use utx0_node.Std.Decimal
use utx0_node.Std.Decimal.{ParseIntError}
use utx0_node.Std.Ipv4
use utx0_node.Std.Split.{split, rsplit_once}
use utx0_node.Std.Trim.{trim}

-- `unwrap` of a result, and the assertions on the peer.
abbrev ValidIpv4PeerParsing : Type 0
ValidIpv4PeerParsing =
    (peer : Peer) × (try_from (lit "192.168.1.1:8080") ≡ ok peer)
    × (peer.host ≡ lit "192.168.1.1")
    × (peer.port ≡ 8080)
    × (to_string peer ≡ lit "192.168.1.1:8080")

ValidIpv4PeerParsing-passes : ValidIpv4PeerParsing
unfolding try_from parse_host trim split rsplit_once Ipv4.parse Ipv4.show Decimal.to_string
    Decimal.parse_u16 to_string
ValidIpv4PeerParsing-passes =
    (record { host = lit "192.168.1.1"; port = 8080 }, refl, refl, refl, refl)

-- Ignored.
abbrev ValidDnsPeerParsing : Type 0
ValidDnsPeerParsing =
    to_string (record { host = lit "node.example.com"; port = 18018 }) ≡ lit "node.example.com:8080"

ValidDnsPeerParsing-fails : ¬ ValidDnsPeerParsing
unfolding to_string Decimal.to_string
ValidDnsPeerParsing-fails h = absurd (ground arith)

abbrev FailMissingColon : Type 0
FailMissingColon = try_from (lit "192.168.1.18080") ≡ err missing_separator

FailMissingColon-passes : FailMissingColon
unfolding try_from trim rsplit_once
FailMissingColon-passes = refl

abbrev FailInvalidPort : Type 0
FailInvalidPort =
    (e : ParseIntError) × (try_from (lit "192.168.1.1:notaport") ≡ err (invalid_port e))

FailInvalidPort-passes : FailInvalidPort
unfolding try_from trim rsplit_once Decimal.parse_u16
FailInvalidPort-passes = (ParseIntError.invalid_digit, refl)

abbrev FailInvalidIpv4 : Type 0
FailInvalidIpv4 = (s : Text) × (try_from (lit "999.999.999.999:8080") ≡ err (invalid_hostname s))

FailInvalidIpv4-passes : FailInvalidIpv4
unfolding try_from parse_host trim split rsplit_once Ipv4.parse Decimal.parse_u16
FailInvalidIpv4-passes = (lit "999.999.999.999", refl)

-- Ignored.
abbrev TestInvalidHostname : Type 0
TestInvalidHostname =
    (s : Text) × (try_from (lit "_invalid.hostname:8080") ≡ err (invalid_hostname s))

TestInvalidHostname-passes : TestInvalidHostname
unfolding try_from parse_host trim split rsplit_once Ipv4.parse Decimal.parse_u16
TestInvalidHostname-passes = (lit "_invalid.hostname", refl)

abbrev NewConfigHasDefaults : Type 0
NewConfigHasDefaults =
    let cfg = Config.new 1337 (lit "agent/1.0") (lit "foo.csv") in
    (cfg.port ≡ 1337)
    × (cfg.user_agent ≡ lit "agent/1.0")
    × (cfg.peers_file ≡ lit "foo.csv")
    × (cfg.max_outbound_connection ≡ default_max_outbound)
    × (cfg.service_loop_delay ≡ default_service_loop_delay)
    × (cfg.banned_hosts ≡ [])
    × (cfg.public_node ≡ true)
    × (cfg.my_host ≡ lit "0.0.0.0")

NewConfigHasDefaults-passes : NewConfigHasDefaults
unfolding Config.new
NewConfigHasDefaults-passes = (refl, refl, refl, refl, refl, refl, refl, refl)
