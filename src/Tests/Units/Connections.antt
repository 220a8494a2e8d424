-- ===== src/Tests/Units/Connections.antt =====
-- The tests of src/net/tests.rs with one client: what it sends reaches the server as one stream,
-- and then it reads what the server has written.
use utx0_node.Base.{
  ℕ, ◌≡◌, refl, true, false, none, some, Text, Bytes, lit, List, [], ◌∷◌, ◌++◌, Result, ok, text_eq,
  length, Option,
}
use utx0_node.Config.{Config, new_test}
use utx0_node.Errors
use utx0_node.Errors.{ProtocolError, invalid_format}
use utx0_node.Errors.Report.{from_error}
use utx0_node.Exec.{◌>>=◌}
use utx0_node.Json.{object, string, number, entry, end, get, as_str}
use utx0_node.Message.{Message, hello, peers, get_peers, error, unknown, mk_hello}
use utx0_node.Net.Client.{contains_key, new_outbound_map, insert}
use utx0_node.Net.Crates.{NetCrates}
use utx0_node.Net.Dispatch.{Session, run_message_loop, round, pick_and_build_peers, import_peers}
use utx0_node.Net.Framing.{Reader, read_frame, write_frame}
use utx0_node.Net.Handshake.{inbound}
use utx0_node.Net.Housekeeping.{Found, housekeeping_loop}
use utx0_node.Net.Listener.{handle_connection}
use utx0_node.Peer.{Peer, peer_eq, try_from, parse_host}
use utx0_node.State.Connection
use utx0_node.State.Connection.{load}
use utx0_node.State.Peers.{append_peer, load_from_disk, contains, key}
use utx0_node.State.Peers
use utx0_node.Std.Decimal
use utx0_node.Std.Ipv4
use utx0_node.Std.Sink.{write_all, touch}
use utx0_node.Std.Split.{split, rsplit_once}
use utx0_node.Std.Trim.{trim}
use utx0_node.Std.Utf8.{is_utf8}
use utx0_node.Storage.Redb.{redb_store}
use utx0_node.Tests.Fixtures.{Json, json, parse_in}
use utx0_node.Tests.Network.{stream}
use utx0_node.Tests.Objects.{crate}
use utx0_node.Tests.Units.Wire.{texts_of, wire, empty, message_of, line_of}

abbrev pub port : ℕ
port = 50505

-- `Config::new_test(port, "test/0.1", ..)`, and the client's.
abbrev pub server : Config
server = new_test port (lit "test/0.1") (lit "peers.csv")

abbrev client : Config
client = new_test port (lit "node1") (lit "peers.csv")

-- `util_spawn_test_server`: the session of a connection, on an empty peers file and a new store.
abbrev pub util_spawn_test_server : Bytes → Session (redb_store crate)
util_spawn_test_server bytes = record {
  reader = stream bytes;
  writer = empty;
  peers = record { map = load_from_disk (some []); file = empty };
  store = none;
  draws = 0;
}

-- `util_complete_handshake`, as far as the client writes.
abbrev pub greeting : Bytes
greeting = line_of (mk_hello client.port client.user_agent)

-- `util_complete_handshake`, as far as it reads; then the reply to what was sent next.
unfoldable pub reply : NetCrates → Bytes → Result ProtocolError Message × Reader
reply c bytes =
    (do server_hello ← read_frame c; initial_gp ← read_frame c; read_frame c) (stream bytes)

unfoldable pub serve :
    NetCrates → Bytes → Option (Result ProtocolError (Unit {0}) × Session (redb_store crate))
serve c bytes =
    handle_connection c (redb_store crate) server 400 false (util_spawn_test_server bytes)

TestGetpeersEmpty : NetCrates → Type 0
TestGetpeersEmpty c =
    (r : Result ProtocolError (Unit {0})) × (s : Session (redb_store crate)) × (serve c
        (greeting ++ line_of get_peers)
      ≡ some (r, s))
    × (length s.peers.map ≡ 0)
    × ((reply c s.writer.content).0
        ≡ ok (peers (record { host = lit "0.0.0.0"; port = port } ∷ [])))

abbrev me : Message
me = peers (record { host = lit "0.0.0.0"; port = port } ∷ [])

abbrev usual : NetCrates
usual =
    wire (hello port (lit "node1") ∷ hello port (lit "test/0.1") ∷ get_peers ∷ me ∷ unknown ∷ [])

TestGetpeersEmpty-passes : TestGetpeersEmpty usual
unfolding TestGetpeersEmpty serve reply handle_connection inbound run_message_loop round read_frame
    write_frame write_all touch trim message_of get as_str is_utf8 Decimal.to_string text_eq
    pick_and_build_peers new_test load_from_disk split
TestGetpeersEmpty-passes = (_, _, refl, refl, refl)

abbrev peer_a : Peer
peer_a = record { host = lit "127.0.0.1"; port = 1111 }

abbrev peer_b : Peer
peer_b = record { host = lit "127.0.0.2"; port = 2222 }

abbrev peer_c : Peer
peer_c = record { host = lit "127.0.0.3"; port = 3333 }

-- The peers file gets the line of A when the server has its map; then B and C are sent.
TestPeersMessageAppends : NetCrates → Type 0
TestPeersMessageAppends c =
    let bytes = greeting ++ line_of (peers (peer_b ∷ peer_c ∷ [])) in
    let before = record (util_spawn_test_server bytes) {
      peers = record {
        map = load_from_disk (some []);
        file = record { content = key peer_a ++ lit "\n"; outcomes = [] };
      };
    } in
    (try_from (lit "127.0.0.1:1111") ≡ ok peer_a)
    × (try_from (lit "127.0.0.2:2222") ≡ ok peer_b)
    × (try_from (lit "127.0.0.3:3333") ≡ ok peer_c)
    × ((r : Result ProtocolError (Unit {0})) × (s : Session (redb_store crate)) × (handle_connection
            c (redb_store crate) server 400 false before
          ≡ some (r, s))
        × (contains (load_from_disk (some s.peers.file.content)) peer_a ≡ true)
        × (contains (load_from_disk (some s.peers.file.content)) peer_b ≡ true)
        × (contains (load_from_disk (some s.peers.file.content)) peer_c ≡ true))

TestPeersMessageAppends-passes :
    TestPeersMessageAppends
      (wire (hello port (lit "node1") ∷ get_peers ∷ peers (peer_b ∷ peer_c ∷ []) ∷ []))
unfolding TestPeersMessageAppends handle_connection inbound run_message_loop round read_frame
    write_frame write_all touch trim message_of get as_str is_utf8 Decimal.to_string text_eq
    import_peers append_peer new_test load_from_disk split contains peer_eq Peers.insert key
    try_from parse_host rsplit_once Ipv4.parse Ipv4.show Decimal.parse_u16
TestPeersMessageAppends-passes = (refl, refl, refl, (_, _, refl, refl, refl, refl))

-- The crates of Wire, with a parser of one more text.
abbrev reads : List Message → Text → Json → NetCrates
reads messages known v = record (wire messages) {
  json = record json { from_slice = λ text. parse_in ((known, v) ∷ texts_of messages) (trim text) };
}

-- The line of this text is answered by an error, after which the server has closed.
Refused : NetCrates → Text → Type 0
Refused c line =
    (s : Session (redb_store crate)) × (serve c (greeting ++ (line ++ lit "\n")) ≡ some (ok tt, s))
    × ((msg : Text) × (reply c s.writer.content
          ≡ (ok (error (lit "INVALID_FORMAT") msg), stream [])))

abbrev extra_field : Text
extra_field = lit "{\"type\":\"GetPeers\",\"unexpected\":123}"

MalformedJsonExtraFieldRejected : NetCrates → Type 0
MalformedJsonExtraFieldRejected c = Refused c extra_field

abbrev with_error : List Message
with_error =
    hello port (lit "node1")
    ∷ hello port (lit "test/0.1")
    ∷ get_peers
    ∷ from_error invalid_format
    ∷ []

MalformedJsonExtraFieldRejected-passes : MalformedJsonExtraFieldRejected (
    reads with_error extra_field (
      object
        (entry (lit "type") (string (lit "GetPeers")) (entry (lit "unexpected") (number 123) end))))
unfolding MalformedJsonExtraFieldRejected Refused serve reply handle_connection inbound
    run_message_loop round read_frame write_frame write_all touch trim message_of get as_str is_utf8
    Decimal.to_string text_eq new_test load_from_disk split from_error Errors.to_string
MalformedJsonExtraFieldRejected-passes = (_, refl, (_, refl))

MalformedJsonTruncatedRejected : NetCrates → Type 0
MalformedJsonTruncatedRejected c = Refused c (lit "{\"type\":\"GetPeers\"")

MalformedJsonTruncatedRejected-passes : MalformedJsonTruncatedRejected (wire with_error)
unfolding MalformedJsonTruncatedRejected Refused serve reply handle_connection inbound
    run_message_loop round read_frame write_frame write_all touch trim message_of get as_str is_utf8
    Decimal.to_string text_eq new_test load_from_disk split from_error Errors.to_string
MalformedJsonTruncatedRejected-passes = (_, refl, (_, refl))

-- A message of an unknown type has no reply, and the next one has.
Ignored : NetCrates → Type 0
Ignored c =
    (r : Result ProtocolError (Unit {0})) × (s : Session (redb_store crate)) × (serve c
        (greeting ++ (lit "{\"type\":\"Foobar\"}\n" ++ lit "{\"type\":\"GetPeers\"}\n"))
      ≡ some (r, s))
    × ((ps : List Peer) × ((reply c s.writer.content).0 ≡ ok (peers ps)))

UnknownMessageTypeIgnored : NetCrates → Type 0
UnknownMessageTypeIgnored c = Ignored c

-- It sends the same.
MalformedJsonMissingFieldRejected : NetCrates → Type 0
MalformedJsonMissingFieldRejected c = Ignored c

unknown_types_pass : UnknownMessageTypeIgnored usual × MalformedJsonMissingFieldRejected usual
unfolding UnknownMessageTypeIgnored MalformedJsonMissingFieldRejected Ignored serve reply
    handle_connection inbound run_message_loop round read_frame write_frame write_all touch trim
    message_of get as_str is_utf8 Decimal.to_string text_eq pick_and_build_peers new_test
    load_from_disk split
unknown_types_pass = ((_, _, refl, (_, refl)), (_, _, refl, (_, refl)))

TestHousekeepingPrunesFinishedOutbound : Type 0
TestHousekeepingPrunesFinishedOutbound =
    let peer1 : Peer = record { host = lit "127.0.0.1"; port = 1001 } in
    let peer2 : Peer = record { host = lit "127.0.0.1"; port = 1002 } in
    let outbound =
      insert (record { peer = peer2; running = true })
        (insert (record { peer = peer1; running = false }) new_outbound_map) in
    let asleep : Found = record { inbound = Connection.new; changed = λ es. es; peers_map = [] } in
    let (twice, logged) = housekeeping_loop (asleep ∷ asleep ∷ []) outbound in
    (length twice ≡ 1) × (contains_key twice peer2 ≡ true)

TestHousekeepingPrunesFinishedOutbound-passes : TestHousekeepingPrunesFinishedOutbound
unfolding TestHousekeepingPrunesFinishedOutbound housekeeping_loop insert contains_key text_eq
    peer_eq
TestHousekeepingPrunesFinishedOutbound-passes = (refl, refl)
