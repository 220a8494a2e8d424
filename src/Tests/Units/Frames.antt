-- ===== src/Tests/Units/Frames.antt =====
-- The unit tests of src/net/framing.rs, src/protocol/message.rs, src/protocol/handshake.rs and
-- src/net/housekeeping.rs, with the crates of Wire.
use utx0_node.Base.{
  suc, ap, ◌∙◌, ℕ, ◌≡◌, refl, true, false, some, Text, Bytes, lit, List, [], ◌∷◌, ◌++◌, ok, err,
  text_eq, length,
}
use utx0_node.Config.{Config, new_test}
use utx0_node.Config
use utx0_node.Errors.{invalid_handshake}
use utx0_node.Json.{get, as_str}
use utx0_node.Message.{
  Message, hello, peers, get_peers, error, mk_hello, mk_peers, mk_getpeers, mk_error,
}
use utx0_node.Net.Client.{contains_key, new_outbound_map, insert}
use utx0_node.Net.Crates.{NetCrates}
use utx0_node.Net.Framing.{read_frame, write_frame}
use utx0_node.Net.Framing.{recv_buffer_limit}
use utx0_node.Net.Framing.Oversized.{read_frame_oversized}
use utx0_node.Net.Handshake.{Halves, inbound, outbound}
use utx0_node.Net.Housekeeping.{Found, housekeeping_loop}
use utx0_node.Peer.{Peer, peer_eq}
use utx0_node.State.Connection
use utx0_node.State.Connection.{load}
use utx0_node.Std.Decimal
use utx0_node.Std.Sink.{write_all, touch}
use utx0_node.Std.Trim.{trim}
use utx0_node.Std.Utf8.{is_utf8}
use utx0_node.Std.Utf8.Laws.{is_utf8-IsAscii}
use utx0_node.Errors.{oversized_frame}
use mathlib.Core.List.{append_assoc}
use utx0_node.Tests.Units.Wire.{wire, empty, read_back, message_of, line_of, fresh}
use utx0_node.Tests.Network.{
  stream, repeat, repeat-suc, length-repeat, repeat-Lacks, repeat-IsAscii,
}

-- `serde_json::to_string`, the line, and `read_frame`.
TestReadFrame : NetCrates → Type 0
TestReadFrame c =
    (text : Text) × (c.message_to_string get_peers ≡ ok text)
    × ((read_frame c (stream (text ++ lit "\n"))).0 ≡ ok get_peers)

TestReadFrame-passes : TestReadFrame (wire (get_peers ∷ []))
unfolding TestReadFrame message_of get as_str read_frame trim is_utf8 text_eq
TestReadFrame-passes = (_, refl, refl)

-- The line that `write_frame` writes has the message.
TestWriteFrame : List Message → Type 0
TestWriteFrame messages =
    let (r, w) = write_frame (wire messages) get_peers empty in
    (r ≡ ok tt) × (read_back messages w.content ≡ ok get_peers)

TestWriteFrame-passes : TestWriteFrame (get_peers ∷ [])
unfolding TestWriteFrame read_back message_of get as_str write_frame write_all touch trim text_eq
TestWriteFrame-passes = (refl, refl)

OversizedFrameRejected : NetCrates → Type 0
OversizedFrameRejected c =
    (read_frame c (stream (repeat b'A' (suc recv_buffer_limit) ++ lit "\n"))).0
    ≡ err oversized_frame

OversizedFrameRejected-passes : (c : NetCrates) → OversizedFrameRejected c
unfolding OversizedFrameRejected
OversizedFrameRejected-passes c =
    ap (λ r. r.0)
      (read_frame_oversized c (stream (repeat b'A' (suc recv_buffer_limit) ++ lit "\n"))
        (repeat b'A' recv_buffer_limit) (b'A' ∷ lit "\n")
        (ap (λ s. s ++ lit "\n") (repeat-suc b'A' recv_buffer_limit)
          ∙ append_assoc (repeat b'A' recv_buffer_limit) (b'A' ∷ []) (lit "\n"))
        (length-repeat b'A' recv_buffer_limit) (repeat-Lacks b'\n' b'A' recv_buffer_limit refl)
        (is_utf8-IsAscii (repeat b'A' recv_buffer_limit)
          (repeat-IsAscii b'A' recv_buffer_limit refl)))

TestMkHello : Type 0
TestMkHello = mk_hello 12345 (lit "utx0-agent") ≡ hello 12345 (lit "utx0-agent")

TestMkPeers : Type 0
TestMkPeers =
    let ps =
      record { host = lit "localhost"; port = 18018 }
      ∷ record { host = lit "8.8.8.8"; port = 18018 }
      ∷ [] in
    mk_peers ps ≡ peers ps

TestMkGetpeers : Type 0
TestMkGetpeers = mk_getpeers ≡ get_peers

TestMkError : Type 0
TestMkError =
    mk_error (lit "INVALID_HANDSHAKE") (lit "peer did not send hello")
    ≡ error (lit "INVALID_HANDSHAKE") (lit "peer did not send hello")

builders_pass : TestMkHello × TestMkPeers × TestMkGetpeers × TestMkError
unfolding TestMkHello TestMkPeers TestMkGetpeers TestMkError
builders_pass = (refl, refl, refl, refl)

-- The port that the system gives to the listener of a test.
abbrev port : ℕ
port = 50505

abbrev server : Config
server = new_test port (lit "srv") (lit "/tmp/peers.csv")

abbrev client : Config
client = new_test 0 (lit "cli") (lit "/tmp/peers.csv")

abbrev bad_hello : Message
bad_hello = error (lit "INVALID_HANDSHAKE") (lit "expected Hello, got message")

abbrev sent : List Message
sent = hello port (lit "srv") ∷ hello 0 (lit "cli") ∷ hello 12345 (lit "cli") ∷ get_peers ∷ []

-- A server that reads what the client has written, and the client that reads what the server has
-- written: both greet, and then both see the other's GetPeers.
OutboundOk : NetCrates → Type 0
OutboundOk c =
    (from_client : Bytes) × (from_server : Bytes) × (let (r, h) =
        inbound c server false (fresh from_client) in
      (r ≡ ok tt) × (h.writer.content ≡ from_server) × ((read_frame c h.reader).0 ≡ ok get_peers))
    × ((h : Halves) × (outbound c client false (ok (fresh from_server)) ≡ (ok tt, some h))
        × (h.writer.content ≡ from_client)
        × ((read_frame c h.reader).0 ≡ ok get_peers))

OutboundOk-passes : OutboundOk (wire sent)
unfolding OutboundOk message_of get as_str inbound outbound read_frame write_frame write_all touch
    trim is_utf8 text_eq Decimal.to_string new_test
OutboundOk-passes = (
  line_of (hello 0 (lit "cli")) ++ line_of get_peers,
  line_of (hello port (lit "srv")) ++ line_of get_peers,
  (refl, refl, refl),
  (_, refl, refl, refl),
)

-- The delay passes.
HandshakeTimeout : NetCrates → Type 0
HandshakeTimeout c =
    let cfg = record (Config.new 0 (lit "test") (lit "peers.csv")) {
      max_outbound_connection = 4;
      service_loop_delay = 1;
    } in
    (outbound c cfg true (ok (fresh []))).0 ≡ err invalid_handshake

HandshakeTimeout-passes : HandshakeTimeout (wire sent)
unfolding HandshakeTimeout outbound write_frame write_all touch
HandshakeTimeout-passes = refl

InboundOk : NetCrates → Type 0
InboundOk c =
    let (sending, w) = write_frame c (mk_hello 12345 (lit "cli")) empty in
    let (r, h) = inbound c server false (fresh w.content) in
    let (resp1, reader) = read_frame c (stream h.writer.content) in
    (sending ≡ ok tt)
    × (r ≡ ok tt)
    × ((p : ℕ) × (user_agent : Text) × (resp1 ≡ ok (hello p user_agent)))
    × ((read_frame c reader).0 ≡ ok get_peers)

InboundOk-passes : InboundOk (wire sent)
unfolding InboundOk message_of get as_str inbound read_frame write_frame write_all touch trim
    is_utf8 text_eq Decimal.to_string new_test
InboundOk-passes = (refl, refl, (_, _, refl), refl)

InboundInvalidFirstMessage : NetCrates → Type 0
InboundInvalidFirstMessage c =
    let (sending, w) = write_frame c mk_getpeers empty in
    let (r, h) = inbound c server false (fresh w.content) in
    (sending ≡ ok tt)
    × (r ≡ err invalid_handshake)
    × ((msg : Text) × ((read_frame c (stream h.writer.content)).0
          ≡ ok (error (lit "INVALID_HANDSHAKE") msg)))

InboundInvalidFirstMessage-passes : InboundInvalidFirstMessage (wire (bad_hello ∷ sent))
unfolding InboundInvalidFirstMessage message_of get as_str inbound read_frame write_frame write_all
    touch trim is_utf8 text_eq Decimal.to_string new_test
InboundInvalidFirstMessage-passes = (refl, refl, (lit "expected Hello, got message", refl))

-- Two entries, of a task that has ended and of one that sleeps, and two rounds.
HousekeepingPrunesFinishedOutboundAndLogsCounts : Type 0
HousekeepingPrunesFinishedOutboundAndLogsCounts =
    let peer1 : Peer = record { host = lit "1.2.3.4"; port = 1 } in
    let peer2 : Peer = record { host = lit "1.2.3.4"; port = 2 } in
    let inbound = Connection.new in
    let outbound =
      insert (record { peer = peer2; running = true })
        (insert (record { peer = peer1; running = false }) new_outbound_map) in
    let asleep : Found = record { inbound = inbound; changed = λ es. es; peers_map = [] } in
    let (twice, logged) = housekeeping_loop (asleep ∷ asleep ∷ []) outbound in
    (length twice ≡ 1) × (contains_key twice peer2 ≡ true) × (load inbound ≡ 0)

housekeeping_passes : HousekeepingPrunesFinishedOutboundAndLogsCounts
unfolding HousekeepingPrunesFinishedOutboundAndLogsCounts housekeeping_loop insert contains_key
    Connection.new load text_eq peer_eq
housekeeping_passes = (refl, refl, refl)
