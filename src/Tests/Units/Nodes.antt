-- ===== src/Tests/Units/Nodes.antt =====
-- The tests of src/net/tests.rs with several nodes, and with the counter of a listener.
use utx0_node.Base.{
  ℕ, ◌≡◌, refl, true, false, none, some, Bytes, lit, List, [], ◌∷◌, ◌++◌, Result, ok, text_eq,
}
use utx0_node.Config.{Config, new_test}
use utx0_node.Errors.{ProtocolError}
use utx0_node.Json.{get, as_str}
use utx0_node.Message.{Message, hello, peers, get_peers, mk_hello}
use utx0_node.Net.Client.{
  Entry, Outbound, outbound, retain_running, contains_key, insert, running_of, candidates,
  new_outbound_map, spawns, inserts,
}
use utx0_node.Net.Client.Filling.{Steps, done, then_more}
use utx0_node.Net.Client.Task.{outbound_task}
use utx0_node.Net.Crates.{NetCrates}
use utx0_node.Net.Dispatch.{Session, run_message_loop, round, pick_and_build_peers, import_peers}
use utx0_node.Net.Framing.{read_frame, write_frame}
use utx0_node.Net.Handshake
use utx0_node.Net.Handshake.{Halves, inbound}
use utx0_node.Net.Listener.{
  Listener, listening, accepted, ends_body, begins, returns, handle_connection,
}
use utx0_node.Net.Listener
use utx0_node.Peer.{Peer, peer_eq}
use utx0_node.State.Connection
use utx0_node.State.Connection.{load}
use utx0_node.State.Peers
use utx0_node.State.Peers.{append_peer, load_from_disk, contains, key}
use utx0_node.Std.Decimal
use utx0_node.Std.Sink.{write_all, touch}
use utx0_node.Std.Split.{split}
use utx0_node.Std.Trim.{trim}
use utx0_node.Std.Utf8.{is_utf8}
use utx0_node.Storage.Redb.{redb_store}
use utx0_node.Tests.Dialling.{first}
use utx0_node.Tests.Network.{stream}
use utx0_node.Tests.Objects.{crate}
use utx0_node.Tests.Units.Wire.{wire, empty, message_of, line_of, fresh}

abbrev localhost : ℕ → Peer
localhost port = record { host = lit "127.0.0.1"; port = port }

-- The ports that the system gives.
abbrev port1 : ℕ
port1 = 50001

abbrev port2 : ℕ
port2 = 50002

abbrev port3 : ℕ
port3 = 50003

abbrev cfg1 : Config
cfg1 = new_test port1 (lit "node1") (lit "/tmp/peers1")

abbrev cfg2 : Config
cfg2 = new_test port2 (lit "node2") (lit "/tmp/peers2")

abbrev cfg3 : Config
cfg3 = new_test port3 (lit "node3") (lit "/tmp/peers3")

-- The map of a node with an empty peers file, and one peer more.
knows : Peer → List Peer
unfolding load_from_disk Peers.insert
knows p = Peers.insert p (load_from_disk (some []))

-- The outbound loop at the start of a round, when it has chosen among the known peers.
round_of : Config → (ℕ → List Peer → List Peer) → List Entry → List Peer → Outbound
unfolding retain_running candidates
round_of cfg choose entries known =
    outbound (retain_running entries) none
      (candidates choose cfg.max_outbound_connection known (retain_running entries)) 0

-- From there the loop goes on to where its map has the peer.
Opens : Config → (ℕ → List Peer → List Peer) → List Entry → List Peer → Peer → Type 0
unfolding round_of
Opens cfg choose entries known p =
    (t : Outbound) × Steps choose cfg.max_outbound_connection (round_of cfg choose entries known) t
    × (contains_key t.entries p ≡ true)

-- The listener of one node and a task of the other, each reading what the other has written.
Meets : NetCrates → Config → Config → Type 0
Meets c listener dialler =
    (from_dialler : Bytes) × (from_listener : Bytes) × (let (r, h) =
        inbound c listener false (fresh from_dialler) in
      (r ≡ ok tt) × (h.writer.content ≡ from_listener))
    × ((h : Halves) × (Handshake.outbound c dialler false (ok (fresh from_listener))
          ≡ (ok tt, some h))
        × (h.writer.content ≡ from_dialler))

TwoNodesDiscoverEachOther : NetCrates → (ℕ → List Peer → List Peer) → Type 0
unfolding knows Opens Meets
TwoNodesDiscoverEachOther c choose =
    Opens cfg1 choose new_outbound_map (knows (localhost port2)) (localhost port2)
    × Opens cfg2 choose new_outbound_map (knows (localhost port1)) (localhost port1)
    × Meets c cfg2 cfg1
    × Meets c cfg1 cfg2

abbrev two_nodes : NetCrates
two_nodes = wire (hello port1 (lit "node1") ∷ hello port2 (lit "node2") ∷ get_peers ∷ [])

abbrev says : Config → Bytes
says cfg = line_of (hello cfg.port cfg.user_agent) ++ line_of get_peers

TwoNodesDiscoverEachOther-passes : TwoNodesDiscoverEachOther two_nodes first
unfolding TwoNodesDiscoverEachOther Opens Meets knows round_of retain_running candidates insert
    contains_key running_of peer_eq Peers.insert load_from_disk split inbound Handshake.outbound
    read_frame write_frame write_all touch trim message_of get as_str is_utf8 text_eq
    Decimal.to_string new_test
TwoNodesDiscoverEachOther-passes = (
  (_, then_more (spawns _ _ _ _) refl (then_more (inserts _ _ _ _) refl (done _)), refl),
  (_, then_more (spawns _ _ _ _) refl (then_more (inserts _ _ _ _) refl (done _)), refl),
  (says cfg1, says cfg2, (refl, refl), (_, refl, refl)),
  (says cfg2, says cfg1, (refl, refl), (_, refl, refl)),
)

abbrev session : Bytes → List Peer → Session (redb_store crate)
session bytes known = record {
  reader = stream bytes;
  writer = empty;
  peers = record { map = known; file = empty };
  store = none;
  draws = 0;
}

-- Node 3 knows node 2 only, opens a connection to it, and converses with its listener; with the
-- peers that it has then, it opens a connection to node 1.
DiscoveryViaIntermediary : NetCrates → (ℕ → List Peer → List Peer) → Type 0
unfolding knows Opens
DiscoveryViaIntermediary c choose =
    let peer1 = localhost port1 in
    let peer2 = localhost port2 in
    (from2 : Bytes) × (from3 : Bytes) × (r : Result ProtocolError (Unit {0})) × (s2 : Session
      (redb_store crate))
    × (s3 : Session (redb_store crate)) × Opens cfg3 choose new_outbound_map (knows peer2) peer2
    × (handle_connection c (redb_store crate) cfg2 400 false (session from3 (knows peer1))
        ≡ some (r, s2))
    × (s2.writer.content ≡ from2)
    × (outbound_task c (redb_store crate) cfg3 400 false (ok (fresh from2))
          (session [] (knows peer2))
        ≡ some (true, s3))
    × (s3.writer.content ≡ from3)
    × Opens cfg3 choose (record { peer = peer2; running = true } ∷ []) s3.peers.map peer1

abbrev reply2 : Message
reply2 = peers (record { host = lit "0.0.0.0"; port = port2 } ∷ localhost port1 ∷ [])

abbrev reply3 : Message
reply3 = peers (record { host = lit "0.0.0.0"; port = port3 } ∷ localhost port2 ∷ [])

abbrev three_nodes : NetCrates
three_nodes =
    wire (hello port2 (lit "node2") ∷ hello port3 (lit "node3") ∷ get_peers ∷ reply2 ∷ reply3 ∷ [])

DiscoveryViaIntermediary-passes : DiscoveryViaIntermediary three_nodes first
unfolding DiscoveryViaIntermediary Opens knows round_of retain_running candidates insert
    contains_key running_of peer_eq Peers.insert contains load_from_disk split handle_connection
    outbound_task inbound Handshake.outbound run_message_loop round read_frame write_frame write_all
    touch trim message_of get as_str is_utf8 text_eq Decimal.to_string new_test pick_and_build_peers
    import_peers append_peer key
DiscoveryViaIntermediary-passes = (
  says cfg2 ++ line_of reply2,
  says cfg3 ++ line_of reply3,
  _,
  _,
  _,
  (_, then_more (spawns _ _ _ _) refl (then_more (inserts _ _ _ _) refl (done _)), refl),
  refl,
  refl,
  refl,
  refl,
  (
    _,
    then_more (spawns _ _ _ _) refl (
        then_more (inserts _ _ _ _) refl
          (then_more (spawns _ _ _ _) refl (then_more (inserts _ _ _ _) refl (done _)))),
    refl,
  ),
)

-- The counter: no connection; one, whose task has begun and has greeted; none again, when the
-- client has closed and the task has returned.
InboundCounterCountsActiveConnections : NetCrates → Type 0
InboundCounterCountsActiveConnections c =
    let bytes = line_of (mk_hello cfg1.port cfg1.user_agent) in
    (in_body : Listener) × (waiting : Listener) × (active : Listener) × (closed : Listener)
    × (r : Result ProtocolError (Unit {0})) × (s : Session (redb_store crate))
    × (server_hello : Message) × (server_get_peers : Message) × (load listening.counter ≡ 0)
    × Listener.Step listening in_body
    × Listener.Step in_body waiting
    × Listener.Step waiting active
    × (load active.counter ≡ 1)
    × (handle_connection c (redb_store crate) cfg1 400 false (session bytes []) ≡ some (r, s))
    × ((read_frame c (stream s.writer.content)).0 ≡ ok server_hello)
    × ((read_frame c (read_frame c (stream s.writer.content)).1).0 ≡ ok server_get_peers)
    × Listener.Step active closed
    × (load closed.counter ≡ 0)

InboundCounterCountsActiveConnections-passes :
    InboundCounterCountsActiveConnections (wire (hello port1 (lit "node1") ∷ get_peers ∷ []))
unfolding InboundCounterCountsActiveConnections load Connection.new Connection.enter Connection.drop
    handle_connection inbound run_message_loop round read_frame write_frame write_all touch trim
    message_of get as_str is_utf8 text_eq Decimal.to_string new_test
InboundCounterCountsActiveConnections-passes = (
  _,
  _,
  _,
  _,
  _,
  _,
  _,
  _,
  refl,
  accepted _ _ _,
  ends_body _ _ _,
  begins _ _ _ _,
  refl,
  refl,
  refl,
  refl,
  returns _ _ _ _,
  refl,
)
