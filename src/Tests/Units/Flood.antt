-- ===== src/Tests/Units/Flood.antt =====
-- The test of src/net/tests.rs whose client sends a line that does not end.
use mathlib.Core.List.{append-nil}
use utx0_node.Base.{
  arith, ◌≡◌, refl, ap, sym, ◌∙◌, some, Text, Bytes, lit, [], ◌∷◌, ◌++◌, ok, err, text_eq,
}
use utx0_node.Config.{new_test}
use utx0_node.Errors
use utx0_node.Errors.{oversized_frame}
use utx0_node.Errors.Report.{from_error}
use utx0_node.Json.{get, as_str}
use utx0_node.Message.{hello, get_peers, error}
use utx0_node.Net.Crates.{NetCrates}
use utx0_node.Net.Dispatch.{Session, close, run_message_loop, round, react}
use utx0_node.Net.Framing.{read_frame, write_frame, recv_buffer_limit}
use utx0_node.Net.Framing.Oversized.{read_frame_oversized}
use utx0_node.Net.Handshake.{inbound}
use utx0_node.Net.Listener.{handle_connection}
use utx0_node.State.Peers.{load_from_disk}
use utx0_node.Std.Decimal
use utx0_node.Std.Sink.{write_all, touch}
use utx0_node.Std.Split.{split}
use utx0_node.Std.Trim.{trim}
use utx0_node.Std.Utf8.{is_utf8}
use utx0_node.Std.Utf8.Laws.{is_utf8-IsAscii}
use utx0_node.Storage.Redb.{redb_store}
use utx0_node.Tests.Network.{stream, repeat, length-repeat, repeat-Lacks, repeat-IsAscii}
use utx0_node.Tests.Objects.{crate}
use utx0_node.Tests.Units.Connections.{port, greeting, serve, reply, server, util_spawn_test_server}
use utx0_node.Tests.Units.Wire.{wire, message_of, line_of}

OversizedJsonRejected : NetCrates → Type 0
OversizedJsonRejected c =
    let repeated = repeat b'x' recv_buffer_limit in
    (s : Session (redb_store crate)) × (serve c (greeting ++ repeated) ≡ some (ok tt, s))
    × ((msg : Text) × (reply c s.writer.content
          ≡ (ok (error (lit "OVERSIZED_FRAME") msg), stream [])))

abbrev with_error : NetCrates
with_error = wire (
    hello port (lit "node1")
    ∷ hello port (lit "test/0.1")
    ∷ get_peers
    ∷ from_error oversized_frame
    ∷ [])

-- The session when the server has greeted, with what is still to come.
abbrev greeted : Bytes → Session (redb_store crate)
greeted bytes = record (util_spawn_test_server bytes) {
  writer = record {
    content = line_of (hello port (lit "test/0.1")) ++ line_of get_peers;
    outcomes = [];
  };
}

greets :
    (bytes : Bytes)
    → serve with_error (greeting ++ bytes)
      ≡ run_message_loop with_error (redb_store crate) server 400 (greeted bytes)
unfolding serve handle_connection inbound read_frame write_frame write_all touch trim message_of get
    as_str is_utf8 Decimal.to_string text_eq new_test load_from_disk split
greets bytes = refl

abbrev finished : Session (redb_store crate)
finished = record (greeted []) {
  writer = record {
    content =
        (line_of (hello port (lit "test/0.1")) ++ line_of get_peers)
        ++ line_of (from_error oversized_frame);
    outcomes = [];
  };
}

refuses :
    (bytes : Bytes)
    → read_frame with_error (stream bytes) ≡ (err oversized_frame, stream [])
    → round with_error (redb_store crate) server (greeted bytes) ≡ (ok close, finished)
unfolding round write_frame write_all touch from_error Errors.to_string Decimal.to_string text_eq
    new_test load_from_disk split
refuses bytes refused =
    ap
      (λ r.
        react with_error (redb_store crate) server r.0 (record (greeted bytes) { reader = r.1 }))
      refused

closes :
    (s s' : Session (redb_store crate))
    → round with_error (redb_store crate) server s ≡ (ok close, s')
    → run_message_loop with_error (redb_store crate) server 400 s ≡ some (ok tt, s')
unfolding run_message_loop
closes s s' refused = ground arith

floods :
    read_frame with_error (stream (repeat b'x' recv_buffer_limit))
    ≡ (err oversized_frame, stream [])
floods =
    read_frame_oversized with_error (stream (repeat b'x' recv_buffer_limit))
      (repeat b'x' recv_buffer_limit) [] (sym (append-nil (repeat b'x' recv_buffer_limit)))
      (length-repeat b'x' recv_buffer_limit) (repeat-Lacks b'\n' b'x' recv_buffer_limit refl)
      (is_utf8-IsAscii (repeat b'x' recv_buffer_limit) (repeat-IsAscii b'x' recv_buffer_limit refl))

OversizedJsonRejected-passes : OversizedJsonRejected with_error
unfolding OversizedJsonRejected reply read_frame trim message_of get as_str is_utf8
    Decimal.to_string text_eq new_test load_from_disk split from_error Errors.to_string
OversizedJsonRejected-passes = (
  finished,
  greets (repeat b'x' recv_buffer_limit)
      ∙ closes (greeted (repeat b'x' recv_buffer_limit)) finished
          (refuses (repeat b'x' recv_buffer_limit) floods),
  (_, refl),
)
