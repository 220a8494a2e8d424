-- ===== src/Lib.antt =====
-- A verification library for utx0_node, a node of a peer-to-peer network that exchanges peers and
-- content-addressed objects in lines of JSON. The definitions follow the Rust sources in src/; the
-- theorems are listed at the end.
--
-- A node listens for connections and dials others. Each connection begins with a handshake, and
-- then a message loop reads frames and answers them; the loop shares the known peers and the
-- object store with the other connections. The files and the code that they model:
-- - Canonical: src/util/canonical.rs, canonical JSON (`to_canonical_json`), object ids
--   (`compute_object_id`) and the shape test of objects. JSON values and the calls of `serde_json`
--   are in Json; Canonical.Sort is the sort of an object's keys, Canonical.Readable what is
--   relied on of the texts of leaves and keys, and Canonical.Content the quotient of values by the
--   order of their entries.
-- - Transaction: src/protocol/transaction.rs. Types has the data, Blank the object that is signed,
--   and Check `validate_transaction`, its two loops each a recursive function. Spec says what is
--   accepted without loops.
-- - Storage: src/storage/api.rs as the interface ObjectStore, with its contract IsLawful;
--   Storage.Redb is src/storage/redb_store.rs, and Storage.Errors src/storage/error.rs.
-- - Peer: src/protocol/peerlist.rs. State.Peers: src/state/peers.rs, the map of peers and the peers
--   file. State.Connection: the inbound counter of src/state/connection.rs.
-- - Message: src/protocol/message.rs. Errors: src/error.rs, with the message that reports an error
--   in Errors.Report. Config: src/config.rs.
-- - Net.Framing: src/net/framing.rs, with the limit of src/util/constants.rs. Net.Handshake:
--   src/protocol/handshake.rs. Net.Dispatch: src/net/dispatch.rs, one function for each arm of the
--   loop. Net.Listener: src/net/listener.rs. Net.Client: src/net/client.rs with the map of outbound
--   connections of src/state/connection.rs. Net.Housekeeping: the loop of src/net/housekeeping.rs.
-- - Main: src/main.rs, from its start to the node that serves connections.
-- - Std: what the code uses of Rust's standard library (`trim`, `split`, decimal numbers, IPv4
--   addresses, UTF-8), and Sink, a file or the sending half of a connection.
-- - Base and Exec: shared types, tests, lemmas and the monad of calls that change a state and may
--   fail. Tests: the theorems at concrete inputs, with small functions for the crates. Tests.Units:
--   the repository's own tests, each as a type that says what it asserts, of the model's definitions.
--
-- State is passed along: a call takes the state and returns its result with the new state. A
-- connection's reader is the list of the bytes that will arrive, and whether the stream then ends
-- or fails. So a peer that never stops sending, or that stays silent for ever, is not represented:
-- the program waits for it without a timeout, and what is said of the end of a loop is for peers
-- that close or lose the connection at some time. A Sink has the outcomes of the calls to come;
-- one that fails gives the bytes that it has written before. A failed commit of the database
-- publishes all of its writes or none. A task of the outbound loop that has removed its entry has
-- nothing left to run, and counts as returned. A timeout is a Boolean input, and the order that
-- `shuffle` draws is a parameter. Texts are lists of bytes. Integers are natural numbers; where
-- the code checks or wraps a machine integer (u128 sums, the usize counter) the bound is written
-- out. Panics of slice accesses and `unwrap` are values. Code of other crates (serde_json, redb,
-- hex, ed25519-dalek, blake2) is a record of functions that the definitions take, and what is
-- relied on of it is a named hypothesis.
--
-- The message loop runs on fuel. Each round that goes on has read at least one byte, so more fuel
-- than bytes that will arrive is enough, where a stream ends; it is the loop of one connection
-- that is not disturbed. Net.Dispatch.Moves has the same loop cut at each use of what the
-- connections share: the calls of the store, the operations on the map of peers, and the open and
-- the two writes of `append_peer`. A move goes from one such use to the next, Moves.Alone compares
-- the moves of one connection with the loop, and Moves.Together interleaves the moves of any
-- number of connections in any order. The walk over the map that answers a GetPeers message is one
-- move. The listener with its tasks, and the outbound loop with its tasks, are step relations in
-- which the steps come in any order.
--
-- Not modelled: src/util/logging.rs, log output, sockets and the clock.
pub mod Base
pub mod Std
pub mod Peer
pub mod Config
pub mod Json
pub mod Storage
pub mod Errors
pub mod Exec
pub mod Message
pub mod State
pub mod Net
pub mod Canonical
pub mod Transaction
pub mod Main
pub mod Tests
