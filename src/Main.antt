-- ===== src/Main.antt =====
-- src/main.rs: how a node begins. The proofs are in the modules below.
pub mod Restart
pub mod Serving
use utx0_node.Base.{ℕ, Option, none, some, Text, Bytes, lit, List, [], Result, ok, err}
use utx0_node.Config
use utx0_node.Config.{Config}
use utx0_node.Errors.{ProtocolError}
use utx0_node.Net.Crates.{NetCrates}
use utx0_node.Net.Dispatch.Moves.Together.{Node, started}
use utx0_node.Net.Listener.{start_listening}
use utx0_node.Std.Sink.{Failure}
use utx0_node.Storage.{ObjectStore}
use utx0_node.Storage.Redb
use utx0_node.Storage.Redb.{Crate, redb_store}
use utx0_node.Peer.{Peer, try_from}
use utx0_node.State.Peers.{Peers, PeersError, load_from_disk, append_peer}

abbrev pub seed_text : Text
seed_text = lit "192.168.1.1:8080"

-- The file with what it holds, and the outcomes of the system calls on it.
abbrev pub loaded : Option Bytes → List (Option Failure) → Peers
loaded file outcomes = record {
  map = load_from_disk file;
  file = record { content = elim file [ none ↦ [] | some content ↦ content ]; outcomes = outcomes };
}

-- `.unwrap()`: `none` is a panic.
registered : Result PeersError (Unit {0}) × Peers → Option Peers
registered (ok _, s) = some s
registered (err e, s) = none

-- The known peers when the tasks are spawned. `none` for the file is that there is none yet.
unfoldable pub start : Option Bytes → List (Option Failure) → Option Peers
unfolding registered
start file outcomes = elim (try_from seed_text) [
  | err e ↦ none
  | ok peer ↦ registered (append_peer peer (loaded file outcomes))
]

abbrev pub node_config : Config
unfolding Config.new
node_config = Config.new 18018 (lit "utx0-v0.1") (lit "peers.csv")

-- What becomes of the program: a panic, or the node that begins to serve connections, the number
-- of those that it accepts, and the error of `start_listening`, on which it panics in the end.
pub data Outcome (S : ObjectStore) : Type 0 where
  panicked : Outcome S
  serving : (node : Node S) (accepted : ℕ) (error : Option ProtocolError) → Outcome S

module _ (c : NetCrates) (crate : Crate) where
  served : ℕ × Option ProtocolError → crate.Database → Option Peers → Outcome (redb_store crate)
  served listened db none = panicked
  served (n, e) db (some peers) = serving (started c (redb_store crate) node_config db peers) n e

  -- The peers file and the outcomes of the calls on it, and those of `bind` and `accept`.
  unfoldable pub main :
      Option Bytes
      → List (Option Failure)
      → Result Text (Unit {0})
      → List (Result Text (Unit {0}))
      → Outcome (redb_store crate)
  unfolding served start start_listening
  main file outcomes bound accepts = elim (Redb.new crate (lit "objects.db")) [
    | err e ↦ panicked
    | ok db ↦ served (start_listening bound accepts) db (start file outcomes)
  ]
