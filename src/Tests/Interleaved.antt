-- ===== src/Tests/Interleaved.antt =====
-- Connections that are served at once, over a store in memory.
use native.Mathlib.Decide.{ℕ_discrete}
use utx0_node.Base.{
  ℕ, zero, suc, ◌≤◌, ◌⊎◌, ◌≡◌, refl, true, not, ◌||◌, some, Bytes, lit, [], ◌∷◌, ◌++◌, err, Result,
  text_eq, text_leb, if◌then◌else◌, ◌==◌, arith,
}
use utx0_node.Canonical.{to_canonical_json, compute_object_id}
use utx0_node.Errors.{ProtocolError, connection_closed}
use utx0_node.Net.Dispatch.Contents.{IsObject}
use utx0_node.Net.Dispatch.Moves.{reading, storing, writing, returned, move, advances}
use utx0_node.Net.Dispatch.Moves.Alone.{advances-run_message_loop}
use utx0_node.Net.Dispatch.Moves.Allowed.{Runs-allow}
use utx0_node.Net.Dispatch.Moves.Ends.{conn_reads_again}
use utx0_node.Net.Dispatch.Moves.Sound.{IsSound}
use utx0_node.Net.Dispatch.Moves.Stored.{AllSound, started-AllSound, Runs-IsAddressed}
use utx0_node.Net.Dispatch.Moves.Together.{
  Node, Conn, Step, moves, joins, Runs, stay, later, started, runs, update, schedule,
}
use utx0_node.Net.Dispatch.Moves.Torn.{schedule-torn}
use utx0_node.Net.Framing.{read_frame}
use utx0_node.State.Peers.{Peers, contains, load_from_disk}
use utx0_node.State.Peers.Persistence.{render}
use utx0_node.Std.Decimal
use utx0_node.Std.Sink.{write_all, touch}
use utx0_node.Std.Trim.{trim}
use utx0_node.Std.Utf8.{is_utf8}
use utx0_node.Tests.Fixtures.{
  crates, coinbase_json, memory, memory-IsLawful, message_from, peers_text,
}
use utx0_node.Tests.Loop.{raw, id, session, one_object, after, ended}
use utx0_node.Tests.Network.{config, stream}
use utx0_node.Tests.Peers.{one, two, one-IsAddress, two-IsAddress}

advances-run_message_loop_example :
    (n : ℕ) × (advances crates memory config n (reading, session memory one_object)
      ≡ (returned (err connection_closed), after memory one_object))
advances-run_message_loop_example =
    advances-run_message_loop crates memory config 90 (session memory one_object)
      (after memory one_object) (err connection_closed) ended

abbrev no_peers : Peers
no_peers = record { map = []; file = record { content = []; outcomes = [] } }

abbrev begun : Node memory
begun = started crates memory config [] no_peers

-- A connection whose peer sends this.
abbrev client : Bytes → Conn
client bytes = record {
  pc = reading;
  reader = stream bytes;
  writer = record { content = []; outcomes = [] };
  draws = 0;
}

abbrev joined : Bytes → Node memory
joined bytes = record begun { conns = update begun.conns 0 (client bytes) }

joins_first : (bytes : Bytes) → Step crates memory config begun (joined bytes)
joins_first bytes = joins 0 (stream bytes) (record { content = []; outcomes = [] }) 0 refl

-- The node after this many moves of the only connection.
abbrev after_moves : Bytes → ℕ → Node memory
after_moves bytes zero = joined bytes
after_moves bytes (suc n) = runs crates memory config 0 (after_moves bytes n)

so_far : (bytes : Bytes) (n : ℕ) → Runs crates memory config begun (after_moves bytes n)
so_far bytes zero = later stay (joins_first bytes)
so_far bytes (suc n) = later (so_far bytes n) (moves 0)

-- Two connections that have asked the store for the same object, and are told that it is not
-- there.
abbrev race : Node memory
race = record begun { conns = λ i. record (client []) { pc = storing id raw } }

race-AllSound : AllSound crates memory config race
unfolding IsSound trim text_eq to_canonical_json compute_object_id text_leb Decimal.to_string
race-AllSound i = (coinbase_json, refl, refl)

-- Both have stored it.
abbrev raced : Node memory
raced = runs crates memory config 1 (runs crates memory config 0 race)

raced-Runs : Runs crates memory config race raced
raced-Runs = later (later stay (moves 0)) (moves 1)

Runs-IsAddressed_example : IsObject crates memory config id raw
unfolding memory-IsLawful move text_eq ℕ_discrete
Runs-IsAddressed_example =
    Runs-IsAddressed crates memory config memory-IsLawful race raced race-AllSound raced-Runs
      (λ k d h. absurd (ground arith)) id raw refl

-- A Peers message comes in, and its peer is saved.
Runs-allow_example :
    (contains [] two ≡ true
      → contains (after_moves (peers_text ++ lit "\n") 7).peers.map two ≡ true)
    × (contains (after_moves (peers_text ++ lit "\n") 7).peers.map two ≡ true
        → (contains [] two || not (contains config.banned_hosts two)) ≡ true)
Runs-allow_example =
    Runs-allow crates memory config begun (after_moves (peers_text ++ lit "\n") 7)
      (started-AllSound crates memory config [] no_peers) (so_far (peers_text ++ lit "\n") 7) two

-- After these moves it is there.
saved : (after_moves (peers_text ++ lit "\n") 7).peers.map ≡ two ∷ []
unfolding move read_frame trim message_from is_utf8 Decimal.to_string text_eq ℕ_discrete contains
    touch write_all
saved = refl

-- The connection is in the middle of the import of a Peers message.
conn_reads_again_example :
    (u : ℕ) × (3 ≤ u)
    × (((((after_moves (peers_text ++ lit "\n") u).conns 0).pc ≡ reading)
          × (((after_moves (peers_text ++ lit "\n") u).conns 0).reader
              ≡ ((after_moves (peers_text ++ lit "\n") 3).conns 0).reader))
        ⊎ ((r : Result ProtocolError (Unit {0})) × (((after_moves (peers_text ++ lit "\n") u).conns
                0).pc
              ≡ returned r)))
unfolding ℕ_discrete move read_frame trim message_from is_utf8 Decimal.to_string text_eq contains
    touch write_all
conn_reads_again_example =
    conn_reads_again crates memory config (after_moves (peers_text ++ lit "\n")) (λ t. moves 0) 0
      (λ t busy. (t, omega arith, refl)) 3 (λ e. absurd (ground arith))

-- Two connections that have opened the peers file, in a node that has saved nothing yet.
abbrev writers : Node memory
writers = record begun {
  peers = record no_peers { map = one ∷ two ∷ [] };
  conns = λ i. record (client []) { pc = if i == 0 then writing one [] else writing two [] };
}

schedule-torn_example :
    (one ∷ two ∷ [] ≡ one ∷ two ∷ [])
    × (load_from_disk (some (lit "1.2.3.4,1801810.0.0.1,80\n\n")) ≡ [])
unfolding schedule move render ℕ_discrete Decimal.to_string write_all
schedule-torn_example =
    schedule-torn crates memory config writers 0 1 one two [] [] [] (λ e. absurd (omega arith)) refl
      refl refl one-IsAddress two-IsAddress tt tt
