-- ===== src/Net/Dispatch/Moves/Together.antt =====
-- The connections of src/net/listener.rs and src/net/client.rs at once: one store, one map and
-- one peers file, and the loops of src/net/dispatch.rs interleaved in any order.
use mathlib.Core.Logic.{ite}
use native.Mathlib.Decide.{ℕ_discrete}
use utx0_node.Base.{ℕ, ◌≡◌, ◌≢◌, refl, none, List, [], ◌∷◌}
use utx0_node.Config.{Config}
use utx0_node.Net.Crates.{NetCrates}
use utx0_node.Net.Dispatch.{Session}
use utx0_node.Net.Dispatch.Moves.{Pc, absent, reading, move, advance}
use utx0_node.Net.Framing.{Reader}
use utx0_node.State.Peers.{Peers}
use utx0_node.Std.Sink.{Sink}
use utx0_node.Storage.{ObjectStore}

-- What a connection has to itself.
pub record Conn : Type 0 where
  pub pc : Pc
  pub reader : Reader
  pub writer : Sink
  pub draws : ℕ

-- What the connections share, and the connections.
pub record Node (S : ObjectStore) : Type 0 where
  pub store : S.State
  pub peers : Peers
  pub conns : ℕ → Conn

abbrev pub update {ℓ} : {A : Type ℓ} → (ℕ → A) → ℕ → A → ℕ → A
update f i a j = ite (ℕ_discrete i j) a (f j)

module _ {S : ObjectStore} where
  abbrev pub session : S.State → Peers → Conn → Session S
  session store peers k = record {
    reader = k.reader;
    writer = k.writer;
    peers = peers;
    store = store;
    draws = k.draws;
  }

  abbrev pub conn : Pc × Session S → Conn
  conn (pc, s) = record { pc = pc; reader = s.reader; writer = s.writer; draws = s.draws }

-- No connection yet.
abbrev pub no_conn : Conn
no_conn = record {
  pc = absent;
  reader = record { incoming = []; failure = none };
  writer = record { content = []; outcomes = [] };
  draws = 0;
}

module _ (c : NetCrates) (S : ObjectStore) (config : Config) where
  abbrev pub moved : Node S → ℕ → Pc × Session S
  moved n i = advance c S config ((n.conns i).pc, session n.store n.peers (n.conns i))

  -- The connection of this number makes a move.
  abbrev pub runs : ℕ → Node S → Node S
  runs i n =
      let x = moved n i in
      record { store = x.1.store; peers = x.1.peers; conns = update n.conns i (conn x) }

  pub data Step (n : Node S) : Node S → Type 0 where
    moves : (i : ℕ) → Step n (runs i n)
    -- A connection has shaken hands, and its loop begins.
    joins :
        (i : ℕ) (reader : Reader) (writer : Sink) (draws : ℕ)
        → (n.conns i).pc ≡ absent
        → Step n (record n {
          conns =
              update n.conns i
                (record { pc = reading; reader = reader; writer = writer; draws = draws });
        })

  pub data Runs (n : Node S) : Node S → Type 0 where
    stay : Runs n n
    later : {m k : Node S} → Runs n m → Step m k → Runs n k

  -- The node when the listener and the outbound loop start.
  abbrev pub started : S.State → Peers → Node S
  started store peers = record { store = store; peers = peers; conns = λ i. no_conn }

  -- The moves of a schedule.
  unfoldable pub schedule : List ℕ → Node S → Node S
  unfolding move
  schedule [] n = n
  schedule (i ∷ is) n = schedule is (runs i n)

  -- After a move of a connection: that connection, and any other.
  pub runs-own : (n : Node S) (i : ℕ) → (runs i n).conns i ≡ conn (moved n i)
  runs-own n i =
      elim (ℕ_discrete i i) as (λ d. ite d (conn (moved n i)) (n.conns i) ≡ conn (moved n i)) [
        | yes same ↦ refl
        | no other ↦ absurd (other refl)
      ]

  pub runs-other : (n : Node S) (i j : ℕ) → i ≢ j → (runs i n).conns j ≡ n.conns j
  runs-other n i j h =
      elim (ℕ_discrete i j) as (λ d. ite d (conn (moved n i)) (n.conns j) ≡ n.conns j) [
        | yes same ↦ absurd (h same)
        | no other ↦ refl
      ]

-- What holds of the new value and of the old ones holds after an update.
pub update_holds {ℓ κ} :
    {A : Type ℓ} (P : A → Type κ) (f : ℕ → A) (i : ℕ) (a : A)
    → P a
    → ((j : ℕ) → P (f j))
    → (j : ℕ) → P (update f i a j)
update_holds P f i a new old j = elim (ℕ_discrete i j) as (λ d. P (ite d a (f j))) [
  | yes same ↦ new
  | no other ↦ old j
]
