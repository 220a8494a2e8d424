-- ===== src/Net/Dispatch/Moves/Allowed.antt =====
-- What the map of peers holds while the connections of src/net are served at once.
use utx0_node.Base.{◌≡◌, sym, subst, true, not, ◌||◌, List, arith}
use utx0_node.Config.{Config}
use utx0_node.Net.Crates.{NetCrates}
use utx0_node.Net.Dispatch.{Session}
use utx0_node.Net.Dispatch.Imports.{contains-insert}
use utx0_node.Net.Dispatch.Moves.{Pc}
use utx0_node.Net.Dispatch.Moves.Sound.{IsSound}
use utx0_node.Net.Dispatch.Moves.Effects.{Effect, quiet, puts, remembers, move-Moved}
use utx0_node.Net.Dispatch.Moves.Stored.{AllSound, Runs-AllSound}
use utx0_node.Net.Dispatch.Moves.Together.{Node, Step, moves, joins, Runs, stay, later, session}
use utx0_node.Peer.{Peer}
use utx0_node.State.Peers.{contains, contains_of_eq}
use utx0_node.Storage.{ObjectStore}

module _ (c : NetCrates) (S : ObjectStore) (config : Config) where
  -- The second map has the peers of the first, and otherwise only peers that are not banned.
  record Grows (before now : List Peer) : Type 0 where
    kept : (p : Peer) → contains before p ≡ true → contains now p ≡ true
    allowed :
        (p : Peer)
        → contains now p ≡ true
        → (contains before p || not (contains config.banned_hosts p)) ≡ true

  Grows-refl : (l : List Peer) → Grows l l
  Grows-refl l = record { kept = λ p h. h; allowed = λ p h. ground arith }

  Grows-trans : {l m n : List Peer} → Grows l m → Grows m n → Grows l n
  Grows-trans g h = record {
    kept = λ p e. h.kept p (g.kept p e);
    allowed = λ p e. ground (arith, h.allowed p e, g.allowed p);
  }

  Effect-Grows :
      {pc : Pc} {s t : Session S}
      → Effect c S config pc s t
      → IsSound c S config pc
      → Grows s.peers.map t.peers.map
  unfolding IsSound
  Effect-Grows {pc} {s} (quiet e f) v = subst (Grows s.peers.map) (sym f) (Grows-refl s.peers.map)
  Effect-Grows {pc} {s} (puts id raw at e f) v =
      subst (Grows s.peers.map) (sym f) (Grows-refl s.peers.map)
  Effect-Grows {pc} {s} (remembers p ps at e f) v =
      let (free, rest) = subst (IsSound c S config) at v in
      subst (Grows s.peers.map) (sym f) (record {
        kept = λ q h. ground (arith, contains-insert s.peers.map p q);
        allowed = λ q h.
            ground (arith, contains-insert s.peers.map p q, contains_of_eq config.banned_hosts p q);
      })

  Step-Grows :
      {n m : Node S} → Step c S config n m → AllSound c S config n → Grows n.peers.map m.peers.map
  Step-Grows {n} (moves i) v =
      Effect-Grows
        (move-Moved c S config (n.conns i).pc (session n.store n.peers (n.conns i)) (v i)).effect
        (v i)
  Step-Grows {n} (joins i reader writer draws free) v = Grows-refl n.peers.map

  Runs-Grows :
      (n m : Node S) → Runs c S config n m → AllSound c S config n → Grows n.peers.map m.peers.map
  Runs-Grows n m stay v = Grows-refl n.peers.map
  Runs-Grows n m (later r d) v =
      Grows-trans (Runs-Grows n _ r v) (Step-Grows d (Runs-AllSound c S config n _ v r))

  -- However the moves of any number of connections interleave, and whatever becomes of the peers
  -- file, the map of peers never loses a peer, and every peer that it has at a later time is one
  -- that it had before, or is not banned. At first no connection is about to remember a banned
  -- peer.
  pub Runs-allow :
      (m n : Node S)
      → AllSound c S config m
      → Runs c S config m n
      → (p : Peer)
      → (contains m.peers.map p ≡ true → contains n.peers.map p ≡ true)
        × (contains n.peers.map p ≡ true
            → (contains m.peers.map p || not (contains config.banned_hosts p)) ≡ true)
  Runs-allow m n sound r p = let g = Runs-Grows m n r sound in (g.kept p, g.allowed p)
