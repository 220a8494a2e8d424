-- ===== src/Net/Dispatch/Moves/Torn.antt =====
-- Two connections of src/net that write to the peers file at once.
use mathlib.Core.List.{append_assoc}
use utx0_node.Base.{ℕ, ◌≡◌, ◌≢◌, sym, ap, ◌∙◌, some, Bytes, lit, List, [], ◌∷◌, ◌++◌}
use utx0_node.Config.{Config}
use utx0_node.Net.Crates.{NetCrates}
use utx0_node.Net.Dispatch.{Session}
use utx0_node.Net.Dispatch.Moves.{Pc, importing, writing, ending, move, advance, on_peers}
use utx0_node.Net.Dispatch.Moves.Together.{
  Node, runs, moved, session, schedule, runs-own, runs-other,
}
use utx0_node.Peer.{Peer}
use utx0_node.Peer.Laws.{IsAddress}
use utx0_node.State.Peers.{Peers, key, on_file, load_from_disk}
use utx0_node.State.Peers.Persistence.{render, AllAddresses, Fresh}
use utx0_node.State.Peers.Torn.{load_from_disk-torn}
use utx0_node.Std.Sink.{write_all}
use utx0_node.Storage.{ObjectStore}

module _ (c : NetCrates) (S : ObjectStore) (config : Config) where
  -- The peers with this map, and a file with this content and no fault to come.
  abbrev known : List Peer → Bytes → Peers
  known map content = record { map = map; file = record { content = content; outcomes = [] } }

  advance-writing :
      (p : Peer) (ps map : List Peer) (content : Bytes) (s : Session S)
      → s.peers ≡ known map content
      → advance c S config (writing p ps, s)
        ≡ (ending p ps, record s { peers = known map (content ++ key p) })
  unfolding move on_peers on_file write_all
  advance-writing p ps map content s h =
      ap (λ k. advance c S config (writing p ps, record s { peers = k })) h

  advance-ending :
      (p : Peer) (ps map : List Peer) (content : Bytes) (s : Session S)
      → s.peers ≡ known map content
      → advance c S config (ending p ps, s)
        ≡ (importing ps, record s { peers = known map (content ++ lit "\n") })
  unfolding move on_peers on_file write_all
  advance-ending p ps map content s h =
      ap (λ k. advance c S config (ending p ps, record s { peers = k })) h

  -- Where two connections stand, and the peers.
  record Stand (n : Node S) (i j : ℕ) (at_i at_j : Pc) (map : List Peer) (content : Bytes)
      : Type 0 where
    first : (n.conns i).pc ≡ at_i
    second : (n.conns j).pc ≡ at_j
    peers : n.peers ≡ known map content

  turn :
      (n : Node S) (i j : ℕ) (a b next : Pc) (map : List Peer) (content text : Bytes)
      → i ≢ j
      → ((s : Session S)
          → s.peers ≡ known map content
          → advance c S config (a, s) ≡ (next, record s { peers = known map (content ++ text) }))
      → Stand n i j a b map content
      → Stand (runs c S config i n) j i b next map (content ++ text)
  turn n i j a b next map content text apart its v =
      let s = session n.store n.peers (n.conns i) in
      let e : moved c S config n i ≡ (next, record s { peers = known map (content ++ text) }) =
        ap (λ pc. advance c S config (pc, s)) v.first ∙ its s v.peers in
      record {
        first = ap (λ k. k.pc) (runs-other c S config n i j apart) ∙ v.second;
        second = ap (λ k. k.pc) (runs-own c S config n i) ∙ ap (λ x. x.0) e;
        peers = ap (λ x. x.1.peers) e;
      }

  -- The peers after both connections have written their keys, and then both their newlines.
  both_write :
      (n : Node S) (i j : ℕ) (p q : Peer) (ps qs map : List Peer) (content : Bytes)
      → i ≢ j
      → Stand n i j (writing p ps) (writing q qs) map content
      → (schedule c S config (i ∷ j ∷ i ∷ j ∷ []) n).peers
        ≡ known map ((((content ++ key p) ++ key q) ++ lit "\n") ++ lit "\n")
  unfolding schedule
  both_write n i j p q ps qs map content apart v =
      let back : j ≢ i = λ e. apart (sym e) in
      let v1 =
        turn n i j _ _ (ending p ps) map content (key p) apart (advance-writing p ps map content)
          v in
      let v2 =
        turn (runs c S config i n) j i _ _ (ending q qs) map _ (key q) back
          (advance-writing q qs map _) v1 in
      let n2 = runs c S config j (runs c S config i n) in
      let v3 =
        turn n2 i j _ _ (importing ps) map _ (lit "\n") apart (advance-ending p ps map _) v2 in
      let v4 =
        turn (runs c S config i n2) j i _ _ (importing qs) map _ (lit "\n") back
          (advance-ending q qs map _) v3 in
      v4.peers

  -- If two connections stand before the write of a peer with an IPv4 host, the peers file having
  -- the lines of some distinct such peers and no fault to come, and they write in turn, each its key
  -- and then each its newline, then the map stays as it is, and `load_from_disk` gives only the
  -- peers that the file had before: both new ones are lost.
  pub schedule-torn :
      (n : Node S) (i j : ℕ) (p q : Peer) (ps qs saved : List Peer)
      → i ≢ j
      → (n.conns i).pc ≡ writing p ps
      → (n.conns j).pc ≡ writing q qs
      → n.peers.file ≡ record { content = render saved; outcomes = [] }
      → IsAddress p
      → IsAddress q
      → AllAddresses saved
      → Fresh [] saved
      → let m = schedule c S config (i ∷ j ∷ i ∷ j ∷ []) n in
        (m.peers.map ≡ n.peers.map) × (load_from_disk (some m.peers.file.content) ≡ saved)
  schedule-torn n i j p q ps qs saved apart first second calm a b h f =
      let e = both_write n i j p q ps qs n.peers.map (render saved) apart (record {
        first = first;
        second = second;
        peers = ap (λ file. record { map = n.peers.map; file = file }) calm;
      }) in
      (
        ap (λ k. k.map) e,
        ap (λ k. load_from_disk (some k.file.content)) e
            ∙ ap (λ t. load_from_disk (some t)) (simp append_assoc)
            ∙ load_from_disk-torn p q a b saved h f,
      )
