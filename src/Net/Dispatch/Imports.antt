-- ===== src/Net/Dispatch/Imports.antt =====
-- `import_peers` of src/net/dispatch.rs and the map of peers.
use utx0_node.Base.{◌≡◌, ap, ◌∙◌, not, ◌&&◌, ◌||◌, List, [], ◌∷◌, ◌++◌, ok, arith}
use utx0_node.Config.{Config}
use utx0_node.Net.Dispatch.{without_banned, append_each, import_peers}
use utx0_node.Peer.{Peer, peer_eq}
use utx0_node.State.Peers.{contains_of_eq, Peers, contains, insert, append_peer}
use utx0_node.State.Peers.Persistence.{append_peer_lem}

pub contains-append :
    (map : List Peer) (p q : Peer) → contains (map ++ p ∷ []) q ≡ (contains map q || peer_eq p q)
unfolding contains
contains-append [] p q = ground arith
contains-append (r ∷ map) p q = ground (arith, contains-append map p q)

pub contains-insert :
    (map : List Peer) (p q : Peer) → contains (insert p map) q ≡ (contains map q || peer_eq p q)
unfolding insert
contains-insert map p q = ground (arith, contains-append map p q, contains_of_eq map p q)

-- The peer is in the map whether or not the file could be written.
pub append_peer-map : (p : Peer) (s : Peers) → (append_peer p s).1.map ≡ insert p s.map
unfolding append_peer insert
append_peer-map p s = ground arith

pub contains-append_peer :
    (p q : Peer) (s : Peers)
    → contains (append_peer p s).1.map q ≡ (contains s.map q || peer_eq p q)
contains-append_peer p q s =
    ap (λ m. contains m q) (append_peer-map p s) ∙ contains-insert s.map p q

append_peer_calm :
    (p : Peer) (s : Peers)
    → s.file.outcomes ≡ []
    → ((append_peer p s).0 ≡ ok tt) × ((append_peer p s).1.file.outcomes ≡ [])
append_peer_calm p s h = ground (arith, append_peer_lem s p h)

append_each_all :
    (ps : List Peer) (s : Peers) (q : Peer)
    → s.file.outcomes ≡ []
    → contains (append_each ps s).1.map q ≡ (contains s.map q || contains ps q)
unfolding append_each contains
append_each_all [] s q h = ground arith
append_each_all (p ∷ ps) s q h = ground (
  arith,
  append_peer_calm p s h,
  contains-append_peer p q s,
  append_each_all ps (append_peer p s).1 q,
)

contains-without_banned :
    (config : Config) (ps : List Peer) (q : Peer)
    → contains (without_banned config ps) q
      ≡ (contains ps q && not (contains config.banned_hosts q))
unfolding without_banned contains
contains-without_banned config [] q = ground arith
contains-without_banned config (p ∷ ps) q =
    ground (arith, contains-without_banned config ps q, contains_of_eq config.banned_hosts p q)

-- If no write fails, a Peers message adds exactly the peers that it lists and that are not banned.
pub import_peers_all :
    (config : Config) (incoming : List Peer) (s : Peers) (q : Peer)
    → s.file.outcomes ≡ []
    → contains (import_peers config incoming s).1.map q
      ≡ (contains s.map q || contains incoming q && not (contains config.banned_hosts q))
unfolding import_peers
import_peers_all config incoming s q calm =
    append_each_all (without_banned config incoming) s q calm
    ∙ ap (λ b. contains s.map q || b) (contains-without_banned config incoming q)
