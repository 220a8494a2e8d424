-- ===== src/Main/Restart.antt =====
-- Starting a node of src/main.rs again on the file that it left.
use utx0_node.Base.{◌≡◌, refl, ap, sym, ◌∙◌, ◌||◌, some, lit, [], ok, arith}
use utx0_node.Main.{seed_text, loaded, start, registered}
use utx0_node.Net.Dispatch.Imports.{contains-append_peer}
use utx0_node.Peer.{Peer, peer_eq, peer_eq_iff, try_from, parse_host}
use utx0_node.Peer.Laws.{try_from-IsAddress}
use utx0_node.State.Peers.{Peers, contains, append_peer}
use utx0_node.State.Peers.Persistence.{
  IsSaved, append_peer-IsSaved, append_peer_lem, append_all, load_from_disk-append_all,
}
use utx0_node.Std.Decimal
use utx0_node.Std.Ipv4
use utx0_node.Std.Split.{split, rsplit_once}
use utx0_node.Std.Trim.{trim}

abbrev seed : Peer
seed = record { host = lit "192.168.1.1"; port = 8080 }

try_from-seed_text : try_from seed_text ≡ ok seed
unfolding try_from parse_host trim split rsplit_once Ipv4.parse Ipv4.show Decimal.to_string
    Decimal.parse_u16
try_from-seed_text = refl

loaded-IsSaved : (s : Peers) → IsSaved s → loaded (some s.file.content) [] ≡ s
unfolding append_all
loaded-IsSaved s v =
    ap (λ m. record { map = m; file = record { content = s.file.content; outcomes = [] } })
      (load_from_disk-append_all s [] v tt)
    ∙ ap (λ o. record { map = s.map; file = record { content = s.file.content; outcomes = o } })
        (sym v.calm)

start-IsSaved :
    (s : Peers) → IsSaved s → start (some s.file.content) [] ≡ some (append_peer seed s).1
unfolding start registered
start-IsSaved s v =
    ground (arith, try_from-seed_text, loaded-IsSaved s v, append_peer_lem s seed v.calm)

append_peer_twice :
    (s : Peers)
    → IsSaved (append_peer seed s).1
    → (append_peer seed (append_peer seed s).1).1 ≡ (append_peer seed s).1
append_peer_twice s w = ground (
  arith,
  append_peer_lem (append_peer seed s).1 seed w.calm,
  contains-append_peer seed seed s,
  (peer_eq_iff seed seed).1 refl,
)

-- A node starts on a file that has the lines of the peers of a map, in the map's order. The hosts
-- in the map are IPv4 addresses, the ports are u16 numbers, and no peer is there twice. If no write
-- fails, the node does not panic: its peers are those of the map and 192.168.1.1:8080, its own file
-- and map are again so, and a second start on that file has the same peers and changes nothing.
pub start_again :
    (s : Peers)
    → IsSaved s
    → (t : Peers) × (start (some s.file.content) [] ≡ some t)
      × IsSaved t
      × ((p : Peer) → contains t.map p ≡ (contains s.map p || peer_eq seed p))
      × (start (some t.file.content) [] ≡ some t)
start_again s v =
    let t = (append_peer seed s).1 in
    let w : IsSaved t =
      append_peer-IsSaved s seed v (try_from-IsAddress seed_text seed try_from-seed_text) in
    (
      t,
      start-IsSaved s v,
      w,
      (λ p. contains-append_peer seed p s),
      start-IsSaved t w ∙ ap some (append_peer_twice s w),
    )
