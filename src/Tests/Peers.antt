-- ===== src/Tests/Peers.antt =====
-- The peers: their texts, their file, and the reply to a request for them.
use utx0_node.Base.{
  ◌&&◌, ◌||◌, not, true, ◌≡◌, ◌↔◌, ◌≤◌, refl, true, some, lit, List, [], ◌∷◌, ok, text_eq, arith,
}
use utx0_node.Config.{Config}
use utx0_node.Main.{start}
use utx0_node.Main.Restart.{start_again}
use utx0_node.Message.{Message, message_eq}
use utx0_node.Message.Equality.{message_eq_iff}
use utx0_node.Net.Dispatch.Imports.{import_peers_all}
use utx0_node.Net.Dispatch.{import_peers, pick_and_build_peers}
use utx0_node.Net.Dispatch.Replies.{count, IsShuffle, pick_and_build_peers-count}
use utx0_node.Peer.{Peer, peer_eq, parse_host, try_from, to_string}
use utx0_node.Peer.Laws.{IsAddress, try_from-to_string, try_from-IsAddress}
use utx0_node.State.Peers.{Peers, load_from_disk, contains, key}
use utx0_node.State.Peers.Persistence.{IsSaved, render, append_all, load_from_disk-append_all}
use utx0_node.Std.Decimal
use utx0_node.Std.Ipv4
use utx0_node.Std.Ipv4.{InRange}
use utx0_node.Std.Split.{rsplit_once, split}
use utx0_node.Std.Trim.{trim}
use utx0_node.Tests.Network.{config}

abbrev pub one : Peer
one = record { host = lit "1.2.3.4"; port = 18018 }

abbrev pub two : Peer
two = record { host = lit "10.0.0.1"; port = 80 }

pub one-IsAddress : IsAddress one
unfolding Ipv4.show Decimal.to_string
one-IsAddress = record {
  address = record { a = 1; b = 2; c = 3; d = 4 };
  in_range = record { a = omega arith; b = omega arith; c = omega arith; d = omega arith };
  host_text = refl;
  port_range = omega arith;
}

pub two-IsAddress : IsAddress two
unfolding Ipv4.show Decimal.to_string
two-IsAddress = record {
  address = record { a = 10; b = 0; c = 0; d = 1 };
  in_range = record { a = omega arith; b = omega arith; c = omega arith; d = omega arith };
  host_text = refl;
  port_range = omega arith;
}

try_from-to_string_example : try_from (lit "1.2.3.4:18018") ≡ ok one
unfolding to_string Decimal.to_string
try_from-to_string_example = try_from-to_string one one-IsAddress

try_from-IsAddress_example : IsAddress one
unfolding try_from parse_host trim split rsplit_once Ipv4.parse Ipv4.show Decimal.to_string
    Decimal.parse_u16
try_from-IsAddress_example = try_from-IsAddress (lit " 1.2.3.4:18018 ") one refl

abbrev saved : Peers
saved = record { map = one ∷ []; file = record { content = lit "1.2.3.4,18018\n"; outcomes = [] } }

saved-IsSaved : IsSaved saved
unfolding render contains key Decimal.to_string
saved-IsSaved = record {
  saved = refl;
  calm = refl;
  addresses = (one-IsAddress, tt);
  distinct = (refl, tt);
}

load_from_disk-append_all_example :
    load_from_disk (some (append_all (two ∷ one ∷ []) saved).file.content)
    ≡ (append_all (two ∷ one ∷ []) saved).map
load_from_disk-append_all_example =
    load_from_disk-append_all saved (two ∷ one ∷ []) saved-IsSaved
      (two-IsAddress, (one-IsAddress, tt))

abbrev unshuffled : List Peer → List Peer
unshuffled ps = ps

unshuffled-IsShuffle : IsShuffle unshuffled
unshuffled-IsShuffle = record { counts = λ p ps. refl }

pick_and_build_peers-count_example :
    count two (pick_and_build_peers unshuffled config (one ∷ two ∷ [])) ≤ 1
unfolding text_eq contains peer_eq
pick_and_build_peers-count_example =
    pick_and_build_peers-count unshuffled unshuffled-IsShuffle config (one ∷ two ∷ []) two

message_eq_iff_example :
    (message_eq (Message.peers (one ∷ [])) (Message.peers (two ∷ [])) ≡ true)
    ↔ (Message.peers (one ∷ []) ≡ Message.peers (two ∷ []))
message_eq_iff_example = message_eq_iff (Message.peers (one ∷ [])) (Message.peers (two ∷ []))

abbrev banning : Config
banning = record config { banned_hosts = two ∷ [] }

import_peers_all_example : contains (import_peers banning (two ∷ one ∷ []) saved).1.map two ≡ (
    contains saved.map two
    || contains (two ∷ one ∷ []) two && not (contains banning.banned_hosts two))
import_peers_all_example = import_peers_all banning (two ∷ one ∷ []) saved two refl

start_again_example :
    (t : Peers) × (start (some (lit "1.2.3.4,18018\n")) [] ≡ some t)
    × IsSaved t
    × ((p : Peer)
        → contains t.map p
          ≡ (contains saved.map p || peer_eq (record { host = lit "192.168.1.1"; port = 8080 }) p))
    × (start (some t.file.content) [] ≡ some t)
start_again_example = start_again saved saved-IsSaved
