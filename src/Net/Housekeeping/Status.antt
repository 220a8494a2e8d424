-- ===== src/Net/Housekeeping/Status.antt =====
-- The counts of src/net/housekeeping.rs against the connections.
use utx0_node.Base.{ℕ, ◌%◌, ◌^◌, ◌≡◌, ◌≤◌, refl, List, [], ◌∷◌, length, arith}
use utx0_node.Net.Client
use utx0_node.Net.Client.{Entry, retain_running, Outbound}
use utx0_node.Net.Client.Limit.{IsChoice, running_entries, outbound_limit}
use utx0_node.Net.Housekeeping.{housekeeping_round}
use utx0_node.Net.Listener
use utx0_node.Net.Listener.{Listener}
use utx0_node.Net.Listener.Counter.{guards, load-guards}
use utx0_node.Peer.{Peer}

length-retain_running : (es : List Entry) → length (retain_running es) ≡ running_entries es
unfolding retain_running
length-retain_running [] = refl
length-retain_running (e ∷ es) = ground (arith, length-retain_running es)

running_entries-retain_running :
    (es : List Entry) → running_entries (retain_running es) ≡ running_entries es
unfolding retain_running
running_entries-retain_running [] = refl
running_entries-retain_running (e ∷ es) = ground (arith, running_entries-retain_running es)

-- If the choice of peers is as documented, then however the listener, the outbound loop and their
-- tasks interleave, a round logs as inbound connections the number of guards that are held, up to
-- the wrap at 2^64, and as outbound connections the number of entries with a running task, which
-- is within the limit; and those entries stay.
pub housekeeping_counts :
    (choose : ℕ → List Peer → List Peer) (max : ℕ) (l : Listener) (o : Outbound) (map : List Peer)
    → IsChoice choose
    → Listener.Reachable l
    → Client.Reachable choose max o
    → let (kept, counts) = housekeeping_round l.counter o.entries map in
      (counts.inbound ≡ guards l % 2 ^ 64)
      × (counts.outbound ≡ running_entries o.entries)
      × (counts.outbound ≤ max)
      × (running_entries kept ≡ running_entries o.entries)
unfolding housekeeping_round
housekeeping_counts choose max l o map choice r q =
    let (few, size, attached) = outbound_limit choose choice max o q in
    (
      load-guards l r,
      length-retain_running o.entries,
      omega (arith, length-retain_running o.entries),
      running_entries-retain_running o.entries,
    )
