-- ===== src/Net/Housekeeping.antt =====
-- src/net/housekeeping.rs: a round, and the loop. The proofs are in the module below.
pub mod Status
use utx0_node.Base.{ℕ, List, [], ◌∷◌, length}
use utx0_node.Net.Client.{Entry, retain_running}
use utx0_node.Peer.{Peer}
use utx0_node.State.Connection.{InboundCounter, load}

-- The counts that are logged.
pub record Counts : Type 0 where
  pub inbound : ℕ
  pub outbound : ℕ
  pub peers : ℕ

-- The finished tasks are pruned, and then the counts are read.
unfoldable pub housekeeping_round : InboundCounter → List Entry → List Peer → List Entry × Counts
unfolding retain_running load
housekeeping_round inbound outbound peers_map =
    let kept = retain_running outbound in
    (kept, record { inbound = load inbound; outbound = length kept; peers = length peers_map })

-- What the loop finds when it wakes: the counter, what the other tasks have made of the map of
-- outbound connections since, and the peers.
pub record Found : Type 0 where
  pub inbound : InboundCounter
  pub changed : List Entry → List Entry
  pub peers_map : List Peer

-- `housekeeping_loop`, for as many rounds as the node runs: the map, and what was logged.
unfoldable pub housekeeping_loop : List Found → List Entry → List Entry × List Counts
unfolding housekeeping_round
housekeeping_loop [] outbound = (outbound, [])
housekeeping_loop (found ∷ rounds) outbound =
    let (kept, counts) =
      housekeeping_round found.inbound (found.changed outbound) found.peers_map in
    let (final, logged) = housekeeping_loop rounds kept in (final, counts ∷ logged)
