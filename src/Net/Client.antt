-- ===== src/Net/Client.antt =====
-- src/net/client.rs and src/net/housekeeping.rs: the loop that dials peers, its tasks, and the
-- map of outbound connections that they share. The proofs are in the module below.
mod Entries
pub mod Task
pub mod Limit
pub mod Filling
pub mod Learned
use utx0_node.Base.{
  ℕ, suc, ◌+◌, ◌-◌, ◌≡◌, ◌≤◌, Bool, true, false, not, ◌&&◌, ◌||◌, Option, none, some, List, [], ◌∷◌,
  ◌++◌, length, ltb, if◌then◌else◌,
}
use utx0_node.Peer.{Peer, peer_eq}
use utx0_node.State.Peers.{contains}

-- An entry of `ConnectionOutboundMap`: its key, and whether its task has not finished.
pub record Entry : Type 0 where
  pub peer : Peer
  pub running : Bool

-- `new_outbound_map`
abbrev pub new_outbound_map : List Entry
new_outbound_map = []

-- `outbound_connections.retain(|_, handle| !handle.is_finished())`
unfoldable pub retain_running : List Entry → List Entry
retain_running [] = []
retain_running (e ∷ entries) =
    let rest = retain_running entries in if e.running then e ∷ rest else rest

-- `outbound_connections.contains_key(p)`
unfoldable pub contains_key : List Entry → Peer → Bool
contains_key [] p = false
contains_key (e ∷ entries) p = peer_eq e.peer p || contains_key entries p

-- `outbound_connections.insert(peer, handle)`: the handle of a key that is there is dropped.
unfoldable pub insert : Entry → List Entry → List Entry
insert e [] = e ∷ []
insert e (f ∷ entries) = if peer_eq f.peer e.peer then e ∷ entries else f ∷ insert e entries

-- `oc_for_task.remove(&peer_for_task)`
unfoldable pub remove : Peer → List Entry → List Entry
remove p [] = []
remove p (e ∷ entries) = if peer_eq e.peer p then entries else e ∷ remove p entries

-- The running tasks of a key: 1 or 0.
unfoldable pub running_of : Peer → List Entry → ℕ
running_of p [] = 0
running_of p (e ∷ entries) =
    if peer_eq e.peer p then (if e.running then 1 else 0) else running_of p entries

-- `.filter(|p| !outbound_connections.contains_key(p))`
pub not_connected : List Entry → List Peer → List Peer
unfolding contains_key
not_connected entries [] = []
not_connected entries (p ∷ ps) =
    let rest = not_connected entries ps in if contains_key entries p then rest else p ∷ rest

-- `choose` is `choose_multiple`, with its generator.
unfoldable pub candidates : (ℕ → List Peer → List Peer) → ℕ → List Peer → List Entry → List Peer
unfolding not_connected
candidates choose max known entries =
    let active = length entries in
    if ltb active max then choose (max - active) (not_connected entries known) else []

-- The state of `outbound_loop` and its tasks: the map, a task that is spawned and whose handle is
-- not in the map yet, the candidates of this round that are left, and the number of running tasks
-- whose handle is in the map no more.
pub record Outbound : Type 0 where
  pub entries : List Entry
  pub held : Option Entry
  pub todo : List Peer
  pub detached : ℕ

abbrev pub outbound : List Entry → Option Entry → List Peer → ℕ → Outbound
outbound entries held todo detached = record {
  entries = entries;
  held = held;
  todo = todo;
  detached = detached;
}

-- The keys of a map are distinct.
abbrev pub distinct : List Peer → Bool
distinct [] = true
distinct (p ∷ ps) = not (contains ps p) && distinct ps

module _ (choose : ℕ → List Peer → List Peer) (max : ℕ) where
  -- The loop, the tasks and the housekeeping, in any order.
  pub data Step : Outbound → Outbound → Type 0 where
    -- A round begins: the finished tasks go, and the candidates are chosen among the peers.
    begins :
        (es : List Entry) (d : ℕ) (known : List Peer)
        → distinct known ≡ true
        → Step
            (outbound es none [] d)
            (outbound (retain_running es) none (candidates choose max known (retain_running es)) d)
    -- `tokio::spawn`
    spawns :
        (es : List Entry) (p : Peer) (ps : List Peer) (d : ℕ)
        → Step
            (outbound es none (p ∷ ps) d)
            (outbound es (some (record { peer = p; running = true })) ps d)
    -- `outbound_connections.insert(peer, handle)`
    inserts :
        (es : List Entry) (e : Entry) (ps : List Peer) (d : ℕ)
        → Step
            (outbound es (some e) ps d)
            (outbound (insert e es) none ps (d + running_of e.peer es))
    -- The task of an entry returns after a failed handshake, and its entry stays.
    fails :
        (es fs : List Entry) (p : Peer) (h : Option Entry) (ps : List Peer) (d : ℕ)
        → Step
            (outbound (es ++ record { peer = p; running = true } ∷ fs) h ps d)
            (outbound (es ++ record { peer = p; running = false } ∷ fs) h ps d)
    -- The task of an entry removes the entry of its peer, and returns. It has nothing left to run
    -- once the entry is gone, so that these are one step.
    leaves :
        (es : List Entry) (p : Peer) (h : Option Entry) (ps : List Peer) (d : ℕ)
        → running_of p es ≡ 1
        → Step (outbound es h ps d) (outbound (remove p es) h ps d)
    -- A task returns, before its handle is in the map, after a failed handshake.
    fails_early :
        (es : List Entry) (p : Peer) (ps : List Peer) (d : ℕ)
        → Step
            (outbound es (some (record { peer = p; running = true })) ps d)
            (outbound es (some (record { peer = p; running = false })) ps d)
    -- A task ends before its handle is in the map: what it removes is another's entry.
    leaves_early :
        (es : List Entry) (p : Peer) (ps : List Peer) (d : ℕ)
        → Step (outbound es (some (record { peer = p; running = true })) ps d) (
            outbound
              (remove p es)
              (some (record { peer = p; running = false }))
              ps
              (d + running_of p es))
    -- A task whose handle was dropped returns after a failed handshake.
    fails_late :
        (es : List Entry) (h : Option Entry) (ps : List Peer) (d : ℕ)
        → Step (outbound es h ps (suc d)) (outbound es h ps d)
    -- A task whose handle was dropped ends: what it removes is another's entry.
    leaves_late :
        (es : List Entry) (p : Peer) (h : Option Entry) (ps : List Peer) (d : ℕ)
        → Step (outbound es h ps (suc d)) (outbound (remove p es) h ps (d + running_of p es))
    -- `housekeeping_loop`
    prunes :
        (es : List Entry) (h : Option Entry) (ps : List Peer) (d : ℕ)
        → Step (outbound es h ps d) (outbound (retain_running es) h ps d)

  pub data Reachable : Outbound → Type 0 where
    start : Reachable (outbound new_outbound_map none [] 0)
    step : {s t : Outbound} → Reachable s → Step s t → Reachable t
