-- ===== src/Tests/Dialling.antt =====
-- Rounds of the outbound loop, choosing the first peers of the map.
use utx0_node.Base.{
  ℕ, zero, suc, ◌≡◌, ◌≤◌, ◌⊎◌, refl, true, false, none, some, lit, List, [], ◌∷◌, length, arith,
  text_eq, Result, ok, err, Text,
}
use utx0_node.Errors.{ProtocolError}
use utx0_node.Net.Client.{
  Entry, retain_running, candidates, contains_key, insert, remove, running_of, outbound, Outbound,
  distinct, begins, spawns, inserts, leaves_early, Reachable, start, step,
}
use utx0_node.Net.Client.Limit.{IsChoice, running, outbound_limit}
use utx0_node.Net.Client.Filling.{IsFull, Steps}
use utx0_node.Net.Client
use utx0_node.Net.Client.Learned.{import_peers_dials}
use utx0_node.Net.Client.Task.{outbound_task}
use utx0_node.Net.Client.Task.Branches.{Served, outbound_task_lem}
use utx0_node.Net.Dispatch.{run_message_loop, round, pick_and_build_peers, import_peers}
use utx0_node.Net.Framing.{read_frame, write_frame}
use utx0_node.Net.Handshake
use utx0_node.Net.Handshake.{Halves}
use utx0_node.Net.Listener.{halves}
use utx0_node.Std.Decimal
use utx0_node.Std.Sink.{write_all, touch}
use utx0_node.Std.Trim.{trim}
use utx0_node.Std.Utf8.{is_utf8}
use utx0_node.Tests.Fixtures.{crates, memory, message_from}
use utx0_node.Tests.Loop.{session, one_object, greeting, served}
use utx0_node.Tests.Network.{config}
use utx0_node.Peer.{Peer, peer_eq}
use utx0_node.State.Peers
use utx0_node.State.Peers.{contains, Peers, append_peer, key}

abbrev pub first : ℕ → List Peer → List Peer
first zero ps = []
first (suc n) [] = []
first (suc n) (p ∷ ps) = p ∷ first n ps

first_few : (n : ℕ) (ps : List Peer) → length (first n ps) ≤ n
first_few zero ps = omega arith
first_few (suc n) [] = omega arith
first_few (suc n) (p ∷ ps) = omega (arith, first_few n ps)

first_within :
    (n : ℕ) (ps : List Peer) (p : Peer) → contains (first n ps) p ≡ true → contains ps p ≡ true
unfolding contains
first_within zero ps p h = absurd (ground arith)
first_within (suc n) [] p h = h
first_within (suc n) (q ∷ ps) p h = ground (arith, first_within n ps p)

first_once : (n : ℕ) (ps : List Peer) → distinct ps ≡ true → distinct (first n ps) ≡ true
first_once zero ps h = refl
first_once (suc n) [] h = refl
first_once (suc n) (q ∷ ps) h = ground (arith, first_once n ps, first_within n ps q)

pub first-IsChoice : IsChoice first
first-IsChoice = record { few = first_few; within = first_within; once = first_once }

abbrev peer : ℕ → Peer
peer port = record { host = lit "10.0.0.1"; port = port }

-- One place, two peers: the first is dialled, and its task ends before its handle is in the map.
abbrev one : Entry
one = record { peer = peer 1; running = true }

abbrev ended : Entry
ended = record { peer = peer 1; running = false }

pub one_round : Reachable first 1 (outbound (ended ∷ []) none [] 0)
unfolding candidates retain_running insert remove running_of contains peer_eq text_eq
one_round =
    step
      (step (step (step start (begins [] 0 (peer 1 ∷ peer 2 ∷ []) refl)) (spawns [] (peer 1) [] 0))
        (leaves_early [] (peer 1) [] 0))
      (inserts [] ended [] 0)

abbrev pub after_round : Outbound
after_round = outbound (ended ∷ []) none [] 0

outbound_limit_example :
    (running after_round ≤ 1) × (length after_round.entries ≤ 1) × (after_round.detached ≡ 0)
outbound_limit_example = outbound_limit first first-IsChoice 1 after_round one_round

abbrev connected : Result Text Halves
connected = ok (halves (greeting))

dials :
    outbound_task crates memory config 90 false connected (session memory one_object)
    ≡ some (true, served)
unfolding outbound_task Handshake.outbound run_message_loop round read_frame write_frame write_all
    touch trim message_from is_utf8 Decimal.to_string text_eq pick_and_build_peers
dials = refl

outbound_task_lem_example :
    ((true ≡ false)
      × (served ≡ session memory one_object)
      × (x : ProtocolError) × ((Handshake.outbound crates config false connected).0 ≡ err x))
    ⊎ ((true ≡ true)
        × Served crates memory config 90 false connected (session memory one_object) served)
outbound_task_lem_example =
    outbound_task_lem crates memory config 90 false connected (session memory one_object) served
      true dials

first_enough : (n : ℕ) (ps : List Peer) → n ≤ length ps → length (first n ps) ≡ n
first_enough zero ps h = refl
first_enough (suc n) [] h = absurd (omega arith)
first_enough (suc n) (p ∷ ps) h = omega (arith, first_enough n ps)

first_all :
    (n : ℕ) (ps : List Peer)
    → length ps ≤ n
    → (p : Peer) → contains ps p ≡ true
    → contains (first n ps) p ≡ true
unfolding contains
first_all zero [] h p there = there
first_all zero (q ∷ ps) h p there = absurd (omega arith)
first_all (suc n) [] h p there = there
first_all (suc n) (q ∷ ps) h p there = ground (arith, first_all n ps (omega arith) p)

first-IsFull : IsFull first
first-IsFull = record { enough = first_enough; all = first_all }

-- A finished task and a running one.
abbrev before_round : List Entry
before_round = ended ∷ record { peer = peer 2; running = true } ∷ []

-- A node that knows one peer, and reads of two more.
abbrev one_known : Peers
one_known = record {
  map = peer 1 ∷ [];
  file = record { content = lit "10.0.0.1,1\n"; outcomes = [] };
}

abbrev listed : List Peer
listed = peer 2 ∷ peer 3 ∷ []

import_peers_dials_example :
    let known : List Peer = peer 1 ∷ peer 2 ∷ peer 3 ∷ [] in
    let kept : List Entry = record { peer = peer 2; running = true } ∷ [] in
    let chosen = outbound kept none (candidates first 4 known kept) 0 in
    (fs : List Entry) × (e : ℕ) × Client.Step first 4 (outbound before_round none [] 0) chosen
    × Steps first 4 chosen (outbound fs none [] e)
    × ((length fs ≡ 4)
        ⊎ ((p : Peer)
            → contains listed p ≡ true
            → contains config.banned_hosts p ≡ false
            → contains_key fs p ≡ true))
unfolding import_peers append_peer Peers.insert write_all touch key Decimal.to_string contains
    retain_running peer_eq text_eq
import_peers_dials_example =
    import_peers_dials first first-IsChoice first-IsFull config listed one_known before_round 0 refl
      refl (omega arith)
