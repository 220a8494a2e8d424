-- ===== src/Net/Client/Entries.antt =====
-- The operations of src/net/client.rs on the map of outbound connections, and its keys.
use utx0_node.Base.{
  suc, ◌≡◌, ◌≤◌, refl, ap, Bool, true, false, not, ◌&&◌, ◌||◌, Option, none, some, List, [], ◌∷◌,
  ◌++◌, length, arith,
}
use utx0_node.Net.Client.{
  Entry, retain_running, contains_key, insert, remove, running_of, not_connected, distinct,
}
use utx0_node.Peer.{peer_eq_sym, Peer, peer_eq, peer_eq_iff}
use utx0_node.State.Peers.{contains}

-- No entry has one of the peers.
abbrev pub clear : List Entry → List Peer → Bool
clear es [] = true
clear es (p ∷ ps) = not (contains_key es p) && clear es ps

abbrev pub held_clear : List Entry → List Peer → Option Entry → Bool
held_clear es ps none = true
held_clear es ps (some e) = not (contains_key es e.peer) && not (contains ps e.peer)

-- Entries that take the place of others, with no key that these do not have.
pub record Shrinks (es fs : List Entry) : Type 0 where
  pub keys : (p : Peer) → contains_key fs p ≡ true → contains_key es p ≡ true
  pub size : length fs ≤ length es

pub contains_key_of_eq :
    (es : List Entry) (p q : Peer) → peer_eq p q ≡ true → contains_key es p ≡ contains_key es q
contains_key_of_eq es p q h = ap (contains_key es) ((peer_eq_iff p q).0 h)

retain_keys :
    (es : List Entry) (p : Peer)
    → contains_key (retain_running es) p ≡ true
    → contains_key es p ≡ true
unfolding retain_running contains_key
retain_keys [] p h = h
retain_keys (e ∷ es) p h = ground (arith, retain_keys es p)

retain_size : (es : List Entry) → length (retain_running es) ≤ length es
unfolding retain_running
retain_size [] = omega arith
retain_size (e ∷ es) = ground (arith, retain_size es)

pub retain-Shrinks : (es : List Entry) → Shrinks es (retain_running es)
retain-Shrinks es = record { keys = retain_keys es; size = retain_size es }

remove_keys :
    (q : Peer) (es : List Entry) (p : Peer)
    → contains_key (remove q es) p ≡ true
    → contains_key es p ≡ true
unfolding remove contains_key
remove_keys q [] p h = h
remove_keys q (e ∷ es) p h = ground (arith, remove_keys q es p)

remove_size : (q : Peer) (es : List Entry) → length (remove q es) ≤ length es
unfolding remove
remove_size q [] = omega arith
remove_size q (e ∷ es) = ground (arith, remove_size q es)

pub remove-Shrinks : (q : Peer) (es : List Entry) → Shrinks es (remove q es)
remove-Shrinks q es = record { keys = remove_keys q es; size = remove_size q es }

pub fail_keys :
    (es fs : List Entry) (p : Peer) (a b : Bool) (q : Peer)
    → contains_key (es ++ record { peer = p; running = a } ∷ fs) q
      ≡ contains_key (es ++ record { peer = p; running = b } ∷ fs) q
unfolding contains_key
fail_keys [] fs p a b q = refl
fail_keys (e ∷ es) fs p a b q = rw (fail_keys es fs p a b q)

pub fail_size : (es fs : List Entry) (e f : Entry) → length (es ++ e ∷ fs) ≡ length (es ++ f ∷ fs)
fail_size [] fs e f = refl
fail_size (x ∷ es) fs e f = ap suc (fail_size es fs e f)

pub running_of_missing :
    (p : Peer) (es : List Entry) → contains_key es p ≡ false → running_of p es ≡ 0
unfolding running_of contains_key
running_of_missing p [] h = refl
running_of_missing p (e ∷ es) h = ground (arith, running_of_missing p es)

pub contains_key-insert :
    (e : Entry) (es : List Entry) (q : Peer)
    → contains_key (insert e es) q ≡ (contains_key es q || peer_eq e.peer q)
unfolding insert contains_key
contains_key-insert e [] q = ground arith
contains_key-insert e (f ∷ es) q = ground (
  arith,
  contains_key-insert e es q,
  peer_eq_iff f.peer e.peer,
  peer_eq_iff f.peer q,
  peer_eq_iff e.peer q,
)

pub length-insert : (e : Entry) (es : List Entry) → length (insert e es) ≤ suc (length es)
unfolding insert
length-insert e [] = omega arith
length-insert e (f ∷ es) = ground (arith, length-insert e es)

pub clear-insert :
    (e : Entry) (es : List Entry) (ps : List Peer)
    → clear es ps ≡ true
    → contains ps e.peer ≡ false
    → clear (insert e es) ps ≡ true
unfolding contains
clear-insert e es [] h n = refl
clear-insert e es (p ∷ ps) h n =
    ground (arith, clear-insert e es ps, contains_key-insert e es p, peer_eq_sym p e.peer)

pub clear-Shrinks :
    {es fs : List Entry} (ps : List Peer) → Shrinks es fs → clear es ps ≡ true → clear fs ps ≡ true
clear-Shrinks [] s h = refl
clear-Shrinks (p ∷ ps) s h = ground (arith, clear-Shrinks ps s, s.keys p)

pub held_clear-Shrinks :
    {es fs : List Entry} (ps : List Peer) (h : Option Entry)
    → Shrinks es fs
    → held_clear es ps h ≡ true
    → held_clear fs ps h ≡ true
held_clear-Shrinks ps none s c = refl
held_clear-Shrinks ps (some e) s c = ground (arith, s.keys e.peer)

pub clear_of :
    (es : List Entry) (ps : List Peer)
    → ((p : Peer) → contains ps p ≡ true → contains_key es p ≡ false)
    → clear es ps ≡ true
unfolding contains
clear_of es [] h = refl
clear_of es (p ∷ ps) h =
    ground (arith, h p, (peer_eq_iff p p).1 refl, clear_of es ps (λ q there. h q (ground arith)))

pub not_connected-clear :
    (es : List Entry) (ps : List Peer) (p : Peer)
    → contains (not_connected es ps) p ≡ true
    → contains_key es p ≡ false
unfolding not_connected contains
not_connected-clear es [] p h = absurd (ground arith)
not_connected-clear es (q ∷ ps) p h =
    ground (arith, not_connected-clear es ps p, contains_key_of_eq es q p)

not_connected-within :
    (es : List Entry) (ps : List Peer) (p : Peer)
    → contains (not_connected es ps) p ≡ true
    → contains ps p ≡ true
unfolding not_connected contains
not_connected-within es [] p h = h
not_connected-within es (q ∷ ps) p h = ground (arith, not_connected-within es ps p)

pub not_connected-distinct :
    (es : List Entry) (ps : List Peer) → distinct ps ≡ true → distinct (not_connected es ps) ≡ true
unfolding not_connected
not_connected-distinct es [] h = refl
not_connected-distinct es (q ∷ ps) h =
    ground (arith, not_connected-distinct es ps, not_connected-within es ps q)
