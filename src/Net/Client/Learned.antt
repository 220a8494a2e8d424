-- ===== src/Net/Client/Learned.antt =====
-- The peers of a Peers message of src/net/dispatch.rs, and the outbound loop of src/net/client.rs.
use utx0_node.Base.{
  ℕ, ◌≡◌, ◌≤◌, ◌⊎◌, refl, ap, ◌∙◌, true, false, none, List, [], ◌∷◌, ◌++◌, length, inl, inr, arith,
}
use utx0_node.Config.{Config}
use utx0_node.Net.Client.{
  Entry, retain_running, contains_key, candidates, outbound, distinct, Step, begins,
}
use utx0_node.Net.Client.Entries.{retain-Shrinks}
use utx0_node.Net.Client.Filling.{IsFull, Steps, chosen_fills}
use utx0_node.Net.Client.Limit.{IsChoice}
use utx0_node.Net.Dispatch.{without_banned, append_each, import_peers}
use utx0_node.Net.Dispatch.Imports.{import_peers_all, contains-append, append_peer-map}
use utx0_node.Peer.{Peer, peer_eq_sym}
use utx0_node.State.Peers.{Peers, contains, insert, append_peer}

distinct-append :
    (map : List Peer) (p : Peer)
    → distinct map ≡ true
    → contains map p ≡ false
    → distinct (map ++ p ∷ []) ≡ true
unfolding contains
distinct-append [] p h new = refl
distinct-append (q ∷ map) p h new =
    ground (arith, distinct-append map p, contains-append map p q, peer_eq_sym p q)

distinct-insert :
    (map : List Peer) (p : Peer) → distinct map ≡ true → distinct (insert p map) ≡ true
unfolding insert
distinct-insert map p h = ground (arith, distinct-append map p h)

distinct-append_peer :
    (p : Peer) (s : Peers) → distinct s.map ≡ true → distinct (append_peer p s).1.map ≡ true
distinct-append_peer p s h = ap distinct (append_peer-map p s) ∙ distinct-insert s.map p h

-- Whether or not the writes succeed.
append_each-distinct :
    (ps : List Peer) (s : Peers) → distinct s.map ≡ true → distinct (append_each ps s).1.map ≡ true
unfolding append_each
append_each-distinct [] s h = h
append_each-distinct (p ∷ ps) s h =
    let here = distinct-append_peer p s h in
    let rest = append_each-distinct ps (append_peer p s).1 here in ground arith

pub import_peers-distinct :
    (config : Config) (incoming : List Peer) (s : Peers)
    → distinct s.map ≡ true
    → distinct (import_peers config incoming s).1.map ≡ true
unfolding import_peers
import_peers-distinct config incoming s = append_each-distinct (without_banned config incoming) s

module _ (choose : ℕ → List Peer → List Peer) (choice : IsChoice choose)
    (full : IsFull choose) where
  -- If the choice is as documented, no write of the peers file fails, the map has no peer twice,
  -- and there are no more connections than the limit allows: the outbound loop can begin a round
  -- with the peers that the node has after a Peers message. Dialling what it has chosen, one peer
  -- after the other, leads it to the end of this round, where there are as many connections as the
  -- limit allows, or every peer that the message lists, and that is not banned, has one.
  pub import_peers_dials :
      (config : Config) (incoming : List Peer) (s : Peers) (es : List Entry) (d : ℕ)
      → s.file.outcomes ≡ []
      → distinct s.map ≡ true
      → length es ≤ config.max_outbound_connection
      → let known = (import_peers config incoming s).1.map in
        let max = config.max_outbound_connection in
        let kept = retain_running es in
        let chosen = outbound kept none (candidates choose max known kept) d in
        (fs : List Entry) × (e : ℕ) × Step choose max (outbound es none [] d) chosen
        × Steps choose max chosen (outbound fs none [] e)
        × ((length fs ≡ max)
            ⊎ ((p : Peer)
                → contains incoming p ≡ true
                → contains config.banned_hosts p ≡ false
                → contains_key fs p ≡ true))
  import_peers_dials config incoming s es d calm keys within =
      let known = (import_peers config incoming s).1.map in
      let unique = import_peers-distinct config incoming s keys in
      let (fs, e, steps, filled) =
        chosen_fills choose config.max_outbound_connection choice full (retain_running es) known d
          unique (omega (arith, within, (retain-Shrinks es).size)) in
      (
        fs,
        e,
        begins es d known unique,
        steps,
        elim filled [
          | inl at_limit ↦ inl at_limit
          | inr all ↦
              inr (λ p listed allowed.
                all p (import_peers_all config incoming s p calm ∙ ground arith))
        ],
      )
