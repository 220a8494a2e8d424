-- ===== src/Net/Dispatch/Replies.antt =====
-- `pick_and_build_peers` of src/net/dispatch.rs: the peers that a node answers with.
use utx0_node.Base.{
  ℕ, zero, suc, ◌+◌, ◌≤◌, ◌≡◌, refl, ap, true, ◌&&◌, List, [], ◌∷◌, if◌then◌else◌, arith,
}
use utx0_node.Config.{Config}
use utx0_node.Net.Dispatch.{
  without_banned, truncate, retain_other, me, max_peers_per_reply, pick_and_build_peers,
}
use utx0_node.Peer.{peer_eq_sym, Peer, peer_eq, peer_eq_iff}
use utx0_node.State.Peers.{contains_of_eq, contains}

-- How often a peer is listed.
abbrev pub count : Peer → List Peer → ℕ
count p [] = 0
count p (q ∷ qs) = (if peer_eq q p then 1 else 0) + count p qs

-- A shuffle changes the order only.
pub record IsShuffle (shuffle : List Peer → List Peer) : Type 0 where
  pub counts : (p : Peer) (ps : List Peer) → count p (shuffle ps) ≡ count p ps

peer_eq_refl : (p : Peer) → peer_eq p p ≡ true
peer_eq_refl p = (peer_eq_iff p p).1 refl

peer_eq_left : (q p m : Peer) → peer_eq q p ≡ true → peer_eq q m ≡ peer_eq p m
peer_eq_left q p m h = ap (λ x. peer_eq x m) ((peer_eq_iff q p).0 h)

count-without_banned :
    (config : Config) (p : Peer) (ps : List Peer)
    → count p (without_banned config ps)
      ≡ (if contains config.banned_hosts p then 0 else count p ps)
unfolding without_banned
count-without_banned config p [] = ground arith
count-without_banned config p (q ∷ ps) =
    ground (arith, count-without_banned config p ps, contains_of_eq config.banned_hosts q p)

count-truncate : (n : ℕ) (p : Peer) (ps : List Peer) → count p (truncate n ps) ≤ count p ps
unfolding truncate
count-truncate zero p ps = omega arith
count-truncate (suc n) p [] = omega arith
count-truncate (suc n) p (q ∷ ps) = omega (arith, count-truncate n p ps)

count-retain_other :
    (m p : Peer) (ps : List Peer)
    → count p (retain_other m ps) ≡ (if peer_eq p m then 0 else count p ps)
unfolding retain_other
count-retain_other m p [] = ground arith
count-retain_other m p (q ∷ ps) = ground (arith, count-retain_other m p ps, peer_eq_left q p m)

module _ (shuffle : List Peer → List Peer) (shuffles : IsShuffle shuffle) (config : Config)
    (map : List Peer) where
  candidates-count :
      (p : Peer)
      → count p (truncate max_peers_per_reply (shuffle (without_banned config map)))
        ≤ (if contains config.banned_hosts p then 0 else count p map)
  candidates-count p = ground (
    arith,
    count-truncate max_peers_per_reply p (shuffle (without_banned config map)),
    shuffles.counts p (without_banned config map),
    count-without_banned config p map,
  )

  -- If the shuffle changes the order only, a reply lists a peer at most as often as the peers
  -- map does, and a banned peer not at all, but for the node itself, which a public node lists
  -- at most once.
  pub pick_and_build_peers-count :
      (p : Peer)
      → count p (pick_and_build_peers shuffle config map) ≤ (
          if config.public_node && peer_eq p (me config)
          then 1
          else if contains config.banned_hosts p
          then 0
          else count p map)
  unfolding pick_and_build_peers
  pick_and_build_peers-count p = ground (
    arith,
    candidates-count p,
    peer_eq_sym p (me config),
    count-retain_other (me config) p
        (truncate max_peers_per_reply (shuffle (without_banned config map))),
  )
