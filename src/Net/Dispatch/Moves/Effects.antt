-- ===== src/Net/Dispatch/Moves/Effects.antt =====
-- What each move of a connection does to the store and the map that the connections share.
use utx0_node.Base.{
  ◌≡◌, refl, true, false, none, some, Text, List, [], ◌∷◌, Result, ok, err, Bool-cases,
  Result-cases, inl, inr, arith,
}
use utx0_node.Config.{Config}
use utx0_node.Message.{build_get_object, build_object}
use utx0_node.Net.Crates.{NetCrates}
use utx0_node.Net.Dispatch.{
  Session, receive, store_put, store_has, store_get, send_object, send_peers,
}
use utx0_node.Net.Dispatch.Moves.{
  Pc, absent, reading, answering, getting, checking, asking, storing, importing, inserting, opening,
  writing, ending, returned, move, settle, read_on, seek,
}
use utx0_node.Peer.{Peer}
use utx0_node.State.Peers.{PeersError, contains, insert}
use utx0_node.Storage.{ObjectStore}
use utx0_node.Net.Dispatch.Moves.Sound.{IsSound, Kept, send-Kept, begin-Kept, allowed, next}

module _ (c : NetCrates) (S : ObjectStore) (config : Config) where
  -- What a move does to what is shared: nothing, one `store.put`, or one `map.insert`; the calls
  -- on the peers file leave the map.
  pub data Effect (pc : Pc) (s t : Session S) : Type 0 where
    quiet : t.store ≡ s.store → t.peers.map ≡ s.peers.map → Effect pc s t
    puts :
        (id raw : Text)
        → pc ≡ storing id raw
        → t.store ≡ (S.put s.store id raw).1
        → t.peers.map ≡ s.peers.map
        → Effect pc s t
    remembers :
        (p : Peer) (ps : List Peer)
        → pc ≡ inserting p ps
        → t.store ≡ s.store
        → t.peers.map ≡ insert p s.peers.map
        → Effect pc s t

  -- The effect of a move, and the sound state that it leads to.
  pub record Moved (pc : Pc) (s : Session S) (x : Pc × Session S) : Type 0 where
    pub effect : Effect pc s x.1
    pub sound : IsSound c S config x.0

  keep : {pc : Pc} {s : Session S} {x : Pc × Session S} → Kept c S config s x → Moved pc s x
  keep k = record { effect = quiet k.store k.map; sound = k.sound }

  stays :
      {pc : Pc} {s : Session S} (x : Pc × Session S)
      → x.1.store ≡ s.store
      → x.1.peers.map ≡ s.peers.map
      → IsSound c S config x.0
      → Moved pc s x
  stays x e f v = record { effect = quiet e f; sound = v }

  -- After a call that ends or leads to a sound state.
  on_peers-IsSound :
      (r : Result PeersError (Unit {0})) (pc : Pc)
      → IsSound c S config pc
      → IsSound c S config (elim r as (λ _. Pc) [ ok _ ↦ pc | err e ↦ reading ])
  unfolding IsSound
  on_peers-IsSound (ok u) pc v = v
  on_peers-IsSound (err e) pc v = tt

  seek-Moved :
      (ps : List Peer) (s : Session S)
      → allowed c S config ps ≡ true
      → Moved (importing ps) s (settle c S config (seek c S config ps s))
  unfolding seek IsSound
  seek-Moved [] s v = stays _ refl refl tt
  seek-Moved (p ∷ ps) s v = stays _ refl refl (elim (Bool-cases (contains s.peers.map p)) [
    | inl old ↦ rw old (ground arith)
    | inr new ↦ rw new (ground arith, ground arith)
  ])

  read_on-Kept : (s : Session S) → Kept c S config s (settle c S config (read_on c S config s))
  unfolding read_on receive
  read_on-Kept s =
      let k = begin-Kept c S config (receive c S s).0 (receive c S s).1 in
      record { store = k.store; map = k.map; sound = k.sound }

  answer-Kept : (s : Session S) → Kept c S config s (next c S config answering s)
  unfolding move send_peers IsSound
  answer-Kept s =
      let k = send-Kept c S config _ reading _ tt in
      record { store = k.store; map = k.map; sound = k.sound }

  get-Kept : (i : Text) (s : Session S) → Kept c S config s (next c S config (getting i) s)
  unfolding move store_get send_object IsSound
  get-Kept i s = elim (Result-cases (S.get s.store i)) [
    | inr (x, e) ↦ rw e (record { store = refl; map = refl; sound = tt })
    | inl (none, e) ↦ rw e (record { store = refl; map = refl; sound = tt })
    | inl (some bytes, e) ↦ elim (Result-cases (build_object c.raw_from_string i bytes)) [
      | inr (x, f) ↦ rw (e, f) (record { store = refl; map = refl; sound = tt })
      | inl (m, f) ↦ rw (e, f) (send-Kept c S config m reading s tt)
    ]
  ]

  check-Kept : (i : Text) (s : Session S) → Kept c S config s (next c S config (checking i) s)
  unfolding move store_has IsSound
  check-Kept i s = elim (Result-cases (S.has s.store i)) [
    | inr (x, e) ↦ rw e (record { store = refl; map = refl; sound = tt })
    | inl (true, e) ↦ rw e (record { store = refl; map = refl; sound = tt })
    | inl (false, e) ↦ rw e (send-Kept c S config (build_get_object i) reading s tt)
  ]

  ask-Kept :
      (id raw : Text) (s : Session S)
      → IsSound c S config (asking id raw)
      → Kept c S config s (next c S config (asking id raw) s)
  unfolding move store_has IsSound
  ask-Kept id raw s v = elim (Result-cases (S.has s.store id)) [
    | inr (x, e) ↦ rw e (record { store = refl; map = refl; sound = tt })
    | inl (true, e) ↦ rw e (record { store = refl; map = refl; sound = tt })
    | inl (false, e) ↦ rw e (record { store = refl; map = refl; sound = v })
  ]

  put-Moved :
      (id raw : Text) (s : Session S)
      → Moved (storing id raw) s (next c S config (storing id raw) s)
  unfolding move store_put IsSound
  put-Moved id raw s = elim (Result-cases (S.put s.store id raw).0) [
    | inr (x, e) ↦ rw e (record { effect = puts id raw refl refl refl; sound = tt })
    | inl (old, e) ↦ rw e (record { effect = puts id raw refl refl refl; sound = tt })
  ]

  -- What a move of a connection does, and that its variables stay sound.
  pub move-Moved :
      (pc : Pc) (s : Session S) → IsSound c S config pc → Moved pc s (next c S config pc s)
  unfolding move IsSound
  move-Moved absent s v = stays _ refl refl tt
  move-Moved reading s v = keep (read_on-Kept s)
  move-Moved answering s v = keep (answer-Kept s)
  move-Moved (getting i) s v = keep (get-Kept i s)
  move-Moved (checking i) s v = keep (check-Kept i s)
  move-Moved (asking id raw) s v = keep (ask-Kept id raw s v)
  move-Moved (storing id raw) s v = put-Moved id raw s
  move-Moved (importing ps) s v = seek-Moved ps s v
  move-Moved (inserting p ps) s (v, w) = record {
    effect = remembers p ps refl refl refl;
    sound = w;
  }
  move-Moved (opening p ps) s v = stays _ refl refl (on_peers-IsSound _ (writing p ps) v)
  move-Moved (writing p ps) s v = stays _ refl refl (on_peers-IsSound _ (ending p ps) v)
  move-Moved (ending p ps) s v = stays _ refl refl (on_peers-IsSound _ (importing ps) v)
  move-Moved (returned r) s v = stays _ refl refl tt
