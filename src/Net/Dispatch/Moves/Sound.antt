-- ===== src/Net/Dispatch/Moves/Sound.antt =====
-- What stands in a connection's variables between two moves, and what a move does to the store
-- and the map.
use utx0_node.Base.{
  ◌≡◌, refl, Bool, true, false, not, ◌&&◌, Text, List, [], ◌∷◌, Result, ok, err, text_eq,
  Bool-cases, Result-cases, inl, inr, arith,
}
use utx0_node.Canonical.{ensure_object_field, compute_object_id}
use utx0_node.Config.{Config}
use utx0_node.Errors.{
  ProtocolError, invalid_format, invalid_handshake, io, connection_closed, oversized_frame, storage,
}
use utx0_node.Exec.{◌>>◌, pure}
use utx0_node.Message.{
  Message, hello, peers, get_peers, get_object, got_object, object, error, unknown,
}
use utx0_node.Net.Crates.{NetCrates}
use utx0_node.Net.Dispatch.{Session, send, without_banned, mismatch}
use utx0_node.Net.Dispatch.Contents.{IsObject}
use utx0_node.Net.Dispatch.Moves.{
  Pc, asking, storing, importing, inserting, opening, writing, ending, returned, settle, advance,
  dispatch, begin, take_up, closing,
}
use utx0_node.Peer.{Peer}
use utx0_node.State.Peers.{contains}
use utx0_node.Storage.{ObjectStore}

module _ (c : NetCrates) (S : ObjectStore) (config : Config) where
  abbrev pub banned : Peer → Bool
  banned p = contains config.banned_hosts p

  -- None of the peers is banned.
  abbrev pub allowed : List Peer → Bool
  allowed [] = true
  allowed (p ∷ ps) = not (banned p) && allowed ps

  without_banned-allowed : (ps : List Peer) → allowed (without_banned config ps) ≡ true
  unfolding without_banned
  without_banned-allowed [] = refl
  without_banned-allowed (p ∷ ps) = ground (arith, without_banned-allowed ps)

  -- The text that a connection is about to store has the id that it is to be stored under, and
  -- the peers that it is about to remember are not banned.
  unfoldable pub IsSound : Pc → Type 0
  IsSound (asking id raw) = IsObject c S config id raw
  IsSound (storing id raw) = IsObject c S config id raw
  IsSound (importing ps) = allowed ps ≡ true
  IsSound (inserting p ps) = (banned p ≡ false) × (allowed ps ≡ true)
  IsSound (opening p ps) = allowed ps ≡ true
  IsSound (writing p ps) = allowed ps ≡ true
  IsSound (ending p ps) = allowed ps ≡ true
  IsSound _ = Unit

  abbrev pub next : Pc → Session S → Pc × Session S
  next pc s = advance c S config (pc, s)

  -- A state after which what is shared is the same, and the connection's variables are sound.
  pub record Kept (s : Session S) (x : Pc × Session S) : Type 0 where
    pub store : x.1.store ≡ s.store
    pub map : x.1.peers.map ≡ s.peers.map
    pub sound : IsSound x.0

  pub send-Kept :
      (msg : Message) (pc : Pc) (s : Session S)
      → IsSound pc
      → Kept s (settle c S config ((send c S msg >> pure pc) s))
  unfolding send IsSound
  send-Kept msg pc s v = elim (Result-cases (send c S msg s).0) [
    | inl (u, e) ↦ rw e (record { store = refl; map = refl; sound = v })
    | inr (x, e) ↦ rw e (record { store = refl; map = refl; sound = tt })
  ]

  take_up-Kept :
      (id raw : Text) (s : Session S) → Kept s (settle c S config (take_up c S config id raw s))
  unfolding take_up IsSound
  take_up-Kept id raw s = elim (Result-cases (c.json.from_slice raw)) [
    | inr (x, e) ↦ rw e (record { store = refl; map = refl; sound = tt })
    | inl (v, e) ↦ elim (Result-cases (ensure_object_field v)) [
      | inr (x, e1) ↦ rw (e, e1) (record { store = refl; map = refl; sound = tt })
      | inl (inner, e1) ↦ elim (Result-cases (compute_object_id c.json c.hex_digest v)) [
        | inr (x, e2) ↦ rw (e, e1, e2) (record { store = refl; map = refl; sound = tt })
        | inl (computed, e2) ↦ elim (Bool-cases (text_eq computed id)) [
          | inr e3 ↦
              rw (e, e1, e2, e3)
                (send-Kept (mismatch c S config id computed) (returned (ok tt)) s tt)
          | inl e3 ↦ rw (e, e1, e2, e3) (record { store = refl; map = refl; sound = (v, e, e2) })
        ]
      ]
    ]
  ]

  dispatch-Kept :
      (m : Message) (s : Session S) → Kept s (settle c S config (dispatch c S config m s))
  unfolding dispatch IsSound
  dispatch-Kept get_peers s = record { store = refl; map = refl; sound = tt }
  dispatch-Kept (peers ps) s = record {
    store = refl;
    map = refl;
    sound = without_banned-allowed ps;
  }
  dispatch-Kept (error name msg) s = record { store = refl; map = refl; sound = tt }
  dispatch-Kept (hello port user_agent) s = record { store = refl; map = refl; sound = tt }
  dispatch-Kept (get_object i) s = record { store = refl; map = refl; sound = tt }
  dispatch-Kept (got_object i) s = record { store = refl; map = refl; sound = tt }
  dispatch-Kept (object i raw) s = take_up-Kept i raw s
  dispatch-Kept unknown s = record { store = refl; map = refl; sound = tt }

  pub begin-Kept :
      (r : Result ProtocolError Message) (s : Session S)
      → Kept s (settle c S config (begin c S config r s))
  unfolding begin closing IsSound
  begin-Kept (ok m) s = dispatch-Kept m s
  begin-Kept (err invalid_format) s = send-Kept _ (returned (ok tt)) s tt
  begin-Kept (err oversized_frame) s = send-Kept _ (returned (ok tt)) s tt
  begin-Kept (err invalid_handshake) s = record { store = refl; map = refl; sound = tt }
  begin-Kept (err connection_closed) s = record { store = refl; map = refl; sound = tt }
  begin-Kept (err (io e)) s = record { store = refl; map = refl; sound = tt }
  begin-Kept (err (storage e)) s = record { store = refl; map = refl; sound = tt }
