-- ===== src/Net/Dispatch/Moves/Progress.antt =====
-- How far each move of a connection of src/net/dispatch.rs brings it.
use utx0_node.Base.{
  ℕ, ◌+◌, ◌*◌, ◌<◌, ◌≡◌, ◌≢◌, refl, sym, subst, Bool, true, false, none, some, Text, [], ◌∷◌,
  Result, ok, err, length, text_eq, Bool-cases, Result-cases, ◌⊎◌, inl, inr, arith,
}
use utx0_node.Canonical.{ensure_object_field, compute_object_id}
use utx0_node.Config.{Config}
use utx0_node.Errors.{
  ProtocolError, invalid_format, invalid_handshake, io, connection_closed, oversized_frame, storage,
}
use utx0_node.Errors.Report.{from_error}
use utx0_node.Exec.{◌>>◌, pure}
use utx0_node.Message.{
  Message, hello, peers, get_peers, get_object, got_object, object, error, unknown,
  build_get_object, build_object,
}
use utx0_node.Net.Crates.{NetCrates}
use utx0_node.Net.Dispatch.{
  Session, receive, send, store_put, store_has, store_get, send_object, send_peers, mismatch,
}
use utx0_node.Net.Dispatch.Moves.{
  Pc, absent, reading, answering, getting, checking, asking, storing, importing, inserting, opening,
  writing, ending, returned, move, settle, advance, dispatch, begin, take_up, closing, read_on,
  seek, on_peers,
}
use utx0_node.Net.Framing.Lines.{read_frame_progress}
use utx0_node.State.Peers.{Peers, PeersError, contains}
use utx0_node.Storage.{ObjectStore}

-- A bound for the moves that are left before the loop's head, and one more.
pub rank : Pc → ℕ
rank absent = 0
rank (returned r) = 0
rank reading = 1
rank answering = 2
rank (getting i) = 2
rank (checking i) = 2
rank (asking id raw) = 3
rank (storing id raw) = 2
rank (importing ps) = 2 + 5 * length ps
rank (inserting p ps) = 6 + 5 * length ps
rank (opening p ps) = 5 + 5 * length ps
rank (writing p ps) = 4 + 5 * length ps
rank (ending p ps) = 3 + 5 * length ps

unfoldable pub live : Pc → Bool
live absent = false
live _ = true

pub live_of : (pc : Pc) → pc ≢ absent → live pc ≡ true
unfolding live
live_of absent h = absurd (h refl)
live_of reading h = refl
live_of answering h = refl
live_of (getting i) h = refl
live_of (checking i) h = refl
live_of (asking id raw) h = refl
live_of (storing id raw) h = refl
live_of (importing ps) h = refl
live_of (inserting p ps) h = refl
live_of (opening p ps) h = refl
live_of (writing p ps) h = refl
live_of (ending p ps) h = refl
live_of (returned r) h = refl

-- At the loop's head, at the end, or with moves to make before either.
pub head_of :
    (pc : Pc)
    → live pc ≡ true
    → (pc ≡ reading) ⊎ ((r : Result ProtocolError (Unit {0})) × (pc ≡ returned r)) ⊎ (1 < rank pc)
unfolding live rank
head_of absent l = absurd (ground arith)
head_of reading l = inl refl
head_of (returned r) l = inr (inl (r, refl))
head_of pc l = inr (inr (omega arith))

pub busy-ne-reading : (pc : Pc) → 1 < rank pc → pc ≢ reading
unfolding rank
busy-ne-reading pc deep at =
    let none_left : 1 < 1 = subst (λ k. 1 < rank k) at deep in absurd (omega arith)

module _ (c : NetCrates) (S : ObjectStore) (config : Config) where
  abbrev pub next : Pc → Session S → Pc × Session S
  next pc s = advance c S config (pc, s)

  -- A move that reads nothing and leads to a lower rank.
  pub record Near (s : Session S) (n : ℕ) (x : Pc × Session S) : Type 0 where
    pub reader : x.1.reader ≡ s.reader
    pub lower : rank x.0 < n
    pub lives : live x.0 ≡ true

  send-Near :
      (msg : Message) (pc : Pc) (s : Session S) (n : ℕ)
      → rank pc < n
      → live pc ≡ true
      → Near s n (settle c S config ((send c S msg >> pure pc) s))
  unfolding send rank live
  send-Near msg pc s n h l = elim (Result-cases (send c S msg s).0) [
    | inl (u, e) ↦ rw e (record { reader = refl; lower = h; lives = l })
    | inr (x, e) ↦ rw e (record { reader = refl; lower = omega arith; lives = refl })
  ]

  on_peers-Near :
      (r : Result PeersError (Unit {0})) (pc : Pc) (s : Session S) (known : Peers) (n : ℕ)
      → rank pc < n
      → 1 < n
      → live pc ≡ true
      → Near s n (elim r as (λ _. Pc) [ ok _ ↦ pc | err e ↦ reading ], record s { peers = known })
  unfolding rank live
  on_peers-Near (ok u) pc s known n h k l = record { reader = refl; lower = h; lives = l }
  on_peers-Near (err e) pc s known n h k l = record { reader = refl; lower = k; lives = refl }

  pub near : (pc : Pc) (s : Session S) → live pc ≡ true → 1 < rank pc → Near s (rank pc) (next pc s)
  unfolding move rank live send_peers store_get store_has store_put send_object seek on_peers
  near absent s l h = absurd (ground arith)
  near reading s l h = absurd (omega arith)
  near (returned r) s l h = absurd (omega arith)
  near answering s l h =
      let k = send-Near _ reading _ 2 (omega arith) refl in
      record { reader = k.reader; lower = k.lower; lives = k.lives }
  near (getting i) s l h = elim (Result-cases (S.get s.store i)) [
    | inr (x, e) ↦ rw e (record { reader = refl; lower = omega arith; lives = refl })
    | inl (none, e) ↦ rw e (record { reader = refl; lower = omega arith; lives = refl })
    | inl (some bytes, e) ↦ elim (Result-cases (build_object c.raw_from_string i bytes)) [
      | inr (x, f) ↦ rw (e, f) (record { reader = refl; lower = omega arith; lives = refl })
      | inl (m, f) ↦ rw (e, f) (send-Near m reading s 2 (omega arith) refl)
    ]
  ]
  near (checking i) s l h = elim (Result-cases (S.has s.store i)) [
    | inr (x, e) ↦ rw e (record { reader = refl; lower = omega arith; lives = refl })
    | inl (true, e) ↦ rw e (record { reader = refl; lower = omega arith; lives = refl })
    | inl (false, e) ↦ rw e (send-Near (build_get_object i) reading s 2 (omega arith) refl)
  ]
  near (asking id raw) s l h = elim (Result-cases (S.has s.store id)) [
    | inr (x, e) ↦ rw e (record { reader = refl; lower = omega arith; lives = refl })
    | inl (true, e) ↦ rw e (record { reader = refl; lower = omega arith; lives = refl })
    | inl (false, e) ↦ rw e (record { reader = refl; lower = omega arith; lives = refl })
  ]
  near (storing id raw) s l h = elim (Result-cases (S.put s.store id raw).0) [
    | inr (x, e) ↦ rw e (record { reader = refl; lower = omega arith; lives = refl })
    | inl (old, e) ↦ rw e (record { reader = refl; lower = omega arith; lives = refl })
  ]
  near (importing []) s l h = record { reader = refl; lower = omega arith; lives = refl }
  near (importing (p ∷ ps)) s l h = elim (Bool-cases (contains s.peers.map p)) [
    | inl old ↦ rw old (record { reader = refl; lower = omega arith; lives = refl })
    | inr new ↦ rw new (record { reader = refl; lower = omega arith; lives = refl })
  ]
  near (inserting p ps) s l h = record { reader = refl; lower = omega arith; lives = refl }
  near (opening p ps) s l h = on_peers-Near _ (writing p ps) s _ _ (omega arith) h refl
  near (writing p ps) s l h = on_peers-Near _ (ending p ps) s _ _ (omega arith) h refl
  near (ending p ps) s l h = on_peers-Near _ (importing ps) s _ _ (omega arith) h refl

  -- A state from which the stream is the same.
  record Same (s : Session S) (x : Pc × Session S) : Type 0 where
    reader : x.1.reader ≡ s.reader
    lives : live x.0 ≡ true

  send-Same :
      (msg : Message) (pc : Pc) (s : Session S)
      → live pc ≡ true
      → Same s (settle c S config ((send c S msg >> pure pc) s))
  unfolding send live
  send-Same msg pc s l = elim (Result-cases (send c S msg s).0) [
    | inl (u, e) ↦ rw e (record { reader = refl; lives = l })
    | inr (x, e) ↦ rw e (record { reader = refl; lives = refl })
  ]

  take_up-Same :
      (id raw : Text) (s : Session S) → Same s (settle c S config (take_up c S config id raw s))
  unfolding take_up live
  take_up-Same id raw s = elim (Result-cases (c.json.from_slice raw)) [
    | inr (x, e) ↦ rw e (record { reader = refl; lives = refl })
    | inl (v, e) ↦ elim (Result-cases (ensure_object_field v)) [
      | inr (x, e1) ↦ rw (e, e1) (record { reader = refl; lives = refl })
      | inl (inner, e1) ↦ elim (Result-cases (compute_object_id c.json c.hex_digest v)) [
        | inr (x, e2) ↦ rw (e, e1, e2) (record { reader = refl; lives = refl })
        | inl (computed, e2) ↦ elim (Bool-cases (text_eq computed id)) [
          | inr e3 ↦
              rw (e, e1, e2, e3)
                (send-Same (mismatch c S config id computed) (returned (ok tt)) s refl)
          | inl e3 ↦ rw (e, e1, e2, e3) (record { reader = refl; lives = refl })
        ]
      ]
    ]
  ]

  dispatch-Same :
      (m : Message) (s : Session S) → Same s (settle c S config (dispatch c S config m s))
  unfolding dispatch live
  dispatch-Same (object i raw) s = take_up-Same i raw s
  dispatch-Same get_peers s = record { reader = refl; lives = refl }
  dispatch-Same (peers ps) s = record { reader = refl; lives = refl }
  dispatch-Same (error name msg) s = record { reader = refl; lives = refl }
  dispatch-Same (hello port user_agent) s = record { reader = refl; lives = refl }
  dispatch-Same (get_object i) s = record { reader = refl; lives = refl }
  dispatch-Same (got_object i) s = record { reader = refl; lives = refl }
  dispatch-Same unknown s = record { reader = refl; lives = refl }

  closing_ends :
      (e : ProtocolError) (s : Session S)
      → (r : Result ProtocolError (Unit {0})) × ((settle c S config (closing c S e s)).0
          ≡ returned r)
  unfolding closing
  closing_ends e s = elim (Result-cases (send c S (from_error e) s).0) [
    | inl (u, h) ↦ (ok tt, rw h refl)
    | inr (x, h) ↦ (err x, rw h refl)
  ]

  -- After an error of `read_frame` the connection has returned.
  begin_ends :
      (e : ProtocolError) (s : Session S)
      → (r : Result ProtocolError (Unit {0})) × ((settle c S config (begin c S config (err e) s)).0
          ≡ returned r)
  unfolding begin
  begin_ends invalid_format s = closing_ends invalid_format s
  begin_ends oversized_frame s = closing_ends oversized_frame s
  begin_ends invalid_handshake s = (_, refl)
  begin_ends connection_closed s = (_, refl)
  begin_ends (io e) s = (_, refl)
  begin_ends (storage e) s = (_, refl)

  -- Every move leads nearer to the end: the connection returns, or has taken a byte of its
  -- stream, or is nearer to the loop's head.
  pub data Progress (pc : Pc) (s : Session S) (x : Pc × Session S) : Type 0 where
    ended : (r : Result ProtocolError (Unit {0})) → x.0 ≡ returned r → Progress pc s x
    reads :
        live x.0 ≡ true → length x.1.reader.incoming < length s.reader.incoming → Progress pc s x
    nears : live x.0 ≡ true → x.1.reader ≡ s.reader → rank x.0 < rank pc → Progress pc s x

  begin-Progress :
      (r : Result ProtocolError Message) (s t : Session S)
      → ((m : Message) → r ≡ ok m → length t.reader.incoming < length s.reader.incoming)
      → Progress reading s (settle c S config (begin c S config r t))
  unfolding begin
  begin-Progress (ok m) s t shorter =
      let k = dispatch-Same m t in
      reads k.lives
        (subst (λ r. length r.incoming < length s.reader.incoming) (sym k.reader) (shorter m refl))
  begin-Progress (err e) s t shorter = let (r, h) = begin_ends e t in ended r h

  read_on-Progress : (s : Session S) → Progress reading s (settle c S config (read_on c S config s))
  unfolding read_on receive
  read_on-Progress s =
      begin-Progress (receive c S s).0 s (receive c S s).1
        (λ m e. (read_frame_progress c s.reader m e).0)

  pub move-Progress : (pc : Pc) (s : Session S) → live pc ≡ true → Progress pc s (next pc s)
  unfolding move rank live
  move-Progress absent s l = absurd (ground arith)
  move-Progress reading s l = read_on-Progress s
  move-Progress (returned r) s l = ended r refl
  move-Progress pc s l = let k = near pc s l (omega arith) in nears k.lives k.reader k.lower
