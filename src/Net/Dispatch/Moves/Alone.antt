-- ===== src/Net/Dispatch/Moves/Alone.antt =====
-- The moves of one connection, with no other connection between them, against the loop of
-- src/net/dispatch.rs.
use utx0_node.Base.{
  ℕ, zero, suc, ◌≡◌, refl, sym, subst, true, false, some, Text, lit, List, [], ◌∷◌, Result, ok, err,
  text_eq, if◌then◌else◌, Bool-cases, Result-cases, inl, inr, arith,
}
use utx0_node.Canonical.{ensure_object_field, compute_object_id}
use utx0_node.Config.{Config}
use utx0_node.Errors.{
  ProtocolError, invalid_format, invalid_handshake, io, connection_closed, oversized_frame, storage,
}
use utx0_node.Exec.{Exec, ◌>>=◌, ◌>>◌, pure}
use utx0_node.Message.{
  Message, hello, peers, get_peers, get_object, got_object, object, error, unknown,
}
use utx0_node.Net.Crates.{NetCrates}
use utx0_node.Net.Dispatch.{
  Session, Control, go_on, close, receive, store_has, store_put, append_each, import_peers, react,
  round, run_message_loop, report, handle, store_peers, receive_object, without_banned,
}
use utx0_node.Net.Dispatch.Moves.{
  Pc, reading, answering, getting, checking, asking, storing, importing, inserting, opening,
  writing, ending, returned, move, settle, advance, advances, landed, dispatch, begin, take_up,
  closing, read_on, on_peers,
}
use utx0_node.Peer.{Peer}
use utx0_node.State.Peers.{Peers, PeersError, contains, key, remember, on_file, append_peer, save}
use utx0_node.Std.Sink.{write_all, touch}
use utx0_node.Storage.{ObjectStore}

module _ (c : NetCrates) (S : ObjectStore) (config : Config) where
  abbrev go : Pc × Session S → Pc × Session S
  go = advance c S config

  abbrev land : Result ProtocolError Control × Session S → Pc × Session S
  land = landed c S config

  -- Some moves lead from one state of a connection to another.
  data Leads (y : Pc × Session S) : Pc × Session S → Type 0 where
    here : {x : Pc × Session S} → x ≡ y → Leads y x
    after : (x : Pc × Session S) → Leads y (go x) → Leads y x

  joined : {y z x : Pc × Session S} → Leads y x → Leads z y → Leads z x
  joined {y} {z} (here e) k = subst (Leads z) (sym e) k
  joined (after x l) k = after x (joined l k)

  one : (x : Pc × Session S) {y : Pc × Session S} → go x ≡ y → Leads y x
  one x e = after x (here e)

  answer-Leads : (s : Session S) → Leads (land (handle c S config get_peers s)) (answering, s)
  unfolding move handle
  answer-Leads s = one _ (ground arith)

  get-Leads :
      (i : Text) (s : Session S) → Leads (land (handle c S config (get_object i) s)) (getting i, s)
  unfolding move handle
  get-Leads i s = one _ (ground arith)

  check-Leads :
      (i : Text) (s : Session S) → Leads (land (handle c S config (got_object i) s)) (checking i, s)
  unfolding move handle
  check-Leads i s = one _ (ground arith)

  at : {x y z : Pc × Session S} → x ≡ y → Leads z y → Leads z x
  at {z} e l = subst (Leads z) (sym e) l

  ask-Leads :
      (id raw : Text) (s : Session S)
      → Leads
          (land (
            (do
              known ← store_has c S id
              if known then pure go_on else (do old ← store_put c S id raw; pure go_on))
              s))
          (asking id raw, s)
  unfolding move
  ask-Leads id raw s = elim (Result-cases (S.has s.store id)) [
    | inr (x, e) ↦ one _ (ground arith)
    | inl (true, e) ↦ one _ (ground arith)
    | inl (false, e) ↦ after _ (at {y = (storing id raw, s)} (ground arith) (one _ (ground arith)))
  ]

  object-Leads :
      (id raw : Text) (s : Session S)
      → Leads
          (land (receive_object c S config id raw s))
          (settle c S config (take_up c S config id raw s))
  unfolding take_up receive_object
  object-Leads id raw s = elim (Result-cases (c.json.from_slice raw)) [
    | inr (x, e) ↦ here (ground arith)
    | inl (v, e) ↦ elim (Result-cases (ensure_object_field v)) [
      | inr (x, e1) ↦ here (ground arith)
      | inl (inner, e1) ↦ elim (Result-cases (compute_object_id c.json c.hex_digest v)) [
        | inr (x, e2) ↦ here (ground arith)
        | inl (computed, e2) ↦ elim (Bool-cases (text_eq computed id)) [
          | inr e3 ↦ here (ground arith)
          | inl e3 ↦ rw (e, e1, e2, e3) (ask-Leads computed raw s)
        ]
      ]
    ]
  ]

  abbrev on : Exec Peers PeersError (Unit {0}) → List Peer → Session S → Pc × Session S
  unfolding on_peers
  on call ps s = settle c S config (on_peers c S call (importing ps) s)

  -- One call, and then the rest.
  call-Leads :
      (pc next : Pc) (call rest : Exec Peers PeersError (Unit {0})) (ps : List Peer)
      → ((s : Session S) → move c S config pc s ≡ on_peers c S call next s)
      → ((s : Session S) → Leads (on rest ps s) (next, s))
      → (s : Session S) → Leads (on (call >> rest) ps s) (pc, s)
  unfolding on_peers
  call-Leads pc next call rest ps its more s = elim (Result-cases (call s.peers).0) [
    | inr (x, e) ↦ one _ (ground (arith, its s))
    | inl (u, e) ↦ after _ (
        at (ground (arith, its s))
          (joined (more (record s { peers = (call s.peers).1 })) (here (ground arith))))
  ]

  save-Leads :
      (p : Peer) (ps : List Peer) (s : Session S) → Leads (on (save p) ps s) (inserting p ps, s)
  unfolding save move
  save-Leads p ps =
      let ends : Exec Peers PeersError (Unit {0}) = on_file (write_all (lit "\n")) in
      let writes : Exec Peers PeersError (Unit {0}) = on_file (write_all (key p)) >> ends in
      call-Leads (inserting p ps) (opening p ps) (remember p) (on_file touch >> writes) ps
        (λ s. refl)
        (call-Leads (opening p ps) (writing p ps) (on_file touch) writes ps (λ s. refl)
          (call-Leads (writing p ps) (ending p ps) (on_file (write_all (key p))) ends ps (λ s. refl)
            (λ s. one _ refl)))

  append-Leads :
      (p : Peer) (ps : List Peer) (s : Session S)
      → Leads (on (append_peer p) ps s) (importing (p ∷ ps), s)
  unfolding move append_peer on_peers
  append-Leads p ps s = elim (Bool-cases (contains s.peers.map p)) [
    | inl old ↦ one _ (ground arith)
    | inr new ↦ after _ (
        at {y = (inserting p ps, s)} (ground arith)
          (joined (save-Leads p ps s) (here (ground arith))))
  ]

  import-Leads :
      (ps : List Peer) (s : Session S)
      → Leads (land (ok go_on, record s { peers = (append_each ps s.peers).1 })) (importing ps, s)
  unfolding move append_each on_peers
  import-Leads [] s = one _ (ground arith)
  import-Leads (p ∷ ps) s = elim (Result-cases (append_peer p s.peers).0) [
    | inr (x, e) ↦ joined (append-Leads p ps s) (here (ground arith))
    | inl (u, e) ↦ joined (append-Leads p ps s) (
        at {y = (importing ps, record s { peers = (append_peer p s.peers).1 })} (ground arith) (
          joined (import-Leads ps (record s { peers = (append_peer p s.peers).1 }))
            (here (ground arith))))
  ]

  handle-Leads :
      (m : Message) (s : Session S)
      → Leads (land (handle c S config m s)) (settle c S config (dispatch c S config m s))
  unfolding dispatch handle store_peers import_peers
  handle-Leads get_peers s = answer-Leads s
  handle-Leads (peers ps) s = import-Leads (without_banned config ps) s
  handle-Leads (error name msg) s = here refl
  handle-Leads (hello port user_agent) s = here refl
  handle-Leads (get_object i) s = get-Leads i s
  handle-Leads (got_object i) s = check-Leads i s
  handle-Leads (object id raw) s = object-Leads id raw s
  handle-Leads unknown s = here refl

  react-Leads :
      (r : Result ProtocolError Message) (s : Session S)
      → Leads (land (react c S config r s)) (settle c S config (begin c S config r s))
  unfolding begin react closing report
  react-Leads (ok m) s = handle-Leads m s
  react-Leads (err invalid_format) s = here (ground arith)
  react-Leads (err oversized_frame) s = here (ground arith)
  react-Leads (err invalid_handshake) s = here refl
  react-Leads (err connection_closed) s = here refl
  react-Leads (err (io e)) s = here refl
  react-Leads (err (storage e)) s = here refl

  round-Leads : (s : Session S) → Leads (land (round c S config s)) (reading, s)
  unfolding move read_on round
  round-Leads s = after _ (react-Leads (receive c S s).0 (receive c S s).1)

  run-Leads :
      (fuel : ℕ) (s s' : Session S) (r : Result ProtocolError (Unit {0}))
      → run_message_loop c S config fuel s ≡ some (r, s')
      → Leads (returned r, s') (reading, s)
  unfolding run_message_loop
  run-Leads zero s s' r h = absurd (ground arith)
  run-Leads (suc fuel) s s' r h = elim (Result-cases (round c S config s).0) [
    | inl (go_on, e) ↦ joined (round-Leads s) (
        at {y = (reading, (round c S config s).1)} (ground arith)
          (run-Leads fuel (round c S config s).1 s' r (ground arith)))
    | inl (close, e) ↦ joined (round-Leads s) (here (ground arith))
    | inr (x, e) ↦ joined (round-Leads s) (here (ground arith))
  ]

  counted : {y x : Pc × Session S} → Leads y x → (n : ℕ) × (advances c S config n x ≡ y)
  unfolding advances
  counted (here e) = (zero, e)
  counted (after x l) = let (n, e) = counted l in (suc n, e)

  -- If the message loop, run by itself, returns, then a connection that starts at the loop's head
  -- and makes its moves with no other connection between them returns the same, and leaves the
  -- same stream, writer, peers, peers file and store.
  pub advances-run_message_loop :
      (fuel : ℕ) (s s' : Session S) (r : Result ProtocolError (Unit {0}))
      → run_message_loop c S config fuel s ≡ some (r, s')
      → (n : ℕ) × (advances c S config n (reading, s) ≡ (returned r, s'))
  advances-run_message_loop fuel s s' r h = counted (run-Leads fuel s s' r h)
