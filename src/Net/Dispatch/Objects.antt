-- ===== src/Net/Dispatch/Objects.antt =====
-- What the loop of src/net/dispatch.rs does to the store.
use utx0_node.Base.{
  Option, Bytes, ℕ, zero, suc, ◌≡◌, sym, subst, true, false, some, Result-cases, Text, Result, ok,
  err, inl, inr, arith,
}
use utx0_node.Canonical.{compute_object_id}
use utx0_node.Config.{Config}
use utx0_node.Errors.{
  ProtocolError, invalid_format, invalid_handshake, io, connection_closed, oversized_frame, storage,
}
use utx0_node.Json.{Value}
use utx0_node.Message.{
  Message, hello, peers, get_peers, get_object, got_object, object, error, unknown,
}
use utx0_node.Net.Crates.{NetCrates}
use utx0_node.Net.Dispatch.{
  Session, Control, send, go_on, close, handle, react, round, receive, run_message_loop,
}
use utx0_node.Net.Dispatch.Received.{
  Received, refused, unsent, mismatched, known, put, put_fails, receive_object-Received,
}
use utx0_node.Storage.{ObjectStore}

module _ (c : NetCrates) (S : ObjectStore) (config : Config) where
  -- What `receive_object` leaves in the store: the old state, or the state after one `put` of the
  -- raw text under the id that the text's own value has.
  pub data StoreChange (s : S.State) : S.State → Type 0 where
    unchanged : StoreChange s s
    stored :
        (v : Value c.json.Number) (id raw : Text)
        → c.json.from_slice raw ≡ ok v
        → compute_object_id c.json c.hex_digest v ≡ ok id
        → S.has s id ≡ ok false
        → StoreChange s (S.put s id raw).1

  same : {s t : S.State} → t ≡ s → StoreChange s t
  same {s} e = subst (StoreChange s) (sym e) unchanged

  Received-StoreChange :
      {id raw : Text} {s : Session S} {r : Result ProtocolError Control × Session S}
      → Received c S config id raw s r
      → StoreChange s.store r.1.store
  unfolding send
  Received-StoreChange (refused e) = unchanged
  Received-StoreChange (unsent computed e h) = unchanged
  Received-StoreChange (mismatched computed h) = unchanged
  Received-StoreChange (known its h) = unchanged
  Received-StoreChange {id} {raw} (put its h old e) =
      stored its.value id raw its.parsed its.hashed h
  Received-StoreChange {id} {raw} (put_fails its h e) =
      stored its.value id raw its.parsed its.hashed h

  -- What an object message on which the loop goes on has found and done: the store had an object
  -- under the claimed id, or has it now.
  pub data Accepted (id raw : Text) (s : S.State) : S.State → Type 0 where
    held : S.has s id ≡ ok true → Accepted id raw s s
    taken :
        S.has s id ≡ ok false
        → (old : Option Bytes) → (S.put s id raw).0 ≡ ok old
        → Accepted id raw s (S.put s id raw).1

  Received-Accepted :
      {id raw : Text} {s : Session S} {r : Result ProtocolError Control × Session S}
      → Received c S config id raw s r
      → r.0 ≡ ok go_on
      → Accepted id raw s.store r.1.store
  Received-Accepted (refused e) h = absurd (ground arith)
  Received-Accepted (unsent computed e f) h = absurd (ground arith)
  Received-Accepted (mismatched computed f) h = absurd (ground arith)
  Received-Accepted (known its e) h = held e
  Received-Accepted (put its e old f) h = taken e old f
  Received-Accepted (put_fails its e x) h = absurd (ground arith)

  pub handle-Accepted :
      (id raw : Text) (s : Session S)
      → (handle c S config (object id raw) s).0 ≡ ok go_on
      → Accepted id raw s.store (handle c S config (object id raw) s).1.store
  unfolding handle
  handle-Accepted id raw s h = Received-Accepted (receive_object-Received c S config id raw s) h

  pub handle-StoreChange :
      (m : Message) (s : Session S) → StoreChange s.store (handle c S config m s).1.store
  unfolding handle
  handle-StoreChange get_peers s = same (ground arith)
  handle-StoreChange (peers ps) s = same (ground arith)
  handle-StoreChange (error name msg) s = unchanged
  handle-StoreChange (hello port user_agent) s = unchanged
  handle-StoreChange (get_object i) s = same (ground arith)
  handle-StoreChange (got_object i) s = same (ground arith)
  handle-StoreChange (object i raw) s =
      Received-StoreChange (receive_object-Received c S config i raw s)
  handle-StoreChange unknown s = unchanged

  react-StoreChange :
      (r : Result ProtocolError Message) (s : Session S)
      → StoreChange s.store (react c S config r s).1.store
  unfolding react
  react-StoreChange (ok m) s = handle-StoreChange m s
  react-StoreChange (err invalid_format) s = same (ground arith)
  react-StoreChange (err oversized_frame) s = same (ground arith)
  react-StoreChange (err invalid_handshake) s = unchanged
  react-StoreChange (err connection_closed) s = unchanged
  react-StoreChange (err (io e)) s = unchanged
  react-StoreChange (err (storage e)) s = unchanged

  round-StoreChange : (s : Session S) → StoreChange s.store (round c S config s).1.store
  unfolding round receive
  round-StoreChange s = react-StoreChange (receive c S s).0 (receive c S s).1

  -- The changes of several rounds.
  pub data StoreChanges : S.State → S.State → Type 0 where
    done : (s : S.State) → StoreChanges s s
    then_more : {s t u : S.State} → StoreChange s t → StoreChanges t u → StoreChanges s u

  one_more : {s t u : S.State} → StoreChange s t → t ≡ u → StoreChanges s u
  one_more {s} {t} {u} d e = then_more (subst (StoreChange s) e d) (done u)

  pub run-StoreChanges :
      (fuel : ℕ) (s s' : Session S) (r : Result ProtocolError (Unit {0}))
      → run_message_loop c S config fuel s ≡ some (r, s')
      → StoreChanges s.store s'.store
  unfolding run_message_loop
  run-StoreChanges zero s s' r h = absurd (ground arith)
  run-StoreChanges (suc fuel) s s' r h = elim (Result-cases (round c S config s).0) [
    | inl (go_on, e) ↦
        then_more (round-StoreChange s)
          (run-StoreChanges fuel (round c S config s).1 s' r (ground arith))
    | inl (close, e) ↦ one_more (round-StoreChange s) (ground arith)
    | inr (x, e) ↦ one_more (round-StoreChange s) (ground arith)
  ]
