-- ===== src/Net/Dispatch/Moves.antt =====
-- src/net/dispatch.rs between two uses of what the connections share: where the loop of one
-- connection stands, and its moves. The node with all its connections is in the module Together.
pub mod Alone
pub mod Together
pub mod Sound
mod Effects
mod Progress
pub mod Stored
pub mod Agrees
pub mod Allowed
pub mod Ends
pub mod Torn
use utx0_node.Base.{
  ℕ, zero, suc, not, Text, lit, List, [], ◌∷◌, Result, ok, err, map_err, text_eq, if◌then◌else◌,
}
use utx0_node.Canonical.{ensure_object_field, compute_object_id}
use utx0_node.Config.{Config}
use utx0_node.Errors.{ProtocolError, invalid_format, oversized_frame}
use utx0_node.Errors.Report.{from_error}
use utx0_node.Exec.{Exec, ◌>>=◌, ◌>>◌, pure, lift}
use utx0_node.Message.{
  Message, hello, peers, get_peers, get_object, got_object, object, error, unknown,
  build_get_object,
}
use utx0_node.Net.Crates.{NetCrates}
use utx0_node.Net.Dispatch.{
  Session, Step, Control, go_on, close, send, receive, store_has, store_get, store_put,
  without_banned, send_peers, send_object, mismatch,
}
use utx0_node.Peer.{Peer}
use utx0_node.State.Peers.{Peers, PeersError, contains, key, remember, on_file}
use utx0_node.Std.Sink.{write_all, touch}
use utx0_node.Storage.{ObjectStore}

-- Where the loop of a connection stands: what it does next, with the variables that are live.
pub data Pc : Type 0 where
  -- There is no such connection.
  absent : Pc
  -- At the head of the loop.
  reading : Pc
  -- Before `pick_and_build_peers`, `store.get`, and the `store.has` of a got_object message.
  answering : Pc
  getting : (object_id : Text) → Pc
  checking : (object_id : Text) → Pc
  -- Before the `store.has` and the `store.put` of an object message.
  asking : (computed_id raw_json : Text) → Pc
  storing : (computed_id raw_json : Text) → Pc
  -- In `import_peers`, with the candidates that are left: before `map.contains_key`,
  -- `map.insert`, `open`, and the two writes of `writeln!`.
  importing : (candidates : List Peer) → Pc
  inserting opening writing ending : (peer : Peer) → (candidates : List Peer) → Pc
  -- The loop has returned.
  returned : (result : Result ProtocolError (Unit {0})) → Pc

module _ (c : NetCrates) (S : ObjectStore) where
  -- An error of `append_peer` ends `import_peers`, and is only logged.
  on_peers : Exec Peers PeersError (Unit {0}) → Pc → Step S Pc
  on_peers call next s =
      let (r, known) = call s.peers in
      (ok (elim r [ ok _ ↦ next | err e ↦ reading ]), record s { peers = known })

  closing : ProtocolError → Step S Pc
  unfolding send
  closing e = do send c S (from_error e); pure (returned (ok tt))

  module _ (config : Config) where
    -- An object message, up to the first use of the store.
    take_up : Text → Text → Step S Pc
    unfolding send mismatch
    take_up claimed_id raw_json = do
      v ← lift (map_err (λ _. invalid_format) (c.json.from_slice raw_json))
      inner ← lift (ensure_object_field v)
      computed_id ← lift (map_err (λ _. invalid_format) (compute_object_id c.json c.hex_digest v))
      if not (text_eq computed_id claimed_id)
          then (do send c S (mismatch c S config claimed_id computed_id); pure (returned (ok tt)))
          else pure (asking computed_id raw_json)

    dispatch : Message → Step S Pc
    unfolding take_up without_banned
    dispatch get_peers = pure answering
    dispatch (peers ps) = pure (importing (without_banned config ps))
    dispatch (error name msg) = pure reading
    dispatch (hello port user_agent) = pure reading
    dispatch (get_object object_id) = pure (getting object_id)
    dispatch (got_object object_id) = pure (checking object_id)
    dispatch (object claimed_id raw) = take_up claimed_id raw
    dispatch unknown = pure reading

    pub begin : Result ProtocolError Message → Step S Pc
    unfolding dispatch closing
    begin (ok m) = dispatch m
    begin (err invalid_format) = closing invalid_format
    begin (err oversized_frame) = closing oversized_frame
    begin (err e) = lift (err e)

    read_on : Step S Pc
    unfolding receive begin
    read_on s = let (r, s') = receive c S s in begin r s'

    seek : List Peer → Step S Pc
    unfolding contains
    seek [] s = (ok reading, s)
    seek (p ∷ ps) s = (ok (if contains s.peers.map p then importing ps else inserting p ps), s)

    -- What the connection does up to its next use of the store, the map or the peers file.
    unfoldable pub move : Pc → Step S Pc
    unfolding read_on seek send_peers store_get store_has store_put send_object send on_peers
        remember on_file key
    move absent = pure absent
    move reading = read_on
    move answering = do send_peers c S config; pure reading
    move (getting object_id) = do
      found ← store_get c S object_id
      send_object c S config object_id found
      pure reading
    move (checking object_id) = do
      known ← store_has c S object_id
      if known then pure reading else (do send c S (build_get_object object_id); pure reading)
    move (asking computed_id raw_json) = do
      known ← store_has c S computed_id
      if known then pure reading else pure (storing computed_id raw_json)
    move (storing computed_id raw_json) = do old ← store_put c S computed_id raw_json; pure reading
    move (importing ps) = seek ps
    move (inserting p ps) = on_peers (remember p) (opening p ps)
    move (opening p ps) = on_peers (on_file touch) (writing p ps)
    move (writing p ps) = on_peers (on_file (write_all (key p))) (ending p ps)
    move (ending p ps) = on_peers (on_file (write_all (lit "\n"))) (importing ps)
    move (returned r) = pure (returned r)

    -- `?` returns the error.
    abbrev pub settle : Result ProtocolError Pc × Session S → Pc × Session S
    settle (ok pc, s) = (pc, s)
    settle (err e, s) = (returned (err e), s)

    abbrev pub advance : Pc × Session S → Pc × Session S
    advance (pc, s) = settle (move pc s)

    -- Moves with no other connection between them.
    unfoldable pub advances : ℕ → Pc × Session S → Pc × Session S
    unfolding move
    advances zero x = x
    advances (suc n) x = advances n (advance x)

    -- Where the outcome of a round leaves the loop.
    abbrev pub landed : Result ProtocolError Control × Session S → Pc × Session S
    landed (ok go_on, s) = (reading, s)
    landed (ok close, s) = (returned (ok tt), s)
    landed (err e, s) = (returned (err e), s)
