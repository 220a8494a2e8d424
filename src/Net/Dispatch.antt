-- ===== src/Net/Dispatch.antt =====
-- src/net/dispatch.rs: the message loop of a connection. The proofs are in the modules below.
pub mod Replies
pub mod Imports
pub mod Loop
mod Received
pub mod Objects
pub mod Closing
pub mod Contents
pub mod Answers
pub mod Agrees
pub mod Moves
use utx0_node.Base.{
  ℕ, zero, suc, ◌+◌, Bool, true, false, not, Option, none, some, Text, Bytes, lit, List, [], ◌∷◌,
  ◌++◌, Result, ok, err, map_err, text_eq, if◌then◌else◌,
}
use utx0_node.Canonical.{ensure_object_field, compute_object_id}
use utx0_node.Config.{Config}
use utx0_node.Errors.{
  ProtocolError, invalid_format, invalid_handshake, io, connection_closed, oversized_frame, storage,
}
use utx0_node.Errors.Report.{from_error}
use utx0_node.Exec.{Exec, ◌>>=◌, ◌>>◌, pure, lift}
use utx0_node.Message
use utx0_node.Message.{
  Message, hello, peers, get_peers, get_object, got_object, object, error, unknown, mk_peers,
  mk_error, build_get_object, build_object,
}
use utx0_node.Net.Crates.{NetCrates}
use utx0_node.Net.Framing.{Reader, read_frame, write_frame}
use utx0_node.Peer.{Peer, peer_eq}
use utx0_node.State.Peers.{Peers, PeersError, contains, append_peer}
use utx0_node.Std.Sink.{Sink}
use utx0_node.Storage.{ObjectStore}

abbrev pub max_peers_per_reply : ℕ
max_peers_per_reply = 10

-- `.filter(|p| !config.banned_hosts.contains(p))`
pub without_banned : Config → List Peer → List Peer
unfolding contains
without_banned config [] = []
without_banned config (p ∷ ps) =
    let rest = without_banned config ps in if contains config.banned_hosts p then rest else p ∷ rest

-- `candidates.truncate(n)`
pub truncate : ℕ → List Peer → List Peer
truncate zero ps = []
truncate (suc n) [] = []
truncate (suc n) (p ∷ ps) = p ∷ truncate n ps

-- `candidates.retain(|p| p != &me)`
pub retain_other : Peer → List Peer → List Peer
retain_other me [] = []
retain_other me (p ∷ ps) = let rest = retain_other me ps in if peer_eq p me then rest else p ∷ rest

abbrev pub me : Config → Peer
me config = record { host = config.my_host; port = config.port }

-- `shuffle` is the order that this draw gives.
unfoldable pub pick_and_build_peers : (List Peer → List Peer) → Config → List Peer → List Peer
unfolding without_banned truncate retain_other
pick_and_build_peers shuffle config peers_map =
    let candidates = truncate max_peers_per_reply (shuffle (without_banned config peers_map)) in
    if config.public_node then me config ∷ retain_other (me config) candidates else candidates

-- The loop stops at the first peer that cannot be stored.
unfoldable pub append_each : List Peer → Exec Peers PeersError (Unit {0})
append_each [] = pure tt
append_each (p ∷ ps) = do append_peer p; append_each ps

unfoldable pub import_peers : Config → List Peer → Exec Peers PeersError (Unit {0})
unfolding append_each without_banned
import_peers config incoming = append_each (without_banned config incoming)

-- What a connection works on: its two halves, the peers and the store, and the number of draws
-- from the generator so far.
pub record Session (S : ObjectStore) : Type 0 where
  pub reader : Reader
  pub writer : Sink
  pub peers : Peers
  pub store : S.State
  pub draws : ℕ

-- Whether the loop goes on, or the function returns `Ok(())`.
pub data Control : Type 0 where
  go_on close : Control

abbrev pub Step : ObjectStore → Type 0 → Type 0
Step S A = Exec (Session S) ProtocolError A

module _ (c : NetCrates) (S : ObjectStore) where
  -- `write_frame(&mut writer, &msg).await?`
  pub send : Message → Step S (Unit {0})
  send msg s = let (r, writer) = write_frame c msg s.writer in (r, record s { writer = writer })

  -- `read_frame(&mut reader).await`
  pub receive : Session S → Result ProtocolError Message × Session S
  receive s = let (r, reader) = read_frame c s.reader in (r, record s { reader = reader })

  -- `store.has(id)?` and `store.get(id)?`
  pub store_has : Text → Step S Bool
  store_has id s = (map_err storage (S.has s.store id), s)

  pub store_get : Text → Step S (Option Bytes)
  store_get id s = (map_err storage (S.get s.store id), s)

  -- `store.put(id, bytes)?`
  pub store_put : Text → Bytes → Step S (Option Bytes)
  store_put id bytes s =
      let (r, store) = S.put s.store id bytes in (map_err storage r, record s { store = store })

  module _ (config : Config) where
    pub send_peers : Step S (Unit {0})
    unfolding send
    send_peers s =
        send (mk_peers (pick_and_build_peers (c.shuffle s.draws) config s.peers.map))
          (record s { draws = s.draws + 1 })

    -- An error of `import_peers` is only logged.
    pub store_peers : List Peer → Step S (Unit {0})
    store_peers ps s = (ok tt, record s { peers = (import_peers config ps s.peers).1 })

    pub send_object : Text → Option Bytes → Step S (Unit {0})
    unfolding send
    send_object object_id none = pure tt
    send_object object_id (some bytes) = do
      reply ← lift (build_object c.raw_from_string object_id bytes)
      send reply

    pub mismatch : Text → Text → Message
    mismatch claimed_id computed_id =
        mk_error (lit "INVALID_FORMAT")
          (lit "object_id mismatch: claimed " ++ (claimed_id ++ (lit ", computed " ++ computed_id)))

    -- The object's raw text is stored under its id.
    pub receive_object : Text → Text → Step S Control
    unfolding send store_has store_put mismatch
    receive_object claimed_id raw_json = do
      v ← lift (map_err (λ _. invalid_format) (c.json.from_slice raw_json))
      inner ← lift (ensure_object_field v)
      computed_id ← lift (map_err (λ _. invalid_format) (compute_object_id c.json c.hex_digest v))
      if not (text_eq computed_id claimed_id)
          then (do send (mismatch claimed_id computed_id); pure close)
          else (do
            known ← store_has computed_id
            if known then pure go_on else (do old ← store_put computed_id raw_json; pure go_on))

    -- `match msg`
    unfoldable pub handle : Message → Step S Control
    unfolding send_peers store_peers send_object receive_object send store_has store_get
    handle get_peers = do send_peers; pure go_on
    handle (peers ps) = do store_peers ps; pure go_on
    handle (error name msg) = pure go_on
    handle (hello port user_agent) = pure go_on
    handle (get_object object_id) = do
      found ← store_get object_id
      send_object object_id found
      pure go_on
    handle (got_object object_id) = do
      known ← store_has object_id
      if known then pure go_on else (do send (build_get_object object_id); pure go_on)
    handle (object claimed_id raw) = receive_object claimed_id raw
    handle unknown = pure go_on

    report : ProtocolError → Step S Control
    unfolding send
    report e = do send (from_error e); pure close

    -- The outcome of `read_frame`: a message, an error that is reported to the peer, or another.
    pub react : Result ProtocolError Message → Step S Control
    unfolding handle report
    react (ok m) = handle m
    react (err invalid_format) = report invalid_format
    react (err oversized_frame) = report oversized_frame
    react (err e) = lift (err e)

    -- One round of the loop.
    unfoldable pub round : Step S Control
    unfolding receive react
    round s = let (r, s') = receive s in react r s'

    -- The loop, with fuel for its rounds; `none` means that the fuel ran out.
    unfoldable pub run_message_loop :
        ℕ → Session S → Option (Result ProtocolError (Unit {0}) × Session S)
    run_message_loop zero s = none
    run_message_loop (suc fuel) s =
        let (r, s') = round s in
        let rest = run_message_loop fuel s' in
        elim r [
          | ok control ↦ elim control [ go_on ↦ rest | close ↦ some (ok tt, s') ]
          | err e ↦ some (err e, s')
        ]
