-- ===== src/Message.antt =====
-- src/protocol/message.rs: the messages, their builders and their comparison.
pub mod Equality
use utx0_node.Base.{
  ℕ, Bool, true, false, ◌&&◌, Option, Text, Bytes, List, [], ◌∷◌, Result, ok, err, ◌>>=◌, ok_or,
  text_eq, ◌==◌, if◌then◌else◌,
}
use utx0_node.Errors.{ProtocolError, invalid_format}
use utx0_node.Peer.{Peer, peer_eq}
use utx0_node.Std.Utf8.{is_utf8}

-- The raw JSON of an object is kept as its text.
pub data Message : Type 0 where
  hello : ℕ → Text → Message
  peers : List Peer → Message
  get_peers : Message
  get_object : Text → Message
  got_object : Text → Message
  object : Text → Text → Message
  error : Text → Text → Message
  unknown : Message

abbrev pub mk_hello : ℕ → Text → Message
mk_hello port user_agent = hello port user_agent

abbrev pub mk_peers : List Peer → Message
mk_peers ps = peers ps

abbrev pub mk_getpeers : Message
mk_getpeers = get_peers

abbrev pub mk_error : Text → Text → Message
mk_error name msg = error name msg

abbrev pub build_get_object : Text → Message
build_get_object object_id = get_object object_id

abbrev pub build_got_object : Text → Message
build_got_object object_id = got_object object_id

-- `raw_from_string` is `RawValue::from_string`.
unfoldable pub build_object : (Text → Option Text) → Text → Bytes → Result ProtocolError Message
build_object raw_from_string object_id bytes = do
  s ← if is_utf8 bytes then ok bytes else err invalid_format
  raw ← ok_or invalid_format (raw_from_string s)
  ok (object object_id raw)

unfoldable pub peers_eq : List Peer → List Peer → Bool
peers_eq [] [] = true
peers_eq (p ∷ ps) (q ∷ qs) = peer_eq p q && peers_eq ps qs
peers_eq _ _ = false

-- `PartialEq for Message`
unfoldable pub message_eq : Message → Message → Bool
unfolding peers_eq
message_eq (hello a1 u1) (hello a2 u2) = a1 == a2 && text_eq u1 u2
message_eq (peers p1) (peers p2) = peers_eq p1 p2
message_eq get_peers get_peers = true
message_eq unknown unknown = true
message_eq (get_object i1) (get_object i2) = text_eq i1 i2
message_eq (got_object i1) (got_object i2) = text_eq i1 i2
message_eq (error n1 m1) (error n2 m2) = text_eq n1 n2 && text_eq m1 m2
message_eq (object id1 o1) (object id2 o2) = text_eq id1 id2 && text_eq o1 o2
message_eq _ _ = false
