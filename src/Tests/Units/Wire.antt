-- ===== src/Tests/Units/Wire.antt =====
-- The JSON and the text of a message, and crates with a parser of the texts of given messages.
use utx0_node.Base.{
  Bool, true, false, ◌==◌, ◌&&◌, ◌||◌, ℕ, some, Text, Bytes, lit, List, [], ◌∷◌, ◌++◌, Result, ok,
  err, ◌>>=◌, ok_or, text_eq, if◌then◌else◌,
}
use utx0_node.Json.{Items, object, number, string, array, nil, cons, end, entry, get, as_str}
use utx0_node.Message.{Message, hello, peers, get_peers, error, unknown}
use utx0_node.Net.Crates.{NetCrates}
use utx0_node.Net.Handshake.{Halves}
use utx0_node.Peer.{Peer}
use utx0_node.Std.Decimal
use utx0_node.Std.Sink.{Sink}
use utx0_node.Std.Trim.{trim}
use utx0_node.Tests.Fixtures.{Json, json, parse_in, field, quote, crates}
use utx0_node.Tests.Network.{stream}

abbrev json_of_peers : List Peer → Items ℕ
json_of_peers [] = nil
json_of_peers (p ∷ ps) =
    cons (object (field (lit "host") p.host (entry (lit "port") (number p.port) end)))
      (json_of_peers ps)

abbrev pub json_of : Message → Json
json_of (hello port user_agent) = object (
    field (lit "type") (lit "Hello")
      (entry (lit "port") (number port) (field (lit "user_agent") user_agent end)))
json_of (error name msg) =
    object (field (lit "type") (lit "Error") (field (lit "name") name (field (lit "msg") msg end)))
json_of (peers ps) =
    object (field (lit "type") (lit "Peers") (entry (lit "peers") (array (json_of_peers ps)) end))
json_of get_peers = object (field (lit "type") (lit "GetPeers") end)
json_of _ = object (field (lit "type") (lit "Foobar") end)

abbrev text_of_peer : Peer → Text
text_of_peer p =
    lit "{\"host\":"
    ++ (quote p.host ++ (lit ",\"port\":" ++ (Decimal.to_string p.port ++ lit "}")))

abbrev text_of_peers : List Peer → Text
text_of_peers [] = []
text_of_peers (p ∷ []) = text_of_peer p
text_of_peers (p ∷ q ∷ ps) = text_of_peer p ++ (lit "," ++ text_of_peers (q ∷ ps))

abbrev pub text_of : Message → Text
text_of (hello port user_agent) =
    lit "{\"type\":\"Hello\",\"port\":"
    ++ (Decimal.to_string port ++ (lit ",\"user_agent\":" ++ (quote user_agent ++ lit "}")))
text_of (error name msg) =
    lit "{\"type\":\"Error\",\"name\":"
    ++ (quote name ++ (lit ",\"msg\":" ++ (quote msg ++ lit "}")))
text_of (peers ps) = lit "{\"type\":\"Peers\",\"peers\":[" ++ (text_of_peers ps ++ lit "]}")
text_of get_peers = lit "{\"type\":\"GetPeers\"}"
text_of _ = lit "{\"type\":\"Foobar\"}"

peer_of : Json → Result Text Peer
unfolding get
peer_of v = elim (get (lit "host") v) [
  | some (string host) ↦ elim (get (lit "port") v) [
    | some (number port) ↦ ok (record { host = host; port = port })
    | _ ↦ err (lit "missing field")
  ]
  | _ ↦ err (lit "missing field")
]

peers_of : Items ℕ → Result Text (List Peer)
unfolding peer_of
peers_of nil = ok []
peers_of (cons v items) = do p ← peer_of v; ps ← peers_of items; ok (p ∷ ps)

unfoldable pub message_of : Json → Result Text Message
unfolding get as_str peers_of
message_of v = do
  typ ← ok_or (lit "missing field") (get (lit "type") v)
  name ← ok_or (lit "invalid type") (as_str typ)
  if text_eq name (lit "Hello")
      then elim (get (lit "port") v) [
        | some (number port) ↦ elim (get (lit "user_agent") v) [
          | some (string user_agent) ↦ ok (hello port user_agent)
          | _ ↦ err (lit "missing field")
        ]
        | _ ↦ err (lit "missing field")
      ]
      else if text_eq name (lit "Error")
      then elim (get (lit "name") v) [
        | some (string name) ↦ elim (get (lit "msg") v) [
          | some (string msg) ↦ ok (error name msg)
          | _ ↦ err (lit "missing field")
        ]
        | _ ↦ err (lit "missing field")
      ]
      else if text_eq name (lit "Peers")
      then elim (get (lit "peers") v) [
        | some (array items) ↦ do ps ← peers_of items; ok (peers ps)
        | _ ↦ err (lit "missing field")
      ]
      else if text_eq name (lit "GetPeers")
      then ok get_peers
      else ok unknown

abbrev pub texts_of : List Message → List (Text × Json)
texts_of [] = []
texts_of (m ∷ ms) = (text_of m, json_of m) ∷ texts_of ms

-- The crates, with a parser of the texts of these messages.
abbrev pub wire : List Message → NetCrates
wire messages = record crates {
  json = record json { from_slice = λ text. parse_in (texts_of messages) (trim text) };
  message_from_value = message_of;
  message_to_string = λ m. ok (text_of m);
}

abbrev pub empty : Sink
empty = record { content = []; outcomes = [] }

-- `serde_json::from_str` of the text of a message.
unfoldable pub read_back : List Message → Text → Result Text Message
unfolding message_of
read_back messages text = do v ← parse_in (texts_of messages) (trim text); message_of v

abbrev pub fresh : Bytes → Halves
fresh bytes = record { reader = stream bytes; writer = empty }

abbrev pub line_of : Message → Bytes
line_of m = text_of m ++ lit "\n"

-- `str::contains`
starts_with : Text → Text → Bool
starts_with text [] = true
starts_with [] (b ∷ pattern) = false
starts_with (a ∷ text) (b ∷ pattern) = (a == b) && starts_with text pattern

unfoldable pub contains : Text → Text → Bool
unfolding starts_with
contains [] pattern = starts_with [] pattern
contains (a ∷ text) pattern = starts_with (a ∷ text) pattern || contains text pattern
