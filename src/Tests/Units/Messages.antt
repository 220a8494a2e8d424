-- ===== src/Tests/Units/Messages.antt =====
-- The unit tests of src/protocol/message.rs on the JSON of messages, with the crates of Wire.
use utx0_node.Base.{
  ◌≡◌, refl, true, Text, lit, List, [], ◌∷◌, ◌++◌, Result, ok, err, ◌>>=◌, text_eq,
}
use utx0_node.Json.{get, as_str, object, string, entry, end}
use utx0_node.Message.{
  Message, hello, peers, get_peers, error, mk_hello, mk_peers, mk_getpeers, mk_error, message_eq,
}
use utx0_node.Net.Crates.{NetCrates}
use utx0_node.Peer.{peer_eq}
use utx0_node.Std.Decimal
use utx0_node.Std.Trim.{trim}
use utx0_node.Tests.Fixtures.{json, parse_in}
use utx0_node.Tests.Units.Wire.{wire, message_of, contains}

-- `serde_json::from_str`
from_str : (c : NetCrates) → Text → Result c.Error Message
from_str c text = do v ← c.json.from_slice text; c.message_from_value v

-- A message is written, read back, and compared with what is read.
BackAndForth : NetCrates → Message → Type 0
BackAndForth c m =
    (text : Text) × (decoded : Message) × (c.message_to_string m ≡ ok text)
    × (from_str c text ≡ ok decoded)
    × (message_eq m decoded ≡ true)

abbrev a_hello : Message
a_hello = hello 8333 (lit "utx0/rust-v0.0")

TestBackAndForthHello : NetCrates → Type 0
TestBackAndForthHello c = BackAndForth c a_hello

TestBackAndForthHello-passes : TestBackAndForthHello (wire (a_hello ∷ []))
unfolding TestBackAndForthHello BackAndForth from_str message_of get as_str message_eq trim text_eq
    Decimal.to_string
TestBackAndForthHello-passes = (_, _, refl, refl, refl)

abbrev some_peers : Message
some_peers = peers (
    record { host = lit "127.0.0.1"; port = 18018 }
    ∷ record { host = lit "node.peer.com"; port = 18018 }
    ∷ [])

TestBackAndForthPeers : NetCrates → Type 0
TestBackAndForthPeers c = BackAndForth c some_peers

TestBackAndForthPeers-passes : TestBackAndForthPeers (wire (some_peers ∷ []))
unfolding TestBackAndForthPeers BackAndForth from_str message_of get as_str message_eq peer_eq trim
    text_eq Decimal.to_string
TestBackAndForthPeers-passes = (_, _, refl, refl, refl)

TestBackAndForthGetpeers : NetCrates → Type 0
TestBackAndForthGetpeers c = BackAndForth c get_peers

TestBackAndForthGetpeers-passes : TestBackAndForthGetpeers (wire (get_peers ∷ []))
unfolding TestBackAndForthGetpeers BackAndForth from_str message_of get as_str message_eq trim
    text_eq
TestBackAndForthGetpeers-passes = (_, _, refl, refl, refl)

abbrev an_error : Message
an_error = error (lit "INVALID_FORMAT") (lit "The format is invalid")

TestBackAndForthError : NetCrates → Type 0
TestBackAndForthError c = BackAndForth c an_error

TestBackAndForthError-passes : TestBackAndForthError (wire (an_error ∷ []))
unfolding TestBackAndForthError BackAndForth from_str message_of get as_str message_eq trim text_eq
TestBackAndForthError-passes = (_, _, refl, refl, refl)

-- Each message's JSON has the message's tag.
Tagged : NetCrates → List (Message × Text) → Type 0
Tagged c [] = Unit
Tagged c ((m, expected_tag) ∷ messages) =
    ((json : Text) × (c.message_to_string m ≡ ok json)
      × (contains json (lit "type\":\"" ++ expected_tag) ≡ true))
    × Tagged c messages

TestTagType : NetCrates → Type 0
unfolding Tagged
TestTagType c = Tagged c (
    (mk_hello 18018 (lit "test"), lit "Hello")
    ∷ (mk_peers [], lit "Peers")
    ∷ (mk_getpeers, lit "GetPeers")
    ∷ (mk_error (lit "Error_name") (lit "error content"), lit "Error")
    ∷ [])

TestTagType-passes : TestTagType (wire [])
unfolding TestTagType Tagged contains Decimal.to_string
TestTagType-passes = ((_, refl, refl), ((_, refl, refl), ((_, refl, refl), ((_, refl, refl), tt))))

abbrev not_json : Text
not_json = lit "{\"type\":\"Hello\",\"port\":not_a_number}"

TestInvalidJsonFails : NetCrates → Type 0
TestInvalidJsonFails c = (e : c.Error) × (from_str c not_json ≡ err e)

TestInvalidJsonFails-passes : TestInvalidJsonFails (wire [])
unfolding TestInvalidJsonFails from_str trim text_eq
TestInvalidJsonFails-passes = (_, refl)

abbrev missing_port : Text
missing_port = lit "{\"type\":\"Hello\",\"user_agent\":\"utx0\"}"

-- The crates of Wire, with a parser of the text without a port.
abbrev knows_missing_port : NetCrates
knows_missing_port = record (wire []) {
  json = record json {
    from_slice = λ text.
        parse_in
          ((
            missing_port,
            object (
                entry (lit "type") (string (lit "Hello"))
                  (entry (lit "user_agent") (string (lit "utx0")) end)),
          )
            ∷ [])
          (trim text);
  };
}

TestMissingFieldRejected : NetCrates → Type 0
TestMissingFieldRejected c = (e : c.Error) × (from_str c missing_port ≡ err e)

TestMissingFieldRejected-passes : TestMissingFieldRejected knows_missing_port
unfolding TestMissingFieldRejected from_str message_of get as_str trim text_eq
TestMissingFieldRejected-passes = (_, refl)
