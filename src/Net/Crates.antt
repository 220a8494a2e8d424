-- ===== src/Net/Crates.antt =====
-- What src/net and the handshake call of other crates.
use utx0_node.Base.{ℕ, Option, Text, Bytes, List, Result}
use utx0_node.Json.{Value, SerdeJson}
use utx0_node.Message.{Message}
use utx0_node.Peer.{Peer}

-- `serde_json`, with the derived serialisation of messages and `RawValue::from_string`; the
-- derived `Debug`; `hex::encode` of a Blake2s digest; and `shuffle`, which takes the number of
-- the draw in place of the generator.
pub record NetCrates : Type 1 where
  pub json : SerdeJson
  pub open json use {Number, Error}
  pub message_from_value : Value json.Number → Result json.Error Message
  pub message_to_string : Message → Result json.Error Text
  pub raw_from_string : Text → Option Text
  pub debug : Message → Text
  pub hex_digest : Bytes → Text
  pub shuffle : ℕ → List Peer → List Peer
