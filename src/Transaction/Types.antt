-- ===== src/Transaction/Types.antt =====
-- src/protocol/transaction.rs: the data, the errors of the check, and the crates that it calls.
use utx0_node.Base.{ℕ, Bool, Option, Text, Bytes, List, Result}
use utx0_node.Json.{Value, SerdeJson}

pub record Outpoint : Type 0 where
  pub txid : Text
  pub index : ℕ

pub record Input : Type 0 where
  pub outpoint : Outpoint
  pub sig : Text

pub record Output : Type 0 where
  pub pubkey : Text
  pub value : ℕ

pub record Transaction : Type 0 where
  pub kind : Text
  pub height : Option ℕ
  pub inputs : List Input
  pub outputs : List Output

pub data TxValidationError : Type 0 where
  invalid_format unknown_object invalid_outpoint invalid_signature invalid_conservation :
      TxValidationError

-- How the check ends when it does not accept: by an error, or by a panic.
pub data Fault : Type 0 where
  fails : TxValidationError → Fault
  panics : Fault

-- What the check calls of other crates: `serde_json`, the derived deserialisation of a
-- transaction, `hex::decode`, and Ed25519.
pub record Crates : Type 1 where
  pub json : SerdeJson
  pub open json use {Number, Error}
  pub from_value : Value json.Number → Result json.Error Transaction
  pub hex_decode : Text → Option Bytes
  pub VerifyingKey : Type 0
  pub verifying_key : Bytes → Option VerifyingKey
  pub verify_strict : VerifyingKey → Bytes → Bytes → Bool
