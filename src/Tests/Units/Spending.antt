-- ===== src/Tests/Units/Spending.antt =====
-- The unit tests of src/protocol/transaction.rs, with their store.
use utx0_node.Base.{
  ℕ, ◌≡◌, refl, some, Option, Text, Bytes, lit, List, [], ◌∷◌, Result, ok, err, text_eq, text_leb,
  length, ◌==◌, if◌then◌else◌, false,
}
use utx0_node.Canonical.{to_canonical_json, compute_object_id}
use utx0_node.Json.{null, number, string, array, object, nil, cons, end, entry, Map, get}
use utx0_node.Std.Decimal
use utx0_node.Storage.{ObjectStore, is_some}
use utx0_node.Storage.Errors.{StorageError}
use utx0_node.Storage.Errors
use utx0_node.Tests.Fixtures.{Json, json, field, lookup, first_bytes}
use utx0_node.Tests.Units.Decode.{transaction_of}
use utx0_node.Transaction.Blank.{blank_sigs}
use utx0_node.Transaction.Check.{validate_transaction}
use utx0_node.Transaction.Types.{
  Crates, Fault, fails, invalid_format, invalid_outpoint, invalid_signature, invalid_conservation,
}

-- `DummyStore`: a map behind a lock. `put` is not implemented, and no test calls it.
abbrev dummy_store : ObjectStore
dummy_store = record {
  State = List (Text × Bytes);
  has = λ map id. ok (is_some (lookup map id));
  get = λ map id. ok (lookup map id);
  put = λ map id bytes. (err (Errors.io (lit "not implemented")), map);
}

-- `DummyStore::new`
abbrev new : dummy_store.State
new = []

-- `DummyStore::insert`
abbrev insert : Text → Bytes → dummy_store.State → dummy_store.State
insert txid bytes map = (txid, bytes) ∷ map

-- `{ "type": "object", "object": { "type": "transaction", .. } }`
abbrev wrapped : Map ℕ → Json
wrapped inner = object (
    field (lit "type") (lit "object")
      (entry (lit "object") (object (field (lit "type") (lit "transaction") inner)) end))

abbrev key : Text
key = lit "0123456789abcdef0123456789abcdef0123456789abcdef0123456789abcdef"

abbrev pays : Text → ℕ → Map ℕ
pays pubkey value =
    entry (lit "outputs")
      (array
        (cons (object (field (lit "pubkey") pubkey (entry (lit "value") (number value) end))) nil))
      end

abbrev spends : Text → ℕ → Map ℕ → Map ℕ
spends txid index rest =
    entry (lit "inputs")
      (array (
        cons
          (object (
            entry (lit "outpoint")
              (object (field (lit "txid") txid (entry (lit "index") (number index) end)))
              (field (lit "sig") [] end)))
          nil))
      rest

abbrev no_inputs : Map ℕ → Map ℕ
no_inputs rest = entry (lit "inputs") (array nil) rest

abbrev height : Json → Map ℕ → Map ℕ
height h rest = entry (lit "height") h rest

-- The crates: the parser knows the text of one parent, hexadecimal is decoded for texts of 64
-- characters and the empty one, and no signature is valid.
abbrev decode_hex : Text → Option Bytes
decode_hex s = if length s == 64 then some (lit "0123456789abcdef0123456789abcdef") else some []

abbrev parent_of : Text → ℕ → Json
parent_of pubkey value = wrapped (no_inputs (pays pubkey value))

abbrev crates : Bytes → Json → Crates
crates bytes parent = record {
  json = record json {
    from_slice = λ text. if text_eq text bytes then ok parent else err (lit "expected value");
  };
  from_value = transaction_of;
  hex_decode = decode_hex;
  VerifyingKey = Bytes;
  verifying_key = some;
  verify_strict = λ verifying message sig. false;
}

-- A validation with an empty store.
abbrev alone : Json → Result Fault (Unit {0})
alone tx = validate_transaction (crates [] null) dummy_store tx new

CoinbaseOk : Type 0
CoinbaseOk = alone (wrapped (height (number 42) (no_inputs (pays key 100)))) ≡ ok tt

CoinbaseOk-passes : CoinbaseOk
unfolding CoinbaseOk validate_transaction transaction_of get text_eq
CoinbaseOk-passes = refl

RevertCoinbaseNonEmptyInput : Type 0
RevertCoinbaseNonEmptyInput =
    alone (wrapped (height (number 42) (spends (lit "dummy") 1 (pays key 100))))
    ≡ err (fails invalid_format)

RevertCoinbaseNonEmptyInput-passes : RevertCoinbaseNonEmptyInput
unfolding RevertCoinbaseNonEmptyInput validate_transaction transaction_of get text_eq
RevertCoinbaseNonEmptyInput-passes = refl

RevertCoinbaseNoHeight : Type 0
RevertCoinbaseNoHeight =
    alone (wrapped (height (string []) (no_inputs (pays key 100)))) ≡ err (fails invalid_format)

RevertCoinbaseNoHeight-passes : RevertCoinbaseNoHeight
unfolding RevertCoinbaseNoHeight validate_transaction transaction_of get text_eq
RevertCoinbaseNoHeight-passes = refl

MissingObjectFormatErr : Type 0
MissingObjectFormatErr =
    alone (object (field (lit "type") (lit "object") end)) ≡ err (fails invalid_format)

MissingObjectFormatErr-passes : MissingObjectFormatErr
unfolding MissingObjectFormatErr validate_transaction get text_eq
MissingObjectFormatErr-passes = refl

UnknownObjectErr : Type 0
UnknownObjectErr =
    alone (wrapped (spends (lit "deadbeef") 0 (pays [] 1))) ≡ err (fails invalid_outpoint)

UnknownObjectErr-passes : UnknownObjectErr
unfolding UnknownObjectErr validate_transaction transaction_of get text_eq
UnknownObjectErr-passes = refl

-- The store has the parent, as canonical JSON under its id.
abbrev WithParent : Json → (Text → Json) → Fault → Type 0
WithParent parent tx fault =
    (bytes : Bytes) × (parent_id : Text) × (to_canonical_json json parent ≡ ok bytes)
    × (compute_object_id json first_bytes parent ≡ ok parent_id)
    × (validate_transaction (crates bytes parent) dummy_store (tx parent_id)
          (insert parent_id bytes new)
        ≡ err fault)

InvalidOutpointErr : Type 0
InvalidOutpointErr =
    WithParent (parent_of [] 50) (λ parent_id. wrapped (spends parent_id 1 (pays [] 1)))
      (fails invalid_outpoint)

InvalidOutpointErr-passes : InvalidOutpointErr
unfolding InvalidOutpointErr validate_transaction transaction_of get text_eq to_canonical_json
    compute_object_id text_leb Decimal.to_string
InvalidOutpointErr-passes = (_, _, refl, refl, refl)

ConservationErr : Type 0
ConservationErr =
    WithParent (parent_of [] 1) (λ parent_id. wrapped (spends parent_id 0 (pays [] 2)))
      (fails invalid_conservation)

ConservationErr-passes : ConservationErr
unfolding ConservationErr validate_transaction transaction_of get text_eq to_canonical_json
    compute_object_id text_leb Decimal.to_string
ConservationErr-passes = (_, _, refl, refl, refl)

InvalidSignatureErr : Type 0
InvalidSignatureErr =
    WithParent (parent_of key 5) (λ parent_id. wrapped (spends parent_id 0 (pays (lit "00") 5)))
      (fails invalid_signature)

InvalidSignatureErr-passes : InvalidSignatureErr
unfolding InvalidSignatureErr validate_transaction transaction_of get text_eq to_canonical_json
    compute_object_id text_leb Decimal.to_string blank_sigs
InvalidSignatureErr-passes = (_, _, refl, refl, refl)
