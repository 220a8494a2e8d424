-- ===== src/Tests/Units/Decode.antt =====
-- The deserialisation of a transaction of src/protocol/transaction.rs, as a function.
use utx0_node.Base.{ℕ, none, some, Option, Text, lit, List, [], ◌∷◌, Result, ok, err, ◌>>=◌, ok_or}
use utx0_node.Json.{null, number, string, array, nil, cons, Items, get}
use utx0_node.Tests.Fixtures.{Json}
use utx0_node.Transaction.Types.{Outpoint, Input, Output, Transaction}

-- A field of an object, a text and a number.
field_of : Text → Json → Result Text Json
unfolding get
field_of name v = ok_or (lit "missing field") (get name v)

text_of : Json → Result Text Text
text_of (string s) = ok s
text_of _ = err (lit "invalid type")

number_of : Json → Result Text ℕ
number_of (number n) = ok n
number_of _ = err (lit "invalid type")

-- The elements of an array.
each {ℓ} : {A : Type ℓ} → (Json → Result Text A) → Items ℕ → Result Text (List A)
each read nil = ok []
each read (cons v items) = do a ← read v; rest ← each read items; ok (a ∷ rest)

list_of {ℓ} : {A : Type ℓ} → (Json → Result Text A) → Json → Result Text (List A)
unfolding each
list_of read (array items) = each read items
list_of read _ = err (lit "invalid type")

-- The height may be left out, or be null.
height_of : Option Json → Result Text (Option ℕ)
height_of none = ok none
height_of (some null) = ok none
height_of (some (number n)) = ok (some n)
height_of (some _) = err (lit "invalid type")

outpoint_of : Json → Result Text Outpoint
unfolding field_of text_of number_of
outpoint_of v = do
  txid_value ← field_of (lit "txid") v
  txid ← text_of txid_value
  index_value ← field_of (lit "index") v
  index ← number_of index_value
  ok (record { txid = txid; index = index })

input_of : Json → Result Text Input
unfolding field_of text_of outpoint_of
input_of v = do
  outpoint_value ← field_of (lit "outpoint") v
  outpoint ← outpoint_of outpoint_value
  sig_value ← field_of (lit "sig") v
  sig ← text_of sig_value
  ok (record { outpoint = outpoint; sig = sig })

output_of : Json → Result Text Output
unfolding field_of text_of number_of
output_of v = do
  pubkey_value ← field_of (lit "pubkey") v
  pubkey ← text_of pubkey_value
  value_value ← field_of (lit "value") v
  value ← number_of value_value
  ok (record { pubkey = pubkey; value = value })

unfoldable pub transaction_of : Json → Result Text Transaction
unfolding field_of text_of list_of input_of output_of height_of get
transaction_of v = do
  kind_value ← field_of (lit "type") v
  kind ← text_of kind_value
  height ← height_of (get (lit "height") v)
  inputs_value ← field_of (lit "inputs") v
  inputs ← list_of input_of inputs_value
  outputs_value ← field_of (lit "outputs") v
  outputs ← list_of output_of outputs_value
  ok (record { kind = kind; height = height; inputs = inputs; outputs = outputs })
