-- ===== src/Transaction/Spec.antt =====
-- What `validate_transaction` accepts, described without its loops.
use utx0_node.Base.{
  ℕ, ◌+◌, ◌^◌, ◌≤◌, ◌<◌, ◌≡◌, ◌≢◌, ◌⊎◌, true, none, some, lit, Bytes, List, [], ◌∷◌, ok, length,
  get_elem?,
}
use utx0_node.Json.{Value, get}
use utx0_node.Canonical.{to_canonical_json}
use utx0_node.Storage.{ObjectStore}
use utx0_node.Transaction.Blank.{blank_sigs}
use utx0_node.Transaction.Types.{Input, Output, Transaction, Crates}

abbrev pub total : List Output → ℕ
total [] = 0
total (o ∷ outputs) = o.value + total outputs

-- A relation between two lists of the same length, element by element.
abbrev pub Pointwise : {A B : Type 0} → (A → B → Type 0) → List A → List B → Type 0
Pointwise R [] [] = Unit
Pointwise R [] (y ∷ ys) = ⊥
Pointwise R (x ∷ xs) [] = ⊥
Pointwise R (x ∷ xs) (y ∷ ys) = R x y × Pointwise R xs ys

module _ (c : Crates) (S : ObjectStore) where
  -- The store has a transaction object under the input's id, and the output is the one that the
  -- input's index names.
  pub record Resolves (store : S.State) (input : Input) (output : Output) : Type 0 where
    pub parent_bytes : Bytes
    pub stored : S.get store input.outpoint.txid ≡ ok (some parent_bytes)
    pub parent_json : Value c.json.Number
    pub parsed : c.json.from_slice parent_bytes ≡ ok parent_json
    pub inner : Value c.json.Number
    pub wrapped : get (lit "object") parent_json ≡ some inner
    pub parent_tx : Transaction
    pub decoded : c.from_value inner ≡ ok parent_tx
    pub named : get_elem? parent_tx.outputs input.outpoint.index ≡ some output

-- The input's signature is one of the message under the output's key.
pub record IsSigned (c : Crates) (message : Bytes) (input : Input) (output : Output) : Type 0 where
  pub key_bytes : Bytes
  pub key_text : c.hex_decode output.pubkey ≡ some key_bytes
  pub key_length : length key_bytes ≡ 32
  pub key : c.VerifyingKey
  pub key_point : c.verifying_key key_bytes ≡ some key
  pub sig_bytes : Bytes
  pub sig_text : c.hex_decode input.sig ≡ some sig_bytes
  pub sig_length : length sig_bytes ≡ 64
  pub verified : c.verify_strict key message sig_bytes ≡ true

module _ (c : Crates) (S : ObjectStore) where
  -- A transaction that spends outputs of stored transactions.
  pub record IsSpend (obj : Value c.json.Number) (store : S.State) (tx : Transaction) : Type 0 where
    pub no_height : tx.height ≡ none
    pub some_inputs : tx.inputs ≢ []
    pub some_outputs : tx.outputs ≢ []
    pub spent : List Output
    pub resolved : Pointwise (Resolves c S store) tx.inputs spent
    pub fits : total spent < 2 ^ 128
    pub balanced : total tx.outputs ≤ total spent
    pub message : Bytes
    pub canonical : to_canonical_json c.json (blank_sigs obj) ≡ ok message
    pub signed : Pointwise (IsSigned c message) tx.inputs spent

-- A transaction that mints.
pub record IsCoinbase (tx : Transaction) : Type 0 where
  pub height : ℕ
  pub has_height : tx.height ≡ some height
  pub no_inputs : tx.inputs ≡ []
  pub some_outputs : tx.outputs ≢ []

module _ (c : Crates) (S : ObjectStore) where
  pub record IsAccepted (obj : Value c.json.Number) (store : S.State) : Type 0 where
    pub inner : Value c.json.Number
    pub wrapped : get (lit "object") obj ≡ some inner
    pub tx : Transaction
    pub decoded : c.from_value inner ≡ ok tx
    pub valid : IsCoinbase tx ⊎ IsSpend c S obj store tx
