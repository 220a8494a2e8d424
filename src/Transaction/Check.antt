-- ===== src/Transaction/Check.antt =====
-- `validate_transaction` of src/protocol/transaction.rs. The proofs are in the modules below.
mod Outputs
mod Sums
mod Signatures
pub mod Accepts
pub mod Faults
pub mod Conservation
use utx0_node.Base.{
  ℕ, ◌+◌, ◌^◌, Bool, Option, none, some, lit, Bytes, List, [], ◌∷◌, Result, ok, err, ◌>>=◌, ◌>>◌,
  map_err, ok_or, ltb, leb, ◌==◌, not, ◌||◌, length, get_elem?, if◌then◌else◌,
}
use utx0_node.Json.{Value, get}
use utx0_node.Canonical.{to_canonical_json}
use utx0_node.Storage.{ObjectStore}
use utx0_node.Transaction.Blank.{blank_sigs}
use utx0_node.Transaction.Types.{
  Input, Output, Transaction, TxValidationError, invalid_format, unknown_object, invalid_outpoint,
  invalid_signature, invalid_conservation, Fault, fails, panics, Crates,
}

abbrev pub Check : Type 0 → Type 0
Check A = Result Fault A

abbrev pub fail : {A : Type 0} → TxValidationError → Check A
fail e = err (fails e)

-- `o.ok_or(e)?` and `r.map_err(|_| e)?`
abbrev pub or_fail : {A : Type 0} → TxValidationError → Option A → Check A
or_fail e o = ok_or (fails e) o

abbrev pub else_fail : {E A : Type 0} → TxValidationError → Result E A → Check A
else_fail e r = map_err (λ _. fails e) r

abbrev pub is_empty {ℓ} : {A : Type ℓ} → List A → Bool
is_empty [] = Bool.true
is_empty (x ∷ xs) = Bool.false

-- `a.checked_add(b)` on u128
abbrev pub checked_add : ℕ → ℕ → Option ℕ
checked_add a b = if ltb (a + b) (2 ^ 128) then some (a + b) else none

-- `<[u8; n]>::try_from(bytes)`
abbrev pub try_array : ℕ → Bytes → Option Bytes
try_array n bytes = if length bytes == n then some bytes else none

-- A slice access that panics out of bounds.
abbrev pub index : {A : Type 0} → List A → ℕ → Check A
index xs i = ok_or panics (get_elem? xs i)

-- `.unwrap()`
abbrev pub unwrap : {A : Type 0} → Option A → Check A
unwrap o = ok_or panics o

-- The sum of the outputs, by `try_fold`.
pub sum_values : ℕ → List Output → Option ℕ
sum_values acc [] = some acc
sum_values acc (o ∷ outputs) = elim (checked_add acc o.value) [
  | none ↦ none
  | some acc' ↦ sum_values acc' outputs
]

module _ (c : Crates) (S : ObjectStore) where
  open c use {Number}

  -- The transaction in stored bytes, as both loops read it.
  pub parse_parent : Bytes → Check Transaction
  parse_parent parent_bytes = do
    parent_json ← else_fail invalid_format (c.json.from_slice parent_bytes)
    inner ← or_fail invalid_format (get (lit "object") parent_json)
    else_fail invalid_format (c.from_value inner)

  -- The output that an input names, with the outpoint's check.
  pub find_output : S.State → Input → Check Output
  unfolding parse_parent
  find_output store input = do
    found ← else_fail unknown_object (S.get store input.outpoint.txid)
    parent_bytes ← or_fail invalid_outpoint found
    parent_tx ← parse_parent parent_bytes
    if leb (length parent_tx.outputs) input.outpoint.index
        then fail invalid_outpoint
        else index parent_tx.outputs input.outpoint.index

  -- The first loop: the sum of what the inputs spend.
  pub sum_inputs : S.State → ℕ → List Input → Check ℕ
  unfolding find_output
  sum_inputs store acc [] = ok acc
  sum_inputs store acc (input ∷ inputs) = do
    output ← find_output store input
    acc' ← or_fail invalid_conservation (checked_add acc output.value)
    sum_inputs store acc' inputs

  -- The key of the spent output, the signature of the input, and the check of the two.
  pub verify_signature : Bytes → Output → Input → Check (Unit {0})
  verify_signature canon_sig_obj output input = do
    bytes_vec ← or_fail invalid_format (c.hex_decode output.pubkey)
    pub_key_array ← or_fail invalid_format (try_array 32 bytes_vec)
    pub_key ← or_fail invalid_format (c.verifying_key pub_key_array)
    sig_vec ← or_fail invalid_signature (c.hex_decode input.sig)
    sig_array ← or_fail invalid_signature (try_array 64 sig_vec)
    if c.verify_strict pub_key canon_sig_obj sig_array then ok tt else fail invalid_signature

  -- The same output, read again, without the checks.
  pub reload_output : S.State → Input → Check Output
  unfolding parse_parent
  reload_output store input = do
    found ← else_fail unknown_object (S.get store input.outpoint.txid)
    parent_bytes ← unwrap found
    parent_tx ← parse_parent parent_bytes
    index parent_tx.outputs input.outpoint.index

  -- The second loop: every signature, over the same bytes.
  pub verify_inputs : S.State → Bytes → List Input → Check (Unit {0})
  unfolding reload_output verify_signature
  verify_inputs store canon_sig_obj [] = ok tt
  verify_inputs store canon_sig_obj (input ∷ inputs) = do
    output ← reload_output store input
    verify_signature canon_sig_obj output input
    verify_inputs store canon_sig_obj inputs

  -- The check of a transaction that spends, after its shape.
  pub validate_spend : Value Number → S.State → Transaction → Check (Unit {0})
  unfolding sum_inputs verify_inputs sum_values
  validate_spend obj store tx = do
    spent ← sum_inputs store 0 tx.inputs
    sum_outputs ← or_fail invalid_conservation (sum_values 0 tx.outputs)
    if ltb spent sum_outputs then fail invalid_conservation else do
      canon_sig_obj ← else_fail invalid_format (to_canonical_json c.json (blank_sigs obj))
      verify_inputs store canon_sig_obj tx.inputs

  pub validate_parsed : Value Number → S.State → Transaction → Option ℕ → Check (Unit {0})
  unfolding validate_spend
  validate_parsed obj store tx (some height) =
      if not (is_empty tx.inputs) || is_empty tx.outputs then fail invalid_format else ok tt
  validate_parsed obj store tx none =
      if is_empty tx.inputs || is_empty tx.outputs
      then fail invalid_format
      else validate_spend obj store tx

  unfoldable pub validate_transaction : Value Number → S.State → Check (Unit {0})
  unfolding validate_parsed
  validate_transaction obj store = do
    tx_json ← or_fail invalid_format (get (lit "object") obj)
    tx ← else_fail invalid_format (c.from_value tx_json)
    validate_parsed obj store tx tx.height
