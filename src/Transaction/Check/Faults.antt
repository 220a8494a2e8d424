-- ===== src/Transaction/Check/Faults.antt =====
-- The `unwrap` and the slice accesses of `validate_transaction` in src/protocol/transaction.rs.
use utx0_node.Base.{
  ℕ, ◌+◌, ◌≢◌, none, some, lit, Bytes, Option-cases, get_elem?_of_lt, List, [], ◌∷◌, err,
  Result-cases, inl, inr, arith,
}
use utx0_node.Json.{Value, get}
use utx0_node.Canonical.{to_canonical_json}
use utx0_node.Storage.{ObjectStore}
use utx0_node.Transaction.Blank.{blank_sigs}
use utx0_node.Transaction.Types.{Input, Transaction, Crates, panics}
use utx0_node.Transaction.Check.{
  validate_transaction, validate_parsed, validate_spend, sum_inputs, find_output, parse_parent,
}
use utx0_node.Transaction.Check.Sums.{sum_inputs-eq-ok}
use utx0_node.Transaction.Check.Signatures.{verify_inputs-ne-panics}

module _ (c : Crates) (S : ObjectStore) (store : S.State) where
  parse_parent-ne-panics : (bytes : Bytes) → parse_parent c S bytes ≢ err panics
  unfolding parse_parent
  parse_parent-ne-panics bytes h = ground arith

  -- The guard on the index keeps the access in bounds.
  find_output-ne-panics : (input : Input) → find_output c S store input ≢ err panics
  unfolding find_output
  find_output-ne-panics input h = elim (Result-cases (S.get store input.outpoint.txid)) [
    | inl (none, got) ↦ ground arith
    | inl (some bytes, got) ↦ elim (Result-cases (parse_parent c S bytes)) [
      | inl (tx, parsed) ↦ ground (arith, get_elem?_of_lt tx.outputs input.outpoint.index)
      | inr (e, failed) ↦ ground (arith, parse_parent-ne-panics bytes)
    ]
    | inr (e, failed) ↦ ground arith
  ]

  sum_inputs-ne-panics :
      (acc : ℕ) (inputs : List Input) → sum_inputs c S store acc inputs ≢ err panics
  unfolding sum_inputs
  sum_inputs-ne-panics acc [] h = cc
  sum_inputs-ne-panics acc (input ∷ inputs) h = elim (Result-cases (find_output c S store input)) [
    | inl (output, found) ↦ ground (arith, sum_inputs-ne-panics (acc + output.value) inputs)
    | inr (e, failed) ↦ ground (arith, find_output-ne-panics input)
  ]

  module _ (obj : Value c.json.Number) where
    validate_spend-ne-panics : (tx : Transaction) → validate_spend c S obj store tx ≢ err panics
    unfolding validate_spend
    validate_spend-ne-panics tx h = elim (Result-cases (sum_inputs c S store 0 tx.inputs)) [
      | inl (sum, summed) ↦
          let (spent, resolved, _, _) =
            sum_inputs-eq-ok c S store 0 tx.inputs sum (omega arith) summed in
          elim (Result-cases (to_canonical_json c.json (blank_sigs obj))) [
            | inl (message, canonical) ↦
                ground (arith, verify_inputs-ne-panics c S message store tx.inputs spent resolved)
            | inr (e, failed) ↦ ground arith
          ]
      | inr (e, failed) ↦ ground (arith, sum_inputs-ne-panics 0 tx.inputs)
    ]

    -- Over a store that does not change during the call, `validate_transaction` never panics:
    -- neither its `unwrap` nor its slice accesses can fail.
    pub validate_transaction-ne-panics : validate_transaction c S obj store ≢ err panics
    unfolding validate_transaction validate_parsed
    validate_transaction-ne-panics h = elim (Option-cases (get (lit "object") obj)) [
      | inl missing ↦ ground arith
      | inr (inner, wrapped) ↦ elim (Result-cases (c.from_value inner)) [
        | inl (tx, decoded) ↦ ground (arith, validate_spend-ne-panics tx)
        | inr (e, failed) ↦ ground arith
      ]
    ]
