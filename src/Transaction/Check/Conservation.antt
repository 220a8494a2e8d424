-- ===== src/Transaction/Check/Conservation.antt =====
-- The conservation errors of `validate_transaction` in src/protocol/transaction.rs.
use utx0_node.Base.{
  ℕ, suc, ◌+◌, ◌*◌, ◌^◌, ◌≤◌, ◌<◌, ◌≡◌, ◌≢◌, refl, some, lit, Bytes, List, [], ◌∷◌, ok, err,
  Result-cases, Option-cases, inl, inr, length, get_elem?, arith,
}
use utx0_node.Json.{Value, get}
use utx0_node.Canonical.{to_canonical_json}
use utx0_node.Storage.{ObjectStore}
use utx0_node.Transaction.Blank.{blank_sigs}
use utx0_node.Transaction.Types.{Input, Output, Transaction, Crates, fails, invalid_conservation}
use utx0_node.Transaction.Check.{
  validate_transaction, validate_parsed, validate_spend, sum_inputs, verify_inputs,
  verify_signature, find_output, reload_output, parse_parent,
}
use utx0_node.Transaction.Check.Outputs.{find_output-eq-ok}
use utx0_node.Transaction.Check.Sums.{sum_inputs-eq-ok, sum_values_fits}
use utx0_node.Transaction.Spec.{Pointwise, Resolves, total}

-- The derived deserialisation of the integers and vectors keeps them within the machine's words.
pub record IsBounded (c : Crates) : Type 0 where
  pub output_value :
      (v : Value c.json.Number) (tx : Transaction) (i : ℕ) (o : Output)
      → c.from_value v ≡ ok tx
      → get_elem? tx.outputs i ≡ some o
      → o.value < 2 ^ 64
  pub input_count :
      (v : Value c.json.Number) (tx : Transaction)
      → c.from_value v ≡ ok tx
      → length tx.inputs < 2 ^ 64
  pub output_count :
      (v : Value c.json.Number) (tx : Transaction)
      → c.from_value v ≡ ok tx
      → length tx.outputs < 2 ^ 64

total-le :
    (outputs : List Output)
    → ((i : ℕ) (o : Output) → get_elem? outputs i ≡ some o → o.value < 2 ^ 64)
    → total outputs ≤ length outputs * 2 ^ 64
total-le [] h = omega arith
total-le (o ∷ outputs) h = omega (arith, h 0 o refl, total-le outputs (λ i p q. h (suc i) p q))

module _ (c : Crates) (S : ObjectStore) (store : S.State) where
  -- What a conservation error says of the transaction.
  pub record IsDeficit (tx : Transaction) : Type 0 where
    pub spent : List Output
    pub resolved : Pointwise (Resolves c S store) tx.inputs spent
    pub deficit : total spent < total tx.outputs

module _ (c : Crates) (S : ObjectStore) (store : S.State) (b : IsBounded c) where
  find_output-bound :
      (input : Input) (output : Output)
      → find_output c S store input ≡ ok output
      → output.value < 2 ^ 64
  find_output-bound input output h =
      let r : Resolves c S store input output = find_output-eq-ok c S store input output h in
      b.output_value r.inner r.parent_tx input.outpoint.index output r.decoded r.named

  find_output-ne-conservation :
      (input : Input) → find_output c S store input ≢ err (fails invalid_conservation)
  unfolding find_output parse_parent
  find_output-ne-conservation input h = ground arith

  -- Fewer than 2^64 values below 2^64 do not overflow a u128.
  sum_inputs-ne-conservation :
      (acc : ℕ) (inputs : List Input)
      → acc + length inputs * 2 ^ 64 < 2 ^ 128
      → sum_inputs c S store acc inputs ≢ err (fails invalid_conservation)
  unfolding sum_inputs
  sum_inputs-ne-conservation acc [] small h = cc
  sum_inputs-ne-conservation acc (input ∷ inputs) small h =
      elim (Result-cases (find_output c S store input)) [
        | inl (output, found) ↦
            let bound = find_output-bound input output found in
            ground (arith, sum_inputs-ne-conservation (acc + output.value) inputs)
        | inr (e, failed) ↦ ground (arith, find_output-ne-conservation input)
      ]

  reload_output-ne-conservation :
      (input : Input) → reload_output c S store input ≢ err (fails invalid_conservation)
  unfolding reload_output parse_parent
  reload_output-ne-conservation input h = ground arith

  verify_signature-ne-conservation :
      (message : Bytes) (output : Output) (input : Input)
      → verify_signature c S message output input ≢ err (fails invalid_conservation)
  unfolding verify_signature
  verify_signature-ne-conservation message output input h = ground arith

  verify_inputs-ne-conservation :
      (message : Bytes) (inputs : List Input)
      → verify_inputs c S store message inputs ≢ err (fails invalid_conservation)
  unfolding verify_inputs
  verify_inputs-ne-conservation message [] h = cc
  verify_inputs-ne-conservation message (input ∷ inputs) h =
      elim (Result-cases (reload_output c S store input)) [
        | inl (output, found) ↦ ground (
          arith,
          verify_signature-ne-conservation message output input,
          verify_inputs-ne-conservation message inputs,
        )
        | inr (e, failed) ↦ ground (arith, reload_output-ne-conservation input)
      ]

  validate_spend-IsDeficit :
      (obj inner : Value c.json.Number) (tx : Transaction)
      → c.from_value inner ≡ ok tx
      → validate_spend c S obj store tx ≡ err (fails invalid_conservation)
      → IsDeficit c S store tx
  unfolding validate_spend
  validate_spend-IsDeficit obj inner tx decoded h =
      elim (Result-cases (sum_inputs c S store 0 tx.inputs)) [
        | inl (sum, summed) ↦
            let (spent, resolved, total_spent, _) =
              sum_inputs-eq-ok c S store 0 tx.inputs sum (omega arith) summed in
            let paid = sum_values_fits 0 tx.outputs (paid_fits) in
            record {
              spent = spent;
              resolved = resolved;
              deficit = elim (Result-cases (to_canonical_json c.json (blank_sigs obj))) [
                | inl (message, canonical) ↦
                    ground (arith, paid, verify_inputs-ne-conservation message tx.inputs)
                | inr (e, failed) ↦ ground (arith, paid)
              ];
            }
        | inr (e, failed) ↦ absurd (
            sum_inputs-ne-conservation 0 tx.inputs (omega (arith, b.input_count inner tx decoded))
              (ground arith))
      ]
    where
      paid_fits : 0 + total tx.outputs < 2 ^ 128
      paid_fits = omega (
        arith,
        b.output_count inner tx decoded,
        total-le tx.outputs (λ i o there. b.output_value inner tx i o decoded there),
      )

  -- If the decoded integers and vectors fit the machine's words, a conservation error means that
  -- the object decodes to a transaction whose inputs all name stored outputs, and that these are
  -- worth less than the transaction's own outputs.
  pub conservation_error :
      (obj : Value c.json.Number)
      → validate_transaction c S obj store ≡ err (fails invalid_conservation)
      → (inner : Value c.json.Number) × (tx : Transaction) × (get (lit "object") obj ≡ some inner)
        × (c.from_value inner ≡ ok tx)
        × IsDeficit c S store tx
  unfolding validate_transaction validate_parsed
  conservation_error obj h = elim (Option-cases (get (lit "object") obj)) [
    | inl missing ↦ ground arith
    | inr (inner, wrapped) ↦ elim (Result-cases (c.from_value inner)) [
      | inl (tx, decoded) ↦ (
        inner,
        tx,
        wrapped,
        decoded,
        validate_spend-IsDeficit obj inner tx decoded (ground arith),
      )
      | inr (e, failed) ↦ absurd (ground arith)
    ]
  ]
