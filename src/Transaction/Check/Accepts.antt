-- ===== src/Transaction/Check/Accepts.antt =====
-- `validate_transaction` of src/protocol/transaction.rs against the description of what is accepted.
use utx0_node.Base.{
  ℕ, refl, ◌≤◌, ◌≡◌, ◌≢◌, ◌↔◌, ◌⊎◌, Option, none, some, lit, [], ◌∷◌, ◌||◌, not, List, ok,
  >>=-eq-ok, map_err-eq-ok, ok_or-eq-ok, ltb, inl, inr, Bool, true, false, arith, if◌then◌else◌,
}
use utx0_node.Json.{Value, get}
use utx0_node.Canonical.{to_canonical_json}
use utx0_node.Storage.{ObjectStore}
use utx0_node.Transaction.Blank.{blank_sigs}
use utx0_node.Transaction.Types.{Transaction, Crates, invalid_format, invalid_conservation}
use utx0_node.Transaction.Check.{
  validate_transaction, validate_parsed, validate_spend, sum_inputs, sum_values, is_empty, or_fail,
  else_fail, fail, Check,
}
use utx0_node.Transaction.Check.Sums.{
  sum_values-eq-some, sum_values_fits, sum_inputs-eq-ok, sum_inputs_fits,
}
use utx0_node.Transaction.Check.Signatures.{verify_inputs-IsSigned, IsSigned-verify_inputs}
use utx0_node.Transaction.Spec.{IsSpend, IsCoinbase, IsAccepted}

is_empty-eq-false {ℓ} : {A : Type ℓ} (xs : List A) → is_empty xs ≡ false → xs ≢ []
is_empty-eq-false [] h e = cc
is_empty-eq-false (x ∷ xs) h e = cc

is_empty_of_ne {ℓ} : {A : Type ℓ} (xs : List A) → xs ≢ [] → is_empty xs ≡ false
is_empty_of_ne [] h = absurd (h refl)
is_empty_of_ne (x ∷ xs) h = refl

is_empty-eq-true {ℓ} : {A : Type ℓ} (xs : List A) → is_empty xs ≡ true → xs ≡ []
is_empty-eq-true [] h = refl
is_empty-eq-true (x ∷ xs) h = cc

coinbase_shape :
    (a b : Bool)
    → ◌≡◌ {A = Check (Unit {0})} (if not a || b then fail invalid_format else ok tt) (ok tt)
    → (a ≡ true) × (b ≡ false)
coinbase_shape a b h = ground arith

shape_passed :
    (a b : Bool) (m : Check (Unit {0}))
    → (if a || b then fail invalid_format else m) ≡ ok tt
    → (a ≡ false) × (b ≡ false) × (m ≡ ok tt)
shape_passed a b m h = ground arith

balance_passed :
    (spent paid : ℕ) (m : Check (Unit {0}))
    → (if ltb spent paid then fail invalid_conservation else m) ≡ ok tt
    → (paid ≤ spent) × (m ≡ ok tt)
balance_passed spent paid m h = ground arith

module _ (c : Crates) (S : ObjectStore) (obj : Value c.json.Number) (store : S.State) where
  validate_spend-IsSpend :
      (tx : Transaction)
      → tx.height ≡ none
      → tx.inputs ≢ []
      → tx.outputs ≢ []
      → validate_spend c S obj store tx ≡ ok tt
      → IsSpend c S obj store tx
  unfolding validate_spend
  validate_spend-IsSpend tx no_height some_inputs some_outputs h =
      let (sum, summed, h₁) = >>=-eq-ok (sum_inputs c S store 0 tx.inputs) _ h in
      let (paid, paid_sum, h₂) =
        >>=-eq-ok (or_fail invalid_conservation (sum_values 0 tx.outputs)) _ h₁ in
      let (balanced, h₃) = balance_passed sum paid _ h₂ in
      let (message, canonical, h₄) =
        >>=-eq-ok (else_fail invalid_format (to_canonical_json c.json (blank_sigs obj))) _ h₃ in
      let (spent, resolved, total_spent, fits) =
        sum_inputs-eq-ok c S store 0 tx.inputs sum (omega arith) summed in
      let total_paid = sum_values-eq-some 0 tx.outputs paid (ok_or-eq-ok _ _ paid_sum) in
      record {
        no_height = no_height;
        some_inputs = some_inputs;
        some_outputs = some_outputs;
        spent = spent;
        resolved = resolved;
        fits = omega arith;
        balanced = omega arith;
        message = message;
        canonical = map_err-eq-ok _ _ canonical;
        signed = verify_inputs-IsSigned c S message store tx.inputs spent resolved h₄;
      }

  IsSpend-validate_spend :
      (tx : Transaction) → IsSpend c S obj store tx → validate_spend c S obj store tx ≡ ok tt
  unfolding validate_spend
  IsSpend-validate_spend tx s =
      rw
        (
          sum_inputs_fits c S store 0 tx.inputs s.spent s.resolved (omega (arith, s.fits)),
          sum_values_fits 0 tx.outputs (omega (arith, s.fits, s.balanced)),
          s.canonical,
        )
        (ground (
          arith,
          s.balanced,
          IsSigned-verify_inputs c S s.message store tx.inputs s.spent s.resolved s.signed,
        ))

  validate_parsed-valid :
      (tx : Transaction) (height : Option ℕ)
      → tx.height ≡ height
      → validate_parsed c S obj store tx height ≡ ok tt
      → IsCoinbase tx ⊎ IsSpend c S obj store tx
  unfolding validate_parsed
  validate_parsed-valid tx (some h') e h =
      let (inputs, outputs) = coinbase_shape (is_empty tx.inputs) (is_empty tx.outputs) h in
      inl (record {
        height = h';
        has_height = e;
        no_inputs = is_empty-eq-true tx.inputs inputs;
        some_outputs = is_empty-eq-false tx.outputs outputs;
      })
  validate_parsed-valid tx none e h =
      let (inputs, outputs, accepted) =
        shape_passed (is_empty tx.inputs) (is_empty tx.outputs) _ h in
      inr (
        validate_spend-IsSpend tx e (is_empty-eq-false tx.inputs inputs)
          (is_empty-eq-false tx.outputs outputs) accepted)

  coinbase-valid :
      (tx : Transaction) → IsCoinbase tx → validate_parsed c S obj store tx tx.height ≡ ok tt
  unfolding validate_parsed
  coinbase-valid tx b = rw (b.has_height, b.no_inputs, is_empty_of_ne tx.outputs b.some_outputs)

  spend-valid :
      (tx : Transaction)
      → IsSpend c S obj store tx
      → validate_parsed c S obj store tx tx.height ≡ ok tt
  unfolding validate_parsed
  spend-valid tx s =
      rw
        (
          s.no_height,
          is_empty_of_ne tx.inputs s.some_inputs,
          is_empty_of_ne tx.outputs s.some_outputs,
        )
        (IsSpend-validate_spend tx s)

  validate_transaction-IsAccepted :
      validate_transaction c S obj store ≡ ok tt → IsAccepted c S obj store
  unfolding validate_transaction
  validate_transaction-IsAccepted h =
      let (inner, wrapped, h₁) = >>=-eq-ok (or_fail invalid_format (get (lit "object") obj)) _ h in
      let (tx, decoded, h₂) = >>=-eq-ok (else_fail invalid_format (c.from_value inner)) _ h₁ in
      record {
        inner = inner;
        wrapped = ok_or-eq-ok _ _ wrapped;
        tx = tx;
        decoded = map_err-eq-ok _ _ decoded;
        valid = validate_parsed-valid tx tx.height refl h₂;
      }

  IsAccepted-validate_transaction :
      IsAccepted c S obj store → validate_transaction c S obj store ≡ ok tt
  unfolding validate_transaction
  IsAccepted-validate_transaction a =
      rw (a.wrapped, a.decoded)
        (elim a.valid [ inl b ↦ coinbase-valid a.tx b | inr s ↦ spend-valid a.tx s ])

  -- `validate_transaction` accepts an object exactly when its inner object decodes to a
  -- transaction that is a coinbase (a height, no inputs, some outputs) or a spend: no height,
  -- some inputs and outputs, every input names an output of a stored transaction, the outputs
  -- named are worth less than 2^128 and at least what the transaction's outputs are worth, and
  -- every input's signature is one of the canonical JSON of the object with emptied signatures,
  -- under the key of the output that the input names.
  pub validate_transaction_iff :
      (validate_transaction c S obj store ≡ ok tt) ↔ IsAccepted c S obj store
  validate_transaction_iff = (validate_transaction-IsAccepted, IsAccepted-validate_transaction)
