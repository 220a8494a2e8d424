-- ===== src/Transaction/Blank/Laws.antt =====
-- The signed object of src/protocol/transaction.rs, and the signatures.
use utx0_node.Base.{ℕ, suc, ◌≡◌, refl, ap, [], Text, lit}
use utx0_node.Json.{Value, string, array, object, Items, nil, cons, map_insert, map_modify}
use utx0_node.Json.Laws.{map_insert-map_insert, map_modify-map_modify}
use utx0_node.Transaction.Blank.{blank_sig, blank_items, blank_inputs, blank_inner, blank_sigs}

module _ {N : Type 0} (sigs : ℕ → Text) where
  -- A signer writes the text `sigs i` as the signature of the input number `i`.
  sign_input : ℕ → Value N → Value N
  sign_input i (object input) = object (map_insert (lit "sig") (string (sigs i)) input)
  sign_input i value = value

  sign_items : ℕ → Items N → Items N
  sign_items i nil = nil
  sign_items i (cons value inputs) = cons (sign_input i value) (sign_items (suc i) inputs)

  sign_inputs : Value N → Value N
  sign_inputs (array inputs) = array (sign_items 0 inputs)
  sign_inputs value = value

  sign_inner : Value N → Value N
  sign_inner (object inner) = object (map_modify (lit "inputs") sign_inputs inner)
  sign_inner value = value

  pub with_sigs : Value N → Value N
  unfolding sign_inner sign_inputs sign_items sign_input
  with_sigs (object wrapper) = object (map_modify (lit "object") sign_inner wrapper)
  with_sigs value = value

  blank_sig-sign_input : (i : ℕ) (v : Value N) → blank_sig (sign_input i v) ≡ blank_sig v
  unfolding blank_sig sign_input
  blank_sig-sign_input i (object m) =
      ap object (map_insert-map_insert (lit "sig") (string []) (string (sigs i)) m)
  blank_sig-sign_input i _ = refl

  blank_items-sign_items : (i : ℕ) (a : Items N) → blank_items (sign_items i a) ≡ blank_items a
  unfolding blank_items sign_items
  blank_items-sign_items i nil = refl
  blank_items-sign_items i (cons v a) =
      cc (blank_sig-sign_input i v, blank_items-sign_items (suc i) a)

  blank_inputs-sign_inputs : (v : Value N) → blank_inputs (sign_inputs v) ≡ blank_inputs v
  unfolding blank_inputs sign_inputs
  blank_inputs-sign_inputs (array a) = ap array (blank_items-sign_items 0 a)
  blank_inputs-sign_inputs _ = refl

  blank_inner-sign_inner : (v : Value N) → blank_inner (sign_inner v) ≡ blank_inner v
  unfolding blank_inner sign_inner
  blank_inner-sign_inner (object m) = ap object (
      map_modify-map_modify (lit "inputs") blank_inputs sign_inputs blank_inputs m
        blank_inputs-sign_inputs)
  blank_inner-sign_inner _ = refl

  -- Whatever texts are written as the signatures of the inputs, the object that is signed is the
  -- same: the signatures do not sign one another.
  pub blank_sigs-with_sigs : (obj : Value N) → blank_sigs (with_sigs obj) ≡ blank_sigs obj
  unfolding blank_sigs with_sigs
  blank_sigs-with_sigs (object m) = ap object (
      map_modify-map_modify (lit "object") blank_inner sign_inner blank_inner m
        blank_inner-sign_inner)
  blank_sigs-with_sigs _ = refl
