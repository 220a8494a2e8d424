-- ===== src/Transaction/Blank.antt =====
-- src/protocol/transaction.rs, the object that is signed: the transaction object with the signature
-- of every input emptied.
pub mod Laws
use utx0_node.Base.{lit, []}
use utx0_node.Json.{Value, string, array, object, Items, nil, cons, map_insert, map_modify}

module _ {N : Type 0} where
  blank_sig : Value N → Value N
  blank_sig (object map_inputs) = object (map_insert (lit "sig") (string []) map_inputs)
  blank_sig value = value

  -- `for value in inputs`
  blank_items : Items N → Items N
  unfolding blank_sig
  blank_items nil = nil
  blank_items (cons value inputs) = cons (blank_sig value) (blank_items inputs)

  blank_inputs : Value N → Value N
  unfolding blank_items
  blank_inputs (array inputs) = array (blank_items inputs)
  blank_inputs value = value

  blank_inner : Value N → Value N
  unfolding blank_inputs
  blank_inner (object inner_map) = object (map_modify (lit "inputs") blank_inputs inner_map)
  blank_inner value = value

  unfoldable pub blank_sigs : Value N → Value N
  unfolding blank_inner map_modify map_insert
  blank_sigs (object wrapper_map) = object (map_modify (lit "object") blank_inner wrapper_map)
  blank_sigs value = value
