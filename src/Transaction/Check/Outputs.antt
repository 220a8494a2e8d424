-- ===== src/Transaction/Check/Outputs.antt =====
-- The output that an input names: both readings of it, against the description.
use utx0_node.Base.{
  ℕ, zero, suc, ◌<◌, ◌≡◌, ap, ◌∙◌, some, [], ◌∷◌, leb, if◌then◌else◌, lit, Bytes, ok, >>=-eq-ok,
  map_err-eq-ok, ok_or-eq-ok, length, get_elem?, List, arith,
}
use utx0_node.Json.{Value, get}
use utx0_node.Storage.{ObjectStore}
use utx0_node.Transaction.Types.{
  Input, Output, Transaction, Crates, invalid_format, unknown_object, invalid_outpoint,
}
use utx0_node.Transaction.Check.{
  parse_parent, find_output, reload_output, index, fail, or_fail, else_fail,
}
use utx0_node.Transaction.Spec.{Resolves}

module _ (c : Crates) (S : ObjectStore) where
  -- The parts of a successful reading of stored bytes.
  record IsParsed (bytes : Bytes) (tx : Transaction) : Type 0 where
    json : Value c.json.Number
    parsed : c.json.from_slice bytes ≡ ok json
    inner : Value c.json.Number
    wrapped : get (lit "object") json ≡ some inner
    decoded : c.from_value inner ≡ ok tx

  parse_parent-IsParsed :
      (bytes : Bytes) (tx : Transaction) → parse_parent c S bytes ≡ ok tx → IsParsed bytes tx
  unfolding parse_parent
  parse_parent-IsParsed bytes tx h =
      let (j, parsed, h₁) = >>=-eq-ok (else_fail invalid_format (c.json.from_slice bytes)) _ h in
      let (i, wrapped, h₂) = >>=-eq-ok (or_fail invalid_format (get (lit "object") j)) _ h₁ in
      record {
        json = j;
        parsed = map_err-eq-ok _ (c.json.from_slice bytes) parsed;
        inner = i;
        wrapped = ok_or-eq-ok _ (get (lit "object") j) wrapped;
        decoded = map_err-eq-ok _ (c.from_value i) h₂;
      }

  parse_parent-Resolves :
      (store : S.State) (input : Input) (output : Output) (r : Resolves c S store input output)
      → parse_parent c S r.parent_bytes ≡ ok r.parent_tx
  unfolding parse_parent
  parse_parent-Resolves store input output r = rw (r.parsed, r.wrapped, r.decoded)

  index-eq-ok :
      (outputs : List Output) (i : ℕ) (output : Output)
      → (if leb (length outputs) i then fail invalid_outpoint else index outputs i) ≡ ok output
      → get_elem? outputs i ≡ some output
  index-eq-ok outputs i output h = ground arith

  get_elem?-lt :
      (outputs : List Output) (i : ℕ) (output : Output)
      → get_elem? outputs i ≡ some output
      → i < length outputs
  get_elem?-lt [] i output h = cc
  get_elem?-lt (o ∷ outputs) zero output h = omega arith
  get_elem?-lt (o ∷ outputs) (suc i) output h = omega (arith, get_elem?-lt outputs i output h)

  pub find_output-eq-ok :
      (store : S.State) (input : Input) (output : Output)
      → find_output c S store input ≡ ok output
      → Resolves c S store input output
  unfolding find_output
  find_output-eq-ok store input output h =
      let (found, got, h₁) =
        >>=-eq-ok (else_fail unknown_object (S.get store input.outpoint.txid)) _ h in
      let (bytes, there, h₂) = >>=-eq-ok (or_fail invalid_outpoint found) _ h₁ in
      let (tx, read, h₃) = >>=-eq-ok (parse_parent c S bytes) _ h₂ in
      let p : IsParsed bytes tx = parse_parent-IsParsed bytes tx read in
      record {
        parent_bytes = bytes;
        stored =
            map_err-eq-ok _ (S.get store input.outpoint.txid) got
            ∙ ap ok (ok_or-eq-ok _ found there);
        parent_json = p.json;
        parsed = p.parsed;
        inner = p.inner;
        wrapped = p.wrapped;
        parent_tx = tx;
        decoded = p.decoded;
        named = index-eq-ok tx.outputs input.outpoint.index output h₃;
      }

  pub find_output-Resolves :
      (store : S.State) (input : Input) (output : Output)
      → Resolves c S store input output
      → find_output c S store input ≡ ok output
  unfolding find_output
  find_output-Resolves store input output r =
      rw (r.stored, parse_parent-Resolves store input output r)
        (ground (arith, r.named, get_elem?-lt r.parent_tx.outputs input.outpoint.index output))

  -- What the first reading found, the second finds, without a panic.
  pub reload_output-Resolves :
      (store : S.State) (input : Input) (output : Output)
      → Resolves c S store input output
      → reload_output c S store input ≡ ok output
  unfolding reload_output
  reload_output-Resolves store input output r =
      rw (r.stored, parse_parent-Resolves store input output r, r.named)
