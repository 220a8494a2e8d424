-- ===== src/Net/Dispatch/Received.antt =====
-- The ways in which the loop of src/net/dispatch.rs takes an object message.
use utx0_node.Base.{
  Option, Bytes, text_eq_iff, ◌≡◌, subst, true, false, Bool-cases, Result-cases, Text, Result, ok,
  err, inl, inr, text_eq, arith,
}
use utx0_node.Canonical.{ensure_object_field, compute_object_id}
use utx0_node.Config.{Config}
use utx0_node.Errors.{ProtocolError, invalid_format, storage}
use utx0_node.Json.{Value}
use utx0_node.Net.Crates.{NetCrates}
use utx0_node.Net.Dispatch.{
  Session, Control, go_on, close, send, mismatch, store_has, store_put, receive_object,
}
use utx0_node.Storage.{ObjectStore}

module _ (c : NetCrates) (S : ObjectStore) (config : Config) where
  -- The text parses, and its value has this id.
  pub record HasId (raw id : Text) : Type 0 where
    pub value : Value c.json.Number
    pub parsed : c.json.from_slice raw ≡ ok value
    pub hashed : compute_object_id c.json c.hex_digest value ≡ ok id

  -- The result of `receive_object`.
  pub data Received (id raw : Text) (s : Session S)
      : Result ProtocolError Control × Session S → Type 0 where
    -- The text is no object, or has no id, or the store fails to tell whether it has it.
    refused : (e : ProtocolError) → Received id raw s (err e, s)
    -- The id is another; the error message cannot be sent.
    unsent :
        (computed : Text) (e : ProtocolError)
        → (send c S (mismatch c S config id computed) s).0 ≡ err e
        → Received id raw s (err e, (send c S (mismatch c S config id computed) s).1)
    -- The id is another, and the error message is sent.
    mismatched :
        (computed : Text)
        → (send c S (mismatch c S config id computed) s).0 ≡ ok tt
        → Received id raw s (ok close, (send c S (mismatch c S config id computed) s).1)
    -- The store has the object.
    known : HasId raw id → S.has s.store id ≡ ok true → Received id raw s (ok go_on, s)
    -- The store takes the object, or fails to.
    put :
        HasId raw id
        → S.has s.store id ≡ ok false
        → (old : Option Bytes) → (S.put s.store id raw).0 ≡ ok old
        → Received id raw s (ok go_on, record s { store = (S.put s.store id raw).1 })
    put_fails :
        HasId raw id
        → S.has s.store id ≡ ok false
        → (e : ProtocolError)
        → Received id raw s (err e, record s { store = (S.put s.store id raw).1 })

  pub receive_object-Received :
      (id raw : Text) (s : Session S) → Received id raw s (receive_object c S config id raw s)
  unfolding receive_object store_has store_put
  receive_object-Received id raw s = elim (Result-cases (c.json.from_slice raw)) [
    | inr (x, e) ↦ rw e (refused invalid_format)
    | inl (v, e) ↦ elim (Result-cases (ensure_object_field v)) [
      | inr (x, e1) ↦ rw (e, e1) (refused x)
      | inl (inner, e1) ↦ elim (Result-cases (compute_object_id c.json c.hex_digest v)) [
        | inr (x, e2) ↦ rw (e, e1, e2) (refused invalid_format)
        | inl (computed, e2) ↦ elim (Bool-cases (text_eq computed id)) [
          | inr e3 ↦ elim (Result-cases (send c S (mismatch c S config id computed) s).0) [
            | inr (x, e4) ↦ subst (Received id raw s) (ground arith) (unsent computed x e4)
            | inl (u, e4) ↦ subst (Received id raw s) (ground arith) (mismatched computed e4)
          ]
          | inl e3 ↦
              let same : computed ≡ id = (text_eq_iff computed id).0 e3 in
              let its : HasId raw id = record {
                value = v;
                parsed = e;
                hashed = subst (λ i. compute_object_id c.json c.hex_digest v ≡ ok i) same e2;
              } in
              elim (Result-cases (S.has s.store id)) [
                | inr (x, e4) ↦ subst (Received id raw s) (ground arith) (refused (storage x))
                | inl (true, e4) ↦ subst (Received id raw s) (ground arith) (known its e4)
                | inl (false, e4) ↦ elim (Result-cases (S.put s.store id raw).0) [
                  | inr (x, e5) ↦
                      subst (Received id raw s) (ground arith) (put_fails its e4 (storage x))
                  | inl (old, e5) ↦ subst (Received id raw s) (ground arith) (put its e4 old e5)
                ]
              ]
        ]
      ]
    ]
  ]
