-- ===== src/Net/Framing/Rejects.antt =====
-- The key filter of `read_frame` in src/net/framing.rs, and the messages about objects.
use utx0_node.Base.{
  ◌≡◌, subst, Bool, true, false, some, Text, lit, List, ok, map_err, ok_or, >>=-eq-ok,
  map_err-eq-ok, ok_or-eq-ok, text_eq, text_eq_iff, Bool-cases, inl, inr, arith,
}
use utx0_node.Errors.{invalid_format}
use utx0_node.Json.{Value, object, Map, end, entry, as_object, as_str, map_get}
use utx0_node.Message.{Message, get_object, got_object}
use utx0_node.Net.Crates.{NetCrates}
use utx0_node.Net.Framing.{
  Reader, read_frame, allowed_keys, contains_key, check_keys, decode, frame, cut, recv_buffer_limit,
}
use utx0_node.Net.Framing.Lines.{after_line-eq-ok}

abbrev pub carries_id : Message → Bool
carries_id (get_object i) = true
carries_id (got_object i) = true
carries_id (Message.object i o) = true
carries_id _ = false

-- The derived deserialisation refuses a message without one of its fields.
pub record NeedsFields (c : NetCrates) : Type 0 where
  pub object_id :
      (v : Value c.json.Number) (m : Message)
      → c.message_from_value v ≡ ok m
      → carries_id m ≡ true
      → (obj : Map c.json.Number) × (w : Value c.json.Number) × (v ≡ object obj)
        × (map_get (lit "object_id") obj ≡ some w)

check_keys-contains_key :
    {N : Type 0} (allowed : List Text) (k : Text) (obj : Map N) (v : Value N)
    → check_keys allowed obj ≡ ok tt
    → map_get k obj ≡ some v
    → contains_key allowed k ≡ true
unfolding check_keys map_get
check_keys-contains_key allowed k end v h g = cc
check_keys-contains_key allowed k (entry j w obj) v h g =
    ground (arith, text_eq_iff j k, check_keys-contains_key allowed k obj v)

allowed_keys-lacks : (typ : Text) → contains_key (allowed_keys typ) (lit "object_id") ≡ false
unfolding contains_key text_eq
allowed_keys-lacks typ = ground arith

module _ (c : NetCrates) (needs : NeedsFields c) where
  keys-carries_id :
      (raw : Value c.json.Number) (obj : Map c.json.Number) (typ : Text) (m : Message)
      → as_object raw ≡ some obj
      → check_keys (allowed_keys typ) obj ≡ ok tt
      → c.message_from_value raw ≡ ok m
      → carries_id m ≡ false
  unfolding as_object
  keys-carries_id raw obj typ m is_obj checked read = elim (Bool-cases (carries_id m)) [
    | inr no_id ↦ no_id
    | inl has_id ↦
        let (obj', w, e, there) = needs.object_id raw m read has_id in
        let same : obj' ≡ obj = cc in
        let id_there = subst (λ o. map_get (lit "object_id") o ≡ some w) same there in
        cc (
          check_keys-contains_key (allowed_keys typ) (lit "object_id") obj w checked id_there,
          allowed_keys-lacks typ,
        )
  ]

  decode-carries_id : (line : Text) (m : Message) → decode c line ≡ ok m → carries_id m ≡ false
  unfolding decode
  decode-carries_id line m h =
      let (raw, parsed, h₁) =
        >>=-eq-ok (map_err (λ _. invalid_format) (c.json.from_slice line)) _ h in
      let (obj, is_obj, h₂) = >>=-eq-ok (ok_or invalid_format (as_object raw)) _ h₁ in
      let (tv, has_type, h₃) = >>=-eq-ok (ok_or invalid_format (map_get (lit "type") obj)) _ h₂ in
      let (typ, is_str, h₄) = >>=-eq-ok (ok_or invalid_format (as_str tv)) _ h₃ in
      let (u, checked, h₅) = >>=-eq-ok (check_keys (allowed_keys typ) obj) _ h₄ in
      keys-carries_id raw obj typ m (ok_or-eq-ok _ _ is_obj) checked (map_err-eq-ok _ _ h₅)

  frame-carries_id : (line : Text) (m : Message) → frame c line ≡ ok m → carries_id m ≡ false
  unfolding frame
  frame-carries_id line m h = ground (arith, decode-carries_id line m)

  -- `read_frame` never returns a `GetObject`, a `GotObject` or an `Object`, whatever arrives, if
  -- the derived deserialisation refuses such a message without its `object_id`.
  pub read_frame-carries_id :
      (r : Reader) (m : Message) → (read_frame c r).0 ≡ ok m → carries_id m ≡ false
  unfolding read_frame
  read_frame-carries_id r m h =
      let k = cut recv_buffer_limit r.incoming in
      frame-carries_id k.line m (after_line-eq-ok c r.failure k m h)
