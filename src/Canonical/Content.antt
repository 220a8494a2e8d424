-- ===== src/Canonical/Content.antt =====
-- What an object is when the order of its entries is forgotten, with its canonical JSON and its id
-- (src/util/canonical.rs).
use mathlib.Core.Quot
use mathlib.Core.Quot.{Quot, Quot-set}
use utx0_node.Base.{
  ◌≡◌, ◌≢◌, ◌⊎◌, ◌↔◌, [], inl, inr, refl, sym, ◌∙◌, Text, Bytes, ok, >>=-eq-ok, Bool-cases, text_eq,
  text_eq_iff,
}
use utx0_node.Canonical.{to_canonical_json, compute_object_id}
use utx0_node.Canonical.Readable.{IsReadable}
use utx0_node.Canonical.Reading.{value-Unique}
use utx0_node.Canonical.Written.{to_canonical_json-IsWritten}
use utx0_node.Canonical.Reorder.{SameValue, to_canonical_json-Same}
use utx0_node.Json.{Value, SerdeJson}

module _ (sj : SerdeJson) where
  open sj use {Number}

  -- If the crate's texts are as documented, every value has canonical JSON, and two values have the
  -- same exactly when they are equal up to the order of the entries of their objects.
  pub to_canonical_json_iff :
      (readable : IsReadable sj) (v w : Value Number)
      → ((s : Bytes) × (to_canonical_json sj v ≡ ok s))
        × ((to_canonical_json sj v ≡ to_canonical_json sj w) ↔ SameValue v w)
  to_canonical_json_iff readable v w =
      let (s, h) = to_canonical_json-IsWritten sj readable v in
      (
        (s, h),
        (
          λ alike. (value-Unique sj readable v w s s [] [] h (sym alike ∙ h) refl refl refl).0,
          to_canonical_json-Same sj v w,
        ),
      )

  -- Values up to the order of the entries of their objects.
  abbrev pub Content : Type 0
  Content = Quot (SameValue {N = Number})

  abbrev pub content : Value Number → Content
  content v = Quot.mk v

  -- The canonical texts of these two values differ, and have the same digest.
  abbrev pub Collides : (Bytes → Text) → Value Number → Value Number → Type 0
  Collides hex_digest v w =
      (s : Bytes) × (t : Bytes) × (to_canonical_json sj v ≡ ok s)
      × (to_canonical_json sj w ≡ ok t)
      × (s ≢ t)
      × (hex_digest s ≡ hex_digest t)

  -- If the crate's texts are as documented, then two values with the same id have the same content,
  -- or the hash takes their different canonical texts to the same digest.
  pub compute_object_id-content :
      (readable : IsReadable sj) (hex_digest : Bytes → Text) (v w : Value Number) (id : Text)
      → compute_object_id sj hex_digest v ≡ ok id
      → compute_object_id sj hex_digest w ≡ ok id
      → (content v ≡ content w) ⊎ Collides hex_digest v w
  unfolding compute_object_id
  compute_object_id-content readable hex_digest v w id h k =
      let (s, hs, hid) = >>=-eq-ok (to_canonical_json sj v) _ h in
      let (t, kt, kid) = >>=-eq-ok (to_canonical_json sj w) _ k in
      elim (Bool-cases (text_eq s t)) [
        | inl alike ↦
            inl (
              Quot.sound
                ((to_canonical_json_iff readable v w).1.0 (cc ((text_eq_iff s t).0 alike))))
        | inr differ ↦ inr (s, t, hs, kt, (λ e. cc ((text_eq_iff s t).1 e)), cc)
      ]
