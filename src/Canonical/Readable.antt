-- ===== src/Canonical/Readable.antt =====
-- What src/util/canonical.rs relies on for its texts to be read in one way only, and lemmas on
-- such texts.
use mathlib.Core.List.{append_assoc}
use utx0_node.Base.{
  ℕ, suc, ◌≡◌, ◌≢◌, ap, sym, ◌∙◌, Bool, true, false, not, ◌||◌, Text, Bytes, lit, [], ◌∷◌, ◌++◌, ok,
  ◌==◌, arith,
}
use utx0_node.Canonical.Printed.{sep}
use utx0_node.Json.{Value, array, object, SerdeJson}

-- Neither an array nor an object.
abbrev pub is_leaf : {N : Type 0} → Value N → Bool
is_leaf (array a) = false
is_leaf (object m) = false
is_leaf _ = true

-- The end of the text, or a byte that ends a value inside an array or an object.
abbrev pub ends : Bytes → Bool
ends [] = true
ends (c ∷ s) = c == b',' || (c == b']' || c == b'}')

abbrev pub opens_leaf : Bytes → Bool
opens_leaf [] = false
opens_leaf (c ∷ s) = not (c == b'[' || (c == b'{' || c == b']'))

abbrev pub opens_key : Bytes → Bool
opens_key [] = false
opens_key (c ∷ s) = c == b'"'

-- What the crate documents of its texts: a leaf and a key are written; a leaf's text is no bracket's
-- and is read in one way, up to the end of the value; and a key's text is a string's, which shows
-- its own end.
pub record IsReadable (sj : SerdeJson) : Type 0 where
  pub leaf_written : (v : Value sj.Number) → is_leaf v ≡ true → (s : Bytes) × (sj.to_vec v ≡ ok s)
  pub key_written : (k : Text) → (s : Bytes) × (sj.write_key k ≡ ok s)
  pub leaf_opens :
      (v : Value sj.Number) (s : Bytes)
      → is_leaf v ≡ true
      → sj.to_vec v ≡ ok s
      → opens_leaf s ≡ true
  pub leaf_read :
      (v w : Value sj.Number) (s t r q : Bytes)
      → is_leaf v ≡ true
      → is_leaf w ≡ true
      → sj.to_vec v ≡ ok s
      → sj.to_vec w ≡ ok t
      → ends r ≡ true
      → ends q ≡ true
      → s ++ r ≡ t ++ q
      → (v ≡ w) × (r ≡ q)
  pub key_opens : (k : Text) (s : Bytes) → sj.write_key k ≡ ok s → opens_key s ≡ true
  pub key_read :
      (k j : Text) (s t r q : Bytes)
      → sj.write_key k ≡ ok s
      → sj.write_key j ≡ ok t
      → s ++ r ≡ t ++ q
      → (k ≡ j) × (r ≡ q)

pub sep-suc : (i : ℕ) → sep (suc i) ≡ lit ","
sep-suc i = ground arith

-- The text does not begin with the byte.
abbrev pub stays_in : ℕ → Bytes → Bool
stays_in b [] = false
stays_in b (c ∷ s) = not (c == b)

pub stays_in-append : (b : ℕ) (s t : Bytes) → stays_in b s ≡ true → stays_in b (s ++ t) ≡ true
stays_in-append b [] t h = cc
stays_in-append b (c ∷ s) t h = h

pub stays_in-ne : (b : ℕ) (y s t r q : Bytes) → s ≡ b ∷ y → stays_in b t ≡ true → s ++ r ≢ t ++ q
stays_in-ne b y s [] r q opened h e = cc
stays_in-ne b y s (c ∷ t) r q opened h e = absurd (ground arith)

cancel : (z s t : Bytes) → z ++ s ≡ z ++ t → s ≡ t
cancel [] s t h = h
cancel (c ∷ z) s t h = cancel z s t (cc)

-- The same text before what follows.
pub strip :
    (z y r y' q : Bytes) {s t : Bytes}
    → s ≡ z ++ y
    → t ≡ z ++ y'
    → s ++ r ≡ t ++ q
    → y ++ r ≡ y' ++ q
strip z y r y' q h k e = cancel z (y ++ r) (y' ++ q) (
    sym (append_assoc z y r)
    ∙ ap (λ u. u ++ r) (sym h)
    ∙ e
    ∙ ap (λ u. u ++ q) k
    ∙ append_assoc z y' q)

pub strip_part :
    (z x y r x' y' q : Bytes) {s t : Bytes}
    → s ≡ z ++ (x ++ y)
    → t ≡ z ++ (x' ++ y')
    → s ++ r ≡ t ++ q
    → x ++ (y ++ r) ≡ x' ++ (y' ++ q)
strip_part z x y r x' y' q h k e =
    sym (append_assoc x y r) ∙ strip z (x ++ y) r (x' ++ y') q h k e ∙ append_assoc x' y' q
