-- ===== src/Tests/Escaped.antt =====
-- A writer of JSON leaves that escapes what strings may not hold, as a function, and that its texts
-- can be read in one way only.
use utx0_node.Base.{
  ℕ, ◌≡◌, refl, ap, sym, subst, ◌∙◌, true, false, ◌||◌, Text, Bytes, lit, [], ◌∷◌, ◌++◌, Result, ok,
  err, ◌==◌, if◌then◌else◌, arith,
}
use utx0_node.Canonical.Readable.{is_leaf, ends, opens_leaf, opens_key, IsReadable}
use utx0_node.Json.{null, bool, number, string, array, object, SerdeJson}
use utx0_node.Std.Decimal
use utx0_node.Std.Decimal.{
  is_digit, IsDigits, StartsWithDigit, starts, to_string-IsDigits, to_string-StartsWithDigit,
  to_string-injective,
}
use utx0_node.Tests.Fixtures.{Json}

-- The rest of a string, to its closing quote.
escape : Text → Bytes
escape [] = lit "\""
escape (c ∷ s) =
    let rest = escape s in
    if c == b'"' || c == b'\\'
    then b'\\' ∷ c ∷ rest
    else if c == b'\n'
    then b'\\' ∷ b'n' ∷ rest
    else c ∷ rest

unfoldable pub write_string : Text → Bytes
unfolding escape
write_string s = b'"' ∷ escape s

unfoldable pub write_escaped : Json → Result Text Bytes
unfolding write_string
write_escaped null = ok (lit "null")
write_escaped (bool true) = ok (lit "true")
write_escaped (bool false) = ok (lit "false")
write_escaped (number n) = ok (Decimal.to_string n)
write_escaped (string s) = ok (write_string s)
write_escaped _ = err (lit "not a leaf")

escape_read : (s t : Text) (r q : Bytes) → escape s ++ r ≡ escape t ++ q → (s ≡ t) × (r ≡ q)
unfolding escape
escape_read [] [] r q e = (refl, cc)
escape_read [] (d ∷ t) r q e = absurd (ground arith)
escape_read (c ∷ s) [] r q e = absurd (ground arith)
escape_read (c ∷ s) (d ∷ t) r q e = ground (arith, escape_read s t r q)

write_string_read :
    (s t : Text) (r q : Bytes) → write_string s ++ r ≡ write_string t ++ q → (s ≡ t) × (r ≡ q)
unfolding write_string
write_string_read s t r q e = escape_read s t r q (cc)

-- No end of a value is a digit.
digits_read :
    (s t : Text) (r q : Bytes)
    → IsDigits s
    → IsDigits t
    → ends r ≡ true
    → ends q ≡ true
    → s ++ r ≡ t ++ q
    → (s ≡ t) × (r ≡ q)
digits_read [] [] r q hs ht hr hq e = (refl, e)
digits_read [] (d ∷ t) [] q hs ht hr hq e = cc
digits_read [] (d ∷ t) (b ∷ r) q hs ht hr hq e = absurd (ground arith)
digits_read (c ∷ s) [] r [] hs ht hr hq e = cc
digits_read (c ∷ s) [] r (b ∷ q) hs ht hr hq e = absurd (ground arith)
digits_read (c ∷ s) (d ∷ t) r q hs ht hr hq e = ground (arith, digits_read s t r q)

-- What a text begins with: 0 for a digit.
tag : Bytes → ℕ
tag [] = 1
tag (c ∷ s) = if is_digit c then 0 else c

abbrev tag_of : Json → ℕ
tag_of null = b'n'
tag_of (bool true) = b't'
tag_of (bool false) = b'f'
tag_of (number n) = 0
tag_of (string s) = b'"'
tag_of _ = 1

tag-StartsWithDigit : {s : Text} (r : Bytes) → StartsWithDigit s → tag (s ++ r) ≡ 0
unfolding tag
tag-StartsWithDigit r (starts s d) = rw d refl

tag-write_escaped :
    (v : Json) (s r : Bytes) → is_leaf v ≡ true → write_escaped v ≡ ok s → tag (s ++ r) ≡ tag_of v
unfolding write_escaped tag
tag-write_escaped null s r leaf h = ground arith
tag-write_escaped (bool true) s r leaf h = ground arith
tag-write_escaped (bool false) s r leaf h = ground arith
tag-write_escaped (number n) s r leaf h =
    let e : Decimal.to_string n ≡ s = cc in
    subst (λ t. tag (t ++ r) ≡ 0) e (tag-StartsWithDigit r (to_string-StartsWithDigit n))
tag-write_escaped (string t) s r leaf h = ground arith
tag-write_escaped (array a) s r leaf h = cc
tag-write_escaped (object m) s r leaf h = cc

leaf_read_tagged :
    (v w : Json) (s t r q : Bytes)
    → is_leaf v ≡ true
    → is_leaf w ≡ true
    → write_escaped v ≡ ok s
    → write_escaped w ≡ ok t
    → ends r ≡ true
    → ends q ≡ true
    → s ++ r ≡ t ++ q
    → tag_of v ≡ tag_of w
    → (v ≡ w) × (r ≡ q)
unfolding write_escaped
leaf_read_tagged null null s t r q lv lw hv hw er eq e agree = ground arith
leaf_read_tagged (bool true) (bool true) s t r q lv lw hv hw er eq e agree = ground arith
leaf_read_tagged (bool false) (bool false) s t r q lv lw hv hw er eq e agree = ground arith
leaf_read_tagged (number n) (number m) s t r q lv lw hv hw er eq e agree =
    let whole : Decimal.to_string n ++ r ≡ Decimal.to_string m ++ q = cc in
    let (alike, left) =
      digits_read (Decimal.to_string n) (Decimal.to_string m) r q (to_string-IsDigits n)
        (to_string-IsDigits m) er eq whole in
    (ap number (to_string-injective n m alike), left)
leaf_read_tagged (string a) (string b) s t r q lv lw hv hw er eq e agree =
    let whole : write_string a ++ r ≡ write_string b ++ q = cc in
    let (alike, left) = write_string_read a b r q whole in (ap string alike, left)
leaf_read_tagged v w s t r q lv lw hv hw er eq e agree = absurd (ground arith)

opens_leaf_of_digit : {s : Text} → StartsWithDigit s → opens_leaf s ≡ true
opens_leaf_of_digit (starts s d) = ground arith

leaf_opens_escaped :
    (v : Json) (s : Bytes) → is_leaf v ≡ true → write_escaped v ≡ ok s → opens_leaf s ≡ true
unfolding write_escaped write_string
leaf_opens_escaped null s leaf h = ground arith
leaf_opens_escaped (bool true) s leaf h = ground arith
leaf_opens_escaped (bool false) s leaf h = ground arith
leaf_opens_escaped (number n) s leaf h =
    let e : Decimal.to_string n ≡ s = cc in
    subst (λ t. opens_leaf t ≡ true) e (opens_leaf_of_digit (to_string-StartsWithDigit n))
leaf_opens_escaped (string t) s leaf h = ground arith
leaf_opens_escaped (array a) s leaf h = cc
leaf_opens_escaped (object m) s leaf h = cc

leaf_written_escaped : (v : Json) → is_leaf v ≡ true → (s : Bytes) × (write_escaped v ≡ ok s)
unfolding write_escaped
leaf_written_escaped null leaf = (_, refl)
leaf_written_escaped (bool true) leaf = (_, refl)
leaf_written_escaped (bool false) leaf = (_, refl)
leaf_written_escaped (number n) leaf = (_, refl)
leaf_written_escaped (string s) leaf = (_, refl)
leaf_written_escaped (array a) leaf = cc
leaf_written_escaped (object m) leaf = cc

key_opens_escaped :
    (k : Text) (s : Bytes)
    → ◌≡◌ {A = Result Text Bytes} (ok (write_string k)) (ok s)
    → opens_key s ≡ true
unfolding write_string
key_opens_escaped k s h = ground arith

-- With a parser.
abbrev pub escaped : (Bytes → Result Text Json) → SerdeJson
escaped from_slice = record {
  Number = ℕ;
  Error = Text;
  to_vec = write_escaped;
  write_key = λ k. ok (write_string k);
  from_slice = from_slice;
}

pub escaped-IsReadable : (from_slice : Bytes → Result Text Json) → IsReadable (escaped from_slice)
escaped-IsReadable from_slice = record {
  leaf_written = leaf_written_escaped;
  key_written = λ k. (write_string k, refl);
  leaf_opens = leaf_opens_escaped;
  leaf_read = λ v w s t r q lv lw hv hw er eq e.
      leaf_read_tagged v w s t r q lv lw hv hw er eq e
        (sym (tag-write_escaped v s r lv hv) ∙ ap tag e ∙ tag-write_escaped w t q lw hw);
  key_opens = key_opens_escaped;
  key_read = λ k j s t r q h i e. write_string_read k j r q (cc);
}
