-- ===== src/Canonical/Reading.antt =====
-- Canonical JSON (src/util/canonical.rs) can be read in one way only.
use utx0_node.Base.{
  ℕ, zero, suc, ◌≡◌, refl, sym, subst, ◌∙◌, true, Text, Bytes, lit, [], ◌∷◌, ◌++◌, ok, arith,
}
use utx0_node.Canonical.{to_canonical_json}
use utx0_node.Canonical.Printed.{
  sep, sort_map, PrintsItems, PrintsMap, array-PrintsItems, object-PrintsMap,
}
use utx0_node.Canonical.Written.{to_canonical_json-leaf}
use utx0_node.Canonical.Reorder.{
  SameValue, SameItems, SameMap, same, same_array, same_object, same_nil, same_cons, same_end,
  same_entry, chained,
}
use utx0_node.Canonical.Sorted.{SameMap-sym, sort_map-SameMap, AllMap, sort_map-AllMap}
use utx0_node.Canonical.Readable.{
  is_leaf, ends, opens_leaf, opens_key, IsReadable, sep-suc, stays_in, stays_in-append, stays_in-ne,
  strip, strip_part,
}
use utx0_node.Json.{
  Value, null, bool, number, string, array, object, Items, nil, cons, Map, end, entry, SerdeJson,
}

module _ (sj : SerdeJson) (readable : IsReadable sj) where
  open sj use {Number}

  leaf_opens :
      (v : Value Number) (s : Bytes)
      → is_leaf v ≡ true
      → to_canonical_json sj v ≡ ok s
      → opens_leaf s ≡ true
  leaf_opens v s leaf h = readable.leaf_opens v s leaf (sym (to_canonical_json-leaf sj v leaf) ∙ h)

  opens_leaf-stays_in : (s : Bytes) → opens_leaf s ≡ true → stays_in b']' s ≡ true
  opens_leaf-stays_in [] h = h
  opens_leaf-stays_in (c ∷ s) h = ground arith

  opens_key-stays_in : (s : Bytes) → opens_key s ≡ true → stays_in b'}' s ≡ true
  opens_key-stays_in [] h = h
  opens_key-stays_in (c ∷ s) h = ground arith

  -- No value's text begins as an array ends.
  value-stays_in :
      (v : Value Number) (s : Bytes) → to_canonical_json sj v ≡ ok s → stays_in b']' s ≡ true
  value-stays_in (array a) s h = let (y, p, e) = array-PrintsItems sj a s h in rw e refl
  value-stays_in (object m) s h = let (y, p, e) = object-PrintsMap sj m s h in rw e refl
  value-stays_in v s h = opens_leaf-stays_in s (leaf_opens v s refl h)

  items-stays_in :
      (i : ℕ) (v : Value Number) (a : Items Number) (s : Bytes)
      → PrintsItems sj i (cons v a) s
      → stays_in b']' s ≡ true
  items-stays_in zero v a s (x, y, h, p, e) = rw e (stays_in-append b']' x y (value-stays_in v x h))
  items-stays_in (suc i) v a s (x, y, h, p, e) = rw (e, sep-suc i) refl

  map-stays_in :
      (i : ℕ) (k : Text) (v : Value Number) (m : Map Number) (s : Bytes)
      → PrintsMap sj i (entry k v m) s
      → stays_in b'}' s ≡ true
  map-stays_in zero k v m s (key, x, y, n, h, p, e) = rw e (
      stays_in-append b'}' key (lit ":" ++ (x ++ y))
        (opens_key-stays_in key (readable.key_opens k key n)))
  map-stays_in (suc i) k v m s (key, x, y, n, h, p, e) = rw (e, sep-suc i) refl

  items-ends :
      (i : ℕ) (a : Items Number) (s r : Bytes) → PrintsItems sj (suc i) a s → ends (s ++ r) ≡ true
  items-ends i nil s r h = rw h refl
  items-ends i (cons v a) s r (x, y, h, p, e) = rw (e, sep-suc i) refl

  map-ends :
      (i : ℕ) (m : Map Number) (s r : Bytes) → PrintsMap sj (suc i) m s → ends (s ++ r) ≡ true
  map-ends i end s r h = rw h refl
  map-ends i (entry k v m) s r (key, x, y, n, h, p, e) = rw (e, sep-suc i) refl

  -- Whatever follows two texts, if each ends the value before it, and the two are one text: the
  -- values are the same, and so is what follows.
  abbrev pub Unique : Value Number → Type 0
  Unique v =
      (w : Value Number) (s t r q : Bytes)
      → to_canonical_json sj v ≡ ok s
      → to_canonical_json sj w ≡ ok t
      → ends r ≡ true
      → ends q ≡ true
      → s ++ r ≡ t ++ q
      → SameValue v w × (r ≡ q)

  abbrev AllItems : Items Number → Type 0
  AllItems nil = Unit
  AllItems (cons v a) = Unique v × AllItems a

  -- What two lists of elements have written, and what follows.
  items-Unique :
      (i : ℕ) (a b : Items Number) (s t r q : Bytes)
      → AllItems a
      → PrintsItems sj i a s
      → PrintsItems sj i b t
      → s ++ r ≡ t ++ q
      → SameItems a b × (r ≡ q)
  items-Unique i nil nil s t r q u h k e = (same_nil, strip (lit "]") [] r [] q h k e)
  items-Unique i nil (cons w b) s t r q u h k e =
      absurd (stays_in-ne b']' [] s t r q h (items-stays_in i w b t k) e)
  items-Unique i (cons v a) nil s t r q u h k e =
      absurd (stays_in-ne b']' [] t s q r k (items-stays_in i v a s h) (sym e))
  items-Unique i (cons v a) (cons w b) s t r q (u, us) (x, y, hx, hy, hs) (x', y', kx, ky, ks) e =
      let (sv, rest) =
        u w x x' (y ++ r) (y' ++ q) hx kx (items-ends i a y r hy) (items-ends i b y' q ky)
          (strip_part (sep i) x y r x' y' q hs ks e) in
      let (sa, left) = items-Unique (suc i) a b y y' r q us hy ky rest in (same_cons sv sa, left)

  map-Unique :
      (i : ℕ) (m n : Map Number) (s t r q : Bytes)
      → AllMap Unique m
      → PrintsMap sj i m s
      → PrintsMap sj i n t
      → s ++ r ≡ t ++ q
      → SameMap m n × (r ≡ q)
  map-Unique i end end s t r q u h k e = (same_end, strip (lit "}") [] r [] q h k e)
  map-Unique i end (entry j w n) s t r q u h k e =
      absurd (stays_in-ne b'}' [] s t r q h (map-stays_in i j w n t k) e)
  map-Unique i (entry l v m) end s t r q u h k e =
      absurd (stays_in-ne b'}' [] t s q r k (map-stays_in i l v m s h) (sym e))
  map-Unique i (entry l v m) (entry j w n) s t r q (u, us) (key, x, y, hn, hx, hy, hs)
        (key', x', y', kn, kx, ky, ks) e =
      let (named, colon) =
        readable.key_read l j key key' ((lit ":" ++ (x ++ y)) ++ r) ((lit ":" ++ (x' ++ y')) ++ q)
          hn kn
          (strip_part (sep i) key (lit ":" ++ (x ++ y)) r key' (lit ":" ++ (x' ++ y')) q hs ks e) in
      let (sv, rest) =
        u w x x' (y ++ r) (y' ++ q) hx kx (map-ends i m y r hy) (map-ends i n y' q ky)
          (strip_part (lit ":") x y r x' y' q refl refl colon) in
      let (sm, left) = map-Unique (suc i) m n y y' r q us hy ky rest in
      (rw named (same_entry sv sm), left)

  opens_leaf-stays_out :
      (s : Bytes) → opens_leaf s ≡ true → (stays_in b'[' s ≡ true) × (stays_in b'{' s ≡ true)
  opens_leaf-stays_out [] h = absurd (ground arith)
  opens_leaf-stays_out (c ∷ s) h = ground arith

  leaf_stays_out :
      (v : Value Number) (s : Bytes)
      → is_leaf v ≡ true
      → to_canonical_json sj v ≡ ok s
      → (stays_in b'[' s ≡ true) × (stays_in b'{' s ≡ true)
  leaf_stays_out v s leaf h = opens_leaf-stays_out s (leaf_opens v s leaf h)

  array-Unique : (a : Items Number) → AllItems a → Unique (array a)
  array-Unique a u (array b) s t r q h k er eq e =
      let (y, hy, hs) = array-PrintsItems sj a s h in
      let (y', ky, ks) = array-PrintsItems sj b t k in
      let (sa, left) = items-Unique 0 a b y y' r q u hy ky (strip (lit "[") y r y' q hs ks e) in
      (same_array sa, left)
  array-Unique a u (object n) s t r q h k er eq e =
      let (y, hy, hs) = array-PrintsItems sj a s h in
      let (y', ky, ks) = object-PrintsMap sj n t k in
      absurd (stays_in-ne b'[' y s t r q hs (rw ks refl) e)
  array-Unique a u w s t r q h k er eq e =
      let (y, hy, hs) = array-PrintsItems sj a s h in
      absurd (stays_in-ne b'[' y s t r q hs (leaf_stays_out w t refl k).0 e)

  object-Unique : (m : Map Number) → AllMap Unique m → Unique (object m)
  object-Unique m u (object n) s t r q h k er eq e =
      let (y, hy, hs) = object-PrintsMap sj m s h in
      let (y', ky, ks) = object-PrintsMap sj n t k in
      let (sm, left) =
        map-Unique 0 (sort_map m) (sort_map n) y y' r q (sort_map-AllMap Unique m u) hy ky
          (strip (lit "{") y r y' q hs ks e) in
      (
        same_object (chained (sort_map-SameMap m) (chained sm (SameMap-sym (sort_map-SameMap n)))),
        left,
      )
  object-Unique m u (array b) s t r q h k er eq e =
      let (y, hy, hs) = object-PrintsMap sj m s h in
      let (y', ky, ks) = array-PrintsItems sj b t k in
      absurd (stays_in-ne b'{' y s t r q hs (rw ks refl) e)
  object-Unique m u w s t r q h k er eq e =
      let (y, hy, hs) = object-PrintsMap sj m s h in
      absurd (stays_in-ne b'{' y s t r q hs (leaf_stays_out w t refl k).1 e)

  leaf-Unique : (v : Value Number) → is_leaf v ≡ true → Unique v
  leaf-Unique v leaf (array b) s t r q h k er eq e =
      let (y, ky, ks) = array-PrintsItems sj b t k in
      absurd (stays_in-ne b'[' y t s q r ks (leaf_stays_out v s leaf h).0 (sym e))
  leaf-Unique v leaf (object n) s t r q h k er eq e =
      let (y, ky, ks) = object-PrintsMap sj n t k in
      absurd (stays_in-ne b'{' y t s q r ks (leaf_stays_out v s leaf h).1 (sym e))
  leaf-Unique v leaf w s t r q h k er eq e =
      let (alike, left) =
        readable.leaf_read v w s t r q leaf refl (sym (to_canonical_json-leaf sj v leaf) ∙ h)
          (sym (to_canonical_json-leaf sj w refl) ∙ k) er eq e in
      (subst (SameValue v) alike same, left)

  mutual
    pub value-Unique : (v : Value Number) → Unique v
    value-Unique (array a) = array-Unique a (items-AllItems a)
    value-Unique (object m) = object-Unique m (map-AllMap m)
    value-Unique null = leaf-Unique null refl
    value-Unique (bool b) = leaf-Unique (bool b) refl
    value-Unique (number n) = leaf-Unique (number n) refl
    value-Unique (string s) = leaf-Unique (string s) refl

    items-AllItems : (a : Items Number) → AllItems a
    items-AllItems nil = tt
    items-AllItems (cons v a) = (value-Unique v, items-AllItems a)

    map-AllMap : (m : Map Number) → AllMap Unique m
    map-AllMap end = tt
    map-AllMap (entry k v m) = (value-Unique v, map-AllMap m)
