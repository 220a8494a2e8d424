-- ===== src/Canonical/Printed.antt =====
-- What the loops of src/util/canonical.rs write of the elements of an array and of the sorted
-- entries of an object.
use mathlib.Core.List.{append_assoc}
use utx0_node.Base.{
  ℕ, suc, ◌≡◌, refl, ap, sym, ◌∙◌, Text, Bytes, lit, [], ◌∷◌, ◌++◌, ok, >>=-eq-ok, ltb,
  if◌then◌else◌, text_leb, arith,
}
use utx0_node.Canonical.{
  write_elements, write_array, write_entries, write_object, to_canonical_json, canonical_items,
  canonical_entries,
}
use utx0_node.Canonical.Sort.{sort_by_key, insert_by_key}
use utx0_node.Json.{Value, array, object, Items, nil, cons, Map, end, entry, SerdeJson}

abbrev pub sep : ℕ → Bytes
sep i = if ltb 0 i then lit "," else []

-- The entries of a map, sorted by their keys.
module _ {N : Type 0} where
  unfoldable pub insert_entry : Text → Value N → Map N → Map N
  insert_entry k v end = entry k v end
  insert_entry k v (entry j w m) =
      let rest = insert_entry k v m in
      if text_leb k j then entry k v (entry j w m) else entry j w rest

  unfoldable pub sort_map : Map N → Map N
  unfolding insert_entry
  sort_map end = end
  sort_map (entry k v m) = insert_entry k v (sort_map m)

regroup_item : (a b x y : Bytes) → (a ++ b ++ x) ++ y ≡ a ++ (b ++ (x ++ y))
regroup_item a b x y = simp append_assoc

regroup_entry :
    (a b k c x y : Bytes) → (a ++ b ++ k ++ c ++ x) ++ y ≡ a ++ (b ++ (k ++ (c ++ (x ++ y))))
regroup_entry a b k c x y = simp append_assoc

module _ (sj : SerdeJson) where
  open sj use {Number, Error, write_key}

  -- The text from an element on, its comma included, to the end of the array.
  abbrev pub PrintsItems : ℕ → Items Number → Bytes → Type 0
  PrintsItems i nil s = s ≡ lit "]"
  PrintsItems i (cons v a) s =
      (x : Bytes) × (y : Bytes) × (to_canonical_json sj v ≡ ok x)
      × PrintsItems (suc i) a y
      × (s ≡ sep i ++ (x ++ y))

  abbrev pub PrintsMap : ℕ → Map Number → Bytes → Type 0
  PrintsMap i end s = s ≡ lit "}"
  PrintsMap i (entry k v m) s =
      (key : Bytes) × (x : Bytes) × (y : Bytes) × (write_key k ≡ ok key)
      × (to_canonical_json sj v ≡ ok x)
      × PrintsMap (suc i) m y
      × (s ≡ sep i ++ (key ++ (lit ":" ++ (x ++ y))))

  insert_by_key-canonical_entries :
      (k : Text) (v : Value Number) (m : Map Number)
      → insert_by_key (k, to_canonical_json sj v) (canonical_entries sj m)
        ≡ canonical_entries sj (insert_entry k v m)
  unfolding insert_by_key canonical_entries insert_entry
  insert_by_key-canonical_entries k v end = refl
  insert_by_key-canonical_entries k v (entry j w m) =
      ground (arith, insert_by_key-canonical_entries k v m)

  pub sort_by_key-canonical_entries :
      (m : Map Number) → sort_by_key (canonical_entries sj m) ≡ canonical_entries sj (sort_map m)
  unfolding sort_by_key canonical_entries sort_map
  sort_by_key-canonical_entries end = refl
  sort_by_key-canonical_entries (entry k v m) =
      ap (insert_by_key (k, to_canonical_json sj v)) (sort_by_key-canonical_entries m)
      ∙ insert_by_key-canonical_entries k v (sort_map m)

  elements-PrintsItems :
      (i : ℕ) (buf : Bytes) (a : Items Number) (out : Bytes)
      → write_elements i buf (canonical_items sj a) ≡ ok out
      → (y : Bytes) × PrintsItems i a y × (out ++ lit "]" ≡ buf ++ y)
  unfolding write_elements canonical_items
  elements-PrintsItems i buf nil out h = (lit "]", refl, cc)
  elements-PrintsItems i buf (cons v a) out h =
      let (x, written, more) = >>=-eq-ok (to_canonical_json sj v) _ h in
      let (y, rest, whole) = elements-PrintsItems (suc i) (buf ++ sep i ++ x) a out more in
      (sep i ++ (x ++ y), (x, y, written, rest, refl), whole ∙ regroup_item buf (sep i) x y)

  pub array-PrintsItems :
      (a : Items Number) (s : Bytes)
      → to_canonical_json sj (array a) ≡ ok s
      → (y : Bytes) × PrintsItems 0 a y × (s ≡ b'[' ∷ y)
  unfolding to_canonical_json write_array
  array-PrintsItems a s h =
      let (out, written, closed) =
        >>=-eq-ok (write_elements 0 (lit "[") (canonical_items sj a)) _ h in
      let (y, printed, whole) = elements-PrintsItems 0 (lit "[") a out written in (y, printed, cc)

  entries-PrintsMap :
      (i : ℕ) (buf : Bytes) (m : Map Number) (out : Bytes)
      → write_entries write_key i buf (canonical_entries sj m) ≡ ok out
      → (y : Bytes) × PrintsMap i m y × (out ++ lit "}" ≡ buf ++ y)
  unfolding write_entries canonical_entries
  entries-PrintsMap i buf end out h = (lit "}", refl, cc)
  entries-PrintsMap i buf (entry k v m) out h =
      let (key, named, valued) = >>=-eq-ok (write_key k) _ h in
      let (x, written, more) = >>=-eq-ok (to_canonical_json sj v) _ valued in
      let (y, rest, whole) =
        entries-PrintsMap (suc i) (buf ++ sep i ++ key ++ lit ":" ++ x) m out more in
      (
        sep i ++ (key ++ (lit ":" ++ (x ++ y))),
        (key, x, y, named, written, rest, refl),
        whole ∙ regroup_entry buf (sep i) key (lit ":") x y,
      )

  pub object-PrintsMap :
      (m : Map Number) (s : Bytes)
      → to_canonical_json sj (object m) ≡ ok s
      → (y : Bytes) × PrintsMap 0 (sort_map m) y × (s ≡ b'{' ∷ y)
  unfolding to_canonical_json write_object
  object-PrintsMap m s h =
      let (out, written, closed) =
        >>=-eq-ok (write_entries write_key 0 (lit "{") (sort_by_key (canonical_entries sj m))) _
          h in
      let (y, printed, whole) = entries-PrintsMap 0 (lit "{") (sort_map m) out (
        ap (write_entries write_key 0 (lit "{")) (sym (sort_by_key-canonical_entries m))
        ∙ written) in
      (y, printed, cc)
