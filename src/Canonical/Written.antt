-- ===== src/Canonical/Written.antt =====
-- Every value has canonical JSON (src/util/canonical.rs), if its leaves and keys can be written.
use utx0_node.Base.{ℕ, suc, ◌≡◌, refl, ◌∙◌, true, Bytes, lit, ◌++◌, ok}
use utx0_node.Canonical.{
  write_elements, write_array, write_entries, write_object, to_canonical_json, canonical_items,
  canonical_entries,
}
use utx0_node.Canonical.Printed.{sep, sort_map, sort_by_key-canonical_entries}
use utx0_node.Canonical.Readable.{is_leaf, IsReadable}
use utx0_node.Canonical.Sorted.{AllMap, sort_map-AllMap}
use utx0_node.Json.{
  Value, null, bool, number, string, array, object, Items, nil, cons, Map, end, entry, SerdeJson,
}

module _ (sj : SerdeJson) where
  open sj use {Number}

  pub to_canonical_json-leaf :
      (v : Value Number) → is_leaf v ≡ true → to_canonical_json sj v ≡ sj.to_vec v
  unfolding to_canonical_json
  to_canonical_json-leaf (array a) h = cc
  to_canonical_json-leaf (object m) h = cc
  to_canonical_json-leaf _ h = refl

  module _ (readable : IsReadable sj) where
    abbrev IsWritten : Value Number → Type 0
    IsWritten v = (s : Bytes) × (to_canonical_json sj v ≡ ok s)

    abbrev AllItems : Items Number → Type 0
    AllItems nil = Unit
    AllItems (cons v a) = IsWritten v × AllItems a

    elements_written :
        (i : ℕ) (buf : Bytes) (a : Items Number)
        → AllItems a
        → (out : Bytes) × (write_elements i buf (canonical_items sj a) ≡ ok out)
    unfolding write_elements canonical_items
    elements_written i buf nil h = (buf, refl)
    elements_written i buf (cons v a) ((s, h), hs) =
        let (out, rest) = elements_written (suc i) (buf ++ sep i ++ s) a hs in (out, rw h rest)

    entries_written :
        (i : ℕ) (buf : Bytes) (m : Map Number)
        → AllMap IsWritten m
        → (out : Bytes) × (write_entries sj.write_key i buf (canonical_entries sj m) ≡ ok out)
    unfolding write_entries canonical_entries
    entries_written i buf end h = (buf, refl)
    entries_written i buf (entry k v m) ((s, h), hs) =
        let (key, named) = readable.key_written k in
        let (out, rest) = entries_written (suc i) (buf ++ sep i ++ key ++ lit ":" ++ s) m hs in
        (out, rw (named, h) rest)

    array-IsWritten : (a : Items Number) → AllItems a → IsWritten (array a)
    unfolding to_canonical_json write_array
    array-IsWritten a h =
        let (out, e) = elements_written 0 (lit "[") a h in (out ++ lit "]", rw e refl)

    object-IsWritten : (m : Map Number) → AllMap IsWritten m → IsWritten (object m)
    unfolding to_canonical_json write_object
    object-IsWritten m h =
        let (out, e) = entries_written 0 (lit "{") (sort_map m) (sort_map-AllMap IsWritten m h) in
        (out ++ lit "}", rw (sort_by_key-canonical_entries sj m, e) refl)

    leaf-IsWritten : (v : Value Number) → is_leaf v ≡ true → IsWritten v
    leaf-IsWritten v h =
        let (s, e) = readable.leaf_written v h in (s, to_canonical_json-leaf v h ∙ e)

    mutual
      -- Every value has canonical JSON, if its leaves and keys can be written.
      pub to_canonical_json-IsWritten :
          (v : Value Number) → (s : Bytes) × (to_canonical_json sj v ≡ ok s)
      to_canonical_json-IsWritten (array a) = array-IsWritten a (items-AllItems a)
      to_canonical_json-IsWritten (object m) = object-IsWritten m (map-AllMap m)
      to_canonical_json-IsWritten null = leaf-IsWritten null refl
      to_canonical_json-IsWritten (bool b) = leaf-IsWritten (bool b) refl
      to_canonical_json-IsWritten (number n) = leaf-IsWritten (number n) refl
      to_canonical_json-IsWritten (string s) = leaf-IsWritten (string s) refl

      items-AllItems : (a : Items Number) → AllItems a
      items-AllItems nil = tt
      items-AllItems (cons v a) = (to_canonical_json-IsWritten v, items-AllItems a)

      map-AllMap : (m : Map Number) → AllMap IsWritten m
      map-AllMap end = tt
      map-AllMap (entry k v m) = (to_canonical_json-IsWritten v, map-AllMap m)
