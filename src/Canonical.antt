-- ===== src/Canonical.antt =====
-- src/util/canonical.rs: canonical JSON, object ids, and the shape test of a received object.
pub mod Sort
pub mod Reorder
mod Printed
mod Sorted
pub mod Readable
mod Written
pub mod Reading
pub mod Content
use utx0_node.Base.{
  ℕ, suc, Bytes, Text, lit, Option, List, [], ◌∷◌, ◌++◌, Result, ok, err, ◌>>=◌, ok_or, ltb,
  if◌then◌else◌,
}
use utx0_node.Json.{
  Value, array, object, Items, nil, cons, Map, end, entry, SerdeJson, as_object, map_get,
}
use utx0_node.Errors.{ProtocolError, invalid_format}
use Sort.{sort_by_key}

module _ {E : Type 0} where
  -- The loop over an array's elements, each with the outcome of its own serialisation.
  write_elements : ℕ → Bytes → List (Result E Bytes) → Result E Bytes
  write_elements i buf [] = ok buf
  write_elements i buf (r ∷ rest) = do
    v ← r
    write_elements (suc i) (buf ++ (if ltb 0 i then lit "," else []) ++ v) rest

  write_array : List (Result E Bytes) → Result E Bytes
  unfolding write_elements
  write_array elements = do buf ← write_elements 0 (lit "[") elements; ok (buf ++ lit "]")

  -- The loop over an object's sorted entries.
  write_entries :
      (Text → Result E Bytes) → ℕ → Bytes → List (Text × Result E Bytes) → Result E Bytes
  write_entries write_key i buf [] = ok buf
  write_entries write_key i buf ((k, r) ∷ rest) = do
    key ← write_key k
    v ← r
    write_entries write_key (suc i)
        (buf ++ (if ltb 0 i then lit "," else []) ++ key ++ lit ":" ++ v) rest

  write_object : (Text → Result E Bytes) → List (Text × Result E Bytes) → Result E Bytes
  unfolding write_entries
  write_object write_key entries = do
    buf ← write_entries write_key 0 (lit "{") entries
    ok (buf ++ lit "}")

module _ (sj : SerdeJson) where
  open sj use {Number, Error, to_vec, write_key}

  unfoldable mutual
    unfolding write_array write_object sort_by_key

    pub to_canonical_json : Value Number → Result Error Bytes
    to_canonical_json (array arr) = write_array (canonical_items arr)
    to_canonical_json (object obj) = write_object write_key (sort_by_key (canonical_entries obj))
    to_canonical_json v = to_vec v

    pub canonical_items : Items Number → List (Result Error Bytes)
    canonical_items nil = []
    canonical_items (cons v arr) = to_canonical_json v ∷ canonical_items arr

    pub canonical_entries : Map Number → List (Text × Result Error Bytes)
    canonical_entries end = []
    canonical_entries (entry k v obj) = (k, to_canonical_json v) ∷ canonical_entries obj

  -- `hex_digest` is `hex::encode` of the Blake2s digest.
  unfoldable pub compute_object_id : (Bytes → Text) → Value Number → Result Error Text
  compute_object_id hex_digest v = do
    canonical_json ← to_canonical_json v
    ok (hex_digest canonical_json)

-- The inner map of a received object.
unfoldable pub ensure_object_field : {N : Type 0} → Value N → Result ProtocolError (Map N)
ensure_object_field raw = do
  obj ← ok_or invalid_format (as_object raw)
  inner ← ok_or invalid_format (map_get (lit "object") obj)
  ok_or invalid_format (as_object inner)
