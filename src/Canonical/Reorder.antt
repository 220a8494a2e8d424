-- ===== src/Canonical/Reorder.antt =====
-- Canonical JSON (src/util/canonical.rs) and the order in which objects list their entries.
use mathlib.Core.Path.{ap₂}
use utx0_node.Base.{◌≡◌, ◌≢◌, refl, ap, ◌∙◌, ◌∷◌, Text, Bytes}
use utx0_node.Canonical.{
  write_array, write_object, to_canonical_json, canonical_items, canonical_entries,
  compute_object_id,
}
use utx0_node.Canonical.Sort.{sort_by_key, sort_by_key-swap, sort_by_key-cons}
use utx0_node.Json.{Value, array, object, Items, nil, cons, Map, end, entry, SerdeJson}

-- Equal up to the order of the entries of objects, at every depth. Entries change places only
-- under different keys.
mutual
  pub data SameValue {N : Type 0} : Value N → Value N → Type 0 where
    same : {v : Value N} → SameValue v v
    same_array : {a b : Items N} → SameItems a b → SameValue (array a) (array b)
    same_object : {m n : Map N} → SameMap m n → SameValue (object m) (object n)

  pub data SameItems {N : Type 0} : Items N → Items N → Type 0 where
    same_nil : SameItems nil nil
    same_cons :
        {v w : Value N} {a b : Items N}
        → SameValue v w
        → SameItems a b
        → SameItems (cons v a) (cons w b)

  pub data SameMap {N : Type 0} : Map N → Map N → Type 0 where
    same_end : SameMap end end
    same_entry :
        {k : Text} {v w : Value N} {m n : Map N}
        → SameValue v w
        → SameMap m n
        → SameMap (entry k v m) (entry k w n)
    swap :
        {k j : Text} {v w : Value N} {m : Map N}
        → k ≢ j
        → SameMap (entry k v (entry j w m)) (entry j w (entry k v m))
    chained : {m n o : Map N} → SameMap m n → SameMap n o → SameMap m o

module _ (sj : SerdeJson) where
  open sj use {Number}

  mutual
    unfolding to_canonical_json

    value-Same :
        {v w : Value Number} → SameValue v w → to_canonical_json sj v ≡ to_canonical_json sj w
    value-Same same = refl
    value-Same (same_array h) = ap write_array (items-Same h)
    value-Same (same_object h) = ap (write_object sj.write_key) (map-Same h)

    items-Same : {a b : Items Number} → SameItems a b → canonical_items sj a ≡ canonical_items sj b
    items-Same same_nil = refl
    items-Same (same_cons h t) = ap₂ ◌∷◌ (value-Same h) (items-Same t)

    map-Same :
        {m n : Map Number}
        → SameMap m n
        → sort_by_key (canonical_entries sj m) ≡ sort_by_key (canonical_entries sj n)
    map-Same same_end = refl
    map-Same (same_entry {k} {v} {w} {m} {n} h t) = rw (value-Same h) (
        sort_by_key-cons (k, to_canonical_json sj w) (canonical_entries sj m)
          (canonical_entries sj n) (map-Same t))
    map-Same (swap {k} {j} {v} {w} {m} ne) =
        sort_by_key-swap (k, to_canonical_json sj v) (j, to_canonical_json sj w)
          (canonical_entries sj m) ne
    map-Same (chained h t) = map-Same h ∙ map-Same t

  -- Values that are equal up to the order of the entries of their objects have the same
  -- canonical JSON, and fail to have one with the same error.
  pub to_canonical_json-Same :
      (v w : Value Number) → SameValue v w → to_canonical_json sj v ≡ to_canonical_json sj w
  to_canonical_json-Same v w h = value-Same h

  -- The object id, whatever the hash, is the same for values that are equal up to the order of
  -- the entries of their objects.
  pub compute_object_id-Same :
      (hex_digest : Bytes → Text) (v w : Value Number)
      → SameValue v w
      → compute_object_id sj hex_digest v ≡ compute_object_id sj hex_digest w
  unfolding compute_object_id
  compute_object_id-Same hex_digest v w h = rw (value-Same h)
