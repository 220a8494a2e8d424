-- ===== src/Json.antt =====
-- `serde_json::Value` and its `Map`, with the methods that the program calls, and the entry
-- points of the crate as an interface.
pub mod Laws
use utx0_node.Base.{Bool, Option, none, some, Text, Bytes, Result, text_eq, if◌then◌else◌}

-- A `Map` is listed in its order of iteration. The numbers are the crate's.
mutual
  pub data Value (N : Type 0) : Type 0 where
    null : Value N
    bool : Bool → Value N
    number : N → Value N
    string : Text → Value N
    array : Items N → Value N
    object : Map N → Value N

  pub data Items (N : Type 0) : Type 0 where
    nil : Items N
    cons : Value N → Items N → Items N

  pub data Map (N : Type 0) : Type 0 where
    end : Map N
    entry : Text → Value N → Map N → Map N

-- What the program calls of `serde_json` on values: serialising a leaf and a key, and parsing.
pub record SerdeJson : Type 1 where
  pub Number : Type 0
  pub Error : Type 0
  pub to_vec : Value Number → Result Error Bytes
  pub write_key : Text → Result Error Bytes
  pub from_slice : Bytes → Result Error (Value Number)

module _ {N : Type 0} where
  -- `map.get(key)`
  unfoldable pub map_get : Text → Map N → Option (Value N)
  map_get k end = none
  map_get k (entry j v m) = if text_eq j k then some v else map_get k m

  -- `map.insert(key, v)`: the value of a key that is there is replaced.
  unfoldable pub map_insert : Text → Value N → Map N → Map N
  map_insert k v end = entry k v end
  map_insert k v (entry j w m) = if text_eq j k then entry j v m else entry j w (map_insert k v m)

  -- Writing through `map.get_mut(key)`.
  unfoldable pub map_modify : Text → (Value N → Value N) → Map N → Map N
  map_modify k f end = end
  map_modify k f (entry j w m) =
      if text_eq j k then entry j (f w) m else entry j w (map_modify k f m)

  -- `v.as_object()`
  unfoldable pub as_object : Value N → Option (Map N)
  as_object (object m) = some m
  as_object _ = none

  -- `v.as_str()`
  unfoldable pub as_str : Value N → Option Text
  as_str (string s) = some s
  as_str _ = none

  -- `v.get(key)`
  unfoldable pub get : Text → Value N → Option (Value N)
  unfolding map_get
  get k (object m) = map_get k m
  get k _ = none
