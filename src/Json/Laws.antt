-- ===== src/Json/Laws.antt =====
-- Laws of the operations on maps of JSON values.
use utx0_node.Base.{◌≡◌, refl, Text, arith, text_eq_iff}
use utx0_node.Json.{Value, Map, end, entry, map_insert, map_modify}

module _ {N : Type 0} where
  pub map_insert-map_insert :
      (k : Text) (v w : Value N) (m : Map N) → map_insert k v (map_insert k w m) ≡ map_insert k v m
  unfolding map_insert
  map_insert-map_insert k v w end = ground (arith, text_eq_iff k k)
  map_insert-map_insert k v w (entry j u m) = ground (arith, map_insert-map_insert k v w m)

  -- Two writes to one key are one write, if the values agree.
  pub map_modify-map_modify :
      (k : Text) (f g h : Value N → Value N) (m : Map N)
      → ((v : Value N) → f (g v) ≡ h v)
      → map_modify k f (map_modify k g m) ≡ map_modify k h m
  unfolding map_modify
  map_modify-map_modify k f g h end e = refl
  map_modify-map_modify k f g h (entry j u m) e =
      ground (arith, e u, map_modify-map_modify k f g h m e)
