-- ===== src/Canonical/Sorted.antt =====
-- An object and its sorted entries (src/util/canonical.rs) are equal up to their order, which is an
-- equivalence.
use utx0_node.Base.{◌≡◌, ◌≢◌, sym, Text, false, inl, inr, Bool-cases, text_leb, text_leb_total}
use utx0_node.Canonical.Printed.{insert_entry, sort_map}
use utx0_node.Canonical.Reorder.{
  SameValue, SameItems, SameMap, same, same_array, same_object, same_nil, same_cons, same_end,
  same_entry, swap, chained,
}
use utx0_node.Json.{Value, Items, Map, end, entry}

ne_of_not_leb : (k j : Text) → text_leb k j ≡ false → k ≢ j
ne_of_not_leb k j h e = cc (text_leb_total k j h)

module _ {N : Type 0} where
  mutual
    pub SameValue-sym : {v w : Value N} → SameValue v w → SameValue w v
    SameValue-sym same = same
    SameValue-sym (same_array h) = same_array (SameItems-sym h)
    SameValue-sym (same_object h) = same_object (SameMap-sym h)

    SameItems-sym : {a b : Items N} → SameItems a b → SameItems b a
    SameItems-sym same_nil = same_nil
    SameItems-sym (same_cons h t) = same_cons (SameValue-sym h) (SameItems-sym t)

    pub SameMap-sym : {m n : Map N} → SameMap m n → SameMap n m
    SameMap-sym same_end = same_end
    SameMap-sym (same_entry h t) = same_entry (SameValue-sym h) (SameMap-sym t)
    SameMap-sym (swap ne) = swap (λ e. ne (sym e))
    SameMap-sym (chained h t) = chained (SameMap-sym t) (SameMap-sym h)

  SameMap-refl : (m : Map N) → SameMap m m
  SameMap-refl end = same_end
  SameMap-refl (entry k v m) = same_entry same (SameMap-refl m)

  insert_entry-SameMap :
      (k : Text) (v : Value N) (m : Map N) → SameMap (entry k v m) (insert_entry k v m)
  unfolding insert_entry
  insert_entry-SameMap k v end = SameMap-refl (entry k v end)
  insert_entry-SameMap k v (entry j w m) = elim (Bool-cases (text_leb k j)) [
    | inl first ↦ rw first (SameMap-refl (entry k v (entry j w m)))
    | inr later ↦
        rw later
          (chained (swap (ne_of_not_leb k j later)) (same_entry same (insert_entry-SameMap k v m)))
  ]

  pub sort_map-SameMap : (m : Map N) → SameMap m (sort_map m)
  unfolding sort_map
  sort_map-SameMap end = same_end
  sort_map-SameMap (entry k v m) =
      chained (same_entry same (sort_map-SameMap m)) (insert_entry-SameMap k v (sort_map m))

module _ {N : Type 0} (P : Value N → Type 0) where
  -- Each value of an object.
  abbrev pub AllMap : Map N → Type 0
  AllMap end = Unit
  AllMap (entry k v m) = P v × AllMap m

  insert_entry-AllMap :
      (k : Text) (v : Value N) (m : Map N) → P v → AllMap m → AllMap (insert_entry k v m)
  unfolding insert_entry
  insert_entry-AllMap k v end p h = (p, tt)
  insert_entry-AllMap k v (entry j w m) p (q, h) = elim (Bool-cases (text_leb k j)) [
    | inl first ↦ rw first (p, (q, h))
    | inr later ↦ rw later (q, insert_entry-AllMap k v m p h)
  ]

  pub sort_map-AllMap : (m : Map N) → AllMap m → AllMap (sort_map m)
  unfolding sort_map
  sort_map-AllMap end h = tt
  sort_map-AllMap (entry k v m) (p, h) =
      insert_entry-AllMap k v (sort_map m) p (sort_map-AllMap m h)
