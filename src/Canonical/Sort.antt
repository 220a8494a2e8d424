-- ===== src/Canonical/Sort.antt =====
-- `entries.sort_by_key(|(k, _)| *k)` of src/util/canonical.rs: a stable sort, by insertion.
use utx0_node.Base.{
  ◌≡◌, ◌≢◌, ap, Text, text_leb, text_leb_total, text_leb_antisym, text_leb_trans, List, [], ◌∷◌,
  arith, if◌then◌else◌,
}

module _ {ℓ} {A : Type ℓ} where
  unfoldable pub insert_by_key : Text × A → List (Text × A) → List (Text × A)
  insert_by_key e [] = e ∷ []
  insert_by_key e (f ∷ l) = if text_leb e.0 f.0 then e ∷ f ∷ l else f ∷ insert_by_key e l

  unfoldable pub sort_by_key : List (Text × A) → List (Text × A)
  unfolding insert_by_key
  sort_by_key [] = []
  sort_by_key (e ∷ l) = insert_by_key e (sort_by_key l)

  insert_by_key_comm :
      (e f : Text × A) (l : List (Text × A))
      → e.0 ≢ f.0
      → insert_by_key e (insert_by_key f l) ≡ insert_by_key f (insert_by_key e l)
  unfolding insert_by_key
  insert_by_key_comm e f [] ne = ground (arith, text_leb_total e.0 f.0, text_leb_antisym e.0 f.0)
  insert_by_key_comm e f (g ∷ l) ne = ground (
    arith,
    text_leb_total e.0 f.0,
    text_leb_antisym e.0 f.0,
    text_leb_trans e.0 f.0 g.0,
    text_leb_trans f.0 e.0 g.0,
    text_leb_total e.0 g.0,
    text_leb_total f.0 g.0,
    text_leb_trans e.0 g.0 f.0,
    text_leb_trans f.0 g.0 e.0,
    insert_by_key_comm e f l ne,
  )

  pub sort_by_key-swap :
      (e f : Text × A) (l : List (Text × A))
      → e.0 ≢ f.0
      → sort_by_key (e ∷ f ∷ l) ≡ sort_by_key (f ∷ e ∷ l)
  unfolding sort_by_key
  sort_by_key-swap e f l ne = insert_by_key_comm e f (sort_by_key l) ne

  pub sort_by_key-cons :
      (e : Text × A) (l k : List (Text × A))
      → sort_by_key l ≡ sort_by_key k
      → sort_by_key (e ∷ l) ≡ sort_by_key (e ∷ k)
  unfolding sort_by_key
  sort_by_key-cons e l k h = ap (insert_by_key e) h
