-- ===== src/Net/Dispatch/Contents.antt =====
-- What the store holds after the loop of src/net/dispatch.rs.
use utx0_node.Base.{
  text_eq_refl, ◌⊎◌, ◌∙◌, if◌then◌else◌, sym, ℕ, ◌≡◌, refl, true, false, none, some, Bool-cases,
  Result-cases, Text, Bytes, Result, ok, inl, inr, text_eq, text_eq_iff, arith,
}
use utx0_node.Canonical.{compute_object_id}
use utx0_node.Config.{Config}
use utx0_node.Errors.{ProtocolError}
use utx0_node.Json.{Value}
use utx0_node.Message.{object}
use utx0_node.Net.Crates.{NetCrates}
use utx0_node.Net.Dispatch.{Session, go_on, handle, run_message_loop}
use utx0_node.Storage.{ObjectStore, IsLawful, is_some}
use utx0_node.Storage.Redb.{Crate, redb_store}
use utx0_node.Storage.Redb.Laws.{IsDocumented, read_fresh}
use utx0_node.Net.Dispatch.Objects.{
  Accepted, held, taken, handle-Accepted, unchanged, stored, StoreChanges, done, then_more,
  run-StoreChanges,
}

module _ (c : NetCrates) (S : ObjectStore) (config : Config) where
  -- The bytes parse, and their value has this id.
  abbrev pub IsObject : Text → Bytes → Type 0
  IsObject id raw =
      (v : Value c.json.Number) × (c.json.from_slice raw ≡ ok v)
      × (compute_object_id c.json c.hex_digest v ≡ ok id)

  module _ (lawful : IsLawful S) where
    open lawful use {contents}

    abbrev pub IsAddressed : S.State → Type 0
    IsAddressed t = (k : Text) (d : Bytes) → contents t k ≡ some d → IsObject k d

    -- Whether it fails or not, a `put` has changed nothing or has written its bytes.
    pub put_either :
        (t : S.State) (id raw : Text)
        → ((j : Text) → contents (S.put t id raw).1 j ≡ contents t j)
          ⊎ ((j : Text)
              → contents (S.put t id raw).1 j ≡ (if text_eq id j then some raw else contents t j))
    put_either t id raw = elim (Result-cases (S.put t id raw).0) [
      | inr (x, e) ↦ lawful.put_fails t id raw x e
      | inl (old, e) ↦ inr (lawful.put_writes t id raw old e)
    ]

    pub put-IsAddressed :
        (t : S.State) (v : Value c.json.Number) (id raw : Text)
        → c.json.from_slice raw ≡ ok v
        → compute_object_id c.json c.hex_digest v ≡ ok id
        → IsAddressed t
        → IsAddressed (S.put t id raw).1
    put-IsAddressed t v id raw parsed hashed a k d h = elim (put_either t id raw) [
      | inl kept ↦ a k d (sym (kept k) ∙ h)
      | inr now ↦ elim (Bool-cases (text_eq id k)) [
        | inl same_id ↦ (v, ground (arith, now k), ground (arith, text_eq_iff id k))
        | inr other ↦ a k d (ground (arith, now k))
      ]
    ]

    put_keeps :
        (t : S.State) (id raw : Text)
        → S.has t id ≡ ok false
        → (k : Text) (d : Bytes) → contents t k ≡ some d
        → contents (S.put t id raw).1 k ≡ some d
    put_keeps t id raw fresh k d h = elim (put_either t id raw) [
      | inl kept ↦ kept k ∙ h
      | inr now ↦ ground (arith, now k, lawful.has_reads t id false fresh, text_eq_iff id k)
    ]

    pub changes-IsAddressed :
        {s t : S.State} → StoreChanges c S config s t → IsAddressed s → IsAddressed t
    changes-IsAddressed (done s) a = a
    changes-IsAddressed (then_more unchanged more) a = changes-IsAddressed more a
    changes-IsAddressed {s} (then_more (stored v id raw parsed hashed fresh) more) a =
        changes-IsAddressed more (put-IsAddressed s v id raw parsed hashed a)

    pub changes_keep :
        {s t : S.State}
        → StoreChanges c S config s t
        → (k : Text) (d : Bytes) → contents s k ≡ some d
        → contents t k ≡ some d
    changes_keep (done s) k d h = h
    changes_keep (then_more unchanged more) k d h = changes_keep more k d h
    changes_keep {s} (then_more (stored v id raw parsed hashed fresh) more) k d h =
        changes_keep more k d (put_keeps s id raw fresh k d h)

    module _ (fuel : ℕ) (s s' : Session S) (r : Result ProtocolError (Unit {0}))
        (returned : run_message_loop c S config fuel s ≡ some (r, s')) where
      -- If the store is lawful and holds every object under the id of its own value, then so it
      -- does when the loop has returned, whatever the peer sent and however the loop ended.
      pub run_message_loop-IsAddressed : IsAddressed s.store → IsAddressed s'.store
      run_message_loop-IsAddressed =
          changes-IsAddressed (run-StoreChanges c S config fuel s s' r returned)

      -- From a lawful store, the loop loses no object and replaces none.
      pub run_message_loop_keeps :
          (k : Text) (d : Bytes) → contents s.store k ≡ some d → contents s'.store k ≡ some d
      run_message_loop_keeps = changes_keep (run-StoreChanges c S config fuel s s' r returned)

    pub held_after :
        (id raw : Text) {s t : S.State}
        → Accepted c S config id raw s t
        → is_some (contents t id) ≡ true
    held_after id raw {s} (held e) = sym (lawful.has_reads s id true e)
    held_after id raw {s} (taken fresh old e) =
        ground (arith, lawful.put_writes s id raw old e id, text_eq_refl id)

    -- After an object message on which the loop goes on, a lawful store holds an object under
    -- the claimed id.
    pub handle-object :
        (claimed_id raw : Text) (s : Session S)
        → (handle c S config (object claimed_id raw) s).0 ≡ ok go_on
        → is_some (contents (handle c S config (object claimed_id raw) s).1.store claimed_id) ≡ true
    handle-object claimed_id raw s h =
        held_after claimed_id raw (handle-Accepted c S config claimed_id raw s h)

module _ (c : NetCrates) (crate : Crate) (doc : IsDocumented crate) (config : Config) where
  changes_fresh :
      {s t : crate.Database}
      → StoreChanges c (redb_store crate) config s t
      → doc.table s ≡ none
      → t ≡ s
  changes_fresh (done s) h = refl
  changes_fresh (then_more unchanged more) h = changes_fresh more h
  changes_fresh {s} (then_more (stored v id raw parsed hashed fresh) more) h =
      absurd ((read_fresh crate doc s id h).1 false fresh)

  -- If the redb crate does as documented and the database's table was never made, the loop
  -- stores nothing: the database is the same when it returns.
  pub run_message_loop_fresh :
      (fuel : ℕ) (s s' : Session (redb_store crate)) (r : Result ProtocolError (Unit {0}))
      → run_message_loop c (redb_store crate) config fuel s ≡ some (r, s')
      → doc.table s.store ≡ none
      → s'.store ≡ s.store
  run_message_loop_fresh fuel s s' r h =
      changes_fresh (run-StoreChanges c (redb_store crate) config fuel s s' r h)
