-- ===== src/Storage.antt =====
-- src/storage/api.rs: the interface of the object store, and what its clients may rely on.
-- `Redb` is the implementation over the redb database.
pub mod Errors
pub mod Redb
use utx0_node.Base.{
  ◌≡◌, ◌⊎◌, Bool, Option, none, some, Text, Bytes, Result, ok, err, text_eq, if◌then◌else◌,
}
use Errors.{StorageError}

-- The trait. The store is shared and `put` changes it, so its state is passed along.
pub record ObjectStore : Type 1 where
  pub State : Type 0
  pub has : State → Text → Result StorageError Bool
  pub get : State → Text → Result StorageError (Option Bytes)
  pub put : State → Text → Bytes → Result StorageError (Option Bytes) × State

abbrev pub is_some {ℓ} : {A : Type ℓ} → Option A → Bool
is_some none = Bool.false
is_some (some a) = Bool.true

-- The contract of a content-addressable store: its successful calls are those of a map from
-- ids to bytes, and a failed `put` has changed nothing or has written its bytes.
pub record IsLawful (S : ObjectStore) : Type 1 where
  pub contents : S.State → Text → Option Bytes
  pub get_reads : (s : S.State) (k : Text) (v : Option Bytes) → S.get s k ≡ ok v → v ≡ contents s k
  pub has_reads :
      (s : S.State) (k : Text) (b : Bool) → S.has s k ≡ ok b → b ≡ is_some (contents s k)
  pub put_returns :
      (s : S.State) (k : Text) (d : Bytes) (old : Option Bytes)
      → (S.put s k d).0 ≡ ok old
      → old ≡ contents s k
  pub put_writes :
      (s : S.State) (k : Text) (d : Bytes) (old : Option Bytes)
      → (S.put s k d).0 ≡ ok old
      → (j : Text) → contents (S.put s k d).1 j ≡ (if text_eq k j then some d else contents s j)
  pub put_fails :
      (s : S.State) (k : Text) (d : Bytes) (e : StorageError)
      → (S.put s k d).0 ≡ err e
      → ((j : Text) → contents (S.put s k d).1 j ≡ contents s j)
        ⊎ ((j : Text) → contents (S.put s k d).1 j ≡ (if text_eq k j then some d else contents s j))
