-- ===== src/Storage/Redb/Laws.antt =====
-- The redb store of src/storage/redb_store.rs against the contract of an object store.
use utx0_node.Base.{
  ◌≡◌, ◌≢◌, ◌⊎◌, inl, inr, Result-cases, sym, ap, ◌∙◌, Bool, Option, none, some, Text, Bytes, ok,
  err, map_err, >>=-eq-ok, map_err-eq-ok, text_eq, if◌then◌else◌, arith,
}
use utx0_node.Storage.{IsLawful, is_some}
use utx0_node.Storage.Errors.{StorageError, transaction_error, table_error, redb_storage_error}
use utx0_node.Storage.Redb.{Crate, objects_table, read_table, has, get, write, put, redb_store}

-- What a table holds under a key; a table that was never made holds nothing.
abbrev pub stored : Option (Text → Option Bytes) → Text → Option Bytes
stored none k = none
stored (some f) k = f k

-- The crate's documentation: a read transaction sees the last commit, and cannot open a table
-- that was never made; a write transaction makes the table, and a commit publishes its writes. A
-- commit is atomic: one that fails has published all of its writes or none.
pub record IsDocumented (c : Crate) : Type 1 where
  pub table : c.Database → Option (Text → Option Bytes)
  pub read_missing :
      (db : c.Database) (txn : c.ReadTxn) (t : c.ReadTable)
      → c.begin_read db ≡ ok txn
      → table db ≡ none
      → c.open_read txn objects_table ≢ ok t
  pub read_sees :
      (db : c.Database) (txn : c.ReadTxn) (t : c.ReadTable) (k : Text) (v : Option Bytes)
      → c.begin_read db ≡ ok txn
      → c.open_read txn objects_table ≡ ok t
      → c.get t k ≡ ok v
      → v ≡ stored (table db) k
  pub write_sees :
      (db : c.Database) (txn written : c.WriteTxn) (t : c.WriteTable) (k : Text) (d : Bytes)
      (old : Option Bytes)
      → c.begin_write db ≡ ok txn
      → c.open_write txn objects_table ≡ ok t
      → c.insert t k d ≡ ok (old, written)
      → (c.commit db written).0 ≡ ok tt
      → (old ≡ stored (table db) k)
        × ((j : Text)
            → stored (table (c.commit db written).1) j
              ≡ (if text_eq k j then some d else stored (table db) j))
  pub commit_fails :
      (db : c.Database) (txn written : c.WriteTxn) (t : c.WriteTable) (k : Text) (d : Bytes)
      (old : Option Bytes) (e : Text)
      → c.begin_write db ≡ ok txn
      → c.open_write txn objects_table ≡ ok t
      → c.insert t k d ≡ ok (old, written)
      → (c.commit db written).0 ≡ err e
      → ((j : Text) → stored (table (c.commit db written).1) j ≡ stored (table db) j)
        ⊎ ((j : Text)
            → stored (table (c.commit db written).1) j
              ≡ (if text_eq k j then some d else stored (table db) j))

module _ (c : Crate) (doc : IsDocumented c) where
  open c use {Database}
  open doc use {table}

  read_table-eq-ok :
      (db : Database) {t : c.ReadTable}
      → read_table c db ≡ ok t
      → (txn : c.ReadTxn) × (c.begin_read db ≡ ok txn) × (c.open_read txn objects_table ≡ ok t)
  unfolding read_table
  read_table-eq-ok db h =
      let (txn, began, opened) = >>=-eq-ok (map_err transaction_error (c.begin_read db)) _ h in
      (
        txn,
        map_err-eq-ok transaction_error (c.begin_read db) began,
        map_err-eq-ok table_error (c.open_read txn objects_table) opened,
      )

  get-stored :
      (db : Database) (k : Text) (v : Option Bytes) → get c db k ≡ ok v → v ≡ stored (table db) k
  unfolding get
  get-stored db k v h =
      let (t, opened, got) = >>=-eq-ok (read_table c db) _ h in
      let (txn, began, o) = read_table-eq-ok db opened in
      doc.read_sees db txn t k v began o (map_err-eq-ok redb_storage_error (c.get t k) got)

  get_fresh : (db : Database) (k : Text) → table db ≡ none → (v : Option Bytes) → get c db k ≢ ok v
  unfolding get
  get_fresh db k fresh v h =
      let (t, opened, _) = >>=-eq-ok (read_table c db) _ h in
      let (txn, began, o) = read_table-eq-ok db opened in doc.read_missing db txn t began fresh o

  has-eq-ok :
      (db : Database) (k : Text) (b : Bool)
      → has c db k ≡ ok b
      → (v : Option Bytes) × (get c db k ≡ ok v) × (is_some v ≡ b)
  unfolding has get
  has-eq-ok db k b h =
      let (t, opened, rest) = >>=-eq-ok (read_table c db) _ h in
      let (v, got, tested) = >>=-eq-ok (map_err redb_storage_error (c.get t k)) _ rest in
      (v, ground arith, ground arith)

  -- A successful `write` went through every step.
  write_lem :
      (db : Database) (k : Text) (d : Bytes) (old : Option Bytes) (written : c.WriteTxn)
      → write c db k d ≡ ok (old, written)
      → (txn : c.WriteTxn) × (t : c.WriteTable) × (c.begin_write db ≡ ok txn)
        × (c.open_write txn objects_table ≡ ok t)
        × (c.insert t k d ≡ ok (old, written))
  unfolding write
  write_lem db k d old written h =
      let (txn, began, h₁) = >>=-eq-ok (map_err transaction_error (c.begin_write db)) _ h in
      let (t, opened, h₂) = >>=-eq-ok (map_err table_error (c.open_write txn objects_table)) _ h₁ in
      (
        txn,
        t,
        map_err-eq-ok transaction_error (c.begin_write db) began,
        map_err-eq-ok table_error (c.open_write txn objects_table) opened,
        map_err-eq-ok redb_storage_error (c.insert t k d) h₂,
      )

  -- A `put` that succeeds has committed.
  put-eq-ok :
      (db : Database) (k : Text) (d : Bytes) (old : Option Bytes)
      → (put c db k d).0 ≡ ok old
      → (written : c.WriteTxn) × (write c db k d ≡ ok (old, written))
        × ((c.commit db written).0 ≡ ok tt)
        × ((put c db k d).1 ≡ (c.commit db written).1)
  unfolding put
  put-eq-ok db k d old h = elim (Result-cases (write c db k d)) [
    | inr (x, e) ↦ absurd (ground arith)
    | inl ((old', written), e) ↦ elim (Result-cases (c.commit db written).0) [
      | inr (x, failed) ↦ absurd (ground arith)
      | inl (u, done) ↦ (written, ground arith, ground arith, ground arith)
    ]
  ]

  put_lem :
      (db : Database) (k : Text) (d : Bytes) (old : Option Bytes)
      → (put c db k d).0 ≡ ok old
      → (old ≡ stored (table db) k)
        × ((j : Text)
            → stored (table (put c db k d).1) j
              ≡ (if text_eq k j then some d else stored (table db) j))
  put_lem db k d old h =
      let (written, wrote, committed, same) = put-eq-ok db k d old h in
      let (txn, t, began, opened, inserted) = write_lem db k d old written wrote in
      let (was, now) = doc.write_sees db txn written t k d old began opened inserted committed in
      (was, λ j. ap (λ db'. stored (table db') j) same ∙ now j)

  put_fails :
      (db : Database) (k : Text) (d : Bytes) (e : StorageError)
      → (put c db k d).0 ≡ err e
      → ((j : Text) → stored (table (put c db k d).1) j ≡ stored (table db) j)
        ⊎ ((j : Text)
            → stored (table (put c db k d).1) j
              ≡ (if text_eq k j then some d else stored (table db) j))
  unfolding put
  put_fails db k d e h = elim (Result-cases (write c db k d)) [
    | inr (x, stopped) ↦ inl (λ j. ground arith)
    | inl ((old, written), wrote) ↦ elim (Result-cases (c.commit db written).0) [
      | inl (u, done) ↦ absurd (ground arith)
      | inr (x, failed) ↦
          let (txn, t, began, opened, inserted) = write_lem db k d old written wrote in
          elim (doc.commit_fails db txn written t k d old x began opened inserted failed) [
            | inl kept ↦ inl (λ j. ground (arith, kept j))
            | inr now ↦ inr (λ j. ground (arith, now j))
          ]
    ]
  ]

  -- If the crate does as documented, the redb store is a lawful object store: successful reads and
  -- writes are those of one map from ids to bytes, `put` returns what the id had, and a failed
  -- `put` changes nothing or has written its bytes.
  pub redb_store-IsLawful : IsLawful (redb_store c)
  redb_store-IsLawful = record {
    contents = λ db. stored (table db);
    get_reads = get-stored;
    has_reads = λ db k b h.
        let (v, got, tested) = has-eq-ok db k b h in
        sym tested ∙ ap is_some (get-stored db k v got);
    put_returns = λ db k d old h. (put_lem db k d old h).0;
    put_writes = λ db k d old h. (put_lem db k d old h).1;
    put_fails = put_fails;
  }

  -- If the crate does as documented, in a database whose table was never made `get` and `has`
  -- fail, for every id.
  pub read_fresh :
      (db : Database) (k : Text)
      → table db ≡ none
      → ((v : Option Bytes) → get c db k ≢ ok v) × ((b : Bool) → has c db k ≢ ok b)
  read_fresh db k fresh =
      let never : (v : Option Bytes) → get c db k ≢ ok v = get_fresh db k fresh in
      (never, λ b h. let (v, got, _) = has-eq-ok db k b h in never v got)
