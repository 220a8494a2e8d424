-- ===== src/Storage/Redb.antt =====
-- src/storage/redb_store.rs: the object store over the redb database.
pub mod Laws
use utx0_node.Base.{Bool, Option, Text, lit, Bytes, Result, ok, err, ◌>>=◌, map_err}
use utx0_node.Storage.Errors.{
  StorageError, transaction_error, table_error, redb_storage_error, commit_error, redb,
}
use utx0_node.Storage.{ObjectStore, is_some}

-- What the store calls of the crate. Errors are the texts that they display. `insert` closes
-- the table, and gives what the key had and the transaction with the write in it. `commit` leaves
-- a database also when it fails.
pub record Crate : Type 1 where
  pub Database : Type 0
  pub ReadTxn : Type 0
  pub ReadTable : Type 0
  pub WriteTxn : Type 0
  pub WriteTable : Type 0
  pub create : Text → Result Text Database
  pub begin_read : Database → Result Text ReadTxn
  pub open_read : ReadTxn → Text → Result Text ReadTable
  pub get : ReadTable → Text → Result Text (Option Bytes)
  pub begin_write : Database → Result Text WriteTxn
  pub open_write : WriteTxn → Text → Result Text WriteTable
  pub insert : WriteTable → Text → Bytes → Result Text (Option Bytes × WriteTxn)
  pub commit : Database → WriteTxn → Result Text (Unit {0}) × Database

-- `OBJECTS_TABLE`
abbrev pub objects_table : Text
objects_table = lit "objects"

module _ (c : Crate) where
  open c use {Database, ReadTable, WriteTxn}

  unfoldable pub new : Text → Result StorageError Database
  new path = map_err redb (c.create path)

  -- `self.db.begin_read()?` and `txn.open_table(OBJECTS_TABLE)?`
  read_table : Database → Result StorageError ReadTable
  read_table db = do
    txn ← map_err transaction_error (c.begin_read db)
    map_err table_error (c.open_read txn objects_table)

  unfoldable pub has : Database → Text → Result StorageError Bool
  unfolding read_table
  has db object_id = do
    table ← read_table db
    found ← map_err redb_storage_error (c.get table object_id)
    ok (is_some found)

  unfoldable pub get : Database → Text → Result StorageError (Option Bytes)
  unfolding read_table
  get db object_id = do table ← read_table db; map_err redb_storage_error (c.get table object_id)

  -- `put` up to the commit.
  write : Database → Text → Bytes → Result StorageError (Option Bytes × WriteTxn)
  write db object_id bytes = do
    txn ← map_err transaction_error (c.begin_write db)
    table ← map_err table_error (c.open_write txn objects_table)
    map_err redb_storage_error (c.insert table object_id bytes)

  -- `txn.commit()?` and `Ok(old_bytes)`
  finish :
      Option Bytes
      → Result Text (Unit {0}) × Database
      → Result StorageError (Option Bytes) × Database
  finish old_bytes (ok _, db') = (ok old_bytes, db')
  finish old_bytes (err e, db') = (err (commit_error e), db')

  -- A transaction that is dropped before its commit leaves the database as it was.
  settle :
      Database
      → Result StorageError (Option Bytes × WriteTxn)
      → Result StorageError (Option Bytes) × Database
  unfolding finish
  settle db (ok (old_bytes, written)) = finish old_bytes (c.commit db written)
  settle db (err e) = (err e, db)

  unfoldable pub put : Database → Text → Bytes → Result StorageError (Option Bytes) × Database
  unfolding write settle
  put db object_id bytes = settle db (write db object_id bytes)

  abbrev pub redb_store : ObjectStore
  redb_store = record { State = Database; has = has; get = get; put = put }
