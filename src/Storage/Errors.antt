-- ===== src/Storage/Errors.antt =====
-- src/storage/error.rs: the errors of the store.
use utx0_node.Base.{Text, lit, ◌++◌}

-- The errors of the database crate and of the system are kept as the text that they display.
pub data StorageError : Type 0 where
  io : Text → StorageError
  redb : Text → StorageError
  transaction_error : Text → StorageError
  table_error : Text → StorageError
  redb_storage_error : Text → StorageError
  commit_error : Text → StorageError

-- `to_string` of the `#[error]` attributes
unfoldable pub to_string : StorageError → Text
to_string (io e) = lit "I/O error: " ++ e
to_string (redb e) = lit "storage engine error: " ++ e
to_string (transaction_error e) = lit "transaction error: " ++ e
to_string (table_error e) = lit "table error: " ++ e
to_string (redb_storage_error e) = lit "internal redb storage error: " ++ e
to_string (commit_error e) = lit "redb commit error: " ++ e
