-- ===== src/Tests/Objects.antt =====
-- Object ids, and the store over a database that is a function.
use utx0_node.Base.{
  ◌≡◌, ◌≢◌, ◌⊎◌, refl, Option, none, some, Text, Bytes, lit, ok, err, Result, text_leb, text_eq, ap,
  if◌then◌else◌, arith,
}
use utx0_node.Canonical.{to_canonical_json}
use utx0_node.Json.{number, string, object, end, entry}
use utx0_node.Storage.{IsLawful}
use utx0_node.Storage.Redb.{Crate, objects_table, redb_store}
use utx0_node.Storage.Redb.Laws.{IsDocumented, stored, redb_store-IsLawful}
use utx0_node.Std.Decimal
use utx0_node.Tests.Fixtures.{Json, json}

abbrev ba : Json
ba = object (entry (lit "b") (string (lit "x")) (entry (lit "a") (number 1) end))

-- The entries are sorted.
canonical_text : to_canonical_json json ba ≡ ok (lit "{\"a\":1,\"b\":\"x\"}")
unfolding to_canonical_json Decimal.to_string text_leb
canonical_text = refl

abbrev Table : Type 0
Table = Text → Option Bytes

abbrev open_table : Option Table → Result Text Table
open_table none = err (lit "Table 'objects' does not exist")
open_table (some table) = ok table

abbrev pub crate : Crate
crate = record {
  Database = Option Table;
  ReadTxn = Option Table;
  ReadTable = Table;
  WriteTxn = Table;
  WriteTable = Table;
  create = λ path. ok none;
  begin_read = λ db. ok db;
  open_read = λ txn name. open_table txn;
  get = λ table k. ok (table k);
  begin_write = λ db. ok (stored db);
  open_write = λ txn name. ok txn;
  insert = λ table k d. ok (table k, λ j. if text_eq k j then some d else table j);
  commit = λ db txn. (ok tt, some txn);
}

open_table-eq-ok :
    (txn : Option Table) (t : Table) (k : Text) → open_table txn ≡ ok t → t k ≡ stored txn k
open_table-eq-ok none t k h = absurd (ground arith)
open_table-eq-ok (some table) t k h = cc

pub crate_missing :
    (db txn : Option Table) (t : Table)
    → crate.begin_read db ≡ ok txn
    → db ≡ none
    → crate.open_read txn objects_table ≢ ok t
crate_missing db txn t began missing opened = ground arith

pub crate_reads :
    (db txn : Option Table) (t : Table) (k : Text) (v : Option Bytes)
    → crate.begin_read db ≡ ok txn
    → crate.open_read txn objects_table ≡ ok t
    → crate.get t k ≡ ok v
    → v ≡ stored db k
crate_reads db txn t k v began opened got = ground (arith, open_table-eq-ok txn t k)

pub crate_writes :
    (db : Option Table) (txn written t : Table) (k : Text) (d : Bytes) (old : Option Bytes)
    → crate.begin_write db ≡ ok txn
    → crate.open_write txn objects_table ≡ ok t
    → crate.insert t k d ≡ ok (old, written)
    → (crate.commit db written).0 ≡ ok tt
    → (old ≡ stored db k)
      × ((j : Text)
          → stored (crate.commit db written).1 j ≡ (if text_eq k j then some d else stored db j))
crate_writes db txn written t k d old began opened inserted committed = (
  ground arith,
  λ j. ground (arith, ap {B = Option Bytes} (λ r. elim r [ ok p ↦ p.1 j | err e ↦ none ]) inserted),
)

-- A commit never fails.
pub crate_commits :
    (db : Option Table) (txn written t : Table) (k : Text) (d : Bytes) (old : Option Bytes)
    (e : Text)
    → crate.begin_write db ≡ ok txn
    → crate.open_write txn objects_table ≡ ok t
    → crate.insert t k d ≡ ok (old, written)
    → (crate.commit db written).0 ≡ err e
    → ((j : Text) → stored (crate.commit db written).1 j ≡ stored db j)
      ⊎ ((j : Text)
          → stored (crate.commit db written).1 j ≡ (if text_eq k j then some d else stored db j))
crate_commits db txn written t k d old e began opened inserted failed = absurd (ground arith)

abbrev pub crate-IsDocumented : IsDocumented crate
crate-IsDocumented = record {
  table = λ db. db;
  read_missing = crate_missing;
  read_sees = crate_reads;
  write_sees = crate_writes;
  commit_fails = crate_commits;
}

redb_store-IsLawful_example : IsLawful (redb_store crate)
redb_store-IsLawful_example = redb_store-IsLawful crate crate-IsDocumented
