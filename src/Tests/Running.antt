-- ===== src/Tests/Running.antt =====
-- The program from its start on a database that has an object, and the counts that it logs.
use utx0_node.Base.{
  ◌%◌, ◌^◌, ◌≡◌, ◌≤◌, refl, sym, ◌∙◌, subst, true, none, some, Option, Text, Bytes, lit, [], ◌∷◌,
  ok, text_eq, text_eq_iff, text_leb, Bool-cases, inl, inr, if◌then◌else◌, arith,
}
use utx0_node.Canonical.{to_canonical_json, compute_object_id}
use utx0_node.Main.{main, serving, start, node_config}
use utx0_node.Main.Serving.{main-IsAddressed}
use utx0_node.Net.Client.Limit.{running_entries}
use utx0_node.Net.Dispatch.Contents.{IsAddressed, IsObject}
use utx0_node.Net.Dispatch.Moves.{reading}
use utx0_node.Net.Dispatch.Moves.Together.{Node, stay, later, joins, update, started}
use utx0_node.Net.Housekeeping.{housekeeping_round}
use utx0_node.Net.Housekeeping.Status.{housekeeping_counts}
use utx0_node.Net.Listener.{start_listening}
use utx0_node.Peer.{try_from, parse_host}
use utx0_node.State.Connection.{load}
use utx0_node.State.Peers.{Peers, append_peer, load_from_disk, contains, insert}
use utx0_node.Std.Decimal
use utx0_node.Std.Ipv4
use utx0_node.Std.Sink.{write_all, touch}
use utx0_node.Std.Split.{split, rsplit_once}
use utx0_node.Std.Trim.{trim}
use utx0_node.Storage.Redb
use utx0_node.Storage.Redb.{Crate, redb_store}
use utx0_node.Storage.Redb.Laws.{IsDocumented, redb_store-IsLawful}
use utx0_node.Tests.Dialling.{first, first-IsChoice, one_round, after_round}
use utx0_node.Tests.Fixtures.{crates, coinbase_json}
use utx0_node.Tests.Loop.{raw, id, busy}
use utx0_node.Tests.Network.{stream}
use utx0_node.Tests.Objects.{crate, crate_missing, crate_reads, crate_writes, crate_commits}

abbrev table : Text → Option Bytes
table k = if text_eq id k then some raw else none

-- The database has one object when it is opened.
abbrev filled : Crate
filled = record crate { create = λ path. ok (some table) }

abbrev filled-IsDocumented : IsDocumented filled
filled-IsDocumented = record {
  table = λ db. db;
  read_missing = crate_missing;
  read_sees = crate_reads;
  write_sees = crate_writes;
  commit_fails = crate_commits;
}

-- What the store says is what its contract calls its contents.
contents-table :
    (k : Text) → (redb_store-IsLawful filled filled-IsDocumented).contents (some table) k ≡ table k
unfolding Redb.get
contents-table k =
    sym ((redb_store-IsLawful filled filled-IsDocumented).get_reads (some table) k (table k) refl)

filled-IsAddressed :
    (db : filled.Database)
    → filled.create (lit "objects.db") ≡ ok db
    → IsAddressed crates
        (redb_store filled)
        node_config
        (redb_store-IsLawful filled filled-IsDocumented)
        db
unfolding trim text_eq to_canonical_json compute_object_id text_leb Decimal.to_string
filled-IsAddressed db opened k d h =
    let same : some table ≡ db = ground arith in
    let found : table k ≡ some d =
      sym (contents-table k)
      ∙ subst (λ x. (redb_store-IsLawful filled filled-IsDocumented).contents x k ≡ some d)
          (sym same) h in
    elim (Bool-cases (text_eq id k)) [
      | inr differs ↦ absurd (ground arith)
      | inl here ↦
          let its : raw ≡ d = ground arith in
          (
            coinbase_json,
            subst (λ x. crates.json.from_slice x ≡ ok coinbase_json) its refl,
            subst (λ x. compute_object_id crates.json crates.hex_digest coinbase_json ≡ ok x)
                ((text_eq_iff id k).0 here) refl,
          )
    ]

abbrev peers : Peers
peers = record {
  map = record { host = lit "192.168.1.1"; port = 8080 } ∷ [];
  file = record { content = lit "192.168.1.1,8080\n"; outcomes = [] };
}

abbrev node : Node (redb_store filled)
node = started crates (redb_store filled) node_config (some table) peers

runs_main : main crates filled none [] (ok tt) (ok tt ∷ []) ≡ serving node 1 none
unfolding main start start_listening try_from parse_host trim split rsplit_once Ipv4.parse Ipv4.show
    Decimal.to_string Decimal.parse_u16 append_peer load_from_disk contains insert write_all touch
    Redb.new
runs_main = refl

main-IsAddressed_example : IsObject crates (redb_store filled) node_config id raw
unfolding text_eq
main-IsAddressed_example =
    main-IsAddressed crates filled filled-IsDocumented none [] (ok tt) (ok tt ∷ []) node
      (record node {
        conns = update node.conns 0 (record {
          pc = reading;
          reader = stream [];
          writer = record { content = []; outcomes = [] };
          draws = 0;
        });
      })
      1 none runs_main filled-IsAddressed
      (later stay (joins 0 (stream []) (record { content = []; outcomes = [] }) 0 refl)) id raw
      (contents-table id)

housekeeping_counts_example :
    let (kept, counts) = housekeeping_round (record { value = 2 }) after_round.entries [] in
    (counts.inbound ≡ 2 % 2 ^ 64)
    × (counts.outbound ≡ 0)
    × (counts.outbound ≤ 1)
    × (running_entries kept ≡ 0)
unfolding housekeeping_round load
housekeeping_counts_example =
    housekeeping_counts first 1
      (record { counter = record { value = 2 }; in_body = true; spawned = 0; inside = 1 })
      after_round [] first-IsChoice busy one_round
