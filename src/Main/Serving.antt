-- ===== src/Main/Serving.antt =====
-- What a node of src/main.rs has in its store, from the start and as long as it runs.
use utx0_node.Base.{
  ℕ, ◌≡◌, subst, Option, none, some, Text, Bytes, lit, List, Result, ok, Result-cases, inl, inr,
  arith,
}
use utx0_node.Errors.{ProtocolError}
use utx0_node.Main.{serving, main, served, start, node_config}
use utx0_node.Net.Crates.{NetCrates}
use utx0_node.Net.Dispatch.Contents.{IsAddressed}
use utx0_node.Net.Dispatch.Moves.Stored.{AllSound, Runs-IsAddressed, started-AllSound}
use utx0_node.Net.Dispatch.Moves.Together.{Node, Runs, started}
use utx0_node.Net.Listener.{start_listening}
use utx0_node.State.Peers.{Peers}
use utx0_node.Std.Sink.{Failure}
use utx0_node.Storage.Redb
use utx0_node.Storage.Redb.{Crate, redb_store}
use utx0_node.Storage.Redb.Laws.{IsDocumented, redb_store-IsLawful}

module _ (c : NetCrates) (crate : Crate) where
  -- The node that begins to serve.
  served-started :
      (listened : ℕ × Option ProtocolError) (db : crate.Database) (known : Option Peers)
      (n : Node (redb_store crate)) (k : ℕ) (e : Option ProtocolError)
      → served c crate listened db known ≡ serving n k e
      → (peers : Peers) × (started c (redb_store crate) node_config db peers ≡ n)
  unfolding served
  served-started (k0, e0) db none n k e h = absurd (ground arith)
  served-started (k0, e0) db (some peers) n k e h = (peers, cc)

  main-started :
      (file : Option Bytes) (outcomes : List (Option Failure)) (bound : Result Text (Unit {0}))
      (accepts : List (Result Text (Unit {0}))) (n : Node (redb_store crate)) (k : ℕ)
      (e : Option ProtocolError)
      → main c crate file outcomes bound accepts ≡ serving n k e
      → (db : crate.Database) × (peers : Peers) × (crate.create (lit "objects.db") ≡ ok db)
        × (started c (redb_store crate) node_config db peers ≡ n)
  unfolding main Redb.new
  main-started file outcomes bound accepts n k e h =
      elim (Result-cases (crate.create (lit "objects.db"))) [
        | inr (x, f) ↦ absurd (ground arith)
        | inl (db, f) ↦
            let (peers, same) =
              served-started (start_listening bound accepts) db (start file outcomes) n k e
                (ground arith) in
            (db, peers, f, same)
      ]

  -- If the redb crate does as documented, and the database that it opens holds every object under
  -- the id of its own value, then so does the store of a node that has begun to serve, at any
  -- later time, whatever was in the peers file, and however the moves of any number of
  -- connections interleave.
  pub main-IsAddressed :
      (doc : IsDocumented crate) (file : Option Bytes) (outcomes : List (Option Failure))
      (bound : Result Text (Unit {0})) (accepts : List (Result Text (Unit {0})))
      (m n : Node (redb_store crate)) (k : ℕ) (e : Option ProtocolError)
      → main c crate file outcomes bound accepts ≡ serving m k e
      → ((db : crate.Database)
          → crate.create (lit "objects.db") ≡ ok db
          → IsAddressed c (redb_store crate) node_config (redb_store-IsLawful crate doc) db)
      → Runs c (redb_store crate) node_config m n
      → IsAddressed c (redb_store crate) node_config (redb_store-IsLawful crate doc) n.store
  main-IsAddressed doc file outcomes bound accepts m n k e h good r =
      let (db, peers, opened, same) = main-started file outcomes bound accepts m k e h in
      let lawful = redb_store-IsLawful crate doc in
      Runs-IsAddressed c (redb_store crate) node_config lawful m n
        (subst (AllSound c (redb_store crate) node_config) same
          (started-AllSound c (redb_store crate) node_config db peers))
        r
        (subst (λ x. IsAddressed c (redb_store crate) node_config lawful x.store) same
          (good db opened))
