-- ===== src/Net/Dispatch/Moves/Agrees.antt =====
-- What becomes of a stored object while the connections of src/net are served at once.
use utx0_node.Base.{ℕ, ◌≡◌, ◌⊎◌, inl, inr, subst, some, Text, Bytes, ok, arith}
use utx0_node.Canonical.Content.{content, Collides, compute_object_id-content}
use utx0_node.Canonical.Readable.{IsReadable}
use utx0_node.Config.{Config}
use utx0_node.Json.{Value}
use utx0_node.Net.Crates.{NetCrates}
use utx0_node.Net.Dispatch.Agrees.{some_of}
use utx0_node.Net.Dispatch.Contents.{IsAddressed, IsObject}
use utx0_node.Net.Dispatch.Moves.{Pc, reading, asking, storing}
use utx0_node.Net.Dispatch.Moves.Sound.{IsSound}
use utx0_node.Net.Dispatch.Moves.Stored.{
  AllSound, Step-AllSound, Runs-IsAddressed, Runs_keeps, Runs-taken,
}
use utx0_node.Net.Dispatch.Moves.Together.{Node, Runs, stay, later, moves, runs, moved}
use utx0_node.Storage.{ObjectStore, IsLawful}

module _ (c : NetCrates) (S : ObjectStore) (config : Config) (readable : IsReadable c.json)
    (lawful : IsLawful S) where
  -- Two connections that both find an id absent both put, and the second text replaces the first.
  -- If serde_json's texts are as documented, a lawful store holds every object under the id of its
  -- own value, and every text that a connection is about to store has been checked: then however
  -- the moves of any number of connections interleave, an id that the store holds is held at any
  -- later time, with a text whose value has the same content as before, unless the hash takes the
  -- different canonical texts of the two values to one digest.
  pub Runs-content :
      (m n : Node S)
      → AllSound c S config m
      → Runs c S config m n
      → IsAddressed c S config lawful m.store
      → (id : Text) (d : Bytes) → lawful.contents m.store id ≡ some d
      → (e : Bytes) × (v : Value c.json.Number) × (w : Value c.json.Number) × (lawful.contents
            n.store id
          ≡ some e)
        × (c.json.from_slice d ≡ ok v)
        × (c.json.from_slice e ≡ ok w)
        × ((content c.json v ≡ content c.json w) ⊎ Collides c.json c.hex_digest v w)
  Runs-content m n sound so_far addressed id d before =
      let (v, parsed, hashed) = addressed id d before in
      let (e, there) =
        some_of (lawful.contents n.store id)
          (Runs_keeps c S config lawful m n sound so_far id (ground arith)) in
      let (w, parsed', hashed') =
        Runs-IsAddressed c S config lawful m n sound so_far addressed id e there in
      (
        e,
        v,
        w,
        there,
        parsed,
        parsed',
        compute_object_id-content c.json readable c.hex_digest v w id hashed hashed',
      )

  Pc-IsObject :
      (pc : Pc) (id raw : Text)
      → (pc ≡ asking id raw) ⊎ (pc ≡ storing id raw)
      → IsSound c S config pc
      → IsObject c S config id raw
  unfolding IsSound
  Pc-IsObject pc id raw (inl at) v = subst (IsSound c S config) at v
  Pc-IsObject pc id raw (inr at) v = subst (IsSound c S config) at v

  -- If serde_json's texts are as documented, a lawful store holds every object under the id of its
  -- own value, and every text that a connection is about to store has been checked: when a
  -- connection asks the store about an object, or puts it, and then goes on with its loop, the
  -- object is held from then on. However the moves of the connections interleave, the store has
  -- under the id a text whose value has the content of the object's value, unless the hash takes
  -- the different canonical texts of the two values to one digest.
  pub Runs-taken_content :
      (m n : Node S) (i : ℕ) (id raw : Text)
      → AllSound c S config m
      → IsAddressed c S config lawful m.store
      → ((m.conns i).pc ≡ asking id raw) ⊎ ((m.conns i).pc ≡ storing id raw)
      → (moved c S config m i).0 ≡ reading
      → Runs c S config (runs c S config i m) n
      → (d : Bytes) × (v : Value c.json.Number) × (w : Value c.json.Number) × (lawful.contents
            n.store id
          ≡ some d)
        × (c.json.from_slice raw ≡ ok v)
        × (c.json.from_slice d ≡ ok w)
        × ((content c.json v ≡ content c.json w) ⊎ Collides c.json c.hex_digest v w)
  Runs-taken_content m n i id raw sound addressed at goes_on so_far =
      let after = runs c S config i m in
      let sound' = Step-AllSound c S config {n = m} sound (moves i) in
      let addressed' =
        Runs-IsAddressed c S config lawful m after sound (later stay (moves i)) addressed in
      let (v, parsed, hashed) = Pc-IsObject (m.conns i).pc id raw at (sound i) in
      let (d, there) =
        some_of (lawful.contents n.store id)
          (Runs-taken c S config lawful m n i id raw sound at goes_on so_far) in
      let (w, parsed', hashed') =
        Runs-IsAddressed c S config lawful after n sound' so_far addressed' id d there in
      (
        d,
        v,
        w,
        there,
        parsed,
        parsed',
        compute_object_id-content c.json readable c.hex_digest v w id hashed hashed',
      )
