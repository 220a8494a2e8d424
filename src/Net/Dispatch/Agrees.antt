-- ===== src/Net/Dispatch/Agrees.antt =====
-- The text that the loop of src/net/dispatch.rs keeps under an id, and the texts that peers send
-- under it.
use utx0_node.Base.{ℕ, ◌≡◌, ◌⊎◌, refl, true, Option, some, none, Text, Bytes, Result, ok, arith}
use utx0_node.Canonical.Content.{content, Collides, compute_object_id-content}
use utx0_node.Canonical.Readable.{IsReadable}
use utx0_node.Config.{Config}
use utx0_node.Errors.{ProtocolError}
use utx0_node.Json.{Value}
use utx0_node.Message.{object}
use utx0_node.Net.Crates.{NetCrates}
use utx0_node.Net.Dispatch.{Session, Control, go_on, handle, run_message_loop}
use utx0_node.Net.Dispatch.Contents.{IsAddressed, changes-IsAddressed, changes_keep, handle-object}
use utx0_node.Net.Dispatch.Objects.{handle-StoreChange, done, then_more, run-StoreChanges}
use utx0_node.Net.Dispatch.Received.{
  HasId, Received, refused, unsent, mismatched, known, put, put_fails, receive_object-Received,
}
use utx0_node.Storage.{ObjectStore, IsLawful, is_some}

pub some_of : {A : Type 0} (o : Option A) → is_some o ≡ true → (a : A) × (o ≡ some a)
some_of none h = cc
some_of (some a) h = (a, refl)

module _ (c : NetCrates) (S : ObjectStore) (config : Config) where
  Received-HasId :
      {id raw : Text} {s : Session S} {r : Result ProtocolError Control × Session S}
      → Received c S config id raw s r
      → r.0 ≡ ok go_on
      → HasId c S config raw id
  Received-HasId (refused e) h = absurd (ground arith)
  Received-HasId (unsent computed e f) h = absurd (ground arith)
  Received-HasId (mismatched computed f) h = absurd (ground arith)
  Received-HasId (known its e) h = its
  Received-HasId (put its e old f) h = its
  Received-HasId (put_fails its e x) h = absurd (ground arith)

  handle-HasId :
      (id raw : Text) (s : Session S)
      → (handle c S config (object id raw) s).0 ≡ ok go_on
      → HasId c S config raw id
  unfolding handle
  handle-HasId id raw s h = Received-HasId (receive_object-Received c S config id raw s) h

  -- If serde_json's texts are as documented, and a lawful store holds every object under the id of
  -- its own value: when the loop goes on after an object message, then what the store holds under
  -- the claimed id, then and when a later run of the loop has returned, is one text, whose value
  -- has the content of the value that was sent, unless the hash takes the different canonical texts of
  -- the two values to one digest.
  pub handle-object_content :
      (readable : IsReadable c.json) (lawful : IsLawful S) (id raw : Text) (s : Session S)
      → IsAddressed c S config lawful s.store
      → (handle c S config (object id raw) s).0 ≡ ok go_on
      → (fuel : ℕ) (s' : Session S) (r : Result ProtocolError (Unit {0}))
      → run_message_loop c S config fuel (handle c S config (object id raw) s).1 ≡ some (r, s')
      → (v : Value c.json.Number) × (w : Value c.json.Number) × (d : Bytes) × (c.json.from_slice raw
          ≡ ok v)
        × (c.json.from_slice d ≡ ok w)
        × (lawful.contents (handle c S config (object id raw) s).1.store id ≡ some d)
        × (lawful.contents s'.store id ≡ some d)
        × ((content c.json w ≡ content c.json v) ⊎ Collides c.json c.hex_digest w v)
  handle-object_content readable lawful id raw s addressed h fuel s' r returned =
      let after = (handle c S config (object id raw) s).1 in
      let its = handle-HasId id raw s h in
      let (d, there) =
        some_of (lawful.contents after.store id) (handle-object c S config lawful id raw s h) in
      let change = handle-StoreChange c S config (object id raw) s in
      let (w, parsed, hashed) =
        changes-IsAddressed c S config lawful (then_more change (done after.store)) addressed id d
          there in
      (
        its.value,
        w,
        d,
        its.parsed,
        parsed,
        there,
        changes_keep c S config lawful (run-StoreChanges c S config fuel after s' r returned) id d
            there,
        compute_object_id-content c.json readable c.hex_digest w its.value id hashed its.hashed,
      )
