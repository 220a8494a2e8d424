-- ===== src/Net/Dispatch/Answers.antt =====
-- Objects that are received and asked for, in the loop of src/net/dispatch.rs.
use mathlib.Core.List.{append-nil}
use utx0_node.Base.{
  text_eq_refl, ◌≡◌, ap, ◌∙◌, true, false, Option, some, Text, Bytes, lit, [], ◌++◌, ok, arith,
}
use utx0_node.Config.{Config}
use utx0_node.Message.{get_object, object, build_object}
use utx0_node.Net.Crates.{NetCrates}
use utx0_node.Net.Dispatch.{Session, go_on, handle, send_object}
use utx0_node.Net.Dispatch.Objects.{Accepted, held, taken, handle-Accepted}
use utx0_node.Net.Framing.{write_frame}
use utx0_node.Std.Sink.{write_all, touch}
use utx0_node.Std.Utf8.{is_utf8}
use utx0_node.Storage.{ObjectStore, IsLawful}

module _ (c : NetCrates) (S : ObjectStore) (config : Config) (lawful : IsLawful S) where
  open lawful use {contents}

  new_object :
      (id raw : Text) {s t : S.State}
      → Accepted c S config id raw s t
      → S.has s id ≡ ok false
      → contents t id ≡ some raw
  new_object id raw (held e) unknown = absurd (ground arith)
  new_object id raw {s} (taken fresh old e) unknown =
      ground (arith, lawful.put_writes s id raw old e id, text_eq_refl id)

  answer :
      (id raw text : Text) (t : Session S)
      → S.get t.store id ≡ ok (some raw)
      → is_utf8 raw ≡ true
      → c.raw_from_string raw ≡ some raw
      → c.message_to_string (object id raw) ≡ ok text
      → t.writer.outcomes ≡ []
      → handle c S config (get_object id) t ≡ (
        ok go_on,
        record t {
          writer = record { content = t.writer.content ++ (text ++ lit "\n"); outcomes = [] };
        },
      )
  unfolding handle write_frame write_all touch build_object send_object
  answer id raw text t got utf8 raw_text serialised calm =
      ground (arith, append-nil (t.writer.content ++ (text ++ lit "\n")))

  -- An object message on which the loop goes on, with an object that a lawful store did not have:
  -- when a peer asks for it next, and the store can be read, it is sent with the text that was
  -- received, if that is UTF-8 and valid JSON, the message can be serialised and no write fails.
  pub handle-object_get_object :
      (id raw text : Text) (s t : Session S) (found : Option Bytes)
      → (handle c S config (object id raw) s).0 ≡ ok go_on
      → S.has s.store id ≡ ok false
      → t.store ≡ (handle c S config (object id raw) s).1.store
      → S.get t.store id ≡ ok found
      → is_utf8 raw ≡ true
      → c.raw_from_string raw ≡ some raw
      → c.message_to_string (object id raw) ≡ ok text
      → t.writer.outcomes ≡ []
      → handle c S config (get_object id) t ≡ (
        ok go_on,
        record t {
          writer = record { content = t.writer.content ++ (text ++ lit "\n"); outcomes = [] };
        },
      )
  handle-object_get_object id raw text s t found h unknown same got utf8 raw_text serialised calm =
      let kept : contents t.store id ≡ some raw =
        ap (λ u. contents u id) same
        ∙ new_object id raw (handle-Accepted c S config id raw s h) unknown in
      let read : found ≡ some raw = lawful.get_reads t.store id found got ∙ kept in
      answer id raw text t (got ∙ ap ok read) utf8 raw_text serialised calm
