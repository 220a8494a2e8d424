-- ===== src/Net/Framing/Derived.antt =====
-- What src/net/framing.rs makes of the texts that the derived serialisation of
-- src/protocol/message.rs writes.
use utx0_node.Base.{
  suc, ◌<◌, ◌≡◌, refl, ap, ◌∙◌, true, false, some, Text, Bytes, lit, List, [], ◌∷◌, ◌++◌, ok, ◌⊎◌,
  inl, inr, length, length-append, text_eq, text_eq_iff, arith,
}
use utx0_node.Json.{object, string, Map, end, entry, as_object, as_str, map_get}
use utx0_node.Message.{Message, hello, peers, get_peers, get_object, got_object, error, unknown}
use utx0_node.Net.Crates.{NetCrates}
use utx0_node.Net.Framing.{
  Reader, read_frame, write_frame, allowed_keys, contains_key, check_keys, decode, frame, is_empty,
  recv_buffer_limit,
}
use utx0_node.Net.Framing.Lines.{IsSerialised, write_frame-read_frame}
use utx0_node.Net.Framing.Rejects.{carries_id}
use utx0_node.Std.Sink.{Sink}
use utx0_node.Std.Split.Laws.{Lacks}
use utx0_node.Std.Trim.{trim}
use utx0_node.Std.Trim.Laws.{trim-braces}
use utx0_node.Std.Utf8.{is_utf8}

-- The `type` of a message, and its fields.
abbrev pub tag_of : Message → Text
tag_of (hello port user_agent) = lit "Hello"
tag_of (peers ps) = lit "Peers"
tag_of get_peers = lit "GetPeers"
tag_of (get_object i) = lit "GetObject"
tag_of (got_object i) = lit "GotObject"
tag_of (Message.object i o) = lit "Object"
tag_of (error name msg) = lit "Error"
tag_of unknown = lit "Unknown"

abbrev pub fields_of : Message → List Text
fields_of (hello port user_agent) = lit "port" ∷ lit "user_agent" ∷ []
fields_of (peers ps) = lit "peers" ∷ []
fields_of get_peers = []
fields_of (get_object i) = lit "object_id" ∷ []
fields_of (got_object i) = lit "object_id" ∷ []
fields_of (Message.object i o) = lit "object_id" ∷ lit "object" ∷ []
fields_of (error name msg) = lit "name" ∷ lit "msg" ∷ []
fields_of unknown = []

abbrev pub IsListed : Text → List Text → Type 0
IsListed k [] = true ≡ false
IsListed k (j ∷ keys) = (j ≡ k) ⊎ IsListed k keys

-- No other keys than these.
abbrev pub OnlyKeys : {N : Type 0} → List Text → Map N → Type 0
OnlyKeys keys end = Unit
OnlyKeys keys (entry k v obj) = IsListed k keys × OnlyKeys keys obj

-- What the crates document of a message's text: it is one line of UTF-8 with a JSON object, whose
-- `type` is the variant's name, whose other keys are the variant's fields, and which the derived
-- deserialisation reads as the message.
pub record IsDerived (c : NetCrates) (m : Message) (text : Text) : Type 0 where
  pub inside : Text
  pub obj : Map c.json.Number
  pub serialised : c.message_to_string m ≡ ok text
  pub braces : text ≡ b'{' ∷ inside ++ lit "}"
  pub no_newline : Lacks b'\n' text
  pub utf8 : is_utf8 (text ++ lit "\n") ≡ true
  pub parsed : c.json.from_slice (text ++ lit "\n") ≡ ok (object obj)
  pub tagged : map_get (lit "type") obj ≡ some (string (tag_of m))
  pub keys : OnlyKeys (lit "type" ∷ fields_of m) obj
  pub read : c.message_from_value (object obj) ≡ ok m

contains_key-IsListed : (keys : List Text) (k : Text) → IsListed k keys → contains_key keys k ≡ true
unfolding contains_key
contains_key-IsListed [] k h = absurd (ground arith)
contains_key-IsListed (j ∷ keys) k (inl same) = ground (arith, text_eq_iff j k)
contains_key-IsListed (j ∷ keys) k (inr more) = ground (arith, contains_key-IsListed keys k more)

check_keys-OnlyKeys :
    {N : Type 0} (keys : List Text) (obj : Map N) → OnlyKeys keys obj → check_keys keys obj ≡ ok tt
unfolding check_keys
check_keys-OnlyKeys keys end h = refl
check_keys-OnlyKeys keys (entry k v obj) (listed, h) =
    rw (contains_key-IsListed keys k listed, check_keys-OnlyKeys keys obj h)

-- The keys that may stand in a message of this `type` are those that its serialisation writes.
allowed_keys-tag_of :
    (m : Message) → carries_id m ≡ false → allowed_keys (tag_of m) ≡ lit "type" ∷ fields_of m
unfolding text_eq
allowed_keys-tag_of (hello port user_agent) h = refl
allowed_keys-tag_of (peers ps) h = refl
allowed_keys-tag_of get_peers h = refl
allowed_keys-tag_of (error name msg) h = refl
allowed_keys-tag_of unknown h = refl
allowed_keys-tag_of m h = absurd (ground arith)

module _ (c : NetCrates) (m : Message) (text : Text) (d : IsDerived c m text)
    (no_id : carries_id m ≡ false) where
  check_keys-tag_of : check_keys (allowed_keys (tag_of m)) d.obj ≡ ok tt
  check_keys-tag_of =
      ap (λ keys. check_keys keys d.obj) (allowed_keys-tag_of m no_id)
      ∙ check_keys-OnlyKeys (lit "type" ∷ fields_of m) d.obj d.keys

  decode-IsDerived : decode c (text ++ lit "\n") ≡ ok m
  unfolding decode as_object as_str
  decode-IsDerived = rw (d.parsed, d.tagged, check_keys-tag_of, d.read)

  trim-IsDerived : is_empty (trim (text ++ lit "\n")) ≡ false
  trim-IsDerived =
      ap (λ t. is_empty (trim (t ++ lit "\n"))) d.braces ∙ ap is_empty (trim-braces d.inside)

  module _ (small : suc (length text) < recv_buffer_limit) where
    frame-IsDerived : frame c (text ++ lit "\n") ≡ ok m
    unfolding frame
    frame-IsDerived =
        let whole = length-append text (lit "\n") in
        ground (arith, trim-IsDerived, decode-IsDerived)

    IsDerived-IsSerialised : IsSerialised c m text
    IsDerived-IsSerialised = record {
      serialised = d.serialised;
      no_newline = d.no_newline;
      utf8 = d.utf8;
      read_back = frame-IsDerived;
      short = omega arith;
    }

    -- A message that is no `GetObject`, `GotObject` or `Object` and whose text, with the newline,
    -- is shorter than the limit of a frame goes over the line: if its text is as the crates
    -- document, `write_frame` on a fresh stream with no fault to come writes it, and `read_frame`
    -- at the other end, whose key filter lets it pass, returns the same message and leaves what
    -- was sent after it.
    pub write_frame-read_frame_derived :
        (rest : Bytes) (w : Sink) (r : Reader)
        → w.outcomes ≡ []
        → w.content ≡ []
        → r.incoming ≡ (write_frame c m w).1.content ++ rest
        → ((write_frame c m w).0 ≡ ok tt) × (read_frame c r ≡ (ok m, record r { incoming = rest }))
    write_frame-read_frame_derived rest w r calm fresh arrives =
        write_frame-read_frame c m text rest w r IsDerived-IsSerialised calm fresh arrives
