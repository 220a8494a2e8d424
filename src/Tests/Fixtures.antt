-- ===== src/Tests/Fixtures.antt =====
-- The crates as small functions: a parser of a few texts, a serialiser, a store in memory.
use utx0_node.Base.{
  ℕ, ◌≡◌, refl, Bool, true, ◌&&◌, not, Option, none, some, Text, Bytes, lit, List, [], ◌∷◌, ◌++◌,
  Result, ok, err, text_eq, ◌==◌, Option-cases, inl, inr, if◌then◌else◌, arith,
}
use utx0_node.Json.{Value, null, bool, number, string, object, Map, end, entry, SerdeJson, map_get}
use utx0_node.Message.{Message}
use utx0_node.Net.Crates.{NetCrates}
use utx0_node.Net.Framing.Rejects.{NeedsFields, carries_id}
use utx0_node.Peer.{Peer}
use utx0_node.Std.Decimal
use utx0_node.Std.Split.Laws.{Lacks}
use utx0_node.Std.Trim.{trim}
use utx0_node.Storage.{ObjectStore, IsLawful, is_some}

abbrev pub Json : Type 0
Json = Value ℕ

abbrev pub field : Text → Text → Map ℕ → Map ℕ
field k v m = entry k (string v) m

abbrev pub hello_json : Json
hello_json = object (
    field (lit "type") (lit "Hello")
      (entry (lit "port") (number 18018) (field (lit "user_agent") (lit "a") end)))

abbrev pub get_peers_json : Json
get_peers_json = object (field (lit "type") (lit "GetPeers") end)

abbrev pub get_object_json : Json
get_object_json =
    object (field (lit "type") (lit "GetObject") (field (lit "object_id") (lit "x") end))

-- A transaction that mints, wrapped as it is stored.
abbrev pub coinbase_json : Json
coinbase_json = object (entry (lit "object") (object (entry (lit "height") (number 1) end)) end)

-- A Peers message.
abbrev pub peers_json : Json
peers_json = object (field (lit "type") (lit "Peers") end)

abbrev pub peers_text : Text
peers_text = lit "{\"type\":\"Peers\",\"peers\":[{\"host\":\"10.0.0.1\",\"port\":80}]}"

abbrev pub texts : List (Text × Json)
texts =
    (lit "{\"type\":\"Hello\",\"port\":18018,\"user_agent\":\"a\"}", hello_json)
    ∷ (lit "{\"type\":\"GetPeers\"}", get_peers_json)
    ∷ (lit "{\"type\":\"GetObject\",\"object_id\":\"x\"}", get_object_json)
    ∷ (lit "{\"object\":{\"height\":1}}", coinbase_json)
    ∷ (peers_text, peers_json)
    ∷ []

abbrev pub parse_in : List (Text × Json) → Text → Result Text Json
parse_in [] text = err (lit "expected value")
parse_in ((known, v) ∷ rest) text = if text_eq known text then ok v else parse_in rest text

abbrev pub quote : Text → Text
quote s = lit "\"" ++ (s ++ lit "\"")

abbrev pub write_leaf : Json → Result Text Bytes
write_leaf null = ok (lit "null")
write_leaf (bool b) = ok (if b then lit "true" else lit "false")
write_leaf (number n) = ok (Decimal.to_string n)
write_leaf (string s) = ok (quote s)
write_leaf _ = err (lit "not a leaf")

abbrev pub json : SerdeJson
json = record {
  Number = ℕ;
  Error = Text;
  to_vec = write_leaf;
  write_key = λ k. ok (quote k);
  from_slice = λ text. parse_in texts (trim text);
}

pub message_of : Text → Map ℕ → Result Text Message
message_of typ m =
    if text_eq typ (lit "Hello")
    then ok (Message.hello 18018 (lit "a"))
    else if text_eq typ (lit "GetPeers")
    then ok Message.get_peers
    else if text_eq typ (lit "GetObject")
    then elim (map_get (lit "object_id") m) [
      | some (string i) ↦ ok (Message.get_object i)
      | some _ ↦ err (lit "invalid type")
      | none ↦ err (lit "missing field")
    ]
    else if text_eq typ (lit "Peers")
    then ok (Message.peers (record { host = lit "10.0.0.1"; port = 80 } ∷ []))
    else ok Message.unknown

unfoldable pub message_from : Json → Result Text Message
unfolding message_of map_get
message_from (object m) = elim (map_get (lit "type") m) [
  | some (string typ) ↦ message_of typ m
  | some _ ↦ err (lit "invalid type")
  | none ↦ err (lit "missing field")
]
message_from _ = err (lit "invalid type")

abbrev pub message_text : Message → Result Text Text
message_text (Message.hello port user_agent) = ok (
    lit "{\"type\":\"Hello\",\"port\":"
    ++ (Decimal.to_string port ++ (lit ",\"user_agent\":" ++ (quote user_agent ++ lit "}"))))
message_text Message.get_peers = ok (lit "{\"type\":\"GetPeers\"}")
message_text (Message.get_object i) =
    ok (lit "{\"type\":\"GetObject\",\"object_id\":" ++ (quote i ++ lit "}"))
message_text _ = ok (lit "{\"type\":\"Unknown\"}")

-- The digest of a text is its first bytes.
abbrev pub first_bytes : Bytes → Text
first_bytes (a ∷ b ∷ c ∷ _) = a ∷ b ∷ c ∷ []
first_bytes s = s

abbrev pub reverse_onto : List Peer → List Peer → List Peer
reverse_onto acc [] = acc
reverse_onto acc (p ∷ ps) = reverse_onto (p ∷ acc) ps

abbrev pub crates : NetCrates
crates = record {
  json = json;
  message_from_value = message_from;
  message_to_string = message_text;
  raw_from_string = some;
  debug = λ m. lit "message";
  hex_digest = first_bytes;
  shuffle = λ draw. reverse_onto [];
}

message_from-carries_id :
    (v : Json) (m : Message)
    → message_from v ≡ ok m
    → carries_id m ≡ true
    → (obj : Map ℕ) × (w : Json) × (v ≡ object obj) × (map_get (lit "object_id") obj ≡ some w)
unfolding message_from message_of
message_from-carries_id (object obj) m h e = elim (Option-cases (map_get (lit "object_id") obj)) [
  | inr (w, found) ↦ (obj, w, refl, found)
  | inl missing ↦ absurd (ground arith)
]
message_from-carries_id v m h e = absurd (ground arith)

pub crates-NeedsFields : NeedsFields crates
crates-NeedsFields = record { object_id = message_from-carries_id }

-- A store in memory: the newest entry of a key counts.
abbrev pub lookup : List (Text × Bytes) → Text → Option Bytes
lookup [] k = none
lookup ((j, d) ∷ rest) k = if text_eq j k then some d else lookup rest k

abbrev pub memory : ObjectStore
memory = record {
  State = List (Text × Bytes);
  has = λ s k. ok (is_some (lookup s k));
  get = λ s k. ok (lookup s k);
  put = λ s k d. (ok (lookup s k), (k, d) ∷ s);
}

unfoldable pub memory-IsLawful : IsLawful memory
memory-IsLawful = record {
  contents = lookup;
  get_reads = λ s k v h. cc;
  has_reads = λ s k b h. cc;
  put_returns = λ s k d old h. cc;
  put_writes = λ s k d old h j. refl;
  put_fails = λ s k d e h. cc;
}

abbrev pub lacks : ℕ → Text → Bool
lacks c [] = true
lacks c (b ∷ s) = not (b == c) && lacks c s

pub lacks-Lacks : (c : ℕ) (s : Text) → lacks c s ≡ true → Lacks c s
lacks-Lacks c [] h = tt
lacks-Lacks c (b ∷ s) h = (ground arith, lacks-Lacks c s (ground arith))
