-- ===== src/Tests/Agreement.antt =====
-- Two texts of one content, that differ in the order of their entries, and the store that has one of
-- them.
use native.Mathlib.Decide.{ℕ_discrete}
use utx0_node.Base.{
  ◌≡◌, ◌↔◌, ◌⊎◌, refl, subst, some, Text, Bytes, lit, [], ◌∷◌, Result, ok, err, text_eq,
  text_eq_iff, text_leb, inl, inr, Bool-cases, arith,
}
use utx0_node.Canonical.{to_canonical_json, compute_object_id, ensure_object_field}
use utx0_node.Canonical.Content.{content, Collides, to_canonical_json_iff}
use utx0_node.Canonical.Reorder.{SameValue}
use utx0_node.Errors.{connection_closed}
use utx0_node.Json.{as_object, map_get, number, object, end, entry}
use utx0_node.Net.Crates.{NetCrates}
use utx0_node.Net.Dispatch.{Session, handle, round, run_message_loop}
use utx0_node.Net.Dispatch.Agrees.{handle-object_content}
use utx0_node.Net.Dispatch.Contents.{IsAddressed}
use utx0_node.Net.Dispatch.Moves.{storing, move}
use utx0_node.Net.Dispatch.Moves.Agrees.{Runs-content, Runs-taken_content}
use utx0_node.Net.Dispatch.Moves.Sound.{IsSound}
use utx0_node.Net.Dispatch.Moves.Stored.{AllSound}
use utx0_node.Net.Dispatch.Moves.Together.{Node, moves, stay, later, started, runs}
use utx0_node.Net.Framing.{read_frame}
use utx0_node.Std.Decimal
use utx0_node.Std.Trim.{trim}
use utx0_node.Std.Utf8.{is_utf8}
use utx0_node.Tests.Escaped.{escaped, escaped-IsReadable, write_escaped, write_string}
use utx0_node.Tests.Fixtures.{Json, crates, parse_in, memory, memory-IsLawful, lookup}
use utx0_node.Tests.Loop.{id}
use utx0_node.Tests.Network.{config, stream}

abbrev ab : Json
ab = object (
    entry (lit "object") (object (entry (lit "a") (number 1) (entry (lit "b") (number 2) end))) end)

abbrev ba : Json
ba = object (
    entry (lit "object") (object (entry (lit "b") (number 2) (entry (lit "a") (number 1) end))) end)

abbrev ab_text : Text
ab_text = lit "{\"object\":{\"a\":1,\"b\":2}}"

abbrev ba_text : Text
ba_text = lit "{ \"object\": { \"b\": 2, \"a\": 1 } }"

abbrev parse : Bytes → Result Text Json
parse = parse_in ((ab_text, ab) ∷ (ba_text, ba) ∷ [])

to_canonical_json_iff_example :
    ((s : Bytes) × (to_canonical_json (escaped parse) ab ≡ ok s))
    × ((to_canonical_json (escaped parse) ab ≡ to_canonical_json (escaped parse) ba)
        ↔ SameValue ab ba)
to_canonical_json_iff_example =
    to_canonical_json_iff (escaped parse) (escaped-IsReadable parse) ab ba

abbrev both : NetCrates
both = record crates { json = escaped parse }

-- The store has the one text, and then a peer sends the other.
abbrev session : Session memory
session = record {
  reader = stream [];
  writer = record { content = []; outcomes = [] };
  peers = record { map = []; file = record { content = []; outcomes = [] } };
  store = (id, ab_text) ∷ [];
  draws = 0;
}

session-IsAddressed : IsAddressed both memory config memory-IsLawful session.store
unfolding memory-IsLawful text_eq to_canonical_json compute_object_id text_leb Decimal.to_string
    write_escaped write_string
session-IsAddressed k d h = elim (Bool-cases (text_eq id k)) [
  | inr differs ↦ absurd (ground arith)
  | inl same ↦
      let stored : ab_text ≡ d = ground arith in
      (
        ab,
        subst (λ x. both.json.from_slice x ≡ ok ab) stored refl,
        subst (λ x. compute_object_id both.json both.hex_digest ab ≡ ok x)
            ((text_eq_iff id k).0 same) refl,
      )
]

handle-object_content_example :
    (v : Json) × (w : Json) × (d : Bytes) × (parse ba_text ≡ ok v)
    × (parse d ≡ ok w)
    × (lookup session.store id ≡ some d)
    × (lookup session.store id ≡ some d)
    × ((content (escaped parse) w ≡ content (escaped parse) v)
        ⊎ Collides (escaped parse) both.hex_digest w v)
unfolding memory-IsLawful handle run_message_loop round read_frame trim is_utf8 text_eq
    to_canonical_json compute_object_id ensure_object_field text_leb Decimal.to_string as_object
    map_get write_escaped write_string
handle-object_content_example =
    handle-object_content both memory config (escaped-IsReadable parse) memory-IsLawful id ba_text
      session session-IsAddressed refl 1 session (err connection_closed) refl

-- The store has the one text when a connection, which has found nothing under the id before, puts
-- the other.
abbrev late : Node memory
late = record (started both memory config session.store session.peers) {
  conns = λ i. record {
    pc = storing id ba_text;
    reader = stream [];
    writer = record { content = []; outcomes = [] };
    draws = 0;
  };
}

late-AllSound : AllSound both memory config late
unfolding IsSound text_eq to_canonical_json compute_object_id text_leb Decimal.to_string
    write_escaped write_string
late-AllSound i = (ba, refl, refl)

-- The text is replaced.
abbrev replaced : Node memory
replaced = runs both memory config 0 late

replaced_text : lookup replaced.store id ≡ some ba_text
unfolding move text_eq ℕ_discrete
replaced_text = refl

Runs-content_example :
    (e : Bytes) × (v : Json) × (w : Json) × (lookup replaced.store id ≡ some e)
    × (parse ab_text ≡ ok v)
    × (parse e ≡ ok w)
    × ((content (escaped parse) v ≡ content (escaped parse) w)
        ⊎ Collides (escaped parse) both.hex_digest v w)
unfolding memory-IsLawful text_eq
Runs-content_example =
    Runs-content both memory config (escaped-IsReadable parse) memory-IsLawful late replaced
      late-AllSound (later stay (moves 0)) session-IsAddressed id ab_text refl

-- The same connection goes on with its loop, and the store has its object.
Runs-taken_content_example :
    (d : Bytes) × (v : Json) × (w : Json) × (lookup replaced.store id ≡ some d)
    × (parse ba_text ≡ ok v)
    × (parse d ≡ ok w)
    × ((content (escaped parse) v ≡ content (escaped parse) w)
        ⊎ Collides (escaped parse) both.hex_digest v w)
unfolding memory-IsLawful move text_eq
Runs-taken_content_example =
    Runs-taken_content both memory config (escaped-IsReadable parse) memory-IsLawful late replaced 0
      id ba_text late-AllSound session-IsAddressed (inr refl) refl stay
