-- ===== src/Tests/Loop.antt =====
-- The message loop over a store in memory and over a database that was never written.
use utx0_node.Base.{
  ℕ, ◌⊎◌, false, ◌≡◌, refl, subst, true, none, some, Text, Bytes, lit, List, [], ◌∷◌, ◌++◌, ok, err,
  Result, text_eq, text_eq_iff, text_leb, inl, inr, Bool-cases, arith,
}
use utx0_node.Canonical.{to_canonical_json, compute_object_id, ensure_object_field}
use utx0_node.Errors.{ProtocolError, connection_closed}
use utx0_node.Json.{as_object, map_get}
use utx0_node.Message
use utx0_node.Std.Decimal
use utx0_node.Std.Sink.{write_all, touch}
use utx0_node.Std.Trim.{trim}
use utx0_node.Std.Utf8.{is_utf8}
use utx0_node.Net.Framing.{read_frame, write_frame}
use utx0_node.Net.Dispatch.{Session, handle, round, pick_and_build_peers, run_message_loop}
use utx0_node.Net.Dispatch.{go_on}
use utx0_node.Net.Dispatch.Answers.{handle-object_get_object}
use utx0_node.Net.Dispatch.Contents.{
  IsAddressed, IsObject, run_message_loop-IsAddressed, run_message_loop_keeps,
  run_message_loop_fresh,
}
use utx0_node.Net.Dispatch.Loop.{run_message_loop_returns}
use utx0_node.Net.Handshake.{Halves, inbound}
use utx0_node.Net.Listener.{
  Reachable, start, step, accepted, ends_body, begins, halves, with_halves, handle_connection,
}
use utx0_node.Net.Listener.Branches.{handle_connection_lem}
use utx0_node.State.Connection
use utx0_node.State.Connection.{enter, drop, load}
use utx0_node.Storage.{ObjectStore}
use utx0_node.Storage.Redb.{redb_store}
use utx0_node.Tests.Fixtures.{crates, coinbase_json, memory, memory-IsLawful, message_from, lookup}
use utx0_node.Tests.Network.{config, stream, get_text, hello_text}
use utx0_node.Tests.Objects.{crate, crate-IsDocumented}

abbrev pub raw : Text
raw = lit "{\"object\":{\"height\":1}}"

abbrev pub id : Text
id = lit "{\"o"

abbrev pub session : (S : ObjectStore) → S.State → Session S
session S store = record {
  reader = stream (get_text ++ (lit "\n" ++ (hello_text ++ lit "\n")));
  writer = record { content = []; outcomes = [] };
  peers = record { map = []; file = record { content = []; outcomes = [] } };
  store = store;
  draws = 0;
}

abbrev pub one_object : List (Text × Bytes)
one_object = (id, raw) ∷ []

run_message_loop_returns_example :
    (r : Result ProtocolError (Unit {0}) × Session memory) × (run_message_loop crates memory config
        90
        (session memory one_object)
      ≡ some r)
run_message_loop_returns_example =
    run_message_loop_returns crates memory config 90 (session memory one_object) (omega arith)

abbrev pub after : (S : ObjectStore) → S.State → Session S
after S store = record {
  reader = stream [];
  writer = record { content = lit "{\"type\":\"Unknown\"}\n"; outcomes = [] };
  peers = record { map = []; file = record { content = []; outcomes = [] } };
  store = store;
  draws = 1;
}

-- The loop answers the request for peers, ignores the second Hello, and ends with the stream.
pub ended :
    run_message_loop crates memory config 90 (session memory one_object)
    ≡ some (err connection_closed, after memory one_object)
unfolding run_message_loop round read_frame write_frame write_all touch trim message_from is_utf8
    Decimal.to_string text_eq pick_and_build_peers
ended = refl

pub one_object-IsAddressed : IsAddressed crates memory config memory-IsLawful one_object
unfolding memory-IsLawful trim text_eq to_canonical_json compute_object_id text_leb
    Decimal.to_string
one_object-IsAddressed k d h = elim (Bool-cases (text_eq id k)) [
  | inr differs ↦ absurd (ground arith)
  | inl same ↦
      let stored : raw ≡ d = ground arith in
      (
        coinbase_json,
        subst (λ x. crates.json.from_slice x ≡ ok coinbase_json) stored refl,
        subst (λ x. compute_object_id crates.json crates.hex_digest coinbase_json ≡ ok x)
            ((text_eq_iff id k).0 same) refl,
      )
]

run_message_loop-IsAddressed_example : IsObject crates memory config id raw
unfolding memory-IsLawful text_eq
run_message_loop-IsAddressed_example =
    run_message_loop-IsAddressed crates memory config memory-IsLawful 90 (session memory one_object)
      (after memory one_object) (err connection_closed) ended one_object-IsAddressed id raw refl

run_message_loop_keeps_example : lookup one_object id ≡ some raw
unfolding memory-IsLawful text_eq
run_message_loop_keeps_example =
    run_message_loop_keeps crates memory config memory-IsLawful 90 (session memory one_object)
      (after memory one_object) (err connection_closed) ended id raw refl

run_message_loop_fresh_example : (after (redb_store crate) none).store ≡ none
unfolding run_message_loop round read_frame write_frame write_all touch trim message_from is_utf8
    Decimal.to_string text_eq pick_and_build_peers
run_message_loop_fresh_example =
    run_message_loop_fresh crates crate crate-IsDocumented config 90
      (session (redb_store crate) none) (after (redb_store crate) none) (err connection_closed) refl
      refl

-- The counter after a task has begun while the loop's body still holds its guard.
pub busy :
    Reachable (record { counter = record { value = 2 }; in_body = true; spawned = 0; inside = 1 })
unfolding Connection.new enter drop
busy =
    step
      (step (step (step start (accepted Connection.new 0 0)) (ends_body (record { value = 1 }) 0 0))
        (begins (record { value = 0 }) false 0 0))
      (accepted (record { value = 1 }) 0 1)

abbrev pub greeting : Session memory
greeting = record (session memory one_object) {
  reader = stream (hello_text ++ (lit "\n" ++ (get_text ++ lit "\n")));
}

abbrev closed : Result ProtocolError (Unit {0})
closed = err connection_closed

abbrev pub served : Session memory
served = record (after memory one_object) {
  writer = record {
    content = hello_text ++ (lit "\n" ++ (get_text ++ lit "\n{\"type\":\"Unknown\"}\n"));
    outcomes = [];
  };
}

serves :
    handle_connection crates memory config 90 false greeting ≡ some (err connection_closed, served)
unfolding handle_connection inbound run_message_loop round read_frame write_frame write_all touch
    trim message_from is_utf8 Decimal.to_string text_eq pick_and_build_peers
serves = refl

-- A store after the object has come in.
abbrev stored : Session memory
stored = session memory one_object

handle-object_get_object_example : handle crates memory config (Message.get_object id) stored ≡ (
  ok go_on,
  record stored { writer = record { content = lit "{\"type\":\"Unknown\"}\n"; outcomes = [] } },
)
unfolding handle trim text_eq to_canonical_json compute_object_id ensure_object_field text_leb
    Decimal.to_string as_object map_get is_utf8
handle-object_get_object_example =
    handle-object_get_object crates memory config memory-IsLawful id raw
      (lit "{\"type\":\"Unknown\"}") (session memory []) stored (some raw) refl refl refl refl refl
      refl refl refl

greets :
    handle_connection crates memory config 90 false greeting ≡ some (err connection_closed, served)
unfolding handle_connection inbound run_message_loop round read_frame write_frame write_all touch
    trim message_from is_utf8 Decimal.to_string text_eq pick_and_build_peers
greets = refl

handle_connection_lem_example :
    ((x : ProtocolError) × ((inbound crates config false (halves greeting)).0 ≡ err x)
      × (closed ≡ err x)
      × (served.store ≡ greeting.store)
      × (served.peers ≡ greeting.peers))
    ⊎ ((port : ℕ) × (user_agent : Text) × (g : Halves) × (false ≡ false)
        × (read_frame crates greeting.reader ≡ (ok (Message.hello port user_agent), g.reader))
        × (run_message_loop crates memory config 90 (with_halves greeting g)
            ≡ some (err connection_closed, served)))
handle_connection_lem_example =
    handle_connection_lem crates memory config 90 false greeting served (err connection_closed)
      greets
