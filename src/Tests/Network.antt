-- ===== src/Tests/Network.antt =====
-- Frames, handshakes and the message loop, run on the crates of the fixtures.
use utx0_node.Base.{
  ℕ, zero, suc, inl, inr, ap, leb, ◌==◌, ◌∷◌, ◌≡◌, refl, true, false, none, some, Text, Bytes, lit,
  [], ◌++◌, Result, ok, err, text_eq, length, arith,
}
use utx0_node.Config.{Config}
use utx0_node.Json.{number, end, entry, map_get}
use utx0_node.Errors.{invalid_format, oversized_frame}
use utx0_node.Message.{Message, mk_hello, mk_getpeers}
use utx0_node.Net.Framing.{Reader, recv_buffer_limit, frame, read_frame, write_frame}
use utx0_node.Net.Framing.Derived.{IsDerived, write_frame-read_frame_derived}
use utx0_node.Net.Framing.Lines.{IsSerialised}
use utx0_node.Net.Framing.Oversized.{read_frame_oversized}
use utx0_node.Net.Framing.Rejects.{carries_id, read_frame-carries_id}
use utx0_node.Net.Handshake.{Halves, inbound, outbound, greet}
use utx0_node.Net.Handshake.Greetings.{
  fresh, greeted, inbound_reads, outbound_reads, handshakes_meet,
}
use utx0_node.Tests.Fixtures.{field, crates, crates-NeedsFields, message_from, lacks-Lacks}
use utx0_node.Std.Utf8.{is_utf8}
use utx0_node.Std.Utf8.Laws.{IsAscii, is_utf8-IsAscii}
use utx0_node.Std.Split.Laws.{Lacks}
use utx0_node.Std.Sink.{write_all, touch}
use utx0_node.Std.Trim.{trim}
use utx0_node.Std.Decimal

abbrev pub config : Config
config = record {
  port = 18018;
  user_agent = lit "a";
  peers_file = lit "peers.csv";
  max_outbound_connection = 4;
  service_loop_delay = 1;
  banned_hosts = [];
  public_node = true;
  my_host = lit "0.0.0.0";
}

abbrev pub hello_text : Text
hello_text = lit "{\"type\":\"Hello\",\"port\":18018,\"user_agent\":\"a\"}"

abbrev pub get_text : Text
get_text = lit "{\"type\":\"GetPeers\"}"

abbrev line : Text → Text
line text = text ++ lit "\n"

abbrev pub stream : Bytes → Reader
stream bytes = record { incoming = bytes; failure = none }

hello-IsSerialised : IsSerialised crates (mk_hello 18018 (lit "a")) hello_text
unfolding frame trim message_from is_utf8 Decimal.to_string text_eq
hello-IsSerialised = record {
  serialised = refl;
  no_newline = lacks-Lacks b'\n' hello_text refl;
  utf8 = refl;
  read_back = refl;
  short = omega arith;
}

get-IsSerialised : IsSerialised crates mk_getpeers get_text
unfolding frame trim message_from is_utf8 Decimal.to_string text_eq
get-IsSerialised = record {
  serialised = refl;
  no_newline = lacks-Lacks b'\n' get_text refl;
  utf8 = refl;
  read_back = refl;
  short = omega arith;
}

hello-IsDerived : IsDerived crates (mk_hello 18018 (lit "a")) hello_text
unfolding map_get message_from is_utf8 trim text_eq Decimal.to_string
hello-IsDerived = record {
  inside = lit "\"type\":\"Hello\",\"port\":18018,\"user_agent\":\"a\"";
  obj =
      field (lit "type") (lit "Hello")
        (entry (lit "port") (number 18018) (field (lit "user_agent") (lit "a") end));
  serialised = refl;
  braces = refl;
  no_newline = lacks-Lacks b'\n' hello_text refl;
  utf8 = refl;
  parsed = refl;
  tagged = refl;
  keys = (inl refl, (inr (inl refl), (inr (inr (inl refl)), tt)));
  read = refl;
}

write_frame-read_frame_derived_example :
    ((write_frame crates (mk_hello 18018 (lit "a")) (record { content = []; outcomes = [] })).0
      ≡ ok tt)
    × (read_frame crates (stream (line hello_text ++ lit "x"))
        ≡ (ok (mk_hello 18018 (lit "a")), stream (lit "x")))
unfolding write_frame write_all touch Decimal.to_string
write_frame-read_frame_derived_example =
    write_frame-read_frame_derived crates (mk_hello 18018 (lit "a")) hello_text hello-IsDerived refl
      (omega arith) (lit "x") (record { content = []; outcomes = [] })
      (stream (line hello_text ++ lit "x")) refl refl refl

read_frame-carries_id_example : carries_id mk_getpeers ≡ false
unfolding read_frame trim message_from is_utf8 text_eq
read_frame-carries_id_example =
    read_frame-carries_id crates crates-NeedsFields (stream (line get_text)) mk_getpeers refl

-- The line of a `GetObject` is refused.
get_object_refused :
    (read_frame crates (stream (lit "{\"type\":\"GetObject\",\"object_id\":\"x\"}\n"))).0
    ≡ err invalid_format
unfolding read_frame trim message_from is_utf8 text_eq
get_object_refused = refl

abbrev pub both : Bytes
both = line hello_text ++ line get_text

handshakes_meet_example :
    (outbound crates config false (ok (fresh (stream both)))
      ≡ (ok tt, some (greeted (stream both) hello_text get_text (line get_text))))
    × (inbound crates config false (fresh (stream both))
        ≡ (ok tt, greeted (stream both) hello_text get_text (line get_text)))
unfolding write_all touch inbound greet write_frame read_frame trim message_from is_utf8
    Decimal.to_string text_eq
handshakes_meet_example =
    handshakes_meet crates config config (stream both) (stream both) hello-IsSerialised
      hello-IsSerialised get-IsSerialised refl refl

inbound_reads_example :
    (port : ℕ) × (user_agent : Text) × (false ≡ false)
    × (read_frame crates (stream both)
        ≡ (ok (Message.hello port user_agent), stream (line get_text)))
unfolding write_all touch inbound write_frame read_frame trim message_from is_utf8 Decimal.to_string
    text_eq
inbound_reads_example =
    inbound_reads crates config false (fresh (stream both))
      (greeted (stream both) hello_text get_text (line get_text)) refl

outbound_reads_example :
    (h : Halves) × (port : ℕ) × (user_agent : Text) × (◌≡◌ {A = Result Text Halves}
      (ok (fresh (stream both)))
      (ok h))
    × (false ≡ false)
    × ((read_frame crates h.reader).0 ≡ ok (Message.hello port user_agent))
unfolding write_all touch outbound write_frame read_frame trim message_from is_utf8
    Decimal.to_string text_eq
outbound_reads_example =
    outbound_reads crates config false (ok (fresh (stream both)))
      (some (greeted (stream both) hello_text get_text (line get_text))) refl

-- The byte, so many times.
pub repeat : ℕ → ℕ → Bytes
repeat b zero = []
repeat b (suc n) = b ∷ repeat b n

pub length-repeat : (b n : ℕ) → length (repeat b n) ≡ n
unfolding repeat
length-repeat b zero = refl
length-repeat b (suc n) = ap suc (length-repeat b n)

pub repeat-IsAscii : (b n : ℕ) → leb b 0x7f ≡ true → IsAscii (repeat b n)
unfolding repeat
repeat-IsAscii b zero h = tt
repeat-IsAscii b (suc n) h = (h, repeat-IsAscii b n h)

pub repeat-Lacks : (c b n : ℕ) → (b == c) ≡ false → Lacks c (repeat b n)
unfolding repeat
repeat-Lacks c b zero h = tt
repeat-Lacks c b (suc n) h = (h, repeat-Lacks c b n h)

pub repeat-suc : (b n : ℕ) → repeat b (suc n) ≡ repeat b n ++ b ∷ []
unfolding repeat
repeat-suc b zero = refl
repeat-suc b (suc n) = ap (λ s. b ∷ s) (repeat-suc b n)

read_frame_oversized_example :
    read_frame crates (stream (repeat b'A' recv_buffer_limit ++ lit "{}\n"))
    ≡ (err oversized_frame, stream (lit "{}\n"))
read_frame_oversized_example =
    read_frame_oversized crates (stream (repeat b'A' recv_buffer_limit ++ lit "{}\n"))
      (repeat b'A' recv_buffer_limit) (lit "{}\n") refl (length-repeat b'A' recv_buffer_limit)
      (repeat-Lacks b'\n' b'A' recv_buffer_limit refl)
      (is_utf8-IsAscii (repeat b'A' recv_buffer_limit) (repeat-IsAscii b'A' recv_buffer_limit refl))
