-- ===== src/Net/Framing.antt =====
-- src/net/framing.rs: one JSON text per line.
pub mod Lines
pub mod Rejects
pub mod Oversized
pub mod Derived
use utx0_node.Base.{
  ℕ, zero, suc, ◌*◌, Bool, true, false, ◌&&◌, ◌||◌, Option, none, some, Text, Bytes, lit, List, [],
  ◌∷◌, ◌++◌, Result, ok, err, map_err, ok_or, ◌>>=◌, ◌>>◌, text_eq, leb, ◌==◌, length,
  if◌then◌else◌,
}
use utx0_node.Errors.{ProtocolError, invalid_format, io, connection_closed, oversized_frame}
use utx0_node.Exec
use utx0_node.Exec.{Exec}
use utx0_node.Json.{Value, Map, end, entry, as_object, as_str, map_get}
use utx0_node.Message.{Message}
use utx0_node.Net.Crates.{NetCrates}
use utx0_node.Std.Sink.{Sink, write_all, touch}
use utx0_node.Std.Trim.{trim}
use utx0_node.Std.Utf8.{is_utf8}

-- src/util/constants.rs
abbrev pub recv_buffer_limit : ℕ
recv_buffer_limit = 512 * 1024

-- The receiving half: the bytes that will arrive, and whether the stream then ends or fails. A
-- stream without an end is not a Reader; any finite part of it is, up to where it is cut off.
pub record Reader : Type 0 where
  pub incoming : Bytes
  pub failure : Option Text

-- Why a line stops.
pub data Stop : Type 0 where
  at_newline at_limit at_end : Stop

pub record Cut : Type 0 where
  pub stop : Stop
  pub line : Bytes
  pub rest : Bytes

-- The bytes up to and with the first newline, no more than the limit.
pub cut : ℕ → Bytes → Cut
cut zero s = record { stop = at_limit; line = []; rest = s }
cut (suc n) [] = record { stop = at_end; line = []; rest = [] }
cut (suc n) (b ∷ s) =
    let more = cut n s in
    if b == b'\n'
    then record { stop = at_newline; line = b ∷ []; rest = s }
    else record { stop = more.stop; line = b ∷ more.line; rest = more.rest }

utf8_line : Bytes → Result Text Text
utf8_line line = if is_utf8 line then ok line else err (lit "stream did not contain valid UTF-8")

-- The result of `read_line`. Past the last byte that arrives, a read may fail.
pub line_read : Option Text → Cut → Result Text Text
unfolding utf8_line
line_read failure c = elim c.stop [
  | at_newline ↦ utf8_line c.line
  | at_limit ↦ utf8_line c.line
  | at_end ↦ elim failure [ none ↦ utf8_line c.line | some e ↦ err e ]
]

-- `reader.take(limit).read_line(&mut line)`
pub read_line : ℕ → Exec Reader Text Text
unfolding cut line_read
read_line limit r =
    let c = cut limit r.incoming in (line_read r.failure c, record r { incoming = c.rest })

abbrev pub allowed_keys : Text → List Text
allowed_keys typ =
    if text_eq typ (lit "Hello")
    then lit "type" ∷ lit "port" ∷ lit "user_agent" ∷ []
    else if text_eq typ (lit "GetPeers")
    then lit "type" ∷ []
    else if text_eq typ (lit "Peers")
    then lit "type" ∷ lit "peers" ∷ []
    else if text_eq typ (lit "Error")
    then lit "type" ∷ lit "name" ∷ lit "msg" ∷ []
    else lit "type" ∷ []

unfoldable pub contains_key : List Text → Text → Bool
contains_key [] k = false
contains_key (j ∷ keys) k = text_eq j k || contains_key keys k

-- `for key in obj.keys()`
pub check_keys : {N : Type 0} → List Text → Map N → Result ProtocolError (Unit {0})
unfolding contains_key
check_keys allowed end = ok tt
check_keys allowed (entry k v obj) =
    if contains_key allowed k then check_keys allowed obj else err invalid_format

abbrev pub is_empty : Text → Bool
is_empty [] = true
is_empty (c ∷ s) = false

module _ (c : NetCrates) where
  -- From the text of a line to its message.
  pub decode : Text → Result ProtocolError Message
  unfolding check_keys as_object as_str map_get
  decode line = do
    raw ← map_err (λ _. invalid_format) (c.json.from_slice line)
    obj ← ok_or invalid_format (as_object raw)
    typ_value ← ok_or invalid_format (map_get (lit "type") obj)
    typ ← ok_or invalid_format (as_str typ_value)
    check_keys (allowed_keys typ) obj
    map_err (λ _. invalid_format) (c.message_from_value raw)

  unfoldable pub frame : Text → Result ProtocolError Message
  unfolding decode
  frame line =
      if leb recv_buffer_limit (length line)
      then err oversized_frame
      else if is_empty (trim line)
      then err connection_closed
      else decode line

  pub after_line : Result Text Text → Result ProtocolError Message
  unfolding frame
  after_line (ok line) = frame line
  after_line (err e) = err (io e)

  unfoldable pub read_frame : Exec Reader ProtocolError Message
  unfolding read_line after_line
  read_frame r = let (line, r') = read_line recv_buffer_limit r in (after_line line, r')

  on_sink : (Sink → Result Text (Unit {0}) × Sink) → Exec Sink ProtocolError (Unit {0})
  on_sink call w = let (r, w') = call w in (map_err io r, w')

  pub send_line : Text → Exec Sink ProtocolError (Unit {0})
  unfolding on_sink
  send_line line = Exec.◌>>◌ (on_sink (write_all (line ++ lit "\n"))) (on_sink touch)

  unfoldable pub write_frame : Message → Exec Sink ProtocolError (Unit {0})
  unfolding send_line
  write_frame msg =
      Exec.◌>>=◌ (Exec.lift (map_err (λ _. invalid_format) (c.message_to_string msg))) send_line
