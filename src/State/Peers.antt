-- ===== src/State/Peers.antt =====
-- src/state/peers.rs: the known peers, in memory and in the peers file.
mod Lines
pub mod Persistence
pub mod Torn
use utx0_node.Base.{
  ◌≡◌, ap, true, ℕ, Bool, false, ◌||◌, Option, none, some, Text, Bytes, lit, List, [], ◌∷◌, ◌++◌,
  Result, ok, err, map_err, ◌==◌, if◌then◌else◌,
}
use utx0_node.Exec.{Exec, ◌>>=◌, ◌>>◌}
use utx0_node.Peer.{peer_eq_iff, Peer, peer_eq}
use utx0_node.Std.Decimal
use utx0_node.Std.Decimal.{parse_u16}
use utx0_node.Std.Sink.{Sink, write_all, touch}
use utx0_node.Std.Split.{split}
use utx0_node.Std.Trim.{trim}
use utx0_node.Std.Utf8.{is_utf8}

-- `io` and `csv` carry what the error displays.
pub data PeersError : Type 0 where
  io : Text → PeersError
  csv : Text → PeersError
  invalid_peer : PeersError

-- The map and the file that its path names.
pub record Peers : Type 0 where
  pub map : List Peer
  pub file : Sink

-- `map.contains_key(peer)`, `banned_hosts.contains(peer)`
unfoldable pub contains : List Peer → Peer → Bool
contains [] p = false
contains (q ∷ qs) p = peer_eq q p || contains qs p

pub contains_of_eq :
    (ps : List Peer) (p q : Peer) → peer_eq p q ≡ true → contains ps p ≡ contains ps q
contains_of_eq ps p q h = ap (contains ps) ((peer_eq_iff p q).0 h)

-- `map.insert(peer, ())`
unfoldable pub insert : Peer → List Peer → List Peer
unfolding contains
insert p map = if contains map p then map else map ++ p ∷ []

unfoldable pub on_file : (Sink → Result Text (Unit {0}) × Sink) → Exec Peers PeersError (Unit {0})
on_file call s = let (r, file) = call s.file in (map_err io r, record s { file = file })

unfoldable pub key : Peer → Text
key peer = peer.host ++ b',' ∷ Decimal.to_string peer.port

unfoldable pub remember : Peer → Exec Peers PeersError (Unit {0})
unfolding insert
remember peer s = (ok tt, record s { map = insert peer s.map })

-- `writeln!` writes the text, and then the line's end.
unfoldable pub save : Peer → Exec Peers PeersError (Unit {0})
unfolding remember on_file key
save peer = do
  remember peer
  on_file touch
  on_file (write_all (key peer))
  on_file (write_all (lit "\n"))

unfoldable pub append_peer : Peer → Exec Peers PeersError (Unit {0})
unfolding save contains
append_peer peer s = if contains s.map peer then (ok tt, s) else save peer s

-- A line that ended with a newline loses a carriage return before it.
pub strip_cr : Text → Text
strip_cr [] = []
strip_cr (c ∷ []) = if c == 13 then [] else c ∷ []
strip_cr (c ∷ d ∷ s) = c ∷ strip_cr (d ∷ s)

-- Nothing after the last newline is no line.
last_line : Text → List Text
last_line [] = []
last_line (c ∷ s) = (c ∷ s) ∷ []

-- `BufRead::lines`, over the text between the newlines.
pub lines_of : List Text → List Text
lines_of [] = []
lines_of (s ∷ []) = last_line s
lines_of (s ∷ t ∷ ts) = strip_cr s ∷ lines_of (t ∷ ts)

pub parse_fields : List Text → Option Peer
parse_fields (host ∷ port_str ∷ rest) = elim (parse_u16 port_str) [
  | ok port ↦ some (record { host = trim host; port = port })
  | err e ↦ none
]
parse_fields _ = none

-- One line of the file. `flatten` passes over lines that are not UTF-8.
pub load_line : Text → List Peer → List Peer
unfolding parse_fields insert
load_line line map =
    if is_utf8 line
    then elim (parse_fields (split b',' (trim line))) [ none ↦ map | some peer ↦ insert peer map ]
    else map

pub load_lines : List Text → List Peer → List Peer
load_lines [] map = map
load_lines (line ∷ rest) map = load_lines rest (load_line line map)

-- `none` is a file that cannot be opened.
unfoldable pub load_from_disk : Option Bytes → List Peer
unfolding load_lines load_line lines_of last_line strip_cr
load_from_disk none = []
load_from_disk (some content) = load_lines (lines_of (split b'\n' content)) []
