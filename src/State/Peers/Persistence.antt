-- ===== src/State/Peers/Persistence.antt =====
-- The peers file of src/state/peers.rs against the map.
use mathlib.Core.List.{append_assoc, append-nil}
use mathlib.Core.Path.{ap₂}
use utx0_node.Base.{
  ℕ, ◌≡◌, refl, ap, sym, ◌∙◌, false, some, Text, Bytes, lit, List, [], ◌∷◌, ◌++◌, ok, ◌==◌,
  Bool-cases, inl, inr, arith, if◌then◌else◌,
}
use utx0_node.Peer.{Peer}
use utx0_node.Peer.Laws.{IsAddress}
use utx0_node.Std.Sink.{write_all, touch}
use utx0_node.Std.Split.{split}
use utx0_node.Std.Split.Laws.{split-append, Lacks}
use utx0_node.State.Peers.Lines.{key-Lacks, load_line-key}
use utx0_node.State.Peers.{
  Peers, append_peer, contains, insert, key, load_from_disk, load_lines, lines_of, last_line,
  strip_cr,
}

-- The lines of these peers, each with its newline.
unfoldable pub render : List Peer → Bytes
render [] = []
render (p ∷ ps) = key p ++ b'\n' ∷ render ps

render-append :
    (ps : List Peer) (p : Peer) → render (ps ++ p ∷ []) ≡ (render ps ++ key p) ++ lit "\n"
unfolding render
render-append [] p = refl
render-append (q ∷ ps) p = rw (render-append ps p) (simp append_assoc)

-- With no fault to come, `append_peer` returns `Ok`, adds the peer to the map if it was not
-- there, and writes its line.
pub append_peer_lem :
    (s : Peers) (p : Peer)
    → s.file.outcomes ≡ []
    → append_peer p s ≡ (
      ok tt,
      (if contains s.map p then s else record {
        map = s.map ++ p ∷ [];
        file = record { content = (s.file.content ++ key p) ++ lit "\n"; outcomes = [] };
      }),
    )
unfolding append_peer touch write_all
append_peer_lem s p calm = ground (arith, append-nil s.file.content)

pub strip_cr-Lacks : (s : Text) → Lacks 13 s → strip_cr s ≡ s
unfolding strip_cr
strip_cr-Lacks [] h = refl
strip_cr-Lacks (c ∷ []) (ne, h) = rw ne
strip_cr-Lacks (c ∷ d ∷ s) (ne, h) = ap (λ t. c ∷ t) (strip_cr-Lacks (d ∷ s) h)

-- Text has at least one part between newlines.
split-cons : (c : ℕ) (s : Text) → (t : Text) × (ts : List Text) × (split c s ≡ t ∷ ts)
unfolding split
split-cons c [] = ([], [], refl)
split-cons c (b ∷ s) =
    let (t, ts, e) = split-cons c s in
    elim (Bool-cases (b == c)) [
      | inl same ↦ ([], split c s, rw same)
      | inr differs ↦ (b ∷ t, ts, rw (e, differs))
    ]

abbrev pub AllAddresses : List Peer → Type 0
AllAddresses [] = Unit
AllAddresses (p ∷ ps) = IsAddress p × AllAddresses ps

unfoldable pub keys : List Peer → List Text
keys [] = []
keys (p ∷ ps) = key p ∷ keys ps

pub lines_of-split :
    (s t : Text) → lines_of (s ∷ split b'\n' t) ≡ strip_cr s ∷ lines_of (split b'\n' t)
unfolding lines_of
lines_of-split s t = let (u, us, e) = split-cons b'\n' t in rw e

lines_of-render : (ps : List Peer) → AllAddresses ps → lines_of (split b'\n' (render ps)) ≡ keys ps
unfolding render keys
lines_of-render [] h = unfold split lines_of last_line in refl
lines_of-render (p ∷ ps) (a, h) =
    ap lines_of (split-append b'\n' (key p) (render ps) (key-Lacks b'\n' p a refl refl))
    ∙ lines_of-split (key p) (render ps)
    ∙ ap₂ ◌∷◌ (strip_cr-Lacks (key p) (key-Lacks 13 p a refl refl)) (lines_of-render ps h)

-- The peers that loading a file with these lines adds to a map.
abbrev pub add_all : List Peer → List Peer → List Peer
add_all [] map = map
add_all (p ∷ ps) map = add_all ps (insert p map)

pub load_lines-keys :
    (ps map : List Peer) → AllAddresses ps → load_lines (keys ps) map ≡ add_all ps map
unfolding load_lines keys
load_lines-keys [] map h = refl
load_lines-keys (p ∷ ps) map (a, h) =
    ap (load_lines (keys ps)) (load_line-key p map a) ∙ load_lines-keys ps (insert p map) h

load_from_disk-render :
    (ps : List Peer) → AllAddresses ps → load_from_disk (some (render ps)) ≡ add_all ps []
unfolding load_from_disk
load_from_disk-render ps h =
    ap (λ l. load_lines l []) (lines_of-render ps h) ∙ load_lines-keys ps [] h

-- No peer of the second list is in the first, or twice in the second.
abbrev pub Fresh : List Peer → List Peer → Type 0
Fresh map [] = Unit
Fresh map (p ∷ ps) = (contains map p ≡ false) × Fresh (map ++ p ∷ []) ps

pub add_all-Fresh : (ps map : List Peer) → Fresh map ps → add_all ps map ≡ map ++ ps
unfolding insert
add_all-Fresh [] map h = sym (append-nil map)
add_all-Fresh (p ∷ ps) map (new, h) =
    rw new (add_all-Fresh ps (map ++ p ∷ []) h ∙ append_assoc map (p ∷ []) ps)

-- Distinct peers with IPv4 hosts, saved one line each, are loaded as they were.
pub load_from_disk-render-Fresh :
    (ps : List Peer) → AllAddresses ps → Fresh [] ps → load_from_disk (some (render ps)) ≡ ps
load_from_disk-render-Fresh ps h f = load_from_disk-render ps h ∙ add_all-Fresh ps [] f

Fresh-append :
    (map ps : List Peer) (p : Peer)
    → Fresh map ps
    → contains (map ++ ps) p ≡ false
    → Fresh map (ps ++ p ∷ [])
Fresh-append map [] p f h = (rw append-nil at h, tt)
Fresh-append map (q ∷ ps) p (new, f) h =
    (new, Fresh-append (map ++ q ∷ []) ps p f (rw append_assoc h))

AllAddresses-append :
    (ps : List Peer) (p : Peer) → AllAddresses ps → IsAddress p → AllAddresses (ps ++ p ∷ [])
AllAddresses-append [] p h a = (a, tt)
AllAddresses-append (q ∷ ps) p (b, h) a = (b, AllAddresses-append ps p h a)

-- The file has the line of every peer in the map, and no more; the map has no peer twice, and
-- every host is an IPv4 address. No fault is to come.
pub record IsSaved (s : Peers) : Type 0 where
  pub saved : s.file.content ≡ render s.map
  pub calm : s.file.outcomes ≡ []
  pub addresses : AllAddresses s.map
  pub distinct : Fresh [] s.map

-- `append_peer` of a peer with an IPv4 host and a u16 port keeps file and map in step, every
-- write being let through.
pub append_peer-IsSaved :
    (s : Peers) (p : Peer) → IsSaved s → IsAddress p → IsSaved (append_peer p s).1
append_peer-IsSaved s p v a =
    rw (append_peer_lem s p v.calm) (elim (Bool-cases (contains s.map p)) [
      | inl old ↦ rw old v
      | inr new ↦ rw new (record {
        saved = ap (λ t. (t ++ key p) ++ lit "\n") v.saved ∙ sym (render-append s.map p);
        calm = refl;
        addresses = AllAddresses-append s.map p v.addresses a;
        distinct = Fresh-append [] s.map p v.distinct new;
      })
    ])

unfoldable pub append_all : List Peer → Peers → Peers
append_all [] s = s
append_all (p ∷ ps) s = append_all ps (append_peer p s).1

append_all-IsSaved :
    (ps : List Peer) (s : Peers) → IsSaved s → AllAddresses ps → IsSaved (append_all ps s)
unfolding append_all
append_all-IsSaved [] s v h = v
append_all-IsSaved (p ∷ ps) s v (a, h) =
    append_all-IsSaved ps (append_peer p s).1 (append_peer-IsSaved s p v a) h

-- After any number of `append_peer` of peers with IPv4 hosts and u16 ports, on a map and a file in step and
-- with every write let through, `load_from_disk` on the file gives the map.
pub load_from_disk-append_all :
    (s : Peers) (ps : List Peer)
    → IsSaved s
    → AllAddresses ps
    → load_from_disk (some (append_all ps s).file.content) ≡ (append_all ps s).map
load_from_disk-append_all s ps v h =
    let w : IsSaved (append_all ps s) = append_all-IsSaved ps s v h in
    ap (λ t. load_from_disk (some t)) w.saved
    ∙ load_from_disk-render-Fresh (append_all ps s).map w.addresses w.distinct
