-- ===== src/Net/Handshake/Greetings.antt =====
-- What a handshake of src/protocol/handshake.rs reads and writes.
use mathlib.Core.List.{append-nil}
use utx0_node.Base.{
  Bool, true, false, ◌≡◌, refl, ◌∙◌, ap, sym, Option, some, Text, lit, [], ◌++◌, Result, ok, err,
  Result-cases, inl, inr, ℕ, arith,
}
use utx0_node.Config.{Config}
use utx0_node.Message.{hello, mk_hello, mk_getpeers}
use utx0_node.Net.Crates.{NetCrates}
use utx0_node.Net.Framing.{Reader, read_frame, write_frame}
use utx0_node.Net.Framing.Lines.{IsSerialised, write_frame_lem, read_frame-IsSerialised}
use utx0_node.Net.Handshake.{
  Halves, inbound, outbound, write, greet, our_hello, read_timed, accept, accept_reply,
}

module _ (c : NetCrates) (config : Config) where
  -- An inbound handshake succeeds only when the first frame, read in time, is a Hello; and it
  -- takes nothing else from the stream.
  pub inbound_reads :
      (timed_out : Bool) (h h' : Halves)
      → inbound c config timed_out h ≡ (ok tt, h')
      → (port : ℕ) × (user_agent : Text) × (timed_out ≡ false)
        × (read_frame c h.reader ≡ (ok (hello port user_agent), h'.reader))
  unfolding inbound read_timed accept write
  inbound_reads true h h' e = absurd (ground arith)
  inbound_reads false h h' e = elim (Result-cases (read_frame c h.reader).0) [
    | inr (x, r) ↦ absurd (ground arith)
    | inl (hello port user_agent, r) ↦ (port, user_agent, refl, ground arith)
    | inl (other, r) ↦ absurd (ground arith)
  ]

  -- An outbound handshake succeeds only on a connection on which a Hello is read in time.
  pub outbound_reads :
      (timed_out : Bool) (connected : Result Text Halves) (h' : Option Halves)
      → outbound c config timed_out connected ≡ (ok tt, h')
      → (h : Halves) × (port : ℕ) × (user_agent : Text) × (connected ≡ ok h)
        × (timed_out ≡ false)
        × ((read_frame c h.reader).0 ≡ ok (hello port user_agent))
  unfolding outbound greet read_timed accept_reply write
  outbound_reads timed_out (err x) h' e = absurd (ground arith)
  outbound_reads true (ok h) h' e = absurd (ground arith)
  outbound_reads false (ok h) h' e = elim (Result-cases (read_frame c h.reader).0) [
    | inr (x, r) ↦ absurd (ground arith)
    | inl (hello port user_agent, r) ↦ (h, port, user_agent, refl, refl, r)
    | inl (other, r) ↦ absurd (ground arith)
  ]

  -- A handshake that succeeds has read one frame, and gives the halves.
  pub outbound_leaves :
      (timed_out : Bool) (h : Halves) (h' : Option Halves)
      → outbound c config timed_out (ok h) ≡ (ok tt, h')
      → (g : Halves) × (h' ≡ some g) × (g.reader ≡ (read_frame c h.reader).1)
  unfolding outbound greet read_timed accept_reply write
  outbound_leaves true h h' e = absurd (ground arith)
  outbound_leaves false h h' e = elim (Result-cases (read_frame c h.reader).0) [
    | inr (x, r) ↦ absurd (ground arith)
    | inl (hello port user_agent, r) ↦
        ((greet c config false h).1, sym (ap (λ p. p.1) e), ground arith)
    | inl (other, r) ↦ absurd (ground arith)
  ]

-- A connection on which nothing was written yet, and whose writes succeed.
abbrev pub fresh : Reader → Halves
fresh r = record { reader = r; writer = record { content = []; outcomes = [] } }

-- A connection on which a Hello and a GetPeers were written, and `rest` is still to be read.
abbrev pub greeted : Reader → Text → Text → Text → Halves
greeted r my_hello get_peers rest = record {
  reader = record r { incoming = rest };
  writer = record { content = (my_hello ++ lit "\n") ++ (get_peers ++ lit "\n"); outcomes = [] };
}

module _ (c : NetCrates) (config : Config) {mine gp : Text}
    (my_hello : IsSerialised c (mk_hello config.port config.user_agent) mine)
    (my_get : IsSerialised c mk_getpeers gp) where
  first_write :
      write_frame c
        (mk_hello config.port config.user_agent)
        (record { content = []; outcomes = [] })
      ≡ (ok tt, record { content = mine ++ lit "\n"; outcomes = [] })
  first_write =
      write_frame_lem c (mk_hello config.port config.user_agent) mine
        (record { content = []; outcomes = [] }) my_hello refl

  second_write :
      write_frame c mk_getpeers (record { content = mine ++ lit "\n"; outcomes = [] })
      ≡ (ok tt, record { content = (mine ++ lit "\n") ++ (gp ++ lit "\n"); outcomes = [] })
  second_write =
      write_frame_lem c mk_getpeers gp (record { content = mine ++ lit "\n"; outcomes = [] }) my_get
        refl

  module _ (r : Reader) {port : ℕ} {user_agent theirs : Text}
      (their_hello : IsSerialised c (mk_hello port user_agent) theirs) (rest : Text)
      (arrives : r.incoming ≡ (theirs ++ lit "\n") ++ rest) where
    inbound_lem : inbound c config false (fresh r) ≡ (ok tt, greeted r mine gp rest)
    unfolding inbound read_timed accept write our_hello
    inbound_lem = ground (
      arith,
      read_frame-IsSerialised c (mk_hello port user_agent) theirs rest r their_hello arrives,
      first_write,
      second_write,
    )

    greet_lem : greet c config false (fresh r) ≡ (ok tt, greeted r mine gp rest)
    unfolding greet read_timed accept_reply write our_hello
    greet_lem = ground (
      arith,
      read_frame-IsSerialised c (mk_hello port user_agent) theirs rest r their_hello arrives,
      first_write,
      second_write,
    )

  -- Whatever a dialling node reads, it has written its Hello first.
  greet_first :
      (r : Reader)
      → (more : Text) × ((greet c config false (fresh r)).1.writer.content
          ≡ (mine ++ lit "\n") ++ more)
  unfolding greet read_timed accept_reply write our_hello
  greet_first r = elim (Result-cases (read_frame c r).0) [
    | inr (x, e) ↦ ([], ground (arith, append-nil (mine ++ lit "\n"), first_write))
    | inl (hello port user_agent, e) ↦ (gp ++ lit "\n", ground (arith, first_write, second_write))
    | inl (other, e) ↦ ([], ground (arith, append-nil (mine ++ lit "\n"), first_write))
  ]

-- Two nodes that speak to each other: what the listening one reads is what the dialling one
-- writes, and the other way round. If both Hellos and the GetPeers are serialised, no write fails
-- and no delay passes, then both handshakes succeed, each node has written a Hello and a GetPeers,
-- and the other's GetPeers is what it will read next.
pub handshakes_meet :
    (c : NetCrates) (dialler listener : Config) {hello_d hello_l gp : Text} (rd rl : Reader)
    → IsSerialised c (mk_hello dialler.port dialler.user_agent) hello_d
    → IsSerialised c (mk_hello listener.port listener.user_agent) hello_l
    → IsSerialised c mk_getpeers gp
    → rl.incoming ≡ (greet c dialler false (fresh rd)).1.writer.content
    → rd.incoming ≡ (inbound c listener false (fresh rl)).1.writer.content
    → (outbound c dialler false (ok (fresh rd))
        ≡ (ok tt, some (greeted rd hello_d gp (gp ++ lit "\n"))))
      × (inbound c listener false (fresh rl) ≡ (ok tt, greeted rl hello_l gp (gp ++ lit "\n")))
unfolding outbound
handshakes_meet c dialler listener rd rl hd hl g at_l at_d =
    let (more, begins) = greet_first c dialler hd g rd in
    let welcomed = inbound_lem c listener hl g rl hd more (at_l ∙ begins) in
    let dialled = greet_lem c dialler hd g rd hl _ (at_d ∙ ap (λ t. t.1.writer.content) welcomed) in
    (
      ap (λ t. (t.0, some t.1)) dialled,
      inbound_lem c listener hl g rl hd _ (at_l ∙ ap (λ t. t.1.writer.content) dialled),
    )
