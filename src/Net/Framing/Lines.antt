-- ===== src/Net/Framing/Lines.antt =====
-- How src/net/framing.rs takes a frame from the stream, and writes one.
use mathlib.Core.List.{append_assoc, append-nil}
use utx0_node.Base.{
  ℕ, zero, suc, ◌+◌, ◌<◌, ◌≡◌, ◌≢◌, refl, ap, sym, ◌∙◌, true, Option, Text, Bytes, lit, [], ◌∷◌,
  ◌++◌, ok, length, length-append, arith,
}
use utx0_node.Message.{Message}
use utx0_node.Net.Crates.{NetCrates}
use utx0_node.Net.Framing.{
  Reader, Cut, cut, at_newline, recv_buffer_limit, line_read, utf8_line, read_frame, after_line,
  frame, write_frame,
}
use utx0_node.Std.Sink.{Sink, write_all, touch}
use utx0_node.Std.Split.Laws.{Lacks}
use utx0_node.Std.Trim.{trim}
use utx0_node.Std.Utf8.{is_utf8}

cut_line :
    (n : ℕ) (line rest : Bytes)
    → Lacks b'\n' line
    → length line < n
    → cut n (line ++ b'\n' ∷ rest)
      ≡ record { stop = at_newline; line = line ++ lit "\n"; rest = rest }
unfolding cut
cut_line zero line rest h small = elim small [ ]
cut_line (suc n) [] rest h small = refl
cut_line (suc n) (b ∷ line) rest (ne, h) small = rw (ne, cut_line n line rest h (omega arith))

cut-append : (n : ℕ) (s : Bytes) → (cut n s).line ++ (cut n s).rest ≡ s
unfolding cut
cut-append zero s = refl
cut-append (suc n) [] = refl
cut-append (suc n) (b ∷ s) = ground (arith, cut-append n s)

length-cut : (n : ℕ) (s : Bytes) → length (cut n s).line + length (cut n s).rest ≡ length s
length-cut n s = sym (length-append (cut n s).line (cut n s).rest) ∙ ap length (cut-append n s)

utf8_line-ok : (line : Bytes) → is_utf8 line ≡ true → utf8_line line ≡ ok line
unfolding utf8_line
utf8_line-ok line h = rw h

module _ (c : NetCrates) where
  -- A line of UTF-8 that is shorter than the limit is taken whole with its newline, and the
  -- stream goes on behind it, whatever became of the line.
  read_frame_line :
      (r : Reader) (line rest : Bytes)
      → r.incoming ≡ line ++ b'\n' ∷ rest
      → Lacks b'\n' line
      → length line < recv_buffer_limit
      → is_utf8 (line ++ lit "\n") ≡ true
      → read_frame c r ≡ (frame c (line ++ lit "\n"), record r { incoming = rest })
  unfolding read_frame
  read_frame_line r line rest arrives h small utf8 =
      ap (λ k. (after_line c (line_read r.failure k), record r { incoming = k.rest }))
        (ap (cut recv_buffer_limit) arrives ∙ cut_line recv_buffer_limit line rest h small)
      ∙ ap (λ t. (after_line c t, record r { incoming = rest }))
          (utf8_line-ok (line ++ lit "\n") utf8)

  frame_nil : (m : Message) → frame c [] ≢ ok m
  unfolding frame trim
  frame_nil m h = cc

  pub after_line-eq-ok :
      (failure : Option Text) (k : Cut) (m : Message)
      → after_line c (line_read failure k) ≡ ok m
      → frame c k.line ≡ ok m
  unfolding after_line line_read
  after_line-eq-ok failure k m h = ground arith

  frame-length : (line : Text) (m : Message) → frame c line ≡ ok m → length line < recv_buffer_limit
  unfolding frame
  frame-length line m h = ground arith

  frame-ne-nil : (line : Text) (m : Message) → frame c line ≡ ok m → 0 < length line
  frame-ne-nil [] m h = absurd (frame_nil m h)
  frame-ne-nil (b ∷ line) m h = omega arith

  -- A message that is read has taken at least one byte from the stream, and fewer than the limit.
  pub read_frame_progress :
      (r : Reader) (m : Message)
      → (read_frame c r).0 ≡ ok m
      → (length (read_frame c r).1.incoming < length r.incoming)
        × (length r.incoming < length (read_frame c r).1.incoming + recv_buffer_limit)
  unfolding read_frame
  read_frame_progress r m h =
      let k = cut recv_buffer_limit r.incoming in
      let f : frame c k.line ≡ ok m = after_line-eq-ok r.failure k m h in
      let whole = length-cut recv_buffer_limit r.incoming in
      let some_bytes = frame-ne-nil k.line m f in
      let few_bytes = frame-length k.line m f in (omega arith, omega arith)

  -- What the derived serialisation does: a message's text is UTF-8, has no raw newline, and is
  -- read back as the message.
  pub record IsSerialised (m : Message) (text : Text) : Type 0 where
    pub serialised : c.message_to_string m ≡ ok text
    pub no_newline : Lacks b'\n' text
    pub utf8 : is_utf8 (text ++ lit "\n") ≡ true
    pub read_back : frame c (text ++ lit "\n") ≡ ok m
    pub short : length text < recv_buffer_limit

  pub write_frame_lem :
      (m : Message) (text : Text) (w : Sink)
      → IsSerialised m text
      → w.outcomes ≡ []
      → write_frame c m w
        ≡ (ok tt, record { content = w.content ++ (text ++ lit "\n"); outcomes = [] })
  unfolding write_frame write_all touch
  write_frame_lem m text w s calm =
      ground (arith, s.serialised, append-nil (w.content ++ (text ++ lit "\n")))

  pub read_frame-IsSerialised :
      (m : Message) (text rest : Bytes) (r : Reader)
      → IsSerialised m text
      → r.incoming ≡ (text ++ lit "\n") ++ rest
      → read_frame c r ≡ (ok m, record r { incoming = rest })
  read_frame-IsSerialised m text rest r s arrives =
      read_frame_line r text rest (arrives ∙ append_assoc text (lit "\n") rest) s.no_newline s.short
        s.utf8
      ∙ ap (λ t. (t, record r { incoming = rest })) s.read_back

  pub write_frame-read_frame :
      (m : Message) (text rest : Bytes) (w : Sink) (r : Reader)
      → IsSerialised m text
      → w.outcomes ≡ []
      → w.content ≡ []
      → r.incoming ≡ (write_frame c m w).1.content ++ rest
      → ((write_frame c m w).0 ≡ ok tt) × (read_frame c r ≡ (ok m, record r { incoming = rest }))
  write_frame-read_frame m text rest w r s calm fresh arrives =
      let written = write_frame_lem m text w s calm in
      (
        ap (λ t. t.0) written,
        read_frame-IsSerialised m text rest r s (
            arrives
            ∙ ap (λ t. t.1.content ++ rest) written
            ∙ ap (λ t. (t ++ (text ++ lit "\n")) ++ rest) fresh),
      )
