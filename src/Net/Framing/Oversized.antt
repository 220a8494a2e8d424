-- ===== src/Net/Framing/Oversized.antt =====
-- What src/net/framing.rs does with a line that does not end within the limit.
use utx0_node.Base.{
  ◌≡◌, refl, ap, sym, ◌∙◌, true, Option, Text, Bytes, [], ◌∷◌, ◌++◌, err, length, arith,
}
use utx0_node.Errors.{oversized_frame}
use utx0_node.Net.Crates.{NetCrates}
use utx0_node.Net.Framing.{
  Reader, cut, at_limit, recv_buffer_limit, line_read, utf8_line, read_frame, after_line, frame,
}
use utx0_node.Std.Split.Laws.{Lacks}
use utx0_node.Std.Utf8.{is_utf8}

cut_whole :
    (line rest : Bytes)
    → Lacks b'\n' line
    → cut (length line) (line ++ rest) ≡ record { stop = at_limit; line = line; rest = rest }
unfolding cut
cut_whole [] rest h = refl
cut_whole (b ∷ line) rest (ne, h) = rw (ne, cut_whole line rest h)

module _ (c : NetCrates) where
  frame_oversized :
      (line : Bytes) → length line ≡ recv_buffer_limit → frame c line ≡ err oversized_frame
  unfolding frame
  frame_oversized line h = ground arith

  taken_oversized :
      (failure : Option Text) (line rest : Bytes)
      → length line ≡ recv_buffer_limit
      → is_utf8 line ≡ true
      → after_line c (line_read failure (record { stop = at_limit; line = line; rest = rest }))
        ≡ err oversized_frame
  unfolding after_line line_read utf8_line
  taken_oversized failure line rest full utf8 = rw utf8 (frame_oversized line full)

  -- When the first 512 KiB that arrive are UTF-8 and have no newline, the frame is refused as
  -- oversized, whatever follows and whatever they say; the stream goes on behind them.
  pub read_frame_oversized :
      (r : Reader) (line rest : Bytes)
      → r.incoming ≡ line ++ rest
      → length line ≡ recv_buffer_limit
      → Lacks b'\n' line
      → is_utf8 line ≡ true
      → read_frame c r ≡ (err oversized_frame, record r { incoming = rest })
  unfolding read_frame
  read_frame_oversized r line rest arrives full h utf8 =
      ap (λ k. (after_line c (line_read r.failure k), record r { incoming = k.rest }))
        (ap (cut recv_buffer_limit) arrives
          ∙ ap (λ n. cut n (line ++ rest)) (sym full)
          ∙ cut_whole line rest h)
      ∙ ap (λ t. (t, record r { incoming = rest })) (taken_oversized r.failure line rest full utf8)
