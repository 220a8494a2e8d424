-- ===== src/Net/Dispatch/Closing.antt =====
-- How the loop of src/net/dispatch.rs returns without an error.
use utx0_node.Base.{
  ℕ, zero, suc, ◌≡◌, refl, ap, subst, some, Text, Result, ok, err, Result-cases, inl, inr, arith,
}
use utx0_node.Config.{Config}
use utx0_node.Errors.{
  ProtocolError, invalid_format, invalid_handshake, io, connection_closed, oversized_frame, storage,
}
use utx0_node.Errors.Report.{from_error}
use utx0_node.Message.{Message, peers, get_peers, get_object, got_object, object, mk_error}
use utx0_node.Net.Crates.{NetCrates}
use utx0_node.Net.Framing.{write_frame}
use utx0_node.Net.Dispatch.{
  Session, Control, go_on, close, send, mismatch, handle, report, react, round, receive,
  run_message_loop,
}
use utx0_node.Net.Dispatch.Received.{
  Received, refused, unsent, mismatched, known, put, put_fails, receive_object-Received,
}
use utx0_node.Std.Sink.{Sink}
use utx0_node.Storage.{ObjectStore}

module _ (c : NetCrates) (S : ObjectStore) (config : Config) where
  -- An error message is the last thing that was written.
  pub record SaysWhy (after : Sink) : Type 0 where
    pub name : Text
    pub msg : Text
    pub before : Sink
    pub written : write_frame c (mk_error name msg) before ≡ (ok tt, after)

  Received-SaysWhy :
      {id raw : Text} {s : Session S} {r : Result ProtocolError Control × Session S}
      → Received c S config id raw s r
      → r.0 ≡ ok close
      → SaysWhy r.1.writer
  unfolding send mismatch
  Received-SaysWhy (refused e) h = absurd (ground arith)
  Received-SaysWhy (unsent computed e f) h = absurd (ground arith)
  Received-SaysWhy {id} {raw} {s} (mismatched computed f) h = record {
    name = _;
    msg = _;
    before = s.writer;
    written = ap (λ r. (r, (write_frame c (mismatch c S config id computed) s.writer).1)) f;
  }
  Received-SaysWhy (known its e) h = absurd (ground arith)
  Received-SaysWhy (put its e old f) h = absurd (ground arith)
  Received-SaysWhy (put_fails its e x) h = absurd (ground arith)

  handle-SaysWhy :
      (m : Message) (s : Session S)
      → (handle c S config m s).0 ≡ ok close
      → SaysWhy (handle c S config m s).1.writer
  unfolding handle
  handle-SaysWhy (object id raw) s h =
      Received-SaysWhy (receive_object-Received c S config id raw s) h
  handle-SaysWhy get_peers s h = absurd (ground arith)
  handle-SaysWhy (peers ps) s h = absurd (ground arith)
  handle-SaysWhy (get_object id) s h = absurd (ground arith)
  handle-SaysWhy (got_object id) s h = absurd (ground arith)
  handle-SaysWhy m s h = absurd (ground arith)

  from_error-mk_error :
      (e : ProtocolError) → (name : Text) × (msg : Text) × (from_error e ≡ mk_error name msg)
  unfolding from_error
  from_error-mk_error invalid_format = (_, _, refl)
  from_error-mk_error invalid_handshake = (_, _, refl)
  from_error-mk_error (io e) = (_, _, refl)
  from_error-mk_error connection_closed = (_, _, refl)
  from_error-mk_error oversized_frame = (_, _, refl)
  from_error-mk_error (storage e) = (_, _, refl)

  report-SaysWhy :
      (e : ProtocolError) (s : Session S)
      → (report c S config e s).0 ≡ ok close
      → SaysWhy (report c S config e s).1.writer
  unfolding report send
  report-SaysWhy e s h =
      let (name, msg, same) = from_error-mk_error e in
      record { name = name; msg = msg; before = s.writer; written = ground arith }

  react-SaysWhy :
      (r : Result ProtocolError Message) (s : Session S)
      → (react c S config r s).0 ≡ ok close
      → SaysWhy (react c S config r s).1.writer
  unfolding react
  react-SaysWhy (ok m) s h = handle-SaysWhy m s h
  react-SaysWhy (err invalid_format) s h = report-SaysWhy invalid_format s h
  react-SaysWhy (err oversized_frame) s h = report-SaysWhy oversized_frame s h
  react-SaysWhy (err invalid_handshake) s h = absurd (ground arith)
  react-SaysWhy (err connection_closed) s h = absurd (ground arith)
  react-SaysWhy (err (io e)) s h = absurd (ground arith)
  react-SaysWhy (err (storage e)) s h = absurd (ground arith)

  round-SaysWhy :
      (s : Session S) → (round c S config s).0 ≡ ok close → SaysWhy (round c S config s).1.writer
  unfolding round
  round-SaysWhy s h = react-SaysWhy (receive c S s).0 (receive c S s).1 h

  -- When the loop returns `Ok`, an error message is the last thing that it wrote, and that write
  -- succeeded.
  pub run_message_loop-SaysWhy :
      (fuel : ℕ) (s s' : Session S)
      → run_message_loop c S config fuel s ≡ some (ok tt, s')
      → SaysWhy s'.writer
  unfolding run_message_loop
  run_message_loop-SaysWhy zero s s' h = absurd (ground arith)
  run_message_loop-SaysWhy (suc fuel) s s' h = elim (Result-cases (round c S config s).0) [
    | inl (go_on, e) ↦ run_message_loop-SaysWhy fuel (round c S config s).1 s' (ground arith)
    | inl (close, e) ↦ subst SaysWhy (ground arith) (round-SaysWhy s e)
    | inr (x, e) ↦ absurd (ground arith)
  ]
