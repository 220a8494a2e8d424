-- ===== src/Net/Dispatch/Loop.antt =====
-- The end of the loop of src/net/dispatch.rs.
use utx0_node.Base.{
  ℕ, zero, suc, ◌<◌, ◌≡◌, refl, ap, sym, subst, some, Result-cases, Result, ok, err, inl, inr,
  length, arith,
}
use utx0_node.Config.{Config}
use utx0_node.Errors.{ProtocolError}
use utx0_node.Message.{
  Message, hello, peers, get_peers, get_object, got_object, object, error, unknown,
}
use utx0_node.Net.Crates.{NetCrates}
use utx0_node.Net.Framing.Lines.{read_frame_progress}
use utx0_node.Net.Dispatch.{Session, go_on, close, handle, react, round, receive, run_message_loop}
use utx0_node.Storage.{ObjectStore}

module _ (c : NetCrates) (S : ObjectStore) (config : Config) where
  handle-reader : (m : Message) (s : Session S) → (handle c S config m s).1.reader ≡ s.reader
  unfolding handle
  handle-reader get_peers s = ground arith
  handle-reader (peers ps) s = ground arith
  handle-reader (error name msg) s = ground arith
  handle-reader (hello port user_agent) s = ground arith
  handle-reader (get_object i) s = ground arith
  handle-reader (got_object i) s = ground arith
  handle-reader (object i raw) s = ground arith
  handle-reader unknown s = ground arith

  react_goes_on :
      (r : Result ProtocolError Message) (s : Session S)
      → (react c S config r s).0 ≡ ok go_on
      → (m : Message) × (r ≡ ok m) × ((react c S config r s).1.reader ≡ s.reader)
  unfolding react
  react_goes_on (ok m) s h = (m, refl, handle-reader m s)
  react_goes_on (err e) s h = absurd (ground arith)

  round_progress :
      (s : Session S)
      → (round c S config s).0 ≡ ok go_on
      → length (round c S config s).1.reader.incoming < length s.reader.incoming
  unfolding round
  round_progress s h =
      let (m, read, same) = react_goes_on (receive c S s).0 (receive c S s).1 h in
      let kept = ap (λ r. length r.incoming) same in
      let taken = (read_frame_progress c s.reader m read).0 in
      subst (λ n. n < length s.reader.incoming) (sym kept) taken

  -- With more fuel than bytes that will arrive, the loop returns: every round that goes on takes
  -- at least one byte, and at the end of the stream `read_frame` fails.
  pub run_message_loop_returns :
      (fuel : ℕ) (s : Session S)
      → length s.reader.incoming < fuel
      → (r : Result ProtocolError (Unit {0}) × Session S) × (run_message_loop c S config fuel s
          ≡ some r)
  unfolding run_message_loop
  run_message_loop_returns zero s h = elim h [ ]
  run_message_loop_returns (suc fuel) s h = elim (Result-cases (round c S config s).0) [
    | inl (go_on, e) ↦
        let shorter = round_progress s e in
        let (r, returned) = run_message_loop_returns fuel (round c S config s).1 (omega arith) in
        (r, rw (run_message_loop, e) returned)
    | inl (close, e) ↦ ((ok tt, (round c S config s).1), rw (run_message_loop, e) refl)
    | inr (x, e) ↦ ((err x, (round c S config s).1), rw (run_message_loop, e) refl)
  ]
