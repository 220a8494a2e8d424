-- ===== src/Net/Listener/Branches.antt =====
-- The branches of `handle_connection` of src/net/listener.rs.
use utx0_node.Base.{
  ℕ, ◌≡◌, ap, Bool, false, some, Text, Result, ok, err, ◌⊎◌, inl, inr, Result-cases, arith,
}
use utx0_node.Config.{Config}
use utx0_node.Errors.{ProtocolError}
use utx0_node.Message.{hello}
use utx0_node.Net.Crates.{NetCrates}
use utx0_node.Net.Dispatch.{Session, run_message_loop}
use utx0_node.Net.Framing.{read_frame}
use utx0_node.Net.Handshake.{Halves, inbound}
use utx0_node.Net.Handshake.Greetings.{inbound_reads}
use utx0_node.Net.Listener.{halves, with_halves, handle_connection}
use utx0_node.Storage.{ObjectStore}

module _ (c : NetCrates) (S : ObjectStore) (config : Config) where
  -- When `handle_connection` has returned, either the handshake failed, its error is what is
  -- returned, and the store and the known peers are as they were; or a Hello was read in time, and
  -- the message loop ran on what the stream has behind the Hello, with its result and its session.
  pub handle_connection_lem :
      (fuel : ℕ) (timed_out : Bool) (s s' : Session S) (r : Result ProtocolError (Unit {0}))
      → handle_connection c S config fuel timed_out s ≡ some (r, s')
      → ((x : ProtocolError) × ((inbound c config timed_out (halves s)).0 ≡ err x)
          × (r ≡ err x)
          × (s'.store ≡ s.store)
          × (s'.peers ≡ s.peers))
        ⊎ ((port : ℕ) × (user_agent : Text) × (g : Halves) × (timed_out ≡ false)
            × (read_frame c s.reader ≡ (ok (hello port user_agent), g.reader))
            × (run_message_loop c S config fuel (with_halves s g) ≡ some (r, s')))
  unfolding handle_connection
  handle_connection_lem fuel timed_out s s' r h =
      let g = (inbound c config timed_out (halves s)).1 in
      elim (Result-cases (inbound c config timed_out (halves s)).0) [
        | inr (x, failed) ↦ inl (x, failed, ground arith, ground arith, ground arith)
        | inl (u, e) ↦
            let (port, user_agent, in_time, read) =
              inbound_reads c config timed_out (halves s) g (ap (λ k. (k, g)) e) in
            inr (port, user_agent, g, in_time, read, ground arith)
      ]
