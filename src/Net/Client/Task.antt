-- ===== src/Net/Client/Task.antt =====
-- The task that src/net/client.rs spawns for a peer. The proof is in the module below.
pub mod Branches
use utx0_node.Base.{ℕ, Bool, true, false, Option, none, some, Text, Result, ok}
use utx0_node.Config.{Config}
use utx0_node.Errors.{ProtocolError}
use utx0_node.Net.Crates.{NetCrates}
use utx0_node.Net.Dispatch.{Session, run_message_loop}
use utx0_node.Net.Handshake.{Halves, outbound}
use utx0_node.Net.Listener.{with_halves}
use utx0_node.Storage.{ObjectStore}

module _ (c : NetCrates) (S : ObjectStore) (config : Config) where
  -- The message loop and then `oc_for_task.remove(&peer_for_task)`.
  serve : ℕ → Session S → Option (Bool × Session S)
  serve fuel s = elim (run_message_loop c S config fuel s) [
    | none ↦ none
    | some p ↦ some (true, p.1)
  ]

  converse :
      ℕ → Session S → Result ProtocolError (Unit {0}) × Option Halves → Option (Bool × Session S)
  unfolding serve
  converse fuel s (ok _, some h) = serve fuel (with_halves s h)
  converse fuel s _ = some (false, s)

  -- Whether the task removes its entry, and the session when it returns. The connection's halves
  -- are those of `connected`; `none` means that the loop's fuel ran out.
  unfoldable pub outbound_task :
      ℕ → Bool → Result Text Halves → Session S → Option (Bool × Session S)
  unfolding converse
  outbound_task fuel timed_out connected s = converse fuel s (outbound c config timed_out connected)
