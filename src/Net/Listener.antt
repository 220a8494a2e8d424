-- ===== src/Net/Listener.antt =====
-- src/net/listener.rs: accepting connections, and what becomes of one. The proofs are in the
-- modules below.
pub mod Counter
pub mod Branches
use utx0_node.Base.{
  ℕ, suc, ◌+◌, Bool, true, false, Option, none, some, List, [], ◌∷◌, Text, Result, ok, err,
}
use utx0_node.Config.{Config}
use utx0_node.Errors.{ProtocolError, from_io}
use utx0_node.Net.Crates.{NetCrates}
use utx0_node.Net.Dispatch.{Session, run_message_loop}
use utx0_node.Net.Handshake.{Halves, inbound}
use utx0_node.State.Connection
use utx0_node.State.Connection.{InboundCounter, enter, drop}
use utx0_node.Storage.{ObjectStore}

-- `start_listening`: the counter; whether the loop's body holds its own guard; the tasks that
-- are spawned and have not begun; and the tasks that have entered.
pub record Listener : Type 0 where
  pub counter : InboundCounter
  pub in_body : Bool
  pub spawned : ℕ
  pub inside : ℕ

abbrev pub listening : Listener
listening = record { counter = Connection.new; in_body = false; spawned = 0; inside = 0 }

-- The loop and its tasks, in any order.
pub data Step : Listener → Listener → Type 0 where
  -- A connection is accepted, and `let _guard = inbound_counter.enter()`.
  accepted :
      (c : InboundCounter) (n m : ℕ)
      → Step
          (record { counter = c; in_body = false; spawned = n; inside = m })
          (record { counter = enter c; in_body = true; spawned = n; inside = m })
  -- `tokio::spawn`, and the end of the body, which drops its guard.
  ends_body :
      (c : InboundCounter) (n m : ℕ)
      → Step
          (record { counter = c; in_body = true; spawned = n; inside = m })
          (record { counter = drop c; in_body = false; spawned = suc n; inside = m })
  -- A task begins: `let _guard = ic.enter()`.
  begins :
      (c : InboundCounter) (b : Bool) (n m : ℕ)
      → Step
          (record { counter = c; in_body = b; spawned = suc n; inside = m })
          (record { counter = enter c; in_body = b; spawned = n; inside = suc m })
  -- A task returns, and drops its guard.
  returns :
      (c : InboundCounter) (b : Bool) (n m : ℕ)
      → Step
          (record { counter = c; in_body = b; spawned = n; inside = suc m })
          (record { counter = drop c; in_body = b; spawned = n; inside = m })

pub data Reachable : Listener → Type 0 where
  start : Reachable listening
  step : {s t : Listener} → Reachable s → Step s t → Reachable t

-- `listener.accept().await?`, with the outcomes of the calls in their order: the number of the
-- connections that are served, and the error with which the loop returns, if it does.
accept_each : List (Result Text (Unit {0})) → ℕ × Option ProtocolError
accept_each [] = (0, none)
accept_each (ok _ ∷ accepts) = let (n, e) = accept_each accepts in (suc n, e)
accept_each (err e ∷ accepts) = (0, some (from_io e))

-- `start_listening`, with the outcome of `TcpListener::bind`.
unfoldable pub start_listening :
    Result Text (Unit {0}) → List (Result Text (Unit {0})) → ℕ × Option ProtocolError
unfolding accept_each
start_listening (ok _) accepts = accept_each accepts
start_listening (err e) accepts = (0, some (from_io e))

module _ {S : ObjectStore} where
  abbrev pub halves : Session S → Halves
  halves s = record { reader = s.reader; writer = s.writer }

  abbrev pub with_halves : Session S → Halves → Session S
  with_halves s h = record s { reader = h.reader; writer = h.writer }

module _ (c : NetCrates) (S : ObjectStore) (config : Config) where
  -- `handle_connection`, with fuel for the rounds of the loop; `none` means that it ran out.
  unfoldable pub handle_connection :
      ℕ → Bool → Session S → Option (Result ProtocolError (Unit {0}) × Session S)
  handle_connection fuel timed_out s =
      let (r, h) = inbound c config timed_out (halves s) in
      let rest = run_message_loop c S config fuel (with_halves s h) in
      elim r [ ok _ ↦ rest | err e ↦ some (err e, with_halves s h) ]
