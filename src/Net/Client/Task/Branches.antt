-- ===== src/Net/Client/Task/Branches.antt =====
-- The branches of the task that src/net/client.rs spawns.
use utx0_node.Base.{
  ℕ, ◌≡◌, ◌≢◌, refl, ap, sym, ◌∙◌, Bool, true, false, Option, none, some, Text, Result, ok, err,
  ◌⊎◌, inl, inr, Option-cases, arith,
}
use utx0_node.Config.{Config}
use utx0_node.Errors.{ProtocolError}
use utx0_node.Message.{hello}
use utx0_node.Net.Client.Task.{outbound_task, converse, serve}
use utx0_node.Net.Crates.{NetCrates}
use utx0_node.Net.Dispatch.{Session, run_message_loop}
use utx0_node.Net.Framing.{read_frame}
use utx0_node.Net.Handshake.{Halves, outbound}
use utx0_node.Net.Handshake.Greetings.{outbound_reads, outbound_leaves}
use utx0_node.Net.Listener.{with_halves}
use utx0_node.Storage.{ObjectStore}

module _ (c : NetCrates) (S : ObjectStore) (config : Config) where
  serve-eq-some :
      (fuel : ℕ) (s s' : Session S) (removes : Bool)
      → serve c S config fuel s ≡ some (removes, s')
      → (removes ≡ true)
        × (r : Result ProtocolError (Unit {0})) × (run_message_loop c S config fuel s
            ≡ some (r, s'))
  unfolding serve
  serve-eq-some fuel s s' removes h = elim (Option-cases (run_message_loop c S config fuel s)) [
    | inl e ↦ absurd (ground arith)
    | inr (p, e) ↦ (ground arith, p.0, ground arith)
  ]

  -- What a task whose handshake succeeded has done.
  abbrev pub Served : ℕ → Bool → Result Text Halves → Session S → Session S → Type 0
  Served fuel timed_out connected s s' =
      (h : Halves) × (g : Halves) × (port : ℕ) × (user_agent : Text) × (r : Result ProtocolError
        (Unit {0}))
      × (connected ≡ ok h)
      × (timed_out ≡ false)
      × (read_frame c h.reader ≡ (ok (hello port user_agent), g.reader))
      × (run_message_loop c S config fuel (with_halves s g) ≡ some (r, s'))

  outbound_ne_none :
      (timed_out : Bool) (connected : Result Text Halves)
      → outbound c config timed_out connected ≢ (ok tt, none)
  outbound_ne_none timed_out connected e =
      let (h, port, user_agent, at, _, _) = outbound_reads c config timed_out connected none e in
      let (g, there, _) =
        outbound_leaves c config timed_out h none
          (ap (λ k. outbound c config timed_out k) (sym at) ∙ e) in
      absurd (ground arith)

  converse-Served :
      (fuel : ℕ) (timed_out : Bool) (connected : Result Text Halves) (s s' : Session S)
      (removes : Bool) (g : Halves)
      → outbound c config timed_out connected ≡ (ok tt, some g)
      → serve c S config fuel (with_halves s g) ≡ some (removes, s')
      → (removes ≡ true) × Served fuel timed_out connected s s'
  converse-Served fuel timed_out connected s s' removes g e served =
      let (removed, r, ran) = serve-eq-some fuel (with_halves s g) s' removes served in
      let (h, port, user_agent, at, in_time, read) =
        outbound_reads c config timed_out connected (some g) e in
      let (g', there, left) =
        outbound_leaves c config timed_out h (some g)
          (ap (λ k. outbound c config timed_out k) (sym at) ∙ e) in
      (removed, (h, g, port, user_agent, r, at, in_time, ground arith, ran))

  converse_lem :
      (fuel : ℕ) (timed_out : Bool) (connected : Result Text Halves) (s s' : Session S)
      (removes : Bool) (greeted : Result ProtocolError (Unit {0}) × Option Halves)
      → outbound c config timed_out connected ≡ greeted
      → converse c S config fuel s greeted ≡ some (removes, s')
      → ((removes ≡ false) × (s' ≡ s) × (x : ProtocolError) × (greeted.0 ≡ err x))
        ⊎ ((removes ≡ true) × Served fuel timed_out connected s s')
  unfolding converse
  converse_lem fuel timed_out connected s s' removes (ok u, some g) e h =
      inr (converse-Served fuel timed_out connected s s' removes g e h)
  converse_lem fuel timed_out connected s s' removes (ok u, none) e h =
      absurd (outbound_ne_none timed_out connected e)
  converse_lem fuel timed_out connected s s' removes (err x, g) e h =
      inl (ground arith, ground arith, x, refl)

  -- When the task of an outbound connection has returned, either the handshake failed, the task has
  -- left its entry in the map, and nothing was done with the store or the known peers; or it was
  -- connected and read a Hello in time, the message loop ran on what the stream has behind the
  -- Hello, however it ended, the session is the loop's, and the task has removed its entry.
  pub outbound_task_lem :
      (fuel : ℕ) (timed_out : Bool) (connected : Result Text Halves) (s s' : Session S)
      (removes : Bool)
      → outbound_task c S config fuel timed_out connected s ≡ some (removes, s')
      → ((removes ≡ false)
          × (s' ≡ s)
          × (x : ProtocolError) × ((outbound c config timed_out connected).0 ≡ err x))
        ⊎ ((removes ≡ true) × Served fuel timed_out connected s s')
  unfolding outbound_task
  outbound_task_lem fuel timed_out connected s s' removes h =
      converse_lem fuel timed_out connected s s' removes (outbound c config timed_out connected)
        refl h
