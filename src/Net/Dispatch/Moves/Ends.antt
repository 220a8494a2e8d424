-- ===== src/Net/Dispatch/Moves/Ends.antt =====
-- The end of a connection of src/net that is served while others are.
use mathlib.Core.Logic.{ite}
use native.Mathlib.Decide.{ℕ_discrete}
use utx0_node.Base.{
  ℕ, zero, suc, ◌+◌, ◌-◌, ◌≤◌, ◌⊎◌, ◌∙◌, ◌<◌, ◌≡◌, ◌≢◌, refl, sym, ap, subst, true, Result, length,
  inl, inr, arith,
}
use utx0_node.Config.{Config}
use utx0_node.Errors.{ProtocolError}
use utx0_node.Net.Crates.{NetCrates}
use utx0_node.Net.Dispatch.Moves.{absent, reading, returned}
use utx0_node.Net.Dispatch.Moves.Together.{
  Conn, Node, Step, moves, joins, runs, moved, runs-own, session, conn,
}
use utx0_node.Storage.{ObjectStore}
use utx0_node.Net.Dispatch.Moves.Progress.{
  rank, live, live_of, head_of, busy-ne-reading, near, ended, reads, nears, move-Progress,
}

module _ (c : NetCrates) (S : ObjectStore) (config : Config) where
  -- A step of the node, as this connection sees it: nothing, or a move of its own.
  Step-conn :
      {n m : Node S} (i : ℕ)
      → live (n.conns i).pc ≡ true
      → Step c S config n m
      → (m.conns i ≡ n.conns i) ⊎ (m.conns i ≡ conn (moved c S config n i))
  unfolding live
  Step-conn {n} i l (moves j) =
      elim (ℕ_discrete j i)
        as (λ d.
          (ite d (conn (moved c S config n j)) (n.conns i) ≡ n.conns i)
          ⊎ (ite d (conn (moved c S config n j)) (n.conns i) ≡ conn (moved c S config n i))) [
            | yes same ↦ inr (ap (λ h. conn (moved c S config n h)) same)
            | no other ↦ inl refl
          ]
  Step-conn {n} i l (joins j reader writer draws free) =
      elim (ℕ_discrete j i)
        as (λ d.
          (ite d (record { pc = reading; reader = reader; writer = writer; draws = draws })
              (n.conns i)
            ≡ n.conns i)
          ⊎ (ite d (record { pc = reading; reader = reader; writer = writer; draws = draws })
                (n.conns i)
              ≡ conn (moved c S config n i))) [
                | yes same ↦
                    let gone : (n.conns i).pc ≡ absent =
                      subst (λ h. (n.conns h).pc ≡ absent) same free in
                    absurd (ground arith)
                | no other ↦ inl refl
              ]

  module _ (run : ℕ → Node S) (steps : (t : ℕ) → Step c S config (run t) (run (suc t)))
      (i : ℕ) where
    -- Until its next move the connection is as it is.
    waits :
        (w t d : ℕ) (k : Conn)
        → d ≡ w + t
        → run (suc d) ≡ runs c S config i (run d)
        → (run t).conns i ≡ k
        → live k.pc ≡ true
        → (u : ℕ) × (t ≤ u)
          × ((run u).conns i ≡ k)
          × ((run (suc u)).conns i ≡ conn (moved c S config (run u) i))
    waits zero t d k at turn same l =
        let now : run (suc t) ≡ runs c S config i (run t) =
          subst (λ h. run (suc h) ≡ runs c S config i (run h)) (omega arith) turn in
        (t, omega arith, same, ap (λ n. n.conns i) now ∙ runs-own c S config (run t) i)
    waits (suc w) t d k at turn same l =
        elim (Step-conn i (subst (λ h. live h.pc ≡ true) (sym same) l) (steps t)) [
          | inr its ↦ (t, omega arith, same, its)
          | inl kept ↦
              let (u, after, kept', its) = waits w (suc t) d k (omega arith) turn (kept ∙ same) l in
              (u, omega arith, kept', its)
        ]

    module _ (fair : (t : ℕ) → (d : ℕ) × (t ≤ d) × (run (suc d) ≡ runs c S config i (run d))) where
      abbrev Returns : Type 0
      Returns =
          (t : ℕ) × (r : Result ProtocolError (Unit {0})) × (((run t).conns i).pc ≡ returned r)

      ends :
          (bytes ranks t : ℕ)
          → live ((run t).conns i).pc ≡ true
          → length ((run t).conns i).reader.incoming < bytes
          → rank ((run t).conns i).pc < ranks
          → Returns
      ends bytes zero t l h j = absurd (omega arith)
      ends zero (suc ranks) t l h j = absurd (omega arith)
      ends (suc bytes) (suc ranks) t l h j =
          let (d, later, turn) = fair t in
          let (u, _, same, its) = waits (d - t) t d ((run t).conns i) (omega arith) turn refl l in
          let x = moved c S config (run u) i in
          let length_same : length ((run u).conns i).reader.incoming
              ≡ length ((run t).conns i).reader.incoming =
            ap (λ k. length k.reader.incoming) same in
          let rank_same : rank ((run u).conns i).pc ≡ rank ((run t).conns i).pc =
            ap (λ k. rank k.pc) same in
          let then_live : live ((run (suc u)).conns i).pc ≡ live x.0 = ap (λ k. live k.pc) its in
          let then_length : length ((run (suc u)).conns i).reader.incoming
              ≡ length x.1.reader.incoming =
            ap (λ k. length k.reader.incoming) its in
          let then_rank : rank ((run (suc u)).conns i).pc ≡ rank x.0 = ap (λ k. rank k.pc) its in
          elim (move-Progress c S config ((run u).conns i).pc
            (session (run u).store (run u).peers ((run u).conns i))
            (ap (λ k. live k.pc) same ∙ l)) [
              | ended r e ↦ (suc u, r, ap (λ k. k.pc) its ∙ e)
              | reads m short ↦
                  ends bytes (suc (rank ((run (suc u)).conns i).pc)) (suc u) (then_live ∙ m)
                    (omega arith) (omega arith)
              | nears m kept lower ↦
                  let length_kept : length x.1.reader.incoming
                      ≡ length ((run u).conns i).reader.incoming =
                    ap (λ r. length r.incoming) kept in
                  ends (suc bytes) ranks (suc u) (then_live ∙ m) (omega arith) (omega arith)
            ]

      -- A connection that is there, and whose turn to move comes again and again, returns, since the
      -- bytes of its reader come to an end. A peer that never stops sending, or that stays silent, is
      -- no reader.
      pub conn_returns :
          (t : ℕ)
          → ((run t).conns i).pc ≢ absent
          → (u : ℕ) × (r : Result ProtocolError (Unit {0})) × (((run u).conns i).pc ≡ returned r)
      conn_returns t there =
          ends (suc (length ((run t).conns i).reader.incoming)) (suc (rank ((run t).conns i).pc)) t
            (live_of ((run t).conns i).pc there) (omega arith) (omega arith)

    module _
        (fair : (t : ℕ)
          → ((run t).conns i).pc ≢ reading
          → (d : ℕ) × (t ≤ d) × (run (suc d) ≡ runs c S config i (run d))) where
      -- At the loop's head, with nothing read since, or at the end.
      abbrev Again : ℕ → Type 0
      Again t =
          (u : ℕ) × (t ≤ u)
          × (((((run u).conns i).pc ≡ reading)
                × (((run u).conns i).reader ≡ ((run t).conns i).reader))
              ⊎ ((r : Result ProtocolError (Unit {0})) × (((run u).conns i).pc ≡ returned r)))

      again :
          (ranks t : ℕ)
          → live ((run t).conns i).pc ≡ true
          → rank ((run t).conns i).pc < ranks
          → Again t
      again zero t l j = absurd (omega arith)
      again (suc ranks) t l j = elim (head_of ((run t).conns i).pc l) [
        | inl head ↦ (t, omega arith, inl (head, refl))
        | inr (inl (r, at_end)) ↦ (t, omega arith, inr (r, at_end))
        | inr (inr deep) ↦
            let (d, later, turn) = fair t (busy-ne-reading ((run t).conns i).pc deep) in
            let (u, after, same, its) =
              waits (d - t) t d ((run t).conns i) (omega arith) turn refl l in
            let rank_same : rank ((run u).conns i).pc ≡ rank ((run t).conns i).pc =
              ap (λ k. rank k.pc) same in
            let k =
              near c S config ((run u).conns i).pc
                (session (run u).store (run u).peers ((run u).conns i))
                (ap (λ k. live k.pc) same ∙ l) (omega arith) in
            let then_rank : rank ((run (suc u)).conns i).pc ≡ rank (moved c S config (run u) i).0 =
              ap (λ k. rank k.pc) its in
            let unread : ((run (suc u)).conns i).reader ≡ ((run t).conns i).reader =
              ap (λ k. k.reader) its ∙ k.reader ∙ ap (λ k. k.reader) same in
            let lower = k.lower in
            let (v, further, outcome) =
              again ranks (suc u) (ap (λ k. live k.pc) its ∙ k.lives) (omega arith) in
            (
              v,
              omega arith,
              elim outcome [
                | inl (head, kept) ↦ inl (head, kept ∙ unread)
                | inr at_end ↦ inr at_end
              ],
            )
      ]

      -- In every run of the node, without end and however the moves of its connections interleave, and
      -- whatever its peer sends or keeps back: if a connection that does not wait for a frame always
      -- gets its turn to move in the end, then at any time a connection that is there comes to the
      -- head of its loop, where it waits for the next frame, and has read nothing before that; or it
      -- returns.
      pub conn_reads_again :
          (t : ℕ)
          → ((run t).conns i).pc ≢ absent
          → (u : ℕ) × (t ≤ u)
            × (((((run u).conns i).pc ≡ reading)
                  × (((run u).conns i).reader ≡ ((run t).conns i).reader))
                ⊎ ((r : Result ProtocolError (Unit {0})) × (((run u).conns i).pc ≡ returned r)))
      conn_reads_again t there =
          again (suc (rank ((run t).conns i).pc)) t (live_of ((run t).conns i).pc there)
            (omega arith)
