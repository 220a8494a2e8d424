-- ===== src/Net/Dispatch/Moves/Stored.antt =====
-- What the store holds while the connections of src/net are served at once.
use utx0_node.Base.{
  ℕ, ◌≡◌, sym, subst, true, false, text_eq_refl, ◌⊎◌, Text, Result-cases, inl, inr, arith,
}
use utx0_node.Config.{Config}
use utx0_node.Net.Crates.{NetCrates}
use utx0_node.Net.Dispatch.{Session, store_has, store_put}
use utx0_node.Net.Dispatch.Contents.{IsAddressed, put_either, put-IsAddressed}
use utx0_node.Net.Dispatch.Moves.{Pc, reading, asking, storing, move, advance}
use utx0_node.Net.Dispatch.Moves.Sound.{IsSound}
use utx0_node.Net.Dispatch.Moves.Effects.{Effect, quiet, puts, remembers, move-Moved}
use utx0_node.Net.Dispatch.Moves.Together.{
  Node, Step, moves, joins, Runs, stay, later, started, session, runs, moved, update_holds,
}
use utx0_node.State.Peers.{Peers}
use utx0_node.Storage.{ObjectStore, IsLawful, is_some}

module _ (c : NetCrates) (S : ObjectStore) (config : Config) where
  -- The variables of every connection are sound.
  abbrev pub AllSound : Node S → Type 0
  AllSound n = (i : ℕ) → IsSound c S config (n.conns i).pc

  pub Step-AllSound : {n m : Node S} → AllSound n → Step c S config n m → AllSound m
  unfolding IsSound
  Step-AllSound {n} v (moves i) =
      update_holds (λ k. IsSound c S config k.pc) n.conns i _
        (move-Moved c S config (n.conns i).pc (session n.store n.peers (n.conns i)) (v i)).sound v
  Step-AllSound {n} v (joins i reader writer draws free) =
      update_holds (λ k. IsSound c S config k.pc) n.conns i _ tt v

  pub Runs-AllSound : (n m : Node S) → AllSound n → Runs c S config n m → AllSound m
  Runs-AllSound n m v stay = v
  Runs-AllSound n m v (later r d) = Step-AllSound (Runs-AllSound n _ v r) d

  pub started-AllSound :
      (store : S.State) (peers : Peers) → AllSound (started c S config store peers)
  unfolding IsSound
  started-AllSound store peers i = tt

  module _ (lawful : IsLawful S) where
    open lawful use {contents}

    put_holds :
        (t : S.State) (id raw k : Text)
        → is_some (contents t k) ≡ true
        → is_some (contents (S.put t id raw).1 k) ≡ true
    put_holds t id raw k h = elim (put_either c S config lawful t id raw) [
      | inl kept ↦ ground (arith, kept k)
      | inr now ↦ ground (arith, now k)
    ]

    Effect-IsAddressed :
        {pc : Pc} {s t : Session S}
        → Effect c S config pc s t
        → IsSound c S config pc
        → IsAddressed c S config lawful s.store
        → IsAddressed c S config lawful t.store
    unfolding IsSound
    Effect-IsAddressed (quiet e f) v a = subst (IsAddressed c S config lawful) (sym e) a
    Effect-IsAddressed {pc} {s} (puts id raw at e f) v a =
        let (value, parsed, hashed) = subst (IsSound c S config) at v in
        subst (IsAddressed c S config lawful) (sym e)
          (put-IsAddressed c S config lawful s.store value id raw parsed hashed a)
    Effect-IsAddressed (remembers p ps at e f) v a = subst (IsAddressed c S config lawful) (sym e) a

    Effect-holds :
        {pc : Pc} {s t : Session S}
        → Effect c S config pc s t
        → (k : Text) → is_some (contents s.store k) ≡ true
        → is_some (contents t.store k) ≡ true
    Effect-holds (quiet e f) k h = subst (λ u. is_some (contents u k) ≡ true) (sym e) h
    Effect-holds {pc} {s} (puts id raw at e f) k h =
        subst (λ u. is_some (contents u k) ≡ true) (sym e) (put_holds s.store id raw k h)
    Effect-holds (remembers p ps at e f) k h = subst (λ u. is_some (contents u k) ≡ true) (sym e) h

    Step-IsAddressed :
        {n m : Node S}
        → Step c S config n m
        → AllSound n
        → IsAddressed c S config lawful n.store
        → IsAddressed c S config lawful m.store
    Step-IsAddressed {n} (moves i) v a =
        Effect-IsAddressed
          (move-Moved c S config (n.conns i).pc (session n.store n.peers (n.conns i)) (v i)).effect
          (v i) a
    Step-IsAddressed (joins i reader writer draws free) v a = a

    Step_holds :
        {n m : Node S}
        → Step c S config n m
        → AllSound n
        → (k : Text) → is_some (contents n.store k) ≡ true
        → is_some (contents m.store k) ≡ true
    Step_holds {n} (moves i) v k h =
        Effect-holds
          (move-Moved c S config (n.conns i).pc (session n.store n.peers (n.conns i)) (v i)).effect
          k h
    Step_holds (joins i reader writer draws free) v k h = h

    steps-IsAddressed :
        (n m : Node S)
        → Runs c S config n m
        → AllSound n
        → IsAddressed c S config lawful n.store
        → IsAddressed c S config lawful m.store
    steps-IsAddressed n m stay v a = a
    steps-IsAddressed n m (later r d) v a =
        Step-IsAddressed d (Runs-AllSound n _ v r) (steps-IsAddressed n _ r v a)

    Runs-hold :
        (n m : Node S)
        → Runs c S config n m
        → AllSound n
        → (k : Text) → is_some (contents n.store k) ≡ true
        → is_some (contents m.store k) ≡ true
    Runs-hold n m stay v k h = h
    Runs-hold n m (later r d) v k h = Step_holds d (Runs-AllSound n _ v r) k (Runs-hold n _ r v k h)

    ask_holds :
        (id raw : Text) (s : Session S)
        → (advance c S config (asking id raw, s)).0 ≡ reading
        → is_some (contents (advance c S config (asking id raw, s)).1.store id) ≡ true
    unfolding move store_has
    ask_holds id raw s h = elim (Result-cases (S.has s.store id)) [
      | inr (x, e) ↦ absurd (ground arith)
      | inl (true, e) ↦ ground (arith, lawful.has_reads s.store id true e)
      | inl (false, e) ↦ absurd (ground arith)
    ]

    store_holds :
        (id raw : Text) (s : Session S)
        → (advance c S config (storing id raw, s)).0 ≡ reading
        → is_some (contents (advance c S config (storing id raw, s)).1.store id) ≡ true
    unfolding move store_put
    store_holds id raw s h = elim (Result-cases (S.put s.store id raw).0) [
      | inr (x, e) ↦ absurd (ground arith)
      | inl (old, e) ↦ ground (arith, lawful.put_writes s.store id raw old e id, text_eq_refl id)
    ]

    accepted_holds :
        (pc : Pc) (id raw : Text) (s : Session S)
        → (pc ≡ asking id raw) ⊎ (pc ≡ storing id raw)
        → (advance c S config (pc, s)).0 ≡ reading
        → is_some (contents (advance c S config (pc, s)).1.store id) ≡ true
    accepted_holds pc id raw s (inl at) =
        subst
          (λ q.
            (advance c S config (q, s)).0 ≡ reading
            → is_some (contents (advance c S config (q, s)).1.store id) ≡ true)
          (sym at) (ask_holds id raw s)
    accepted_holds pc id raw s (inr at) =
        subst
          (λ q.
            (advance c S config (q, s)).0 ≡ reading
            → is_some (contents (advance c S config (q, s)).1.store id) ≡ true)
          (sym at) (store_holds id raw s)

    module _ (m n : Node S) (sound : AllSound m) (so_far : Runs c S config m n) where
      -- If the store is lawful and holds every object under the id of its own value, and every
      -- text that a connection is about to store has been checked, then at any later time the
      -- store holds every object under the id of its own value, however the moves of any number
      -- of connections interleave.
      pub Runs-IsAddressed :
          IsAddressed c S config lawful m.store → IsAddressed c S config lawful n.store
      Runs-IsAddressed = steps-IsAddressed m n so_far sound

      -- Of a lawful store no id is lost: an id that it holds it holds at any later time, however
      -- the moves of any number of connections interleave.
      pub Runs_keeps :
          (k : Text) → is_some (contents m.store k) ≡ true → is_some (contents n.store k) ≡ true
      Runs_keeps = Runs-hold m n so_far sound

    -- If the store is lawful and every text that a connection is about to store has been checked: the
    -- id of an object that a connection asks the store about, or puts, and after which it goes on
    -- with its loop, is held at any later time.
    pub Runs-taken :
        (m n : Node S) (i : ℕ) (id raw : Text)
        → AllSound m
        → ((m.conns i).pc ≡ asking id raw) ⊎ ((m.conns i).pc ≡ storing id raw)
        → (moved c S config m i).0 ≡ reading
        → Runs c S config (runs c S config i m) n
        → is_some (contents n.store id) ≡ true
    Runs-taken m n i id raw sound at goes_on r =
        Runs-hold (runs c S config i m) n r (Step-AllSound {n = m} sound (moves i)) id
          (accepted_holds (m.conns i).pc id raw (session m.store m.peers (m.conns i)) at goes_on)
