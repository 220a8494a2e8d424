-- ===== src/Net/Client/Filling.antt =====
-- A round of the outbound loop of src/net/client.rs that nothing disturbs.
use utx0_node.Base.{
  ℕ, suc, Bool, ◌+◌, ◌-◌, ◌≡◌, ◌≤◌, ◌⊎◌, refl, ap, ◌∙◌, subst, true, false, ◌||◌, none, List, [],
  ◌∷◌, length, ltb, Bool-cases, inl, inr, arith,
}
use utx0_node.Net.Client.{
  Entry, contains_key, insert, running_of, not_connected, candidates, Outbound, outbound, distinct,
  Step, spawns, inserts,
}
use utx0_node.Net.Client.Entries.{clear, contains_key-insert, contains_key_of_eq, clear-insert}
use utx0_node.Net.Client.Limit.{IsChoice, candidates-clear, distinct-candidates}
use utx0_node.Peer.{Peer}
use utx0_node.State.Peers.{contains}

-- The documentation of `choose_multiple`: it gives so many elements, and if there are not enough,
-- all of them.
pub record IsFull (choose : ℕ → List Peer → List Peer) : Type 0 where
  pub enough : (n : ℕ) (ps : List Peer) → n ≤ length ps → length (choose n ps) ≡ n
  pub all :
      (n : ℕ) (ps : List Peer)
      → length ps ≤ n
      → (p : Peer) → contains ps p ≡ true
      → contains (choose n ps) p ≡ true

abbrev task : Peer → Entry
task p = record { peer = p; running = true }

-- The entries after each of the peers is dialled.
dial : List Entry → List Peer → List Entry
dial es [] = es
dial es (p ∷ ps) = dial (insert (task p) es) ps

dial_none : (es : List Entry) → length (dial es []) ≡ length es
unfolding dial
dial_none es = refl

length-insert_new :
    (e : Entry) (es : List Entry)
    → contains_key es e.peer ≡ false
    → length (insert e es) ≡ suc (length es)
unfolding insert contains_key
length-insert_new e [] h = refl
length-insert_new e (f ∷ es) h = ground (arith, length-insert_new e es)

length-dial :
    (es : List Entry) (ps : List Peer)
    → clear es ps ≡ true
    → distinct ps ≡ true
    → length (dial es ps) ≡ length es + length ps
unfolding dial
length-dial es [] h k = omega arith
length-dial es (p ∷ ps) h k =
    let new : contains_key es p ≡ false = ground arith in
    let longer = length-insert_new (task p) es new in
    let rest =
      length-dial (insert (task p) es) ps
        (clear-insert (task p) es ps (ground arith) (ground arith)) (ground arith) in
    omega arith

contains_key-dial :
    (es : List Entry) (ps : List Peer) (q : Peer)
    → contains_key (dial es ps) q ≡ (contains_key es q || contains ps q)
unfolding dial contains
contains_key-dial es [] q = ground arith
contains_key-dial es (p ∷ ps) q =
    ground (arith, contains_key-dial (insert (task p) es) ps q, contains_key-insert (task p) es q)

contains-not_connected :
    (es : List Entry) (ps : List Peer) (q : Peer)
    → contains ps q ≡ true
    → contains_key es q ≡ false
    → contains (not_connected es ps) q ≡ true
unfolding not_connected contains
contains-not_connected es [] q h k = h
contains-not_connected es (p ∷ ps) q h k =
    ground (arith, contains-not_connected es ps q, contains_key_of_eq es p q)

module _ (choose : ℕ → List Peer → List Peer) (max : ℕ) where
  -- The outbound loop dials the next of the peers that it has chosen.
  abbrev pub dials_next : {s t : Outbound} → Step choose max s t → Bool
  dials_next (spawns es p ps d) = true
  dials_next (inserts es e ps d) = true
  dials_next step = false

  -- Such steps only: no round begins, and no task ends.
  pub data Steps : Outbound → Outbound → Type 0 where
    done : (s : Outbound) → Steps s s
    then_more :
        {s t u : Outbound} (e : Step choose max s t) → dials_next e ≡ true → Steps t u → Steps s u

  dial-Steps :
      (es : List Entry) (ps : List Peer) (d : ℕ)
      → (e : ℕ) × Steps (outbound es none ps d) (outbound (dial es ps) none [] e)
  unfolding dial
  dial-Steps es [] d = (d, done _)
  dial-Steps es (p ∷ ps) d =
      let (e, more) = dial-Steps (insert (task p) es) ps (d + running_of p es) in
      (e, then_more (spawns es p ps d) refl (then_more (inserts es (task p) ps d) refl more))

  module _ (choice : IsChoice choose) (full : IsFull choose) where
    dial_fills :
        (es : List Entry) (known : List Peer)
        → distinct known ≡ true
        → length es ≤ max
        → (length (dial es (candidates choose max known es)) ≡ max)
          ⊎ ((p : Peer)
              → contains known p ≡ true
              → contains_key (dial es (candidates choose max known es)) p ≡ true)
    unfolding candidates
    dial_fills es known keys within = elim (Bool-cases (ltb (length es) max)) [
      | inr at_limit ↦ inl (rw at_limit (dial_none es ∙ ground arith))
      | inl room ↦
          let new = not_connected es known in
          let todo = choose (max - length es) new in
          let same : candidates choose max known es ≡ todo = ground arith in
          elim (Bool-cases (ltb (length new) (max - length es))) [
            | inr many ↦
                let chosen = full.enough (max - length es) new (ground arith) in
                let longer =
                  length-dial es todo
                    (subst (λ t. clear es t ≡ true) same
                      (candidates-clear choose choice max es known))
                    (subst (λ t. distinct t ≡ true) same
                      (distinct-candidates choose choice max es known keys)) in
                inl (ap (λ t. length (dial es t)) same ∙ longer ∙ omega arith)
            | inl few ↦ inr (λ p there.
                ap (λ t. contains_key (dial es t) p) same
                ∙ contains_key-dial es todo p
                ∙ ground (
                  arith,
                  contains-not_connected es known p there,
                  full.all (max - length es) new (ground arith) p,
                ))
          ]
    ]

    -- The end of a round that has chosen among these peers.
    pub chosen_fills :
        (es : List Entry) (known : List Peer) (d : ℕ)
        → distinct known ≡ true
        → length es ≤ max
        → (fs : List Entry) × (e : ℕ) × Steps
            (outbound es none (candidates choose max known es) d)
            (outbound fs none [] e)
          × ((length fs ≡ max) ⊎ ((p : Peer) → contains known p ≡ true → contains_key fs p ≡ true))
    chosen_fills es known d keys within =
        let todo = candidates choose max known es in
        let (e, dialled) = dial-Steps es todo d in
        (dial es todo, e, dialled, dial_fills es known keys within)
