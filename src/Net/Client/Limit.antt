-- ===== src/Net/Client/Limit.antt =====
-- The outbound loop of src/net/client.rs, and the limit of the configuration.
use utx0_node.Base.{
  ℕ, ◌+◌, ◌-◌, ◌≡◌, ◌≤◌, refl, ◌∙◌, true, false, Option, none, some, List, [], ◌∷◌, length, ltb,
  if◌then◌else◌, Bool-cases, inl, inr, arith,
}
use utx0_node.Net.Client.{
  Entry, retain_running, not_connected, candidates, Outbound, outbound, distinct, Step, begins,
  spawns, inserts, fails, leaves, fails_early, leaves_early, fails_late, leaves_late, prunes,
  Reachable, start, step,
}
use utx0_node.Net.Client.Entries.{
  clear, held_clear, Shrinks, retain-Shrinks, remove-Shrinks, fail_keys, fail_size,
  running_of_missing, length-insert, clear-insert, clear-Shrinks, held_clear-Shrinks, clear_of,
  not_connected-clear, not_connected-distinct,
}
use utx0_node.Peer.{Peer}
use utx0_node.State.Peers.{contains}

-- The documentation of `choose_multiple`: at most so many elements, each one of those given and
-- none of them twice.
pub record IsChoice (choose : ℕ → List Peer → List Peer) : Type 0 where
  pub few : (n : ℕ) (ps : List Peer) → length (choose n ps) ≤ n
  pub within :
      (n : ℕ) (ps : List Peer) (p : Peer) → contains (choose n ps) p ≡ true → contains ps p ≡ true
  pub once : (n : ℕ) (ps : List Peer) → distinct ps ≡ true → distinct (choose n ps) ≡ true

abbrev pub held_count : Option Entry → ℕ
held_count none = 0
held_count (some e) = 1

-- The running tasks: those of the entries, the one whose handle is not in the map yet, and those
-- whose handle is in the map no more.
abbrev pub running_entries : List Entry → ℕ
running_entries [] = 0
running_entries (e ∷ es) = (if e.running then 1 else 0) + running_entries es

abbrev pub running_held : Option Entry → ℕ
running_held none = 0
running_held (some e) = if e.running then 1 else 0

abbrev pub running : Outbound → ℕ
running s = running_entries s.entries + (running_held s.held + s.detached)

running_entries_le : (es : List Entry) → running_entries es ≤ length es
running_entries_le [] = omega arith
running_entries_le (e ∷ es) = ground (arith, running_entries_le es)

running_held_le : (h : Option Entry) → running_held h ≤ held_count h
running_held_le none = omega arith
running_held_le (some e) = ground arith

module _ (choose : ℕ → List Peer → List Peer) (choice : IsChoice choose) (max : ℕ) where
  -- The peers that are still to be dialled have no entry, none is listed twice, and with the
  -- entries and the spawned task they are within the limit. No running task lost its entry.
  record IsSafe (s : Outbound) : Type 0 where
    todo_clear : clear s.entries s.todo ≡ true
    spawned_clear : held_clear s.entries s.todo s.held ≡ true
    once : distinct s.todo ≡ true
    attached : s.detached ≡ 0
    bound : length s.entries + (held_count s.held + length s.todo) ≤ max

  shrink :
      {es fs : List Entry} (h : Option Entry) (ps : List Peer) (d : ℕ)
      → Shrinks es fs
      → IsSafe (outbound es h ps d)
      → IsSafe (outbound fs h ps d)
  shrink h ps d s v = record {
    todo_clear = clear-Shrinks ps s v.todo_clear;
    spawned_clear = held_clear-Shrinks ps h s v.spawned_clear;
    once = v.once;
    attached = v.attached;
    bound = omega (arith, s.size, v.bound);
  }

  pub candidates-clear :
      (es : List Entry) (known : List Peer) → clear es (candidates choose max known es) ≡ true
  unfolding candidates
  candidates-clear es known = elim (Bool-cases (ltb (length es) max)) [
    | inr full ↦ rw full refl
    | inl room ↦ rw room (
        clear_of es (choose (max - length es) (not_connected es known)) (λ p there.
          not_connected-clear es known p
            (choice.within (max - length es) (not_connected es known) p there)))
  ]

  pub distinct-candidates :
      (es : List Entry) (known : List Peer)
      → distinct known ≡ true
      → distinct (candidates choose max known es) ≡ true
  unfolding candidates
  distinct-candidates es known h = ground (
    arith,
    choice.once (max - length es) (not_connected es known),
    not_connected-distinct es known h,
  )

  length-candidates :
      (es : List Entry) (known : List Peer)
      → length es ≤ max
      → length es + length (candidates choose max known es) ≤ max
  unfolding candidates
  length-candidates es known h =
      ground (arith, choice.few (max - length es) (not_connected es known))

  Step-IsSafe : {s t : Outbound} → Step choose max s t → IsSafe s → IsSafe t
  Step-IsSafe (begins es d known keys) v = record {
    todo_clear = candidates-clear (retain_running es) known;
    spawned_clear = refl;
    once = distinct-candidates (retain_running es) known keys;
    attached = v.attached;
    bound = omega (
      arith,
      length-candidates (retain_running es) known
          (omega (arith, v.bound, (retain-Shrinks es).size)),
    );
  }
  Step-IsSafe (spawns es p ps d) v = record {
    todo_clear = ground (arith, v.todo_clear);
    spawned_clear = ground (arith, v.todo_clear, v.once);
    once = ground (arith, v.once);
    attached = v.attached;
    bound = omega (arith, v.bound);
  }
  Step-IsSafe (inserts es e ps d) v = record {
    todo_clear = clear-insert e es ps v.todo_clear (ground (arith, v.spawned_clear));
    spawned_clear = refl;
    once = v.once;
    attached = ground (arith, v.attached, v.spawned_clear, running_of_missing e.peer es);
    bound = omega (arith, v.bound, length-insert e es);
  }
  Step-IsSafe (fails es fs p h ps d) v =
      shrink h ps d
        (record {
          keys = λ q there. fail_keys es fs p true false q ∙ there;
          size = omega (
            arith,
            fail_size es fs (record { peer = p; running = true })
                (record { peer = p; running = false }),
          );
        })
        v
  Step-IsSafe (leaves es p h ps d its) v = shrink h ps d (remove-Shrinks p es) v
  Step-IsSafe (fails_early es p ps d) v = record {
    todo_clear = v.todo_clear;
    spawned_clear = v.spawned_clear;
    once = v.once;
    attached = v.attached;
    bound = v.bound;
  }
  Step-IsSafe (leaves_early es p ps d) v =
      let w = shrink (some (record { peer = p; running = true })) ps d (remove-Shrinks p es) v in
      record {
        todo_clear = w.todo_clear;
        spawned_clear = w.spawned_clear;
        once = v.once;
        attached = ground (arith, v.attached, v.spawned_clear, running_of_missing p es);
        bound = w.bound;
      }
  Step-IsSafe (fails_late es h ps d) v = absurd (ground (arith, v.attached))
  Step-IsSafe (leaves_late es p h ps d) v = absurd (ground (arith, v.attached))
  Step-IsSafe (prunes es h ps d) v = shrink h ps d (retain-Shrinks es) v

  Reachable-IsSafe : (s : Outbound) → Reachable choose max s → IsSafe s
  Reachable-IsSafe s start = record {
    todo_clear = refl;
    spawned_clear = refl;
    once = refl;
    attached = refl;
    bound = omega arith;
  }
  Reachable-IsSafe s (step r e) = Step-IsSafe e (Reachable-IsSafe _ r)

  -- If the choice is as documented, then however the loop, its tasks and the housekeeping
  -- interleave, there are never more running outbound tasks, nor more entries in their map, than
  -- the limit, and every running task but the one just spawned has its handle in the map. A task
  -- that has removed its entry has nothing left to run, and is not running.
  pub outbound_limit :
      (s : Outbound)
      → Reachable choose max s
      → (running s ≤ max) × (length s.entries ≤ max) × (s.detached ≡ 0)
  outbound_limit s r =
      let v = Reachable-IsSafe s r in
      (
        omega (arith, v.bound, v.attached, running_entries_le s.entries, running_held_le s.held),
        omega (arith, v.bound),
        v.attached,
      )
