-- ===== src/Net/Listener/Counter.antt =====
-- The counter of inbound connections while src/net/listener.rs accepts them.
use utx0_node.Base.{ℕ, ◌+◌, ◌%◌, ◌^◌, ◌≡◌, refl, if◌then◌else◌, arith}
use utx0_node.Net.Listener.{
  Listener, Step, accepted, ends_body, begins, returns, Reachable, start, step,
}
use utx0_node.State.Connection.{new, enter, load, drop}

-- The guards that are held: one for each task that has entered, and the loop's own.
abbrev pub guards : Listener → ℕ
guards l = l.inside + (if l.in_body then 1 else 0)

Step-guards :
    {s t : Listener}
    → Step s t
    → load s.counter ≡ guards s % 2 ^ 64
    → load t.counter ≡ guards t % 2 ^ 64
unfolding load enter drop
Step-guards (accepted c n m) h = omega (arith, h)
Step-guards (ends_body c n m) h = omega (arith, h)
Step-guards (begins c b n m) h = ground (arith, h)
Step-guards (returns c b n m) h = ground (arith, h)

-- However the listener's loop and its tasks interleave, the counter is the number of the guards
-- that are held, up to the wrap at 2^64.
pub load-guards : (l : Listener) → Reachable l → load l.counter ≡ guards l % 2 ^ 64
load-guards l start = unfold load new in refl
load-guards l (step r s) = Step-guards s (load-guards _ r)
