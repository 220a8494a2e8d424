-- ===== src/State/Connection.antt =====
-- src/state/connection.rs: the counter of inbound connections, an atomic usize.
use utx0_node.Base.{ℕ, ◌+◌, ◌-◌, ◌%◌, ◌^◌, Text, lit, ◌++◌}
use utx0_node.Std.Decimal

pub record InboundCounter : Type 0 where
  pub value : ℕ

-- `InboundCounter::new`
unfoldable pub new : InboundCounter
new = record { value = 0 }

-- `fetch_add(1)`, which wraps; the guard that it returns is a call of `drop` to come.
unfoldable pub enter : InboundCounter → InboundCounter
enter counter = record { value = (counter.value + 1) % 2 ^ 64 }

unfoldable pub load : InboundCounter → ℕ
load counter = counter.value

-- `InboundGuard::drop`: `fetch_sub(1)`, which wraps.
unfoldable pub drop : InboundCounter → InboundCounter
drop counter = record { value = (counter.value + (2 ^ 64 - 1)) % 2 ^ 64 }

-- `debug_tuple`, as `{:?}` prints it.
unfoldable pub fmt : InboundCounter → Text
unfolding load
fmt counter = lit "InboundCounter(" ++ (Decimal.to_string (load counter) ++ lit ")")
