-- ===== src/Std/Sink.antt =====
-- What is written to: a file opened for appending, or the sending half of a connection. Each
-- call takes the next outcome, a success where none is left.
use utx0_node.Base.{
  ℕ, zero, suc, Option, none, some, Text, Bytes, List, [], ◌∷◌, ◌++◌, Result, ok, err,
}

-- How a call fails: the bytes that it has written before, and its error.
pub record Failure : Type 0 where
  pub written : ℕ
  pub error : Text

pub record Sink : Type 0 where
  pub content : Bytes
  pub outcomes : List (Option Failure)

take {ℓ} : {A : Type ℓ} → ℕ → List A → List A
take zero l = []
take (suc n) [] = []
take (suc n) (a ∷ l) = a ∷ take n l

-- The write of `bytes`, or of nothing (an open, a flush). One that fails may have written a part.
attempt : Bytes → Bytes → List (Option Failure) → Result Text (Unit {0}) × Sink
unfolding take
attempt bytes content [] = (ok tt, record { content = content ++ bytes; outcomes = [] })
attempt bytes content (none ∷ rest) =
    (ok tt, record { content = content ++ bytes; outcomes = rest })
attempt bytes content (some failure ∷ rest) =
    (err failure.error, record { content = content ++ take failure.written bytes; outcomes = rest })

unfoldable pub write_all : Bytes → Sink → Result Text (Unit {0}) × Sink
unfolding attempt
write_all bytes f = attempt bytes f.content f.outcomes

-- `flush` and `OpenOptions::open`: no bytes, but they can fail.
unfoldable pub touch : Sink → Result Text (Unit {0}) × Sink
unfolding attempt
touch f = attempt [] f.content f.outcomes
