-- ===== src/Exec.antt =====
-- Calls that change a shared state and may fail: `?` returns the error with the state as it is.
use utx0_node.Base.{Result, ok, err}

abbrev pub Exec {ℓ} : Type 0 → Type 0 → Type ℓ → Type ℓ
Exec S E A = S → Result E A × S

abbrev pub resume {ℓ κ} :
    {S E : Type 0} {A : Type ℓ} {B : Type κ} → (A → Exec S E B) → Result E A × S → Result E B × S
resume f (ok a, s) = f a s
resume f (err e, s) = (err e, s)

infixl 5 ◌>>=◌ ◌>>◌
abbrev pub ◌>>=◌ {ℓ κ} :
    {S E : Type 0} {A : Type ℓ} {B : Type κ} → Exec S E A → (A → Exec S E B) → Exec S E B
◌>>=◌ m f s = resume f (m s)

abbrev pub ◌>>◌ {ℓ} : {S E : Type 0} {B : Type ℓ} → Exec S E (Unit {0}) → Exec S E B → Exec S E B
m >> n = m >>= λ _. n

abbrev pub pure {ℓ} : {S E : Type 0} {A : Type ℓ} → A → Exec S E A
pure a s = (ok a, s)

-- A call that leaves the state alone.
abbrev pub lift {ℓ} : {S E : Type 0} {A : Type ℓ} → Result E A → Exec S E A
lift r s = (r, s)
