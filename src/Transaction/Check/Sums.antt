-- ===== src/Transaction/Check/Sums.antt =====
-- The two sums of the conservation law, against the totals.
use utx0_node.Base.{ℕ, ◌+◌, ◌^◌, ◌<◌, ◌≡◌, some, List, [], ◌∷◌, ok, >>=-eq-ok, arith}
use utx0_node.Storage.{ObjectStore}
use utx0_node.Transaction.Types.{Input, Output, Crates, invalid_conservation}
use utx0_node.Transaction.Check.{sum_values, sum_inputs, find_output, checked_add, or_fail}
use utx0_node.Transaction.Check.Outputs.{find_output-eq-ok, find_output-Resolves}
use utx0_node.Transaction.Spec.{total, Pointwise, Resolves}

pub sum_values-eq-some :
    (acc : ℕ) (outputs : List Output) (s : ℕ)
    → sum_values acc outputs ≡ some s
    → s ≡ acc + total outputs
unfolding sum_values
sum_values-eq-some acc [] s h = ground arith
sum_values-eq-some acc (o ∷ outputs) s h =
    ground (arith, sum_values-eq-some (acc + o.value) outputs s)

pub sum_values_fits :
    (acc : ℕ) (outputs : List Output)
    → acc + total outputs < 2 ^ 128
    → sum_values acc outputs ≡ some (acc + total outputs)
unfolding sum_values
sum_values_fits acc [] h = ground arith
sum_values_fits acc (o ∷ outputs) h = ground (arith, sum_values_fits (acc + o.value) outputs)

checked_add-eq-ok :
    (a b s : ℕ)
    → or_fail invalid_conservation (checked_add a b) ≡ ok s
    → (s ≡ a + b) × (s < 2 ^ 128)
checked_add-eq-ok a b s h = ground arith

module _ (c : Crates) (S : ObjectStore) where
  pub sum_inputs-eq-ok :
      (store : S.State) (acc : ℕ) (inputs : List Input) (s : ℕ)
      → acc < 2 ^ 128
      → sum_inputs c S store acc inputs ≡ ok s
      → (spent : List Output) × Pointwise (Resolves c S store) inputs spent
        × (s ≡ acc + total spent)
        × (s < 2 ^ 128)
  unfolding sum_inputs
  sum_inputs-eq-ok store acc [] s small h = ([], tt, ground arith, ground arith)
  sum_inputs-eq-ok store acc (input ∷ inputs) s small h =
      let (output, found, h₁) = >>=-eq-ok (find_output c S store input) _ h in
      let (acc', added, h₂) =
        >>=-eq-ok (or_fail invalid_conservation (checked_add acc output.value)) _ h₁ in
      let (spent, resolved, sum, fits) =
        sum_inputs-eq-ok store acc' inputs s (checked_add-eq-ok acc output.value acc' added).1 h₂ in
      (
        output ∷ spent,
        (find_output-eq-ok c S store input output found, resolved),
        omega (arith, (checked_add-eq-ok acc output.value acc' added).0),
        fits,
      )

  pub sum_inputs_fits :
      (store : S.State) (acc : ℕ) (inputs : List Input) (spent : List Output)
      → Pointwise (Resolves c S store) inputs spent
      → acc + total spent < 2 ^ 128
      → sum_inputs c S store acc inputs ≡ ok (acc + total spent)
  unfolding sum_inputs
  sum_inputs_fits store acc [] [] r h = ground arith
  sum_inputs_fits store acc (input ∷ inputs) (output ∷ spent) (r, rs) h =
      rw (find_output-Resolves c S store input output r)
        (ground (arith, sum_inputs_fits store (acc + output.value) inputs spent rs))
  sum_inputs_fits store acc [] (output ∷ spent) r h = absurd r
  sum_inputs_fits store acc (input ∷ inputs) [] r h = absurd r
