-- ===== src/Transaction/Check/Signatures.antt =====
-- The second loop, against the signatures that it checks.
use utx0_node.Base.{
  ℕ, ◌≡◌, ◌≢◌, sym, ap, ◌∙◌, true, some, length, Bytes, List, [], ◌∷◌, ok, err, >>=-eq-ok,
  ok_or-eq-ok, arith, if◌then◌else◌,
}
use utx0_node.Storage.{ObjectStore}
use utx0_node.Transaction.Types.{Input, Output, Crates, panics, invalid_format, invalid_signature}
use utx0_node.Transaction.Check.{verify_signature, verify_inputs, try_array, or_fail, fail}
use utx0_node.Transaction.Check.Outputs.{reload_output-Resolves}
use utx0_node.Transaction.Spec.{Pointwise, Resolves, IsSigned}

try_array-eq-some :
    (n : ℕ) (bytes array : Bytes)
    → try_array n bytes ≡ some array
    → (array ≡ bytes) × (length bytes ≡ n)
try_array-eq-some n bytes array h = ground arith

module _ (c : Crates) (S : ObjectStore) (message : Bytes) where
  verify_signature-IsSigned :
      (output : Output) (input : Input)
      → verify_signature c S message output input ≡ ok tt
      → IsSigned c message input output
  unfolding verify_signature
  verify_signature-IsSigned output input h =
      let (kb, k₁, h₁) = >>=-eq-ok (or_fail invalid_format (c.hex_decode output.pubkey)) _ h in
      let (ka, k₂, h₂) = >>=-eq-ok (or_fail invalid_format (try_array 32 kb)) _ h₁ in
      let (k, k₃, h₃) = >>=-eq-ok (or_fail invalid_format (c.verifying_key ka)) _ h₂ in
      let (sb, s₁, h₄) = >>=-eq-ok (or_fail invalid_signature (c.hex_decode input.sig)) _ h₃ in
      let (sa, s₂, h₅) = >>=-eq-ok (or_fail invalid_signature (try_array 64 sb)) _ h₄ in
      let (same_key, key_length) = try_array-eq-some 32 kb ka (ok_or-eq-ok _ _ k₂) in
      let (same_sig, sig_length) = try_array-eq-some 64 sb sa (ok_or-eq-ok _ _ s₂) in
      record {
        key_bytes = kb;
        key_text = ok_or-eq-ok _ _ k₁;
        key_length = key_length;
        key = k;
        key_point = ap c.verifying_key (sym same_key) ∙ ok_or-eq-ok _ _ k₃;
        sig_bytes = sb;
        sig_text = ok_or-eq-ok _ _ s₁;
        sig_length = sig_length;
        verified = ap (c.verify_strict k message) (sym same_sig) ∙ accepted k sa h₅;
      }
    where
      accepted :
          (k : c.VerifyingKey) (s : Bytes)
          → (if c.verify_strict k message s then ok tt else fail invalid_signature) ≡ ok tt
          → c.verify_strict k message s ≡ true
      accepted k s h = ground arith

  IsSigned-verify_signature :
      (output : Output) (input : Input)
      → IsSigned c message input output
      → verify_signature c S message output input ≡ ok tt
  unfolding verify_signature
  IsSigned-verify_signature output input s =
      rw (s.key_text, s.sig_text)
        (ground (arith, s.key_length, s.key_point, s.sig_length, s.verified))

  verify_signature-ne-panics :
      (output : Output) (input : Input) → verify_signature c S message output input ≢ err panics
  unfolding verify_signature
  verify_signature-ne-panics output input h = ground arith

  -- With the outputs resolved, the second loop accepts just what is signed, and never panics.
  pub verify_inputs-IsSigned :
      (store : S.State) (inputs : List Input) (spent : List Output)
      → Pointwise (Resolves c S store) inputs spent
      → verify_inputs c S store message inputs ≡ ok tt
      → Pointwise (IsSigned c message) inputs spent
  unfolding verify_inputs
  verify_inputs-IsSigned store [] [] r h = tt
  verify_inputs-IsSigned store (input ∷ inputs) (output ∷ spent) (r, rs) h =
      let h' = rw (reload_output-Resolves c S store input output r) at h in
      let (u, one, rest) = >>=-eq-ok (verify_signature c S message output input) _ h' in
      (
        verify_signature-IsSigned output input one,
        verify_inputs-IsSigned store inputs spent rs rest,
      )
  verify_inputs-IsSigned store [] (output ∷ spent) r h = absurd r
  verify_inputs-IsSigned store (input ∷ inputs) [] r h = absurd r

  pub IsSigned-verify_inputs :
      (store : S.State) (inputs : List Input) (spent : List Output)
      → Pointwise (Resolves c S store) inputs spent
      → Pointwise (IsSigned c message) inputs spent
      → verify_inputs c S store message inputs ≡ ok tt
  unfolding verify_inputs
  IsSigned-verify_inputs store [] [] r s = ground arith
  IsSigned-verify_inputs store (input ∷ inputs) (output ∷ spent) (r, rs) (s, ss) =
      rw (reload_output-Resolves c S store input output r, IsSigned-verify_signature output input s)
        (IsSigned-verify_inputs store inputs spent rs ss)
  IsSigned-verify_inputs store [] (output ∷ spent) r s = absurd r
  IsSigned-verify_inputs store (input ∷ inputs) [] r s = absurd r

  pub verify_inputs-ne-panics :
      (store : S.State) (inputs : List Input) (spent : List Output)
      → Pointwise (Resolves c S store) inputs spent
      → verify_inputs c S store message inputs ≢ err panics
  unfolding verify_inputs
  verify_inputs-ne-panics store [] [] r h = cc
  verify_inputs-ne-panics store (input ∷ inputs) (output ∷ spent) (r, rs) h = ground (
    arith,
    rw (reload_output-Resolves c S store input output r) at h,
    verify_signature-ne-panics output input,
    verify_inputs-ne-panics store inputs spent rs,
  )
  verify_inputs-ne-panics store [] (output ∷ spent) r h = absurd r
  verify_inputs-ne-panics store (input ∷ inputs) [] r h = absurd r
