-- ===== src/Tests/Transactions.antt =====
-- A coinbase transaction, one that spends its output, and one that spends too much.
use utx0_node.Base.{
  ℕ, zero, suc, ◌≡◌, ◌≢◌, ◌<◌, ◌^◌, refl, subst, true, false, Bool, Option, none, some, Text, Bytes,
  lit, List, [], ◌∷◌, ◌++◌, ok, err, Result, text_eq, text_leb, length, get_elem?, arith,
}
use utx0_node.Canonical.{to_canonical_json}
use utx0_node.Json.{array, object, nil, cons, Map, end, entry, map_get, get}
use utx0_node.Std.Decimal
use utx0_node.Std.Trim.{trim}
use utx0_node.Tests.Fixtures.{Json, json, memory, field}
use utx0_node.Transaction.Blank.{blank_sigs}
use utx0_node.Transaction.Blank.Laws.{with_sigs, blank_sigs-with_sigs}
use utx0_node.Transaction.Check.{validate_transaction}
use utx0_node.Transaction.Check.Accepts.{validate_transaction_iff}
use utx0_node.Transaction.Check.Conservation.{IsBounded, IsDeficit, conservation_error}
use utx0_node.Transaction.Check.Faults.{validate_transaction-ne-panics}
use utx0_node.Transaction.Spec.{IsAccepted}
use utx0_node.Transaction.Types.{Output, Transaction, invalid_conservation, fails, panics, Crates}

abbrev key_text : Text
key_text = lit "0123456789abcdef0123456789abcdef"

abbrev sig_text : Text
sig_text = key_text ++ key_text

abbrev paying : ℕ → List Output
paying value = record { pubkey = key_text; value = value } ∷ []

abbrev coinbase : Transaction
coinbase = record { kind = lit "transaction"; height = some 1; inputs = []; outputs = paying 50 }

-- Spends the first output of the transaction under the id `p`.
abbrev spending : ℕ → Transaction
spending value = record {
  kind = lit "transaction";
  height = none;
  inputs = record { outpoint = record { txid = lit "p"; index = 0 }; sig = sig_text } ∷ [];
  outputs = paying value;
}

abbrev transaction_of : Option Json → Option Json → Transaction
transaction_of (some h) more = coinbase
transaction_of none (some m) = spending 60
transaction_of none none = spending 30

pub from_value : Json → Result Text Transaction
unfolding map_get
from_value (object m) = ok (transaction_of (map_get (lit "height") m) (map_get (lit "more") m))
from_value _ = err (lit "invalid type")

abbrev not_empty : Bytes → Bool
not_empty [] = false
not_empty (b ∷ s) = true

abbrev crates : Crates
crates = record {
  json = json;
  from_value = from_value;
  hex_decode = some;
  VerifyingKey = Bytes;
  verifying_key = some;
  verify_strict = λ key message sig. not_empty message;
}

abbrev store : List (Text × Bytes)
store = (lit "p", lit "{\"object\":{\"height\":1}}") ∷ []

abbrev spend_of : Map ℕ → Json
spend_of rest = object (
    entry (lit "object")
      (object
        (entry (lit "inputs") (array (cons (object (field (lit "sig") sig_text end)) nil)) rest))
      end)

abbrev spend_json : Json
spend_json = spend_of end

abbrev deficit_json : Json
deficit_json = spend_of (field (lit "more") (lit "yes") end)

accepts : validate_transaction crates memory spend_json store ≡ ok tt
unfolding validate_transaction from_value to_canonical_json blank_sigs get trim text_eq text_leb
    Decimal.to_string
accepts = refl

refuses : validate_transaction crates memory deficit_json store ≡ err (fails invalid_conservation)
unfolding validate_transaction from_value get trim text_eq
refuses = refl

validate_transaction_iff_example : IsAccepted crates memory spend_json store
validate_transaction_iff_example =
    (validate_transaction_iff crates memory spend_json store).0 accepts

validate_transaction-ne-panics_example :
    validate_transaction crates memory spend_json store ≢ err panics
validate_transaction-ne-panics_example =
    validate_transaction-ne-panics crates memory store spend_json

blank_sigs-with_sigs_example :
    blank_sigs (with_sigs (λ i. lit "00") spend_json) ≡ blank_sigs spend_json
blank_sigs-with_sigs_example = blank_sigs-with_sigs (λ i. lit "00") spend_json

transaction_of-value :
    (height more : Option Json) (i : ℕ) (o : Output)
    → get_elem? (transaction_of height more).outputs i ≡ some o
    → o.value < 2 ^ 64
transaction_of-value (some h) more zero o e = ground arith
transaction_of-value (some h) more (suc i) o e = absurd (ground arith)
transaction_of-value none (some m) zero o e = ground arith
transaction_of-value none (some m) (suc i) o e = absurd (ground arith)
transaction_of-value none none zero o e = ground arith
transaction_of-value none none (suc i) o e = absurd (ground arith)

transaction_of-lengths :
    (height more : Option Json)
    → (length (transaction_of height more).inputs < 2 ^ 64)
      × (length (transaction_of height more).outputs < 2 ^ 64)
transaction_of-lengths (some h) more = (omega arith, omega arith)
transaction_of-lengths none (some m) = (omega arith, omega arith)
transaction_of-lengths none none = (omega arith, omega arith)

from_value-eq-ok :
    (v : Json) (tx : Transaction)
    → from_value v ≡ ok tx
    → (height : Option Json) × (more : Option Json) × (transaction_of height more ≡ tx)
unfolding from_value
from_value-eq-ok (object m) tx e = (map_get (lit "height") m, map_get (lit "more") m, ground arith)
from_value-eq-ok _ tx e = absurd (ground arith)

crates-IsBounded : IsBounded crates
crates-IsBounded = record {
  output_value = λ v tx i o e named.
      let (height, more, made) = from_value-eq-ok v tx e in
      transaction_of-value height more i o (rw made named);
  input_count = λ v tx e.
      let (height, more, made) = from_value-eq-ok v tx e in
      subst (λ t. length t.inputs < 2 ^ 64) made (transaction_of-lengths height more).0;
  output_count = λ v tx e.
      let (height, more, made) = from_value-eq-ok v tx e in
      subst (λ t. length t.outputs < 2 ^ 64) made (transaction_of-lengths height more).1;
}

conservation_error_example :
    (inner : Json) × (tx : Transaction) × (get (lit "object") deficit_json ≡ some inner)
    × (from_value inner ≡ ok tx)
    × IsDeficit crates memory store tx
conservation_error_example =
    conservation_error crates memory store crates-IsBounded deficit_json refuses
