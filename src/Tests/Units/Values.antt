-- ===== src/Tests/Units/Values.antt =====
-- The unit tests of src/util/canonical.rs, with a parser of the texts that they use.
use utx0_node.Base.{
  ◌≡◌, refl, true, false, none, some, Text, Bytes, lit, List, [], ◌∷◌, ◌++◌, Result, ok, ◌>>=◌,
  text_eq, text_leb, if◌then◌else◌,
}
use utx0_node.Canonical.{to_canonical_json, compute_object_id, ensure_object_field}
use utx0_node.Json.{null, bool, number, string, array, object, nil, cons, end, entry, SerdeJson}
use utx0_node.Std.Decimal
use utx0_node.Std.Trim.{trim}
use utx0_node.Storage.Redb
use utx0_node.Storage.Redb.{Crate, redb_store}
use utx0_node.Tests.Escaped.{escaped, write_escaped, write_string}
use utx0_node.Tests.Units.Wire.{contains}
use utx0_node.Tests.Fixtures.{Json, json, parse_in}
use utx0_node.Tests.Objects.{crate}

abbrev a_and_b : Json
a_and_b = object (entry (lit "a") (number 1) (entry (lit "b") (number 2) end))

abbrev b_and_a : Json
b_and_a = object (entry (lit "b") (number 2) (entry (lit "a") (number 1) end))

abbrev mixed : Json
mixed = object (
    entry (lit "z") (array (cons (number 3) (cons (number 1) nil))) (
      entry (lit "a") (object (entry (lit "y") (bool false) (entry (lit "x") (bool true) end)))
        end))

abbrev known_texts : List (Text × Json)
known_texts =
    (lit "\"foo\"", string (lit "foo"))
    ∷ (lit "123", number 123)
    ∷ (lit "true", bool true)
    ∷ (lit "null", null)
    ∷ (
      lit "[ 2 , 1, [3 ,4] ]",
      array (
          cons (number 2)
            (cons (number 1) (cons (array (cons (number 3) (cons (number 4) nil))) nil))),
    )
    ∷ (lit "{ \"b\":2, \"a\":1 }", b_and_a)
    ∷ (
      lit "{\n          \"z\": [ 3,1 ],\n          \"a\": { \"y\": false, \"x\": true }\n        }",
      mixed,
    )
    ∷ []

abbrev parser : SerdeJson
parser = record json { from_slice = λ text. parse_in known_texts (trim text) }

-- The helper of the tests.
canon : (sj : SerdeJson) → Text → Result sj.Error Bytes
canon sj s = do v ← sj.from_slice s; to_canonical_json sj v

abbrev PrimitiveString : Type 0
PrimitiveString = canon parser (lit "\"foo\"") ≡ ok (lit "\"foo\"")

PrimitiveString-passes : PrimitiveString
unfolding canon to_canonical_json trim text_eq
PrimitiveString-passes = refl

abbrev PrimitiveNumberBoolNull : Type 0
PrimitiveNumberBoolNull =
    (canon parser (lit "123") ≡ ok (lit "123"))
    × (canon parser (lit "true") ≡ ok (lit "true"))
    × (canon parser (lit "null") ≡ ok (lit "null"))

PrimitiveNumberBoolNull-passes : PrimitiveNumberBoolNull
unfolding canon to_canonical_json trim text_eq Decimal.to_string
PrimitiveNumberBoolNull-passes = (refl, refl, refl)

abbrev SimpleArray : Type 0
SimpleArray = canon parser (lit "[ 2 , 1, [3 ,4] ]") ≡ ok (lit "[2,1,[3,4]]")

SimpleArray-passes : SimpleArray
unfolding canon to_canonical_json trim text_eq Decimal.to_string
SimpleArray-passes = refl

abbrev SimpleObject : Type 0
SimpleObject = canon parser (lit "{ \"b\":2, \"a\":1 }") ≡ ok (lit "{\"a\":1,\"b\":2}")

SimpleObject-passes : SimpleObject
unfolding canon to_canonical_json trim text_eq text_leb Decimal.to_string
SimpleObject-passes = refl

abbrev NestedMixed : Type 0
NestedMixed =
    canon parser (
      lit
        "\n        {\n          \"z\": [ 3,1 ],\n          \"a\": { \"y\": false, \"x\": true }\n        }\n        ")
    ≡ ok (lit "{\"a\":{\"x\":true,\"y\":false},\"z\":[3,1]}")

NestedMixed-passes : NestedMixed
unfolding canon to_canonical_json trim text_eq text_leb Decimal.to_string
NestedMixed-passes = refl

abbrev with_escapes : Text
with_escapes = lit "{ \"s\": \"hello\\nworld\", \"t\":\"\\u1234\" }"

-- The character U+1234, as its bytes.
abbrev seen : Text
seen = 0xe1 ∷ 0x88 ∷ 0xb4 ∷ []

abbrev EscapesInString : SerdeJson → Type 0
EscapesInString sj =
    (out : Bytes) × (canon sj with_escapes ≡ ok out)
    × (contains out (lit "\"hello\\nworld\"") ≡ true)
    × (contains out seen ≡ true)
    × ((rest : Bytes) × (out ≡ lit "{\"s" ++ rest))

-- With a writer that escapes the end of a line.
EscapesInString-passes : EscapesInString (
    escaped (
      parse_in (
        (
          with_escapes,
          object
              (entry (lit "s") (string (lit "hello\nworld")) (entry (lit "t") (string seen) end)),
        )
        ∷ [])))
unfolding canon to_canonical_json contains write_escaped write_string text_eq text_leb
EscapesInString-passes = (_, refl, refl, refl, (_, refl))

abbrev TestCanonicalOrdering : Type 0
TestCanonicalOrdering =
    (to_canonical_json json b_and_a ≡ to_canonical_json json a_and_b)
    × (to_canonical_json json b_and_a ≡ ok (lit "{\"a\":1,\"b\":2}"))

TestCanonicalOrdering-passes : TestCanonicalOrdering
unfolding to_canonical_json text_leb Decimal.to_string
TestCanonicalOrdering-passes = (refl, refl)

-- On a new database: the calls in their order, with the states between them.
abbrev TestStoreAndRetrieveBytesRoundtrip : Crate → Type 0
TestStoreAndRetrieveBytesRoundtrip crate =
    let canonical = lit "{\"a\":1,\"b\":[2,3]}" in
    let new_val = lit "{\"a\":42}" in
    let id = lit "dummy_id" in
    let S = redb_store crate in
    (db : crate.Database) × (Redb.new crate (lit "temporary") ≡ ok db)
    × (let put1 = S.put db id canonical in
        let put2 = S.put put1.1 id new_val in
        (put1.0 ≡ ok none)
        × (S.has put1.1 id ≡ ok true)
        × (S.get put1.1 id ≡ ok (some canonical))
        × (put2.0 ≡ ok (some canonical))
        × (S.get put2.1 id ≡ ok (some new_val)))

TestStoreAndRetrieveBytesRoundtrip-passes : TestStoreAndRetrieveBytesRoundtrip crate
unfolding Redb.new Redb.put Redb.has Redb.get text_eq
TestStoreAndRetrieveBytesRoundtrip-passes = (none, refl, (refl, refl, refl, refl, refl))

abbrev genesis : Json
genesis = object (
    entry (lit "object")
      (object (
        entry (lit "height") (number 0) (
          entry (lit "outputs")
            (array (
              cons
                (object (
                  entry (lit "pubkey")
                    (string
                      (lit "85acb336a150b16a9c6c8c27a4e9c479d9f99060a7945df0bb1b53365e98969b"))
                    (entry (lit "value") (number 50000000000000) end)))
                nil))
            (entry (lit "type") (string (lit "transaction")) end))))
      (entry (lit "type") (string (lit "object")) end))

abbrev genesis_id : Text
genesis_id = lit "5fdb2f396f0007512f4d5dfd2391acd7cbc7c3ba905106507a000426f417e06e"

-- With the hash of the crates.
ComputeObjectCorrectHash1 : (Bytes → Text) → Type 0
ComputeObjectCorrectHash1 hex_digest = compute_object_id json hex_digest genesis ≡ ok genesis_id

abbrev spend : Json
spend = object (
    entry (lit "object")
      (object (
        entry (lit "inputs")
          (array (
            cons
              (object (
                entry (lit "outpoint")
                  (object (
                    entry (lit "txid")
                      (string
                        (lit "d46d09138f0251edc32e28f1a744cb0b7286850e4c9c777d7e3c6e459b289347"))
                      (entry (lit "index") (number 0) end)))
                  (entry (lit "sig")
                    (string
                      (lit "6204bbdbacc86b1f4357cfe45e6374b963f5455f26df0a86338310df33e50c15d7f04"))
                    end)))
              nil))
          (entry (lit "type") (string (lit "transaction")) end)))
      (entry (lit "type") (string (lit "object")) end))

abbrev spend_id : Text
spend_id = lit "824d9b6d4f97eef50beb44a9af1830ba836954b40e2c4bbfd2e65b5417ffc58c"

ComputeObjectCorrectHash2 : (Bytes → Text) → Type 0
ComputeObjectCorrectHash2 hex_digest = compute_object_id json hex_digest spend ≡ ok spend_id

-- The texts that are to have these hashes: those of the whole values, their keys in order.
abbrev hashes : Bytes → Text
hashes bytes =
    if text_eq bytes (
      lit
        "{\"object\":{\"height\":0,\"outputs\":[{\"pubkey\":\"85acb336a150b16a9c6c8c27a4e9c479d9f99060a7945df0bb1b53365e98969b\",\"value\":50000000000000}],\"type\":\"transaction\"},\"type\":\"object\"}")
    then genesis_id
    else if text_eq bytes (
        lit
          "{\"object\":{\"inputs\":[{\"outpoint\":{\"index\":0,\"txid\":\"d46d09138f0251edc32e28f1a744cb0b7286850e4c9c777d7e3c6e459b289347\"},\"sig\":\"6204bbdbacc86b1f4357cfe45e6374b963f5455f26df0a86338310df33e50c15d7f04\"}],\"type\":\"transaction\"},\"type\":\"object\"}")
    then spend_id
    else []

correct_hashes : ComputeObjectCorrectHash1 hashes × ComputeObjectCorrectHash2 hashes
unfolding ComputeObjectCorrectHash1 ComputeObjectCorrectHash2 compute_object_id ensure_object_field
    to_canonical_json text_eq text_leb Decimal.to_string
correct_hashes = (refl, refl)
