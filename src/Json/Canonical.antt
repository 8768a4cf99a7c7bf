-- ===== src/Json/Canonical.antt =====
-- Canonical JSON of src/persistence/walJson.ts is written back with the bytes that it was read from.
use ether_memories.Prelude.{
  ◌+◌, ◌≤◌, ◌≡◌, refl, ◌||◌, true, false, Option, none, some, length, ltb, ◌==◌, arith,
}
use ether_memories.Result.{ok}
use ether_memories.Result.Ensures.{Ensures, ensured, Ensures-of, Ensures-if, >>=-Ensures}
use ether_memories.Text.{Text, same, same_iff, same_refl}
use ether_memories.Value.{Value}
use ether_memories.Bytes.{Bytes}
use ether_memories.Bytes.Utf8.{utf8_decode}
use ether_memories.Json.{
  JsonRuntime, JsonBounds, canonical_json, parse_canonical, decode_text, decode_canonical_json,
  wal_corruption,
}
use ether_memories.Json.Nesting.{nests_within}

module _ (json : JsonRuntime) (bounds : JsonBounds) (bytes : Bytes) where
  abbrev WritesBack : Value → Type 0
  WritesBack value = canonical_json json bounds value ≡ ok bytes

  parse_canonical-WritesBack :
      (o : Option Value) → Ensures WritesBack (parse_canonical json bounds bytes o)
  unfolding parse_canonical
  parse_canonical-WritesBack none = tt
  parse_canonical-WritesBack (some value) =
      >>=-Ensures WritesBack (canonical_json json bounds value) _ λ canonical c.
        Ensures-if WritesBack (same bytes canonical) (ok value) wal_corruption
          (λ e. rw ((same_iff bytes canonical).0 e) c) (λ _. tt)

  decode_text-WritesBack : (o : Option Text) → Ensures WritesBack (decode_text json bounds bytes o)
  unfolding decode_text
  decode_text-WritesBack none = tt
  decode_text-WritesBack (some s) =
      Ensures-if WritesBack (nests_within (bounds.depth + 1) s)
        (parse_canonical json bounds bytes (json.parse s)) wal_corruption
        (λ _. parse_canonical-WritesBack (json.parse s)) (λ _. tt)

  decode_canonical_json-WritesBack :
      Ensures
        (λ value. WritesBack value × (length bytes ≤ bounds.bytes))
        (decode_canonical_json json bounds bytes)
  unfolding decode_canonical_json
  decode_canonical_json-WritesBack =
      let P : Value → Type 0 = λ value. WritesBack value × (length bytes ≤ bounds.bytes) in
      let decoded = decode_text json bounds bytes (utf8_decode bytes) in
      Ensures-if P (length bytes == 0 || ltb bounds.bytes (length bytes)) wal_corruption decoded
        (λ _. tt)
        λ short. Ensures-of P decoded λ value e. (
          ensured WritesBack decoded value (decode_text-WritesBack (utf8_decode bytes)) e,
          ground arith,
        )

  -- A value that `decodeCanonicalJson` returns has the bytes that it was decoded from as its canonical
  -- JSON under the same bounds, so that no two byte sequences decode to one value, and they are within
  -- the bound.
  pub canonical_json-decode_canonical_json :
      (value : Value)
      → decode_canonical_json json bounds bytes ≡ ok value
      → (canonical_json json bounds value ≡ ok bytes) × (length bytes ≤ bounds.bytes)
  canonical_json-decode_canonical_json value h =
      ensured (λ value. WritesBack value × (length bytes ≤ bounds.bytes))
        (decode_canonical_json json bounds bytes) value decode_canonical_json-WritesBack h

  -- Bytes that are the canonical JSON of the value that their text parses to are decoded.
  pub decode_canonical_json_of :
      (s : Text) (value : Value)
      → (length bytes == 0 || ltb bounds.bytes (length bytes)) ≡ false
      → utf8_decode bytes ≡ some s
      → nests_within (bounds.depth + 1) s ≡ true
      → json.parse s ≡ some value
      → canonical_json json bounds value ≡ ok bytes
      → decode_canonical_json json bounds bytes ≡ ok value
  unfolding decode_canonical_json decode_text parse_canonical
  decode_canonical_json_of s value short d n p c = rw (short, d, n, p, c, same_refl bytes) refl
