-- ===== src/Wal/Operations.antt =====
-- The operations of a log frame: `validateOperations` of src/persistence/wal.ts.
use ether_memories.Prelude.{ℕ, ◌+◌, not, ◌&&◌, Option, none, some, List, [], ◌∷◌, length, ltb, ◌==◌}
use ether_memories.Result.{Result, ok, ◌>>=◌, require, require_that}
use ether_memories.Text.{Text, units}
use ether_memories.Value.{
  Value, null, undefined, bool, number, text, date, array, object, Items, nil, cons,
}
use ether_memories.Durable.{WalOperation}
use ether_memories.Json.{JsonRuntime, canonical_json, decode_canonical_json, items_length}
use ether_memories.Json.Records.{is_record, get_field, has_keys, read_text}
use ether_memories.Wal.{wal_limits, json_bounds}
use ether_memories.Wal.Registry.{ReplayRegistry, operation_type, operation_version}

-- `Array.isArray(value)`
abbrev pub as_array : Value → Option Items
as_array (array xs) = some xs
as_array null = none
as_array undefined = none
as_array (bool b) = none
as_array (number n) = none
as_array (text s) = none
as_array (date t) = none
as_array (object fs) = none

abbrev pub operation_keys : List Text
operation_keys = units "type" ∷ units "version" ∷ units "payload" ∷ []

-- The shape of one operation, its payload being as it was sent.
unfoldable pub read_operation : Value → Result WalOperation
unfolding is_record has_keys get_field read_text operation_type operation_version
read_operation value = require (is_record value) >>= λ fs.
    require_that (has_keys fs operation_keys) >>= λ _.
    require (read_text operation_type (get_field fs (units "type"))) >>= λ op_type.
    require (read_text operation_version (get_field fs (units "version"))) >>= λ version.
    require (is_record (get_field fs (units "payload"))) >>= λ _.
    ok (record { op_type = op_type; version = version; payload = get_field fs (units "payload") })

module _ (json : JsonRuntime) (registry : ReplayRegistry) where
  -- The rounds of the loop over the operations, after `bytes` bytes of payloads.
  unfoldable pub validate_each : ℕ → Items → Result (List WalOperation)
  unfolding read_operation canonical_json decode_canonical_json
  validate_each bytes nil = ok []
  validate_each bytes (cons value rest) = read_operation value >>= λ op.
      canonical_json json (json_bounds wal_limits.payload_bytes) op.payload >>= λ payload.
      require_that (not (ltb wal_limits.aggregate_payload_bytes (bytes + length payload))) >>= λ _.
      decode_canonical_json json (json_bounds wal_limits.payload_bytes) payload >>= λ owned.
      let normalized : WalOperation = record {
        op_type = op.op_type;
        version = op.version;
        payload = owned;
      } in
      registry.validate normalized >>= λ _.
      validate_each (bytes + length payload) rest >>= λ operations. ok (normalized ∷ operations)

  -- `validateOperations(value, count, registry)`
  unfoldable pub validate_operations : Value → ℕ → Result (List WalOperation)
  unfolding validate_each canonical_json decode_canonical_json
  validate_operations value count = require (as_array value) >>= λ items.
      require_that
        (items_length items == count && not (ltb wal_limits.operations (items_length items)))
      >>= λ _. canonical_json json (json_bounds wal_limits.operation_list_bytes) value >>= λ bytes.
          decode_canonical_json json (json_bounds wal_limits.operation_list_bytes) bytes
          >>= λ captured. require (as_array captured) >>= validate_each 0
