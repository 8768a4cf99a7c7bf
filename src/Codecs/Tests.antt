-- ===== src/Codecs/Tests.antt =====
-- The theorems about src/persistence/codecs.ts and src/persistence/walJson.ts at concrete heads,
-- checkpoints and limits.
use ether_memories.Prelude.{◌≤◌, ◌≡◌, refl, some, [], ◌∷◌, length}
use ether_memories.Result.{ok}
use ether_memories.Text.{Text, units, same}
use ether_memories.Value.{Value, null, undefined, object, end, field}
use ether_memories.Bytes.{Bytes, hex}
use ether_memories.Bytes.Utf8.{utf8_decode, utf8_encode}
use ether_memories.Durable.{CommittedTip}
use ether_memories.Json.{JsonRuntime, JsonBounds, canonical_json, decode_canonical_json}
use ether_memories.Json.Canonical.{canonical_json-decode_canonical_json}
use ether_memories.Json.Records.{count_value}
use ether_memories.Codecs.{
  PersistedStoreHead, PersistenceLimits, Limit, limit_of, persistence_maximum, persistence_limits,
  head_format, version_one, wal_format, digest_algorithm, store_schema_version,
}
use ether_memories.Codecs.Head.{head_value, encode_store_head, decode_store_head}
use ether_memories.Codecs.Head.RoundTrip.{encode_store_head-decode_store_head}
use ether_memories.Codecs.Checkpoint.{
  CheckpointMetadata, Checkpoint, header_value, header_for, checkpoint_of, encode_checkpoint,
  verify_checkpoint,
}
use ether_memories.Codecs.Checkpoint.RoundTrip.{IsFaithful, verify_checkpoint-encode_checkpoint}
use ether_memories.Codecs.Limits.{persistence_limits_tightened}

abbrev zeros : Text
zeros = units "0000000000000000000000000000000000000000000000000000000000000000"

abbrev first_tip : CommittedTip
first_tip = record { epoch_id = units "e1"; tx_id = units "7"; digest = zeros }

abbrev stored_head : PersistedStoreHead
stored_head = record {
  format = head_format;
  version = version_one;
  store_id = units "store";
  epoch_id = units "e1";
  schema_version = store_schema_version;
  digest_algorithm = digest_algorithm;
  checkpoint = record { checkpoint_id = units "c1"; digest = zeros; tip = first_tip };
  wal_format = record { format = wal_format; version = version_one };
}

-- A runtime that has one text, "1", for one value.
abbrev runtime_of : Value → JsonRuntime
runtime_of value = record { stringify = λ _. units "1"; parse = λ _. some value }

decoded :
    decode_store_head (runtime_of (head_value stored_head)) (units "1") undefined ≡ ok stored_head
unfolding decode_store_head same
decoded = refl

encode_store_head-decode_store_head_example :
    encode_store_head (runtime_of (head_value stored_head)) stored_head undefined ≡ ok (units "1")
encode_store_head-decode_store_head_example =
    encode_store_head-decode_store_head (runtime_of (head_value stored_head)) undefined (units "1")
      stored_head decoded

abbrev metadata : CheckpointMetadata
metadata = record { store_id = units "store"; checkpoint_id = units "c1"; tip = first_tip }

abbrev payload : Bytes
payload = 1 ∷ 10 ∷ 3 ∷ []

abbrev checkpoint_runtime : JsonRuntime
checkpoint_runtime = runtime_of (header_value (header_for metadata payload))

abbrev no_hash : Bytes → Bytes
no_hash bytes =
    0 ∷ 0 ∷ 0 ∷ 0 ∷ 0 ∷ 0 ∷ 0 ∷ 0 ∷ 0 ∷ 0 ∷ 0 ∷ 0 ∷ 0 ∷ 0 ∷ 0 ∷ 0 ∷ 0 ∷ 0 ∷ 0 ∷ 0 ∷ 0 ∷ 0 ∷ 0 ∷ 0
    ∷ 0 ∷ 0 ∷ 0 ∷ 0 ∷ 0 ∷ 0 ∷ 0 ∷ 0 ∷ []

abbrev stored : Checkpoint
stored = checkpoint_of checkpoint_runtime no_hash (header_for metadata payload) payload

encoded : encode_checkpoint checkpoint_runtime no_hash metadata payload undefined ≡ ok stored
unfolding encode_checkpoint same
encoded = refl

head_encoded : encode_store_head checkpoint_runtime stored_head undefined ≡ ok (units "1")
unfolding encode_store_head same
head_encoded = refl

refers : stored_head.checkpoint ≡ stored.identity
unfolding hex
refers = refl

faithful : IsFaithful checkpoint_runtime (header_value (header_for metadata payload))
unfolding utf8_decode utf8_encode
faithful = record { parses = refl; one_line = (refl, tt) }

verify_checkpoint-encode_checkpoint_example :
    verify_checkpoint checkpoint_runtime no_hash stored.bytes stored_head undefined ≡ ok tt
verify_checkpoint-encode_checkpoint_example =
    verify_checkpoint-encode_checkpoint checkpoint_runtime no_hash metadata payload undefined
      stored_head (units "1") stored faithful encoded head_encoded refl refers

abbrev tight : Value
tight = object (field (units "headBytes") (count_value 100) end)

abbrev tight_limits : PersistenceLimits
tight_limits = record {
  head_bytes = 100;
  checkpoint_header_bytes = 4096;
  checkpoint_payload_bytes = 8_388_608;
  identifier_bytes = 64;
  transaction_digits = 128;
  metadata_depth = 8;
}

tightened : persistence_limits tight ≡ ok tight_limits
unfolding persistence_limits same
tightened = refl

persistence_limits_tightened_example :
    (1 ≤ 100) × (100 ≤ limit_of Limit.head_bytes persistence_maximum)
persistence_limits_tightened_example =
    persistence_limits_tightened tight tight_limits Limit.head_bytes tightened

abbrev small : JsonBounds
small = record { bytes = 10; depth = 2; nodes = 5 }

null_decoded : decode_canonical_json (runtime_of null) small (units "null") ≡ ok null
unfolding decode_canonical_json same utf8_encode
null_decoded = refl

canonical_json-decode_canonical_json_example :
    (canonical_json (runtime_of null) small null ≡ ok (units "null")) × (length (units "null") ≤ 10)
canonical_json-decode_canonical_json_example =
    canonical_json-decode_canonical_json (runtime_of null) small (units "null") null null_decoded
