-- ===== src/Codecs/Checkpoint.antt =====
-- Checkpoint files of src/persistence/codecs.ts: a header in JSON, a line feed and the payload.
-- The digest of the file, `createHash("sha256")`, is a parameter.
pub mod RoundTrip
use ether_memories.Prelude.{
  ℕ, ◌+◌, ◌-◌, Bool, ◌&&◌, ◌||◌, not, Option, none, some, List, [], ◌∷◌, ◌++◌, length, take, ltb,
  ◌==◌, if◌then◌else◌,
}
use ether_memories.Result.{Result, ok, err, ErrorCode, ◌>>=◌, require, require_that}
use ether_memories.Result.ErrorCode.{persistence_corruption}
use ether_memories.Text.{Text, units, same}
use ether_memories.Value.{Value, text, object, Fields, end, field}
use ether_memories.Bytes.{Bytes, hex, subarray, index_of}
use ether_memories.Bytes.Utf8.{utf8_encode}
use ether_memories.Durable.{CommittedTip, CheckpointIdentity, same_tip}
use ether_memories.Json.{JsonRuntime}
use ether_memories.Json.Records.{is_record, get_field, has_keys, read_text, as_count, count_value}
use ether_memories.Codecs.{
  PersistedStoreHead, PersistenceLimits, persistence_limits, checkpoint_format, version_one,
  digest_algorithm, store_schema_version, is_identifier, read_tip, parse_metadata, compatibility,
}
use ether_memories.Codecs.Head.{tip_fields, head_value, validate_head}

pub record CheckpointMetadata : Type 0 where
  pub store_id : Text
  pub checkpoint_id : Text
  pub tip : CommittedTip

-- A checkpoint header without its constant fields.
pub record CheckpointHeader : Type 0 where
  pub store_id : Text
  pub checkpoint_id : Text
  pub tip : CommittedTip
  pub payload_bytes : ℕ

abbrev pub header_fields : CheckpointHeader → Fields
header_fields h = field (units "format") (text checkpoint_format) (
    field (units "version") (text version_one) (
      field (units "storeId") (text h.store_id) (
        field (units "checkpointId") (text h.checkpoint_id) (
          field (units "schemaVersion") (text store_schema_version) (
            field (units "digestAlgorithm") (text digest_algorithm) (
              field (units "tip") (object (tip_fields h.tip))
                (field (units "payloadBytes") (count_value h.payload_bytes) end)))))))

abbrev pub header_value : CheckpointHeader → Value
header_value h = object (header_fields h)

abbrev pub header_keys : List Text
header_keys =
    units "format"
    ∷ units "version"
    ∷ units "storeId"
    ∷ units "checkpointId"
    ∷ units "schemaVersion"
    ∷ units "digestAlgorithm"
    ∷ units "tip"
    ∷ units "payloadBytes"
    ∷ []

-- `checkpointHeader(value, limits)`
unfoldable pub checkpoint_header : PersistenceLimits → Value → Result CheckpointHeader
unfolding is_record compatibility get_field has_keys read_text is_identifier as_count read_tip
checkpoint_header limits value = require (is_record value) >>= λ fs.
    compatibility fs checkpoint_format version_one >>= λ _.
    require_that (has_keys fs header_keys) >>= λ _.
    require (read_text (is_identifier limits.identifier_bytes) (get_field fs (units "storeId")))
    >>= λ store_id.
        require
          (read_text (is_identifier limits.identifier_bytes) (get_field fs (units "checkpointId")))
        >>= λ checkpoint_id.
            require (as_count (get_field fs (units "payloadBytes"))) >>= λ payload_bytes.
            require_that
              (not (ltb payload_bytes 1 || ltb limits.checkpoint_payload_bytes payload_bytes))
            >>= λ _. read_tip limits (get_field fs (units "tip")) >>= λ tip. ok (record {
              store_id = store_id;
              checkpoint_id = checkpoint_id;
              tip = tip;
              payload_bytes = payload_bytes;
            })

-- The header that `encodeCheckpoint` asks for.
abbrev pub header_for : CheckpointMetadata → Bytes → CheckpointHeader
header_for metadata payload = record {
  store_id = metadata.store_id;
  checkpoint_id = metadata.checkpoint_id;
  tip = metadata.tip;
  payload_bytes = length payload;
}

pub record Checkpoint : Type 0 where
  pub bytes : Bytes
  pub identity : CheckpointIdentity

module _ (json : JsonRuntime) (sha256 : Bytes → Bytes) where
  -- `Buffer.from(JSON.stringify(header.value), "utf8")`
  abbrev pub header_bytes : CheckpointHeader → Bytes
  header_bytes header = utf8_encode (json.stringify (header_value header))

  abbrev pub checkpoint_of : CheckpointHeader → Bytes → Checkpoint
  checkpoint_of header payload =
      let bytes = header_bytes header ++ 10 ∷ payload in
      record {
        bytes = bytes;
        identity = record {
          checkpoint_id = header.checkpoint_id;
          digest = hex (sha256 bytes);
          tip = header.tip;
        };
      }

  -- `encodeCheckpoint(metadata, payload, options)`
  unfoldable pub encode_checkpoint : CheckpointMetadata → Bytes → Value → Result Checkpoint
  unfolding persistence_limits checkpoint_header utf8_encode parse_metadata hex
  encode_checkpoint metadata payload options = persistence_limits options >>= λ limits.
      require_that
        (not (length payload == 0 || ltb limits.checkpoint_payload_bytes (length payload)))
      >>= λ _. checkpoint_header limits (header_value (header_for metadata payload)) >>= λ header.
          parse_metadata json (header_bytes header) limits.checkpoint_header_bytes limits >>= λ _.
          ok (checkpoint_of header payload)

  -- `verifyCheckpoint(bytes, head, options)`
  unfoldable pub verify_checkpoint : Bytes → PersistedStoreHead → Value → Result {0} Unit
  unfolding persistence_limits validate_head index_of parse_metadata checkpoint_header utf8_encode
      hex same_tip
  verify_checkpoint bytes head options = persistence_limits options >>= λ limits.
      validate_head limits (head_value head) >>= λ _.
      require_that (
        not (
          ltb (limits.checkpoint_header_bytes + 1 + limits.checkpoint_payload_bytes)
            (length bytes)))
      >>= λ _.
          require (index_of 10 (take (limits.checkpoint_header_bytes + 1) bytes)) >>= λ separator.
          parse_metadata json (take separator bytes) limits.checkpoint_header_bytes limits
          >>= λ value. checkpoint_header limits value >>= λ header.
              require_that (same (take separator bytes) (header_bytes header)) >>= λ _.
              require_that (length bytes - separator - 1 == header.payload_bytes) >>= λ _.
              require_that (
                same header.store_id head.store_id
                && same header.checkpoint_id head.checkpoint.checkpoint_id
                && same_tip header.tip head.checkpoint.tip)
              >>= λ _. require_that (same (hex (sha256 bytes)) head.checkpoint.digest)
