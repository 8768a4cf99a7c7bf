-- ===== src/Codecs/Head.antt =====
-- The store head of src/persistence/codecs.ts.
pub mod RoundTrip
use ether_memories.Prelude.{ℕ, Bool, ◌&&◌, List, [], ◌∷◌, if◌then◌else◌}
use ether_memories.Result.{Result, ok, err, ErrorCode, ◌>>=◌, require, require_that, support_that}
use ether_memories.Result.ErrorCode.{persistence_corruption}
use ether_memories.Text.{Text, units, same}
use ether_memories.Value.{Value, text, object, Fields, end, field}
use ether_memories.Bytes.{Bytes}
use ether_memories.Bytes.Utf8.{utf8_encode}
use ether_memories.Durable.{CommittedTip, CheckpointIdentity, WalFormatIdentifier}
use ether_memories.Json.{JsonRuntime}
use ether_memories.Json.Records.{is_record, get_field, has_keys, as_text, read_text}
use ether_memories.Codecs.{
  PersistedStoreHead, PersistenceLimits, persistence_limits, head_format, version_one, wal_format,
  digest_algorithm, store_schema_version, is_identifier, is_digest, read_tip, parse_metadata,
  compatibility,
}

-- The objects that the records stand for, in the order of their fields.
abbrev pub tip_fields : CommittedTip → Fields
tip_fields t =
    field (units "epochId") (text t.epoch_id)
      (field (units "txId") (text t.tx_id) (field (units "digest") (text t.digest) end))

abbrev pub checkpoint_fields : CheckpointIdentity → Fields
checkpoint_fields c =
    field (units "checkpointId") (text c.checkpoint_id)
      (field (units "digest") (text c.digest) (field (units "tip") (object (tip_fields c.tip)) end))

abbrev pub wal_format_fields : WalFormatIdentifier → Fields
wal_format_fields f =
    field (units "format") (text f.format) (field (units "version") (text f.version) end)

abbrev pub head_fields : PersistedStoreHead → Fields
head_fields h = field (units "format") (text h.format) (
    field (units "version") (text h.version) (
      field (units "storeId") (text h.store_id) (
        field (units "epochId") (text h.epoch_id) (
          field (units "schemaVersion") (text h.schema_version) (
            field (units "digestAlgorithm") (text h.digest_algorithm) (
              field (units "checkpoint") (object (checkpoint_fields h.checkpoint))
                (field (units "walFormat") (object (wal_format_fields h.wal_format)) end)))))))

abbrev pub head_value : PersistedStoreHead → Value
head_value h = object (head_fields h)

abbrev pub head_keys : List Text
head_keys =
    units "format"
    ∷ units "version"
    ∷ units "storeId"
    ∷ units "epochId"
    ∷ units "schemaVersion"
    ∷ units "digestAlgorithm"
    ∷ units "checkpoint"
    ∷ units "walFormat"
    ∷ []

abbrev pub checkpoint_keys : List Text
checkpoint_keys = units "checkpointId" ∷ units "digest" ∷ units "tip" ∷ []

abbrev pub wal_format_keys : List Text
wal_format_keys = units "format" ∷ units "version" ∷ []

-- What the structure test of `validateHead` has read.
pub record HeadShape : Type 0 where
  pub store_id : Text
  pub epoch_id : Text
  pub checkpoint_id : Text
  pub digest : Text
  pub tip : Value
  pub wal : Fields

unfoldable pub head_shape : PersistenceLimits → Fields → Result HeadShape
unfolding is_record get_field has_keys read_text is_identifier is_digest
head_shape limits fs = require_that (has_keys fs head_keys) >>= λ _.
    require (read_text (is_identifier limits.identifier_bytes) (get_field fs (units "storeId")))
    >>= λ store_id.
        require (read_text (is_identifier limits.identifier_bytes) (get_field fs (units "epochId")))
        >>= λ epoch_id. require (is_record (get_field fs (units "checkpoint"))) >>= λ cs.
            require_that (has_keys cs checkpoint_keys) >>= λ _.
            require (
              read_text (is_identifier limits.identifier_bytes)
                (get_field cs (units "checkpointId")))
            >>= λ checkpoint_id.
                require (read_text is_digest (get_field cs (units "digest"))) >>= λ digest.
                require (is_record (get_field fs (units "walFormat"))) >>= λ ws.
                require_that (has_keys ws wal_format_keys) >>= λ _. ok (record {
                  store_id = store_id;
                  epoch_id = epoch_id;
                  checkpoint_id = checkpoint_id;
                  digest = digest;
                  tip = get_field cs (units "tip");
                  wal = ws;
                })

unfoldable pub supported_wal : Fields → Result {0} Unit
unfolding get_field
supported_wal ws = require (as_text (get_field ws (units "format"))) >>= λ f.
    require (as_text (get_field ws (units "version"))) >>= λ v.
    support_that (same f wal_format && same v version_one)

-- The projection of the fields that were checked.
abbrev pub head_of : HeadShape → CommittedTip → PersistedStoreHead
head_of shape tip = record {
  format = head_format;
  version = version_one;
  store_id = shape.store_id;
  epoch_id = shape.epoch_id;
  schema_version = store_schema_version;
  digest_algorithm = digest_algorithm;
  checkpoint = record { checkpoint_id = shape.checkpoint_id; digest = shape.digest; tip = tip };
  wal_format = record { format = wal_format; version = version_one };
}

-- `validateHead(value, limits)`
unfoldable pub validate_head : PersistenceLimits → Value → Result PersistedStoreHead
unfolding is_record compatibility head_shape supported_wal read_tip
validate_head limits value = require (is_record value) >>= λ fs.
    compatibility fs head_format version_one >>= λ _. head_shape limits fs >>= λ shape.
    supported_wal shape.wal >>= λ _. read_tip limits shape.tip >>= λ tip.
    require_that (same tip.epoch_id shape.epoch_id) >>= λ _. ok (head_of shape tip)

module _ (json : JsonRuntime) where
  -- `Buffer.from(JSON.stringify(head), "utf8")`
  abbrev pub head_bytes : PersistedStoreHead → Bytes
  head_bytes head = utf8_encode (json.stringify (head_value head))

  -- `encodeStoreHead(head, options)`
  unfoldable pub encode_store_head : PersistedStoreHead → Value → Result Bytes
  unfolding persistence_limits validate_head utf8_encode parse_metadata
  encode_store_head head options = persistence_limits options >>= λ limits.
      validate_head limits (head_value head) >>= λ validated.
      parse_metadata json (head_bytes validated) limits.head_bytes limits >>= λ _.
      ok (head_bytes validated)

  -- `decodeStoreHead(bytes, options)`
  unfoldable pub decode_store_head : Bytes → Value → Result PersistedStoreHead
  unfolding persistence_limits validate_head utf8_encode parse_metadata
  decode_store_head bytes options = persistence_limits options >>= λ limits.
      parse_metadata json bytes limits.head_bytes limits >>= λ value.
      validate_head limits value >>= λ head.
      require_that (same bytes (head_bytes head)) >>= λ _. ok head
