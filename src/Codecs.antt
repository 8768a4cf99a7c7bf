-- ===== src/Codecs.antt =====
-- src/persistence/codecs.ts: limits, compatibility metadata and the store head. Its types say that
-- the format, the schema and the digest algorithm of a head are constants; the checks read them.
pub mod Head
pub mod Checkpoint
pub mod Limits
mod Tests
use ether_memories.Prelude.{
  ℕ, Bool, true, false, not, ◌&&◌, ◌||◌, Option, none, some, List, [], ◌∷◌, all, length, ltb, leb,
  ◌==◌, if◌then◌else◌,
}
use ether_memories.Result.{Result, ok, err, ErrorCode, ◌>>=◌, require, require_that, support_that}
use ether_memories.Result.ErrorCode.{invalid_input, persistence_corruption}
use ether_memories.Text.{Text, units, same}
use ether_memories.Value.{Value, undefined, Fields, end, field}
use ether_memories.Bytes.{Bytes}
use ether_memories.Bytes.Utf8.{utf8_decode}
use ether_memories.Durable.{
  CommittedTip, CheckpointIdentity, WalFormatIdentifier, is_digit, parse_sequence_id,
}
use ether_memories.Json.{JsonRuntime}
use ether_memories.Json.Nesting.{nests_within}
use ether_memories.Json.Records.{is_record, get_field, has_keys, as_text, read_text, as_count}

abbrev pub head_format : Text
head_format = units "ether.store_head"

abbrev pub checkpoint_format : Text
checkpoint_format = units "ether.checkpoint"

-- The version of heads, checkpoints and the log.
abbrev pub version_one : Text
version_one = units "1"

abbrev pub wal_format : Text
wal_format = units "ether.wal"

abbrev pub digest_algorithm : Text
digest_algorithm = units "sha256"

abbrev pub store_schema_version : Text
store_schema_version = units "ether.memory_store.v0.3"

pub record PersistedStoreHead : Type 0 where
  pub format : Text
  pub version : Text
  pub store_id : Text
  pub epoch_id : Text
  pub schema_version : Text
  pub digest_algorithm : Text
  pub checkpoint : CheckpointIdentity
  pub wal_format : WalFormatIdentifier

pub record PersistenceLimits : Type 0 where
  pub head_bytes : ℕ
  pub checkpoint_header_bytes : ℕ
  pub checkpoint_payload_bytes : ℕ
  pub identifier_bytes : ℕ
  pub transaction_digits : ℕ
  pub metadata_depth : ℕ

abbrev pub persistence_maximum : PersistenceLimits
persistence_maximum = record {
  head_bytes = 16_384;
  checkpoint_header_bytes = 4096;
  checkpoint_payload_bytes = 8_388_608;
  identifier_bytes = 64;
  transaction_digits = 128;
  metadata_depth = 8;
}

-- The names of the limits.
pub data Limit : Type 0 where
  head_bytes checkpoint_header_bytes checkpoint_payload_bytes : Limit
  identifier_bytes transaction_digits metadata_depth : Limit

-- `Object.hasOwn(PERSISTENCE_LIMITS, key)`
unfoldable pub limit_named : Text → Option Limit
limit_named key =
    if same key (units "headBytes")
    then some head_bytes
    else if same key (units "checkpointHeaderBytes")
    then some checkpoint_header_bytes
    else if same key (units "checkpointPayloadBytes")
    then some checkpoint_payload_bytes
    else if same key (units "identifierBytes")
    then some identifier_bytes
    else if same key (units "transactionDigits")
    then some transaction_digits
    else if same key (units "metadataDepth")
    then some metadata_depth
    else none

abbrev pub limit_of : Limit → PersistenceLimits → ℕ
limit_of head_bytes l = l.head_bytes
limit_of checkpoint_header_bytes l = l.checkpoint_header_bytes
limit_of checkpoint_payload_bytes l = l.checkpoint_payload_bytes
limit_of identifier_bytes l = l.identifier_bytes
limit_of transaction_digits l = l.transaction_digits
limit_of metadata_depth l = l.metadata_depth

-- `limits[key] = value`
abbrev pub with_limit : Limit → ℕ → PersistenceLimits → PersistenceLimits
with_limit head_bytes n l = record {
  head_bytes = n;
  checkpoint_header_bytes = l.checkpoint_header_bytes;
  checkpoint_payload_bytes = l.checkpoint_payload_bytes;
  identifier_bytes = l.identifier_bytes;
  transaction_digits = l.transaction_digits;
  metadata_depth = l.metadata_depth;
}
with_limit checkpoint_header_bytes n l = record {
  head_bytes = l.head_bytes;
  checkpoint_header_bytes = n;
  checkpoint_payload_bytes = l.checkpoint_payload_bytes;
  identifier_bytes = l.identifier_bytes;
  transaction_digits = l.transaction_digits;
  metadata_depth = l.metadata_depth;
}
with_limit checkpoint_payload_bytes n l = record {
  head_bytes = l.head_bytes;
  checkpoint_header_bytes = l.checkpoint_header_bytes;
  checkpoint_payload_bytes = n;
  identifier_bytes = l.identifier_bytes;
  transaction_digits = l.transaction_digits;
  metadata_depth = l.metadata_depth;
}
with_limit identifier_bytes n l = record {
  head_bytes = l.head_bytes;
  checkpoint_header_bytes = l.checkpoint_header_bytes;
  checkpoint_payload_bytes = l.checkpoint_payload_bytes;
  identifier_bytes = n;
  transaction_digits = l.transaction_digits;
  metadata_depth = l.metadata_depth;
}
with_limit transaction_digits n l = record {
  head_bytes = l.head_bytes;
  checkpoint_header_bytes = l.checkpoint_header_bytes;
  checkpoint_payload_bytes = l.checkpoint_payload_bytes;
  identifier_bytes = l.identifier_bytes;
  transaction_digits = n;
  metadata_depth = l.metadata_depth;
}
with_limit metadata_depth n l = record {
  head_bytes = l.head_bytes;
  checkpoint_header_bytes = l.checkpoint_header_bytes;
  checkpoint_payload_bytes = l.checkpoint_payload_bytes;
  identifier_bytes = l.identifier_bytes;
  transaction_digits = l.transaction_digits;
  metadata_depth = n;
}

-- One option: a limit that may only be tightened, and not to zero.
unfoldable pub set_limit : Option Limit → Option ℕ → PersistenceLimits → Result PersistenceLimits
set_limit none value limits = err ErrorCode.invalid_input
set_limit (some limit) none limits = err ErrorCode.invalid_input
set_limit (some limit) (some n) limits =
    if ltb n 1 || ltb (limit_of limit persistence_maximum) n
    then err ErrorCode.invalid_input
    else ok (with_limit limit n limits)

unfoldable pub set_limits : Fields → PersistenceLimits → Result PersistenceLimits
unfolding set_limit limit_named as_count
set_limits end limits = ok limits
set_limits (field key value rest) limits =
    set_limit (limit_named key) (as_count value) limits >>= set_limits rest

abbrev limits_from : Option Fields → Result PersistenceLimits
limits_from none = err ErrorCode.invalid_input
limits_from (some options) = set_limits options persistence_maximum

abbrev no_options : Fields
no_options = end

-- `persistenceLimits(options)`; an option that is left out is the empty object
unfoldable pub persistence_limits : Value → Result PersistenceLimits
unfolding set_limits is_record
persistence_limits undefined = limits_from (some no_options)
persistence_limits options = limits_from (is_record options)

abbrev pub is_lower_or_digit : ℕ → Bool
is_lower_or_digit u = (leb 97 u && leb u 122) || is_digit u

-- `/[^a-z0-9_-]/` finds nothing
abbrev pub is_identifier_unit : ℕ → Bool
is_identifier_unit u = is_lower_or_digit u || u == 95 || u == 45

-- The first code unit passes `test`.
abbrev pub starts_with : (ℕ → Bool) → Text → Bool
starts_with test [] = false
starts_with test (u ∷ s) = test u

unfoldable pub is_identifier : ℕ → Text → Bool
is_identifier limit s =
    leb (length s) limit && starts_with is_lower_or_digit s && all is_identifier_unit s

abbrev pub is_hex_unit : ℕ → Bool
is_hex_unit u = (leb 97 u && leb u 102) || is_digit u

unfoldable pub is_digest : Text → Bool
is_digest s = length s == 64 && all is_hex_unit s

abbrev pub is_ok_text : Result Text → Bool
is_ok_text (ok s) = true
is_ok_text (err e) = false

unfoldable pub is_sequence : ℕ → Text → Bool
unfolding parse_sequence_id
is_sequence digits s = leb (length s) digits && is_ok_text (parse_sequence_id s)

abbrev pub tip_keys : List Text
tip_keys = units "epochId" ∷ units "txId" ∷ units "digest" ∷ []

-- `tip(value, limits)`
unfoldable pub read_tip : PersistenceLimits → Value → Result CommittedTip
unfolding is_record get_field has_keys is_identifier is_digest is_sequence read_text
read_tip limits value = require (is_record value) >>= λ fs.
    require_that (has_keys fs tip_keys) >>= λ _.
    require (read_text (is_identifier limits.identifier_bytes) (get_field fs (units "epochId")))
    >>= λ epoch_id. require (read_text is_digest (get_field fs (units "digest"))) >>= λ digest.
        require (read_text (is_sequence limits.transaction_digits) (get_field fs (units "txId")))
        >>= λ tx_id. ok (record { epoch_id = epoch_id; tx_id = tx_id; digest = digest })

module _ (json : JsonRuntime) where
  abbrev parsed_or_corrupt : Option Value → Result Value
  parsed_or_corrupt none = err ErrorCode.persistence_corruption
  parsed_or_corrupt (some value) = ok value

  unfoldable pub parse_text : PersistenceLimits → Option Text → Result Value
  unfolding nests_within
  parse_text limits none = err ErrorCode.persistence_corruption
  parse_text limits (some s) =
      if nests_within limits.metadata_depth s
      then parsed_or_corrupt (json.parse s)
      else err ErrorCode.persistence_corruption

  -- `parseMetadata(bytes, maxBytes, limits)`
  unfoldable pub parse_metadata : Bytes → ℕ → PersistenceLimits → Result Value
  unfolding parse_text utf8_decode
  parse_metadata bytes max_bytes limits =
      if length bytes == 0 || ltb max_bytes (length bytes)
      then err ErrorCode.persistence_corruption
      else parse_text limits (utf8_decode bytes)

-- `compatibility(value, format, version)`
unfoldable pub compatibility : Fields → Text → Text → Result {0} Unit
unfolding get_field
compatibility fs format version = require (as_text (get_field fs (units "format"))) >>= λ f.
    require (as_text (get_field fs (units "version"))) >>= λ v.
    support_that (same f format && same v version) >>= λ _.
    require (as_text (get_field fs (units "schemaVersion"))) >>= λ schema.
    require (as_text (get_field fs (units "digestAlgorithm"))) >>= λ algorithm.
    support_that (same schema store_schema_version && same algorithm digest_algorithm)
