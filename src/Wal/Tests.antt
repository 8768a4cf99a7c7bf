-- ===== src/Wal/Tests.antt =====
-- The theorems about the log at a concrete log of one transaction.
mod Scan
mod Stream
use ether_memories.Prelude.{
  ℕ, ◌+◌, ◌≡◌, refl, true, false, Option, none, some, List, [], ◌∷◌, ◌++◌, All, length, take, drop,
  arith, if◌then◌else◌,
}
use ether_memories.Result.{ok, err, ErrorCode, ◌>>=◌}
use ether_memories.Text.{Text, units, same, includes, code_unit_compare}
use ether_memories.Value.{Value, null, undefined, bool, number, text, date, array, object, end}
use ether_memories.Bytes.{Bytes, hex, big_endian}
use ether_memories.Durable.{CommittedTip, WalOperation, DurableTransaction}
use ether_memories.Bytes.Utf8.{utf8_decode, utf8_encode}
use ether_memories.Json.{canonical_json, decode_canonical_json}
use ether_memories.Json.Canonical.{decode_canonical_json_of}
use ether_memories.Json.Nesting.{nests_within, commas_within}
use ether_memories.Codecs.{
  PersistedStoreHead, head_format, version_one, wal_format, digest_algorithm, store_schema_version,
}
use ether_memories.Wal.{end_mark, json_bounds}
use ether_memories.Wal.Registry.{
  ReplayOperationDefinition, ReplayRegistry, create_replay_registry, registry_of, detached_state,
}
use ether_memories.Wal.Registry.Laws.{Runs, create_replay_registry-Runs}
use ether_memories.Wal.Header.{Header, metadata_fields, validate_header}
use ether_memories.Wal.Operations.{validate_operations}
use ether_memories.Wal.Frame.{
  Platform, complete, incomplete, prefix, transaction, operation_items, WalFrame, total_bytes,
  read_frame, plausible_prefix,
}
use ether_memories.Wal.Frame.Cut.Whole.{read_frame-take}
use ether_memories.Wal.Frame.Built.Decoded.{Decodes, read_frame_built}
use ether_memories.Wal.Scan.{
  WalScan, no_tail, pending_tail, scan_start, accept, push_transaction, after_frame,
  checkpoint_wal_anchor, scan_wal,
}
use ether_memories.Wal.Scan.Chain.{IsChain, scan_wal-IsScan, scan_frames_first}
use ether_memories.Wal.Scan.Cut.{Extends, scan_wal-take}
use ether_memories.Wal.Replay.{
  DetachedReplay, replay_of, replay_operations, replay_transactions, replay_wal,
}
use ether_memories.Wal.Replay.Laws.{Reaches, replay_wal-take}
use ether_memories.Wal.Round.{WalStreamScanner, WalContinuation, WalBatch, Round, create}
use ether_memories.Wal.Stream.{next, rounds}
use ether_memories.Wal.Stream.Room.{HasRoom, WalStreamScanner-HasRoom}
use ether_memories.Wal.Stream.Chain.{IsBatch, next-IsBatch}
use ether_memories.Wal.Stream.Refusals.{Call, call, run, next_once}
use ether_memories.Durable.Decimal.{decimal_value, is_successor, is_successor_value}

abbrev zeros : Text
zeros = units "0000000000000000000000000000000000000000000000000000000000000000"

abbrev first_tip : CommittedTip
first_tip = record { epoch_id = units "e"; tx_id = units "9"; digest = zeros }

abbrev head : PersistedStoreHead
head = record {
  format = head_format;
  version = version_one;
  store_id = units "s";
  epoch_id = units "e";
  schema_version = store_schema_version;
  digest_algorithm = digest_algorithm;
  checkpoint = record { checkpoint_id = units "c"; digest = zeros; tip = first_tip };
  wal_format = record { format = wal_format; version = version_one };
}

abbrev header : Header
header = record {
  store_id = units "s";
  epoch_id = units "e";
  tx_id = units "10";
  base = first_tip;
  mutation = record { mutation_id = units "m"; digest = zeros };
  operation_count = 1;
}

abbrev operations : List WalOperation
operations = record { op_type = units "t"; version = units "1"; payload = object end } ∷ []

-- The texts of the metadata and of the operations.
abbrev metadata_text : Text
metadata_text =
    units "{\"audit\":null,\"base\":{\"digest\":\""
    ++ zeros
    ++ units
        "\",\"epochId\":\"e\",\"txId\":\"9\"},\"epochId\":\"e\",\"format\":\"ether.wal\",\"mutation\":{\"digest\":\""
    ++ zeros
    ++ units
        "\",\"mutationId\":\"m\"},\"operationCount\":1,\"storeId\":\"s\",\"txId\":\"10\",\"version\":\"1\"}"

abbrev operations_text : Text
operations_text = units "[{\"payload\":{},\"type\":\"t\",\"version\":\"1\"}]"

-- A runtime that knows the three texts of the log, and strings without escapes.
abbrev stringify : Value → Text
stringify (text s) = 34 ∷ s ++ 34 ∷ []
stringify null = units "1"
stringify undefined = units "1"
stringify (bool b) = units "1"
stringify (number n) = units "1"
stringify (date t) = units "1"
stringify (array xs) = units "1"
stringify (object fs) = units "1"

parse : Text → Option Value
unfolding same
parse s =
    if same s metadata_text
    then some (object (metadata_fields wal_format version_one header null))
    else if same s operations_text
    then some (array (operation_items operations))
    else if same s (units "{}")
    then some (object end)
    else some null

abbrev no_hash : Bytes → Bytes
no_hash bytes =
    0 ∷ 0 ∷ 0 ∷ 0 ∷ 0 ∷ 0 ∷ 0 ∷ 0 ∷ 0 ∷ 0 ∷ 0 ∷ 0 ∷ 0 ∷ 0 ∷ 0 ∷ 0 ∷ 0 ∷ 0 ∷ 0 ∷ 0 ∷ 0 ∷ 0 ∷ 0 ∷ 0
    ∷ 0 ∷ 0 ∷ 0 ∷ 0 ∷ 0 ∷ 0 ∷ 0 ∷ 0 ∷ []

abbrev platform : Platform
platform = record { json = record { stringify = stringify; parse = parse }; sha256 = no_hash }

abbrev registry : ReplayRegistry
registry = record { validate = λ op. ok tt; reduce = λ state op. ok op.payload }

abbrev size : ℕ
size = total_bytes (length metadata_text) (length operations_text)

abbrev tx : DurableTransaction
tx = transaction header operations zeros

log : Bytes
unfolding prefix
log =
    prefix (length metadata_text) (length operations_text)
    ++ (metadata_text ++ (operations_text ++ (no_hash [] ++ end_mark)))

metadata_decoded : utf8_decode metadata_text ≡ some metadata_text
unfolding utf8_decode
metadata_decoded = refl

metadata_nests : nests_within 17 metadata_text ≡ true
unfolding nests_within
metadata_nests = refl

metadata_written :
    canonical_json platform.json
      (json_bounds 4096)
      (object (metadata_fields wal_format version_one header null))
    ≡ ok metadata_text
unfolding canonical_json code_unit_compare includes same utf8_encode
metadata_written = refl

header_valid :
    validate_header (object (metadata_fields wal_format version_one header null)) ≡ ok header
unfolding validate_header same
header_valid = refl

operations_read :
    decode_canonical_json platform.json (json_bounds 786_432) operations_text
    ≡ ok (array (operation_items operations))
unfolding decode_canonical_json parse same utf8_encode code_unit_compare includes
operations_read = refl

operations_valid :
    validate_operations platform.json registry (array (operation_items operations)) 1
    ≡ ok operations
unfolding validate_operations parse same utf8_encode code_unit_compare includes
operations_valid = refl

frame_plausible : plausible_prefix log ≡ true
unfolding plausible_prefix log same big_endian
frame_plausible = refl

commas_few : commas_within 128 operations_text ≡ true
unfolding commas_within
commas_few = refl

metadata_parsed :
    parse metadata_text ≡ some (object (metadata_fields wal_format version_one header null))
unfolding parse same
metadata_parsed = refl

metadata_read :
    decode_canonical_json platform.json (json_bounds 4096) metadata_text
    ≡ ok (object (metadata_fields wal_format version_one header null))
metadata_read =
    decode_canonical_json_of platform.json (json_bounds 4096) metadata_text metadata_text
      (object (metadata_fields wal_format version_one header null)) refl metadata_decoded
      metadata_nests metadata_parsed metadata_written

decodes : Decodes platform registry metadata_text operations_text header operations
decodes = record {
  value = object (metadata_fields wal_format version_one header null);
  parsed = array (operation_items operations);
  metadata = metadata_read;
  valid = header_valid;
  commas = commas_few;
  operations = operations_read;
  supported = operations_valid;
}

digest_hex : hex (no_hash []) ≡ zeros
unfolding hex
digest_hex = refl

frame_read : read_frame platform registry log ≡ ok (complete tx size)
unfolding log hex
frame_read =
    read_frame_built platform registry metadata_text operations_text header operations decodes
      (λ _. refl) (omega arith) (omega arith) (omega arith) (omega arith) (omega arith)

-- The frame that the encoder builds.
abbrev built_frame : WalFrame
built_frame = record { bytes = log; tx = tx }

log-length : length log ≡ size
unfolding log
log-length = refl

read_frame-take_example : read_frame platform registry (take 100 log) ≡ ok incomplete
read_frame-take_example =
    read_frame-take platform registry log 100 (complete tx size) (omega (arith, log-length))
      frame_read

anchored : checkpoint_wal_anchor platform head ≡ ok first_tip
unfolding checkpoint_wal_anchor parse same
anchored = refl

abbrev definition : ReplayOperationDefinition
definition = record {
  op_type = units "t";
  version = units "1";
  validate = λ payload. some (ok tt);
  reduce = λ state payload. some (ok payload);
}

abbrev created : ReplayRegistry
created = registry_of platform.json ((units "t:1", definition) ∷ [])

registry_created : create_replay_registry platform.json (definition ∷ []) ≡ ok created
unfolding create_replay_registry
registry_created = refl

create_replay_registry-Runs_example : All (Runs platform.json created) (definition ∷ [])
create_replay_registry-Runs_example =
    create_replay_registry-Runs platform.json (definition ∷ []) created registry_created
