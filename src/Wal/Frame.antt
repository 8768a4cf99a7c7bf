-- ===== src/Wal/Frame.antt =====
-- One frame of the log, of src/persistence/wal.ts: a prefix with the lengths, the metadata, the
-- operations, their digest and an end mark. `createHash("sha256")` is a parameter.
pub mod Cut
pub mod Size
pub mod Built
use ether_memories.Prelude.{
  ℕ, ◌+◌, Bool, true, false, not, ◌&&◌, ◌||◌, List, [], ◌∷◌, ◌++◌, length, take, ltb, leb, ◌==◌,
  if◌then◌else◌,
}
use ether_memories.Result.{Result, ok, err, ErrorCode, ◌>>=◌, require_that}
use ether_memories.Result.ErrorCode.{recovery_required, persistence_corruption}
use ether_memories.Text.{Text, same}
use ether_memories.Value.{Value, null, text, array, object, Items, nil, cons, Fields, end, field}
use ether_memories.Text.{units}
use ether_memories.Bytes.{Bytes, subarray, read_u32, u32_bytes, complement, hex}
use ether_memories.Bytes.Utf8.{streams}
use ether_memories.Durable.{
  CommittedTip, MutationIdentity, WalFormatIdentifier, WalOperation, DurableTransaction,
}
use ether_memories.Json.{
  JsonRuntime, canonical_json, decode_canonical_json, wal_corruption, items_length,
}
use ether_memories.Json.Nesting.{commas_within}
use ether_memories.Codecs.{wal_format, version_one}
use ether_memories.Wal.{
  wal_limits, wal_prefix_bytes, magic, end_mark, domain, trailer_bytes, json_bounds,
}
use ether_memories.Wal.Registry.{ReplayRegistry}
use ether_memories.Wal.Header.{Header, validate_header, metadata_fields}
use ether_memories.Wal.Operations.{validate_operations}

-- `WAL_PREFIX_BYTES + headerBytes + operationBytes + TRAILER_BYTES`
abbrev pub total_bytes : ℕ → ℕ → ℕ
total_bytes header operation = wal_prefix_bytes + header + operation + trailer_bytes

-- `prefix(headerBytes, operationBytes)`
unfoldable pub prefix : ℕ → ℕ → Bytes
unfolding u32_bytes
prefix header operation =
    let total = total_bytes header operation in
    magic
    ++ (u32_bytes header
        ++ (u32_bytes operation ++ (u32_bytes total ++ u32_bytes (complement total))))

-- The tests of the prefix, each as soon as its bytes are there.
unfoldable pub plausible_prefix : Bytes → Bool
unfolding read_u32
plausible_prefix frame =
    same (take 8 frame) (take (length frame) magic)
    && not (
        leb 12 (length frame)
        && (ltb (read_u32 frame 8) 1 || ltb wal_limits.metadata_bytes (read_u32 frame 8)))
    && not (
        leb 16 (length frame)
        && (ltb (read_u32 frame 12) 2 || ltb wal_limits.operation_list_bytes (read_u32 frame 12)))
    && not (leb 20 (length frame) && ltb wal_limits.frame_bytes (read_u32 frame 16))

-- What the platform does: JSON and the hash of `node:crypto`.
pub record Platform : Type 0 where
  pub json : JsonRuntime
  pub sha256 : Bytes → Bytes

-- The transaction of a frame; its audit location is null.
abbrev pub transaction : Header → List WalOperation → Text → DurableTransaction
transaction header operations hash = record {
  store_id = header.store_id;
  mutation = header.mutation;
  format = record { format = wal_format; version = version_one };
  expected_base = header.base;
  identity = record { epoch_id = header.epoch_id; tx_id = header.tx_id; digest = hash };
  operations = operations;
}

-- `WalTransactionInput`: the operations and the audit location as they are handed in.
pub record WalTransactionInput : Type 0 where
  pub store_id : Text
  pub format : WalFormatIdentifier
  pub expected_base : CommittedTip
  pub epoch_id : Text
  pub tx_id : Text
  pub mutation : MutationIdentity
  pub operations : Items
  pub audit : Value

pub record WalFrame : Type 0 where
  pub bytes : Bytes
  pub tx : DurableTransaction

pub data FrameRead : Type 0 where
  incomplete : FrameRead
  complete : DurableTransaction → ℕ → FrameRead

abbrev pub operation_fields : WalOperation → Fields
operation_fields op =
    field (units "type") (text op.op_type)
      (field (units "version") (text op.version) (field (units "payload") op.payload end))

abbrev pub operation_items : List WalOperation → Items
operation_items [] = nil
operation_items (op ∷ ops) = cons (object (operation_fields op)) (operation_items ops)

-- The metadata of an input, as `validateHeader` gets it.
abbrev pub input_header : WalTransactionInput → Header
input_header input = record {
  store_id = input.store_id;
  epoch_id = input.epoch_id;
  tx_id = input.tx_id;
  base = input.expected_base;
  mutation = input.mutation;
  operation_count = items_length input.operations;
}

module _ (platform : Platform) where
  -- `frameDigest(prefixBytes, metadata, operations)`
  abbrev pub frame_digest : Bytes → Bytes → Bytes → Bytes
  frame_digest preamble metadata operations =
      platform.sha256 (domain ++ (preamble ++ (metadata ++ (operations ++ end_mark))))

  -- The frame of a header and of operations that were validated.
  unfoldable pub build_frame : Header → List WalOperation → Bytes → Bytes → Result WalFrame
  unfolding prefix hex
  build_frame header ops metadata operations =
      let preamble = prefix (length metadata) (length operations) in
      let hash = frame_digest preamble metadata operations in
      require_that
        (not (ltb wal_limits.frame_bytes (total_bytes (length metadata) (length operations))))
      >>= λ _. ok (record {
        bytes = preamble ++ (metadata ++ (operations ++ (hash ++ end_mark)));
        tx = transaction header ops (hex hash);
      })

module _ (platform : Platform) (registry : ReplayRegistry) where
  -- `encodeWalFrame(input, registry)`
  unfoldable pub encode_wal_frame : WalTransactionInput → Result WalFrame
  unfolding validate_header validate_operations canonical_json build_frame
  encode_wal_frame input =
      let json = platform.json in
      validate_header (
        object (
          metadata_fields input.format.format input.format.version (input_header input)
            input.audit))
      >>= λ header.
          validate_operations json registry (array input.operations) header.operation_count
          >>= λ ops.
              canonical_json json (json_bounds wal_limits.metadata_bytes)
                (object (metadata_fields wal_format version_one header null))
              >>= λ metadata.
                  canonical_json json (json_bounds wal_limits.operation_list_bytes)
                    (array (operation_items ops))
                  >>= λ operations. build_frame platform header ops metadata operations

  -- The end of `readFrame`: the digest and the end mark, as far as they are there, and the operations.
  unfoldable pub read_trailer : Bytes → ℕ → ℕ → Header → Value → Bytes → Result FrameRead
  unfolding validate_operations hex
  read_trailer frame body_end total header parsed hash =
      let available = subarray frame body_end total in
      require_that (same available (take (length available) (hash ++ end_mark))) >>= λ _.
      validate_operations platform.json registry parsed header.operation_count >>= λ ops.
      if ltb (length frame) total
      then ok incomplete
      else ok (complete (transaction header ops (hex hash)) total)

  -- The operations, as far as they are there.
  unfoldable pub read_body : Bytes → ℕ → ℕ → ℕ → Bytes → Header → Result FrameRead
  unfolding commas_within streams decode_canonical_json read_trailer
  read_body frame header_end body_end total header_bytes header =
      let operation_bytes = subarray frame header_end body_end in
      require_that (commas_within wal_limits.operations operation_bytes) >>= λ _.
      if ltb (length frame) body_end
      then (if streams operation_bytes then ok incomplete else wal_corruption)
      else (decode_canonical_json platform.json (json_bounds wal_limits.operation_list_bytes)
            operation_bytes
          >>= λ parsed.
              read_trailer frame body_end total header parsed
                (frame_digest platform (take wal_prefix_bytes frame) header_bytes operation_bytes))

  -- The metadata, as far as they are there.
  unfoldable pub read_metadata : Bytes → ℕ → ℕ → ℕ → Result FrameRead
  unfolding streams decode_canonical_json validate_header read_body
  read_metadata frame header_end body_end total =
      let header_bytes = subarray frame wal_prefix_bytes header_end in
      if ltb (length frame) header_end
      then (if streams header_bytes then ok incomplete else wal_corruption)
      else (decode_canonical_json platform.json (json_bounds wal_limits.metadata_bytes) header_bytes
          >>= λ value.
              validate_header value >>= read_body frame header_end body_end total header_bytes)

  unfoldable pub read_lengths : Bytes → Result FrameRead
  unfolding read_u32 read_metadata
  read_lengths frame =
      let header_length = read_u32 frame 8 in
      let operation_length = read_u32 frame 12 in
      let total = total_bytes header_length operation_length in
      require_that (read_u32 frame 16 == total && read_u32 frame 20 == complement total) >>= λ _.
      read_metadata frame (wal_prefix_bytes + header_length)
        (wal_prefix_bytes + header_length + operation_length) total

  -- `readFrame(bytes, registry)`
  unfoldable pub read_frame : Bytes → Result FrameRead
  unfolding plausible_prefix read_lengths
  read_frame frame = require_that (plausible_prefix frame) >>= λ _.
      if ltb (length frame) wal_prefix_bytes then ok incomplete else read_lengths frame

  -- A frame that is to be alone.
  abbrev pub single : ℕ → FrameRead → Result DurableTransaction
  single n incomplete = err ErrorCode.recovery_required
  single n (complete tx bytes) = if bytes == n then ok tx else wal_corruption

  -- `decodeWalFrame(bytes, registry)`
  unfoldable pub decode_wal_frame : Bytes → Result DurableTransaction
  unfolding read_frame
  decode_wal_frame bytes = require_that (not (ltb wal_limits.frame_bytes (length bytes))) >>= λ _.
      read_frame bytes >>= single (length bytes)
