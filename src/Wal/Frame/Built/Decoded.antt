-- ===== src/Wal/Frame/Built/Decoded.antt =====
-- A frame as `encodeWalFrame` puts it together is decoded.
use ether_memories.Prelude.{
  ℕ, ◌+◌, ◌≤◌, ◌≡◌, refl, true, false, ◌&&◌, ◌==◌, List, ◌++◌, length, ltb, arith,
}
use ether_memories.Result.{ok}
use ether_memories.Text.{same_refl}
use ether_memories.Value.{Value}
use ether_memories.Bytes.{Bytes, complement, hex}
use ether_memories.Bytes.Slices.{take_all}
use ether_memories.Durable.{WalOperation}
use ether_memories.Json.{decode_canonical_json}
use ether_memories.Json.Nesting.{commas_within}
use ether_memories.Wal.{wal_limits, wal_prefix_bytes, json_bounds, end_mark}
use ether_memories.Wal.Registry.{ReplayRegistry}
use ether_memories.Wal.Header.{Header, validate_header}
use ether_memories.Wal.Operations.{validate_operations}
use ether_memories.Wal.Frame.{
  Platform, FrameRead, complete, transaction, read_trailer, read_body, read_metadata, read_lengths,
  read_frame,
}
use ether_memories.Wal.Frame.Built.{
  field_8, field_12, field_16, field_20, built-prefix, built_metadata, built_body, built_trailer,
  length-built, frame_plausible, hash, frame, total,
}

both_same : (a b : ℕ) → (a == a && b == b) ≡ true
both_same a b = ground arith

-- The metadata and the operations decode to a header and operations that are valid.
pub record Decodes (platform : Platform) (registry : ReplayRegistry) (m o : Bytes) (header : Header)
    (ops : List WalOperation) : Type 0 where
  pub value : Value
  pub parsed : Value
  pub metadata :
      decode_canonical_json platform.json (json_bounds wal_limits.metadata_bytes) m ≡ ok value
  pub valid : validate_header value ≡ ok header
  pub commas : commas_within wal_limits.operations o ≡ true
  pub operations :
      decode_canonical_json platform.json (json_bounds wal_limits.operation_list_bytes) o
      ≡ ok parsed
  pub supported : validate_operations platform.json registry parsed header.operation_count ≡ ok ops

module _ (platform : Platform) (registry : ReplayRegistry) (m o : Bytes) (header : Header)
    (ops : List WalOperation) (d : Decodes platform registry m o header ops)
    (hashed : (bytes : Bytes) → length (platform.sha256 bytes) ≡ 32) where
  abbrev digest : Bytes
  digest = hash platform registry m o

  abbrev bytes : Bytes
  bytes = frame platform registry m o

  abbrev size : ℕ
  size = total platform registry m o

  abbrev tx : FrameRead
  tx = complete (transaction header ops (hex digest)) size

  abbrev header_end : ℕ
  header_end = wal_prefix_bytes + length m

  all_there : (n : ℕ) → n ≤ size → ltb (length bytes) n ≡ false
  all_there n h =
      let whole : length bytes ≡ size = length-built m o digest (hashed _) in
      rw whole (ground arith)

  trailer_read :
      read_trailer platform registry bytes (header_end + length o) size header d.parsed digest
      ≡ ok tx
  unfolding read_trailer
  trailer_read =
      let part = digest ++ end_mark in
      rw
        (
          built_trailer m o digest (hashed _),
          take_all (length part) part (omega arith),
          same_refl part,
          d.supported,
          all_there size (omega arith),
        )
        refl

  body_read :
      read_body platform registry bytes header_end (header_end + length o) size m header ≡ ok tx
  unfolding read_body
  body_read =
      rw
        (
          built_body m o digest,
          d.commas,
          all_there (header_end + length o) (omega arith),
          d.operations,
          built-prefix m o digest,
        )
        trailer_read

  metadata_read :
      read_metadata platform registry bytes header_end (header_end + length o) size ≡ ok tx
  unfolding read_metadata
  metadata_read =
      rw (built_metadata m o digest, all_there header_end (omega arith), d.metadata, d.valid)
        body_read

  pub read_frame_built :
      1 ≤ length m
      → length m ≤ 4096
      → 2 ≤ length o
      → length o ≤ 786_432
      → size ≤ 1_048_576
      → read_frame platform registry bytes ≡ ok tx
  unfolding read_frame read_lengths
  read_frame_built a b c e f =
      let passes : (size == size && complement size == complement size) ≡ true =
        both_same size (complement size) in
      rw
        (
          frame_plausible platform registry m o a b c e f,
          all_there wal_prefix_bytes (omega arith),
          field_8 m o digest b e,
          field_12 m o digest b e,
          field_16 m o digest b e,
          field_20 m o digest b e,
          passes,
        )
        metadata_read
