-- ===== src/Wal/Frame/Size.antt =====
-- The size of a complete frame, and the sequence number of its transaction.
use ether_memories.Prelude.{
  ℕ, ◌+◌, ◌≤◌, ◌≡◌, Bool, ◌&&◌, ◌==◌, length, take, ltb, true, arith, if◌then◌else◌,
}
use ether_memories.Result.{ok}
use ether_memories.Result.Ensures.{
  Ensures, ensured, require-Ensures, Ensures-if, >>=-Ensures, require_that-Ensures,
}
use ether_memories.Text.{same}
use ether_memories.Value.{Value}
use ether_memories.Bytes.{Bytes, subarray, read_u32, complement, hex}
use ether_memories.Bytes.Utf8.{streams}
use ether_memories.Durable.Decimal.{is_successor}
use ether_memories.Json.Records.{is_record}
use ether_memories.Json.{decode_canonical_json, wal_corruption}
use ether_memories.Json.Nesting.{commas_within}
use ether_memories.Wal.{wal_limits, wal_prefix_bytes, json_bounds}
use ether_memories.Wal.Registry.{ReplayRegistry}
use ether_memories.Wal.Header.{Header, validate_header, supported_format, read_header}
use ether_memories.Wal.Operations.{validate_operations}
use ether_memories.Wal.Frame.{
  Platform, FrameRead, incomplete, complete, transaction, frame_digest, total_bytes,
  plausible_prefix, read_trailer, read_body, read_metadata, read_lengths, read_frame,
}

-- A complete frame is within the bytes, has its prefix and its trailer, and the sequence number of its
-- transaction is the one after that of its base.
abbrev pub IsWithin : Bytes → FrameRead → Type 0
IsWithin frame incomplete = Unit
IsWithin frame (complete tx n) =
    (64 ≤ n) × (n ≤ length frame) × (is_successor tx.expected_base.tx_id tx.identity.tx_id ≡ true)

both_hold : (a b : Bool) → (a && b) ≡ true → b ≡ true
both_hold a b h = ground arith

abbrev IsLinkedHeader : Header → Type 0
IsLinkedHeader header = is_successor header.base.tx_id header.tx_id ≡ true

validate_header-IsLinkedHeader : (value : Value) → Ensures IsLinkedHeader (validate_header value)
unfolding validate_header
validate_header-IsLinkedHeader value =
    let P = IsLinkedHeader in
    require-Ensures P (is_record value) _ λ fs _. >>=-Ensures P (supported_format fs) _ λ _ _.
      >>=-Ensures P (read_header fs) _ λ header _.
        require_that-Ensures P
          (same header.epoch_id header.base.epoch_id && is_successor header.base.tx_id header.tx_id)
          _
          λ e.
            both_hold (same header.epoch_id header.base.epoch_id)
              (is_successor header.base.tx_id header.tx_id) e

module _ (platform : Platform) (registry : ReplayRegistry) (frame : Bytes) where
  read_trailer-IsWithin :
      (body_end total : ℕ) (header : Header) (parsed : Value) (hash : Bytes)
      → 64 ≤ total
      → IsLinkedHeader header
      → Ensures
          (IsWithin frame)
          (read_trailer platform registry frame body_end total header parsed hash)
  unfolding read_trailer
  read_trailer-IsWithin body_end total header parsed hash large linked =
      let P = IsWithin frame in
      require_that-Ensures P (same (subarray frame body_end total) _) _ λ _.
        >>=-Ensures P (validate_operations platform.json registry parsed header.operation_count) _
          λ ops _.
            Ensures-if P (ltb (length frame) total) (ok incomplete)
              (ok (complete (transaction header ops (hex hash)) total)) (λ _. tt)
              (λ long. (large, ground arith, linked))

  read_metadata-IsWithin :
      (header_end body_end total : ℕ)
      → 64 ≤ total
      → Ensures (IsWithin frame) (read_metadata platform registry frame header_end body_end total)
  unfolding read_metadata read_body
  read_metadata-IsWithin header_end body_end total large =
      let P = IsWithin frame in
      let metadata = subarray frame wal_prefix_bytes header_end in
      let body = subarray frame header_end body_end in
      Ensures-if P (ltb (length frame) header_end)
        (if streams metadata then ok incomplete else wal_corruption) _
        (λ _. Ensures-if P (streams metadata) (ok incomplete) wal_corruption (λ _. tt) (λ _. tt))
        (λ _.
          >>=-Ensures P
            (decode_canonical_json platform.json (json_bounds wal_limits.metadata_bytes) metadata) _
            λ value _. >>=-Ensures P (validate_header value) _ λ header v.
              require_that-Ensures P (commas_within wal_limits.operations body) _ λ _.
                Ensures-if P (ltb (length frame) body_end)
                  (if streams body then ok incomplete else wal_corruption) _
                  (λ _.
                    Ensures-if P (streams body) (ok incomplete) wal_corruption (λ _. tt) (λ _. tt))
                  (λ _.
                    >>=-Ensures P
                      (decode_canonical_json platform.json
                        (json_bounds wal_limits.operation_list_bytes) body)
                      _
                      λ parsed _.
                        read_trailer-IsWithin body_end total header parsed
                          (frame_digest platform (take wal_prefix_bytes frame) metadata body) large
                          (ensured IsLinkedHeader (validate_header value) header
                            (validate_header-IsLinkedHeader value) v)))

  pub read_frame-IsWithin : Ensures (IsWithin frame) (read_frame platform registry frame)
  unfolding read_frame read_lengths
  read_frame-IsWithin =
      let P = IsWithin frame in
      let h = read_u32 frame 8 in
      let o = read_u32 frame 12 in
      require_that-Ensures P (plausible_prefix frame) _ λ _.
        Ensures-if P (ltb (length frame) wal_prefix_bytes) (ok incomplete)
          (read_lengths platform registry frame) (λ _. tt)
          (λ _.
            require_that-Ensures P
              (read_u32 frame 16 == total_bytes h o
                && read_u32 frame 20 == complement (total_bytes h o))
              _
              λ _.
                read_metadata-IsWithin (wal_prefix_bytes + h) (wal_prefix_bytes + h + o)
                  (total_bytes h o) (omega arith))
