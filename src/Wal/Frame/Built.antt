-- ===== src/Wal/Frame/Built.antt =====
-- The parts of a frame as `encodeWalFrame` puts it together.
pub mod Decoded
use ether_memories.Prelude.{
  ℕ, ◌+◌, ◌≤◌, ◌<◌, ◌^◌, ◌≡◌, refl, sym, ap, ◌∙◌, Bool, true, false, not, ◌&&◌, ◌||◌, ◌==◌, List,
  [], ◌++◌, append_assoc, length, length-append, take, ltb, leb, arith, if◌then◌else◌,
}
use mathlib.Core.List.{append-nil}
use ether_memories.Result.{Result, ok, err, ErrorCode, ◌>>=◌, require_that}
use ether_memories.Result.Ensures.{ensured, require_that-Ensures}
use ether_memories.Text.{same, same_refl}
use ether_memories.Value.{Value}
use ether_memories.Bytes.{
  Bytes, subarray, read_u32, u32_bytes, big_endian-u32_bytes, complement, hex,
}
use ether_memories.Bytes.Slices.{take-append, take_all, subarray-append}
use ether_memories.Durable.{WalOperation}
use ether_memories.Json.{decode_canonical_json}
use ether_memories.Json.Nesting.{commas_within}
use ether_memories.Wal.{magic, wal_limits, wal_prefix_bytes, json_bounds, end_mark, trailer_bytes}
use ether_memories.Wal.Registry.{ReplayRegistry}
use ether_memories.Wal.Header.{Header, validate_header}
use ether_memories.Wal.Operations.{validate_operations}
use ether_memories.Wal.Frame.{
  Platform, FrameRead, complete, prefix, total_bytes, transaction, frame_digest, plausible_prefix,
  read_trailer, read_body, read_metadata, read_lengths, read_frame, decode_wal_frame, build_frame,
  WalFrame,
}

module _ (m o hash : Bytes) where
  abbrev built : Bytes
  built = prefix (length m) (length o) ++ (m ++ (o ++ (hash ++ end_mark)))

  module _ (m_size : length m ≤ 4096) (o_size : length o ≤ 786_432) where
    field_8 : read_u32 built 8 ≡ length m
    unfolding read_u32 prefix u32_bytes
    field_8 = big_endian-u32_bytes (length m) (omega arith)

    field_12 : read_u32 built 12 ≡ length o
    unfolding read_u32 prefix u32_bytes
    field_12 = big_endian-u32_bytes (length o) (omega arith)

    field_16 : read_u32 built 16 ≡ total_bytes (length m) (length o)
    unfolding read_u32 prefix u32_bytes
    field_16 = big_endian-u32_bytes (total_bytes (length m) (length o)) (omega arith)

    field_20 : read_u32 built 20 ≡ complement (total_bytes (length m) (length o))
    unfolding read_u32 prefix u32_bytes
    field_20 = big_endian-u32_bytes (complement (total_bytes (length m) (length o))) (omega arith)

  length-prefix : length (prefix (length m) (length o)) ≡ wal_prefix_bytes
  unfolding prefix u32_bytes
  length-prefix = refl

  built-prefix : take wal_prefix_bytes built ≡ prefix (length m) (length o)
  built-prefix = rw (← length-prefix) (take-append (prefix (length m) (length o)) _)

  length-built : length hash ≡ 32 → length built ≡ total_bytes (length m) (length o)
  length-built h =
      let rest = m ++ (o ++ (hash ++ end_mark)) in
      omega (
        arith,
        length-append (prefix (length m) (length o)) rest,
        length-prefix,
        length-append m (o ++ (hash ++ end_mark)),
        length-append o (hash ++ end_mark),
        length-append hash end_mark,
        h,
      )

  built_metadata : subarray built wal_prefix_bytes (wal_prefix_bytes + length m) ≡ m
  built_metadata =
      rw (← length-prefix)
        (subarray-append (prefix (length m) (length o)) m (o ++ (hash ++ end_mark)))

  built_body :
      subarray built (wal_prefix_bytes + length m) (wal_prefix_bytes + length m + length o) ≡ o
  built_body =
      let p = prefix (length m) (length o) in
      let front : length (p ++ m) ≡ wal_prefix_bytes + length m =
        length-append p m ∙ rw length-prefix refl in
      rw (← front, ← append_assoc p m (o ++ (hash ++ end_mark)))
        (subarray-append (p ++ m) o (hash ++ end_mark))

  built_trailer :
      length hash ≡ 32
      → subarray built (wal_prefix_bytes + length m + length o) (total_bytes (length m) (length o))
        ≡ hash ++ end_mark
  built_trailer h =
      let p = prefix (length m) (length o) in
      let end_part = hash ++ end_mark in
      let front : length ((p ++ m) ++ o) ≡ wal_prefix_bytes + length m + length o =
        length-append (p ++ m) o ∙ rw (length-append p m, length-prefix) refl in
      let part : length end_part ≡ trailer_bytes = length-append hash end_mark ∙ rw h refl in
      let parts : built ≡ ((p ++ m) ++ o) ++ (end_part ++ []) =
        rw (append-nil end_part, append_assoc (p ++ m) o end_part, append_assoc p m (o ++ end_part))
          refl in
      rw (← front, ← part, parts) (subarray-append ((p ++ m) ++ o) end_part [])

-- A length within its bounds passes, whether it is there or not.
within_passes :
    (k n low high x : ℕ) → low ≤ x → x ≤ high → not (leb k n && (ltb x low || ltb high x)) ≡ true
within_passes k n low high x a b = ground arith

below_passes : (k n high x : ℕ) → x ≤ high → not (leb k n && ltb high x) ≡ true
below_passes k n high x h = ground arith

module _ (platform : Platform) (registry : ReplayRegistry) (m o : Bytes) where
  abbrev hash : Bytes
  hash = frame_digest platform (prefix (length m) (length o)) m o

  abbrev frame : Bytes
  frame = built m o hash

  abbrev total : ℕ
  total = total_bytes (length m) (length o)

  frame_plausible :
      1 ≤ length m
      → length m ≤ 4096
      → 2 ≤ length o
      → length o ≤ 786_432
      → total ≤ 1_048_576
      → plausible_prefix frame ≡ true
  unfolding plausible_prefix
  frame_plausible a b c d e =
      let n = length frame in
      rw
        (
          field_8 m o hash b d,
          field_12 m o hash b d,
          field_16 m o hash b d,
          magic_first,
          within_passes 12 n 1 4096 (length m) a b,
          within_passes 16 n 2 786_432 (length o) c d,
          below_passes 20 n 1_048_576 total e,
        )
        refl
    where
      magic_first : same (take 8 frame) (take (length frame) magic) ≡ true
      magic_first = unfold prefix same u32_bytes in refl
