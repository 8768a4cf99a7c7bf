-- ===== src/Wal/Stream.antt =====
-- The loop and the calls of the stream scanner of src/persistence/walStream.ts.
pub mod Refusals
pub mod Rounds
pub mod Room
mod Stopped
pub mod Chain
use ether_memories.Prelude.{
  ℕ, zero, suc, ◌+◌, ◌-◌, ◌^◌, Bool, true, false, not, ◌&&◌, ◌||◌, Option, none, some, List, [],
  ◌∷◌, ◌++◌, length, take, drop, ltb, ◌==◌, if◌then◌else◌,
}
use ether_memories.Result.{Result, ok, err, ErrorCode, ◌>>=◌, require_that}
use ether_memories.Result.ErrorCode.{recovery_required, persistence_corruption}
use ether_memories.Text.{Text, same}
use ether_memories.Bytes.{Bytes, read_u32}
use ether_memories.Durable.{CommittedTip, DurableTransaction, same_tip}
use ether_memories.Codecs.{PersistedStoreHead}
use ether_memories.Wal.{wal_limits, wal_prefix_bytes}
use ether_memories.Wal.Registry.{ReplayRegistry}
use ether_memories.Wal.Frame.{Platform, decode_wal_frame}
use ether_memories.Wal.Scan.{
  WalTail, no_tail, pending_tail, incomplete_tail, repeats, checkpoint_wal_anchor,
}
use ether_memories.Wal.Round.{
  WalContinuation, WalBatch, WalStreamScanner, Round, create, fill, aim, after_frame_prefix,
  finish_duplicate, finish_transaction, take_transaction,
}

-- After a buffer that was full: `later` goes on, and a failure leaves the buffer as it is.
abbrev pub go_on : Round → Result Round → (Round → Round) → Round
go_on filled (ok r) later = later r
go_on filled (err e) later = filled

module _ (platform : Platform) (registry : ReplayRegistry) (store_id : Text) (offset : ℕ) where
  -- A round whose buffer has reached its target.
  unfoldable pub full_buffer : Round → Result Round
  unfolding decode_wal_frame read_u32 take_transaction
  full_buffer r =
      let decoded = decode_wal_frame platform registry r.pending in
      if r.target == wal_prefix_bytes
      then after_frame_prefix r decoded
      else (decoded >>= take_transaction store_id offset r)

  -- The loop, on the input that is left: each round consumes some of it, so that its length is
  -- enough for the count of rounds.
  unfoldable pub rounds : ℕ → Bytes → Round → Result Round
  unfolding full_buffer
  rounds zero rest r = ok r
  rounds (suc fuel) [] r = ok r
  rounds (suc fuel) (b ∷ rest) r =
      let filled = fill (b ∷ rest) r in
      let left = drop (r.target - length r.pending) (b ∷ rest) in
      elim (ltb r.physical wal_limits.frames) [
        | false ↦ ok r
        | true ↦ elim (ltb (length filled.pending) filled.target) [
          | true ↦ ok filled
          | false ↦ full_buffer filled >>= rounds fuel left
        ]
      ]

  -- What the buffer, the target and the last new frame are when the loop stops, at its end or where
  -- it fails.
  unfoldable pub stopped : ℕ → Bytes → Round → Round
  unfolding full_buffer
  stopped zero rest r = r
  stopped (suc fuel) [] r = r
  stopped (suc fuel) (b ∷ rest) r =
      let filled = fill (b ∷ rest) r in
      let left = drop (r.target - length r.pending) (b ∷ rest) in
      elim (ltb r.physical wal_limits.frames) [
        | false ↦ r
        | true ↦ elim (ltb (length filled.pending) filled.target) [
          | true ↦ filled
          | false ↦ go_on filled (full_buffer filled) (stopped fuel left)
        ]
      ]

  -- What is left in the buffer must be the beginning of a frame.
  abbrev pub beginning : Result DurableTransaction → Result {0} Unit
  beginning (ok tx) = err ErrorCode.persistence_corruption
  beginning (err ErrorCode.recovery_required) = ok tt
  beginning (err e) = err e

  abbrev pub check_pending : Bytes → Result {0} Unit
  check_pending [] = ok tt
  check_pending (b ∷ pending) = beginning (decode_wal_frame platform registry (b ∷ pending))

  unfoldable pub process : Bytes → Round → Result Round
  unfolding rounds decode_wal_frame
  process input r =
      rounds (length input) input r >>= λ last. check_pending last.pending >>= λ _. ok last

abbrev first_round : WalStreamScanner → WalContinuation → Round
first_round s cursor = record {
  consumed = 0;
  physical = 0;
  duplicates = 0;
  tip = cursor.tip;
  complete_bytes = cursor.complete_bytes;
  transactions = [];
  pending = s.pending;
  target = s.target;
  previous = s.previous;
}

abbrev tail_of : Bytes → Bool → WalTail
tail_of [] ended = no_tail
tail_of (b ∷ pending) ended = if ended then incomplete_tail else pending_tail

abbrev continue_at : WalContinuation → Round → Bool → WalContinuation
continue_at cursor r ended = record {
  token = suc cursor.token;
  offset = cursor.offset + r.consumed;
  complete_bytes = r.complete_bytes;
  tip = r.tip;
  tail = tail_of r.pending ended;
  ended = ended;
}

-- The scanner after the loop, which stopped with `last`: `reject` marks a failure, and success gives
-- a new continuation.
abbrev pub settle :
    WalStreamScanner
    → WalContinuation
    → Bytes
    → Bool
    → Round
    → Result Round
    → WalStreamScanner × Result WalBatch
settle s cursor input final last (err e) = (
  record {
    store_id = s.store_id;
    current = s.current;
    pending = last.pending;
    target = last.target;
    previous = last.previous;
    failed = true;
  },
  err e,
)
settle s cursor input final last (ok r) =
    let next = continue_at cursor r (final && r.consumed == length input) in
    (
      record {
        store_id = s.store_id;
        current = next;
        pending = r.pending;
        target = r.target;
        previous = r.previous;
        failed = false;
      },
      ok (record {
        continuation = next;
        consumed = r.consumed;
        transactions = r.transactions;
        duplicates = r.duplicates;
      }),
    )

-- `scanner.next(cursor, input, final)`; a cursor that passes is the scanner's own continuation.
unfoldable pub next :
    Platform
    → ReplayRegistry
    → WalStreamScanner
    → WalContinuation
    → Bytes
    → Bool
    → WalStreamScanner × Result WalBatch
unfolding process stopped
next platform registry s cursor input final =
    let own = s.current in
    let start = first_round s own in
    let outcome =
      settle s own input final
        (stopped platform registry s.store_id own.offset (length input) input start)
        (process platform registry s.store_id own.offset input start) in
    if s.failed || not (cursor.token == own.token) || own.ended
    then (s, err ErrorCode.recovery_required)
    else if ltb wal_limits.stream_bytes (length input)
        || not (ltb (own.offset + length input) (2 ^ 53))
    then (s, err ErrorCode.persistence_corruption)
    else outcome
