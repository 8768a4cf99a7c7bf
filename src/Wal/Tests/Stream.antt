-- ===== src/Wal/Tests/Stream.antt =====
-- The theorems about the stream scanner at calls with parts of a log.
use ether_memories.Prelude.{◌≡◌, ◌<◌, refl, false, none, [], ◌∷◌, length, arith}
use ether_memories.Result.{ok, err, ErrorCode}
use ether_memories.Text.{units, same}
use ether_memories.Bytes.{Bytes}
use ether_memories.Wal.Scan.{no_tail, pending_tail}
use ether_memories.Wal.Round.{WalStreamScanner, WalContinuation, WalBatch, Round, create}
use ether_memories.Wal.Stream.{next}
use ether_memories.Wal.Stream.Room.{WalStreamScanner-HasRoom}
use ether_memories.Wal.Stream.Chain.{IsBatch, next-IsBatch}
use ether_memories.Wal.Stream.Refusals.{Call, call, run, next_once, next_rejected_for_good}
use ether_memories.Wal.Tests.{first_tip, head, platform, registry, anchored}

abbrev scanner : WalStreamScanner
scanner = record {
  store_id = units "s";
  current = record {
    token = 4;
    offset = 10;
    complete_bytes = 10;
    tip = first_tip;
    tail = no_tail;
    ended = false;
  };
  pending = [];
  target = 24;
  previous = none;
  failed = false;
}

abbrev after : WalContinuation
after = record {
  token = 5;
  offset = 13;
  complete_bytes = 10;
  tip = first_tip;
  tail = pending_tail;
  ended = false;
}

abbrev three_bytes : Bytes
three_bytes = 0xff ∷ 0x45 ∷ 0x57 ∷ []

abbrev first_call : Call
first_call = record { cursor = scanner.current; input = three_bytes; final = false }

abbrev batch : WalBatch
batch = record { continuation = after; consumed = 3; transactions = []; duplicates = 0 }

first_called : (call platform registry scanner first_call).1 ≡ ok batch
unfolding next same
first_called = refl

next-IsBatch_example : IsBatch scanner three_bytes batch
next-IsBatch_example =
    next-IsBatch platform registry scanner scanner.current three_bytes false batch first_called

next_once_example :
    call platform registry
      (run platform registry (call platform registry scanner first_call).0 (first_call ∷ [])).0
      first_call
    ≡ (
      (run platform registry (call platform registry scanner first_call).0 (first_call ∷ [])).0,
      err ErrorCode.recovery_required,
    )
next_once_example =
    next_once platform registry scanner first_call batch (first_call ∷ []) first_call first_called
      refl

-- A prefix that no frame begins with.
abbrev bad_call : Call
bad_call = record { cursor = scanner.current; input = 0 ∷ []; final = false }

bad_called : (call platform registry scanner bad_call).1 ≡ err ErrorCode.persistence_corruption
unfolding next same
bad_called = refl

next_rejected_for_good_example :
    ((call platform registry scanner bad_call).0.current ≡ scanner.current)
    × (run platform registry
          (call platform registry scanner bad_call).0
          (first_call ∷ bad_call ∷ [])
        ≡ (
          (call platform registry scanner bad_call).0,
          err ErrorCode.recovery_required ∷ err ErrorCode.recovery_required ∷ [],
        ))
next_rejected_for_good_example =
    next_rejected_for_good platform registry scanner bad_call ErrorCode.persistence_corruption
      (first_call ∷ bad_call ∷ []) refl refl refl (omega arith) (omega arith) bad_called

-- What 24 bytes that are no prefix of a frame leave: a full buffer, and a target that it meets.
abbrev zeros_call : Call
zeros_call = record {
  cursor = scanner.current;
  input =
      0 ∷ 0 ∷ 0 ∷ 0 ∷ 0 ∷ 0 ∷ 0 ∷ 0 ∷ 0 ∷ 0 ∷ 0 ∷ 0 ∷ 0 ∷ 0 ∷ 0 ∷ 0 ∷ 0 ∷ 0 ∷ 0 ∷ 0 ∷ 0 ∷ 0 ∷ 0 ∷ 0
      ∷ [];
  final = false;
}

zeros_kept : length (call platform registry scanner zeros_call).0.pending ≡ 24
unfolding next same
zeros_kept = refl

abbrev fresh_scanner : WalStreamScanner
fresh_scanner = record {
  store_id = units "s";
  current = record {
    token = 0;
    offset = 0;
    complete_bytes = 0;
    tip = first_tip;
    tail = no_tail;
    ended = false;
  };
  pending = [];
  target = 24;
  previous = none;
  failed = false;
}

scanner_created : create platform head ≡ ok fresh_scanner
unfolding create
scanner_created = rw anchored refl

abbrev fresh_call : Call
fresh_call = record { cursor = fresh_scanner.current; input = three_bytes; final = false }

fresh_fine : (run platform registry fresh_scanner (fresh_call ∷ [])).0.failed ≡ false
unfolding next run same
fresh_fine = refl

WalStreamScanner-HasRoom_example :
    length (run platform registry fresh_scanner (fresh_call ∷ [])).0.pending
    < (run platform registry fresh_scanner (fresh_call ∷ [])).0.target
WalStreamScanner-HasRoom_example =
    WalStreamScanner-HasRoom platform registry head fresh_scanner (fresh_call ∷ []) scanner_created
      fresh_fine

abbrev round_zero : Round
round_zero = record {
  consumed = 0;
  physical = 0;
  duplicates = 0;
  tip = first_tip;
  complete_bytes = 0;
  transactions = [];
  pending = [];
  target = 24;
  previous = none;
}
