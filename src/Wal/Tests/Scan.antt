-- ===== src/Wal/Tests/Scan.antt =====
-- The theorems about the scan and the replay of a log at the log of one transaction.
use ether_memories.Prelude.{◌+◌, ◌≡◌, refl, [], ◌∷◌, length, take, drop, arith}
use ether_memories.Result.{ok}
use ether_memories.Text.{units, same, includes, code_unit_compare}
use ether_memories.Value.{object, end}
use ether_memories.Bytes.Utf8.{utf8_encode}
use ether_memories.Wal.Registry.{detached_state}
use ether_memories.Wal.Frame.{complete}
use ether_memories.Wal.Scan.{
  WalScan, no_tail, scan_start, accept, push_transaction, after_frame, scan_wal,
}
use ether_memories.Wal.Scan.Chain.{IsChain, scan_wal-IsScan, scan_frames_first}
use ether_memories.Wal.Scan.Cut.{Extends, scan_wal-take}
use ether_memories.Wal.Replay.{
  DetachedReplay, replay_of, replay_operations, replay_transactions, replay_wal,
}
use ether_memories.Wal.Replay.Laws.{Reaches, replay_wal-take}
use ether_memories.Wal.Tests.{
  first_tip, head, platform, registry, tx, size, log, log-length, frame_read, anchored, parse,
}

abbrev scanned : WalScan
scanned = record {
  transactions = tx ∷ [];
  tip = tx.identity;
  duplicates = 0;
  complete_bytes = size;
  tail = no_tail;
  tail_bytes = 0;
}

accepted :
    accept (units "s") tx (take size log) size (scan_start first_tip)
    ≡ ok (push_transaction tx (take size log) size (scan_start first_tip))
unfolding accept same
accepted = refl

nothing_left : drop size log ≡ []
unfolding log
nothing_left = refl

log-scanned : scan_wal platform log head registry ≡ ok scanned
unfolding scan_wal after_frame
log-scanned =
    rw
      (
        log-length,
        anchored,
        scan_frames_first platform registry (units "s") 1023 log (scan_start first_tip)
            (complete tx size) (omega (arith, log-length)) frame_read,
        accepted,
        nothing_left,
      )
      refl

scan_wal-IsScan_example :
    IsChain (units "s") first_tip (tx ∷ []) tx.identity × (size + 0 ≡ length log)
scan_wal-IsScan_example = scan_wal-IsScan platform log head registry scanned log-scanned

scan_wal-take_example :
    (t : WalScan) × (scan_wal platform (take 100 log) head registry ≡ ok t)
    × Extends t.transactions (tx ∷ [])
scan_wal-take_example =
    scan_wal-take platform log head registry scanned 100 (omega (arith, log-length)) log-scanned

abbrev replayed : DetachedReplay
replayed = replay_of scanned (object end)

log-replayed : replay_wal platform log head (object end) registry ≡ ok replayed
unfolding replay_wal replay_transactions replay_operations detached_state parse same utf8_encode
    code_unit_compare includes
log-replayed = rw log-scanned refl

replay_wal-take_example : Reaches platform log head (object end) registry 100 replayed
replay_wal-take_example =
    replay_wal-take platform log head (object end) registry 100 replayed (omega (arith, log-length))
      log-replayed
