-- ===== src/Wal/Scan.antt =====
-- The batch scan of the log, of src/persistence/wal.ts.
pub mod Chain
pub mod Cut
use ether_memories.Prelude.{
  ℕ, zero, suc, ◌+◌, Bool, true, false, not, ◌&&◌, ◌||◌, Option, none, some, List, [], ◌∷◌, ◌++◌,
  length, take, drop, ltb, if◌then◌else◌,
}
use ether_memories.Result.{Result, ok, err, ErrorCode, ◌>>=◌, require_that}
use ether_memories.Result.ErrorCode.{persistence_corruption}
use ether_memories.Text.{Text, same}
use ether_memories.Value.{undefined}
use ether_memories.Bytes.{Bytes}
use ether_memories.Durable.{CommittedTip, DurableTransaction, same_tip}
use ether_memories.Durable.Decimal.{is_successor}
use ether_memories.Json.{wal_corruption}
use ether_memories.Codecs.{PersistedStoreHead}
use ether_memories.Codecs.Head.{encode_store_head}
use ether_memories.Wal.{wal_limits}
use ether_memories.Wal.Registry.{ReplayRegistry}
use ether_memories.Wal.Frame.{Platform, FrameRead, incomplete, complete, read_frame}

-- "none", "pending" and "incomplete"
pub data WalTail : Type 0 where
  no_tail pending_tail incomplete_tail : WalTail

pub record WalScan : Type 0 where
  pub transactions : List DurableTransaction
  pub tip : CommittedTip
  pub duplicates : ℕ
  pub complete_bytes : ℕ
  pub tail : WalTail
  pub tail_bytes : ℕ

-- The variables of the loop.
pub record Progress : Type 0 where
  pub transactions : List DurableTransaction
  pub current : CommittedTip
  pub duplicates : ℕ
  pub previous : Option Bytes
  pub offset : ℕ

abbrev pub scan_start : CommittedTip → Progress
scan_start anchor = record {
  transactions = [];
  current = anchor;
  duplicates = 0;
  previous = none;
  offset = 0;
}

-- `previous && previous.equals(original)`
abbrev pub repeats : Option Bytes → Bytes → Bool
repeats none original = false
repeats (some previous) original = same previous original

abbrev pub count_duplicate : ℕ → Progress → Progress
count_duplicate size p = record {
  transactions = p.transactions;
  current = p.current;
  duplicates = p.duplicates + 1;
  previous = p.previous;
  offset = p.offset + size;
}

abbrev pub push_transaction : DurableTransaction → Bytes → ℕ → Progress → Progress
push_transaction tx original size p = record {
  transactions = p.transactions ++ tx ∷ [];
  current = tx.identity;
  duplicates = p.duplicates;
  previous = some original;
  offset = p.offset + size;
}

-- One complete frame of the loop, of `size` bytes.
unfoldable pub accept : Text → DurableTransaction → Bytes → ℕ → Progress → Result Progress
unfolding same_tip is_successor
accept store_id next original size p =
    require_that (same next.store_id store_id && same next.identity.epoch_id p.current.epoch_id)
    >>= λ _.
        if same_tip next.identity p.current && repeats p.previous original
        then ok (count_duplicate size p)
        else (require_that (
              same_tip next.expected_base p.current
              && is_successor p.current.tx_id next.identity.tx_id)
            >>= λ _. ok (push_transaction next original size p))

abbrev pub scan_of : Progress → WalTail → ℕ → WalScan
scan_of p tail tail_bytes = record {
  transactions = p.transactions;
  tip = p.current;
  duplicates = p.duplicates;
  complete_bytes = p.offset;
  tail = tail;
  tail_bytes = tail_bytes;
}

module _ (platform : Platform) (registry : ReplayRegistry) (store_id : Text) where
  -- The rest of a round, with the later rounds as `continue`.
  unfoldable pub after_frame :
      (Bytes → Progress → Result WalScan) → Bytes → Progress → FrameRead → Result WalScan
  unfolding accept
  after_frame continue rest p incomplete = ok (scan_of p incomplete_tail (length rest))
  after_frame continue rest p (complete next size) =
      accept store_id next (take size rest) size p >>= continue (drop size rest)

  -- The rounds of the loop on the bytes behind the offset, with the frames that are left to it.
  unfoldable pub scan_frames : ℕ → Bytes → Progress → Result WalScan
  unfolding after_frame read_frame
  scan_frames frames [] p = ok (scan_of p no_tail 0)
  scan_frames zero (b ∷ rest) p = wal_corruption
  scan_frames (suc frames) (b ∷ rest) p =
      read_frame platform registry (b ∷ rest) >>= after_frame (scan_frames frames) (b ∷ rest) p

-- `checkpointWalAnchor(head)`
unfoldable pub checkpoint_wal_anchor : Platform → PersistedStoreHead → Result CommittedTip
unfolding encode_store_head
checkpoint_wal_anchor platform head =
    encode_store_head platform.json head undefined >>= λ _. ok head.checkpoint.tip

-- `scanWal(bytes, head, registry)`
unfoldable pub scan_wal : Platform → Bytes → PersistedStoreHead → ReplayRegistry → Result WalScan
unfolding checkpoint_wal_anchor scan_frames
scan_wal platform bytes head registry =
    require_that (not (ltb wal_limits.stream_bytes (length bytes))) >>= λ _.
    checkpoint_wal_anchor platform head >>= λ anchor.
    scan_frames platform registry head.store_id wal_limits.frames bytes (scan_start anchor)
