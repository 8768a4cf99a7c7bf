-- ===== src/Wal/Round.antt =====
-- What the stream scanner of src/persistence/walStream.ts holds, and the rounds of its loop. A
-- continuation is an object that is compared by identity, here a token that no other continuation of
-- the scanner has.
use ether_memories.Prelude.{
  ℕ, ◌+◌, ◌-◌, Bool, false, ◌&&◌, Option, none, some, List, [], ◌∷◌, ◌++◌, length, take,
  if◌then◌else◌,
}
use ether_memories.Result.{Result, ok, err, ErrorCode, ◌>>=◌, require_that}
use ether_memories.Text.{Text, same}
use ether_memories.Bytes.{Bytes, read_u32}
use ether_memories.Durable.{CommittedTip, DurableTransaction, same_tip}
use ether_memories.Codecs.{PersistedStoreHead}
use ether_memories.Wal.{wal_prefix_bytes}
use ether_memories.Wal.Frame.{Platform}
use ether_memories.Wal.Scan.{WalTail, no_tail, repeats, checkpoint_wal_anchor}

pub record WalContinuation : Type 0 where
  pub token : ℕ
  pub offset : ℕ
  pub complete_bytes : ℕ
  pub tip : CommittedTip
  pub tail : WalTail
  pub ended : Bool

pub record WalBatch : Type 0 where
  pub continuation : WalContinuation
  pub consumed : ℕ
  pub transactions : List DurableTransaction
  pub duplicates : ℕ

-- `pending` is the part of the buffer that is in use, and `previous` the last frame that was new.
pub record WalStreamScanner : Type 0 where
  pub store_id : Text
  pub current : WalContinuation
  pub pending : Bytes
  pub target : ℕ
  pub previous : Option Bytes
  pub failed : Bool

-- The variables of a call of `next`.
pub record Round : Type 0 where
  pub consumed : ℕ
  pub physical : ℕ
  pub duplicates : ℕ
  pub tip : CommittedTip
  pub complete_bytes : ℕ
  pub transactions : List DurableTransaction
  pub pending : Bytes
  pub target : ℕ
  pub previous : Option Bytes

-- `WalStreamScanner.create(head, registry)`
unfoldable pub create : Platform → PersistedStoreHead → Result WalStreamScanner
unfolding checkpoint_wal_anchor
create platform head = checkpoint_wal_anchor platform head >>= λ anchor. ok (record {
  store_id = head.store_id;
  current = record {
    token = 0;
    offset = 0;
    complete_bytes = 0;
    tip = anchor;
    tail = no_tail;
    ended = false;
  };
  pending = [];
  target = wal_prefix_bytes;
  previous = none;
  failed = false;
})

-- The buffer is filled up to the target, as far as the input goes.
abbrev pub fill : Bytes → Round → Round
fill rest r = record {
  consumed = r.consumed + length (take (r.target - length r.pending) rest);
  physical = r.physical;
  duplicates = r.duplicates;
  tip = r.tip;
  complete_bytes = r.complete_bytes;
  transactions = r.transactions;
  pending = r.pending ++ take (r.target - length r.pending) rest;
  target = r.target;
  previous = r.previous;
}

-- The whole frame is wanted, as its prefix gives its length.
abbrev pub aim : Round → Round
aim r = record {
  consumed = r.consumed;
  physical = r.physical;
  duplicates = r.duplicates;
  tip = r.tip;
  complete_bytes = r.complete_bytes;
  transactions = r.transactions;
  pending = r.pending;
  target = read_u32 r.pending 16;
  previous = r.previous;
}

-- A prefix on its own is an incomplete frame, if it is one at all.
abbrev pub after_frame_prefix : Round → Result DurableTransaction → Result Round
after_frame_prefix r (ok tx) = err ErrorCode.persistence_corruption
after_frame_prefix r (err ErrorCode.recovery_required) = ok (aim r)
after_frame_prefix r (err e) = err e

-- A frame that was read, of which the buffer is emptied.
abbrev pub finish_duplicate : ℕ → Round → Round
finish_duplicate offset r = record {
  consumed = r.consumed;
  physical = r.physical + 1;
  duplicates = r.duplicates + 1;
  tip = r.tip;
  complete_bytes = offset + r.consumed;
  transactions = r.transactions;
  pending = [];
  target = wal_prefix_bytes;
  previous = r.previous;
}

abbrev pub finish_transaction : ℕ → DurableTransaction → Round → Round
finish_transaction offset tx r = record {
  consumed = r.consumed;
  physical = r.physical + 1;
  duplicates = r.duplicates;
  tip = tx.identity;
  complete_bytes = offset + r.consumed;
  transactions = r.transactions ++ tx ∷ [];
  pending = [];
  target = wal_prefix_bytes;
  previous = some r.pending;
}

unfoldable pub take_transaction : Text → ℕ → Round → DurableTransaction → Result Round
unfolding same_tip
take_transaction store_id offset r tx =
    require_that (same tx.store_id store_id && same tx.identity.epoch_id r.tip.epoch_id) >>= λ _.
    if same_tip tx.identity r.tip && repeats r.previous r.pending
    then ok (finish_duplicate offset r)
    else (require_that (same_tip tx.expected_base r.tip) >>= λ _.
        ok (finish_transaction offset tx r))
