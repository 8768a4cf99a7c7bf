-- ===== src/Wal/Scan/Chain.antt =====
-- What a scan returns is a chain of transactions that starts at the checkpoint.
use ether_memories.Prelude.{
  ℕ, zero, suc, ◌+◌, ◌-◌, ◌≤◌, ◌≡◌, refl, ◌&&◌, not, List, [], ◌∷◌, ◌++◌, length, take, drop, ltb,
  arith,
}
use ether_memories.Result.{Result, ok}
use ether_memories.Result.Ensures.{Ensures, ensured, Ensures-if, >>=-Ensures, require_that-Ensures}
use ether_memories.Text.{Text, same, same_iff}
use ether_memories.Value.{undefined}
use ether_memories.Bytes.{Bytes}
use ether_memories.Bytes.Slices.{length-drop}
use ether_memories.Durable.{CommittedTip, DurableTransaction, same_tip, same_tip_iff}
use ether_memories.Durable.Decimal.{is_successor, is_successor_value, decimal_value}
use ether_memories.Codecs.{PersistedStoreHead}
use ether_memories.Codecs.Head.{encode_store_head}
use ether_memories.Wal.{wal_limits}
use ether_memories.Wal.Registry.{ReplayRegistry}
use ether_memories.Wal.Frame.{Platform, FrameRead, incomplete, complete, read_frame}
use ether_memories.Wal.Frame.Size.{IsWithin, read_frame-IsWithin}
use ether_memories.Wal.Scan.{
  WalScan, Progress, scan_start, accept, repeats, count_duplicate, after_frame, scan_frames,
  checkpoint_wal_anchor, scan_wal,
}

-- A transaction of the store that follows `base`, with the next sequence number of the same epoch.
abbrev pub Follows : Text → CommittedTip → DurableTransaction → Type 0
Follows store_id base tx =
    (tx.store_id ≡ store_id)
    × (tx.identity.epoch_id ≡ base.epoch_id)
    × (tx.expected_base ≡ base)
    × (decimal_value tx.identity.tx_id ≡ decimal_value base.tx_id + 1)

-- Transactions that lead from `base` to `tip`, each one on the one before.
abbrev pub IsChain : Text → CommittedTip → List DurableTransaction → CommittedTip → Type 0
IsChain store_id base [] tip = base ≡ tip
IsChain store_id base (tx ∷ txs) tip =
    Follows store_id base tx × IsChain store_id tx.identity txs tip

pub IsChain-snoc :
    (store_id : Text) (base tip : CommittedTip) (txs : List DurableTransaction)
    (tx : DurableTransaction)
    → IsChain store_id base txs tip
    → Follows store_id tip tx
    → IsChain store_id base (txs ++ tx ∷ []) tx.identity
IsChain-snoc store_id base tip [] tx h f = (rw (← h) at f, refl)
IsChain-snoc store_id base tip (t ∷ txs) tx h f =
    (h.0, IsChain-snoc store_id t.identity tip txs tx h.1 f)

-- The transactions so far lead from the anchor to the tip, and what was read and what is left
-- are the bytes that were given.
abbrev IsGood : Text → CommittedTip → ℕ → Progress → ℕ → Type 0
IsGood store_id anchor total p left =
    IsChain store_id anchor p.transactions p.current × (p.offset + left ≡ total)

abbrev pub IsScan : Text → CommittedTip → ℕ → WalScan → Type 0
IsScan store_id anchor total s =
    IsChain store_id anchor s.transactions s.tip × (s.complete_bytes + s.tail_bytes ≡ total)

module _ (store_id : Text) (anchor : CommittedTip) (total : ℕ) where
  accept-IsGood :
      (next : DurableTransaction) (original : Bytes) (size left : ℕ) (p : Progress)
      → size ≤ left
      → IsGood store_id anchor total p left
      → Ensures
          (λ q. IsGood store_id anchor total q (left - size))
          (accept store_id next original size p)
  unfolding accept
  accept-IsGood next original size left p le good =
      let P : Progress → Type 0 = λ q. IsGood store_id anchor total q (left - size) in
      let count : p.offset + size + (left - size) ≡ total = omega (arith, good.1) in
      require_that-Ensures P
        (same next.store_id store_id && same next.identity.epoch_id p.current.epoch_id) _
        λ here.
          Ensures-if P (same_tip next.identity p.current && repeats p.previous original)
            (ok (count_duplicate size p)) _ (λ _. (good.0, count))
            (λ _.
              require_that-Ensures P
                (same_tip next.expected_base p.current
                  && is_successor p.current.tx_id next.identity.tx_id)
                _
                λ chained.
                  let follows : Follows store_id p.current next = (
                    (same_iff next.store_id store_id).0 (ground arith),
                    (same_iff next.identity.epoch_id p.current.epoch_id).0 (ground arith),
                    (same_tip_iff next.expected_base p.current).0 (ground arith),
                    is_successor_value p.current.tx_id next.identity.tx_id (ground arith),
                  ) in
                  (
                    IsChain-snoc store_id anchor p.current p.transactions next good.0 follows,
                    count,
                  ))

  module _ (platform : Platform) (registry : ReplayRegistry) where
    after_frame-IsScan :
        (continue : Bytes → Progress → Result WalScan)
        → ((rest : Bytes) (p : Progress)
            → IsGood store_id anchor total p (length rest)
            → Ensures (IsScan store_id anchor total) (continue rest p))
        → (rest : Bytes) (p : Progress) (r : FrameRead)
        → IsGood store_id anchor total p (length rest)
        → IsWithin rest r
        → Ensures
            (IsScan store_id anchor total)
            (after_frame platform registry store_id continue rest p r)
    unfolding after_frame
    after_frame-IsScan continue later rest p incomplete good within = good
    after_frame-IsScan continue later rest p (complete next size) good within =
        >>=-Ensures (IsScan store_id anchor total) (accept store_id next (take size rest) size p) _
          λ q e. later (drop size rest) q (
            rw (length-drop size rest) (
              ensured (λ q. IsGood store_id anchor total q (length rest - size))
                (accept store_id next (take size rest) size p) q
                (accept-IsGood next (take size rest) size (length rest) p within.1 good) e))

    scan_frames-IsScan :
        (frames : ℕ) (rest : Bytes) (p : Progress)
        → IsGood store_id anchor total p (length rest)
        → Ensures
            (IsScan store_id anchor total)
            (scan_frames platform registry store_id frames rest p)
    unfolding scan_frames
    scan_frames-IsScan frames [] p good = good
    scan_frames-IsScan zero (b ∷ rest) p good = tt
    scan_frames-IsScan (suc frames) (b ∷ rest) p good =
        >>=-Ensures (IsScan store_id anchor total) (read_frame platform registry (b ∷ rest)) _
          λ r e.
            after_frame-IsScan (scan_frames platform registry store_id frames)
              (λ later q h. scan_frames-IsScan frames later q h) (b ∷ rest) p r good
              (ensured (IsWithin (b ∷ rest)) (read_frame platform registry (b ∷ rest)) r
                (read_frame-IsWithin platform registry (b ∷ rest)) e)

-- The first round, on bytes that are not empty.
pub scan_frames_first :
    (platform : Platform) (registry : ReplayRegistry) (store_id : Text) (frames : ℕ) (bytes : Bytes)
    (p : Progress) (r : FrameRead)
    → 1 ≤ length bytes
    → read_frame platform registry bytes ≡ ok r
    → scan_frames platform registry store_id (suc frames) bytes p
      ≡ after_frame platform registry store_id
          (scan_frames platform registry store_id frames)
          bytes
          p
          r
unfolding scan_frames
scan_frames_first platform registry store_id frames [] p r h e = absurd (omega arith)
scan_frames_first platform registry store_id frames (b ∷ rest) p r h e = rw e refl

pub checkpoint_wal_anchor_tip :
    (platform : Platform) (head : PersistedStoreHead)
    → Ensures (λ t. t ≡ head.checkpoint.tip) (checkpoint_wal_anchor platform head)
unfolding checkpoint_wal_anchor
checkpoint_wal_anchor_tip platform head =
    >>=-Ensures (λ t. t ≡ head.checkpoint.tip) (encode_store_head platform.json head undefined) _
      λ _ _. refl

-- A scan that succeeds returns transactions of the head's store that lead from the tip of its
-- checkpoint to the tip of the scan: each one names the tip before it as its base, is of the same
-- epoch and has the next sequence number. The complete bytes and those of the tail are all bytes.
pub scan_wal-IsScan :
    (platform : Platform) (bytes : Bytes) (head : PersistedStoreHead) (registry : ReplayRegistry)
    (s : WalScan)
    → scan_wal platform bytes head registry ≡ ok s
    → IsScan head.store_id head.checkpoint.tip (length bytes) s
unfolding scan_wal
scan_wal-IsScan platform bytes head registry s h =
    let P = IsScan head.store_id head.checkpoint.tip (length bytes) in
    let anchor = head.checkpoint.tip in
    ensured P (scan_wal platform bytes head registry) s
      (require_that-Ensures P (not (ltb wal_limits.stream_bytes (length bytes))) _ λ _.
        >>=-Ensures P (checkpoint_wal_anchor platform head) _ λ found e.
          let here : found ≡ anchor =
            ensured (λ t. t ≡ anchor) (checkpoint_wal_anchor platform head) found
              (checkpoint_wal_anchor_tip platform head) e in
          rw here (
            scan_frames-IsScan head.store_id anchor (length bytes) platform registry
              wal_limits.frames bytes (scan_start anchor) (refl, omega arith)))
      h
