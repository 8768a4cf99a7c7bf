-- ===== src/Wal/Stream/Chain.antt =====
-- What the stream scanner returns is a chain of transactions, from one continuation to the next.
use ether_memories.Prelude.{
  ℕ, zero, suc, ◌+◌, ◌-◌, ◌^◌, ◌≤◌, ◌≡◌, refl, Bool, true, false, not, ◌&&◌, ◌||◌, ◌==◌, ltb, [],
  ◌∷◌, length, take, drop, arith, if◌then◌else◌,
}
use ether_memories.Result.{Result, ok, err, ErrorCode, ◌>>=◌}
use ether_memories.Result.Ensures.{Ensures, ensured, Ensures-if, >>=-Ensures, require_that-Ensures}
use ether_memories.Text.{Text, same, same_iff}
use ether_memories.Bytes.{Bytes}
use ether_memories.Durable.{CommittedTip, DurableTransaction, same_tip, same_tip_iff}
use ether_memories.Durable.Decimal.{is_successor, is_successor_value}
use ether_memories.Wal.{wal_limits, wal_prefix_bytes}
use ether_memories.Wal.Registry.{ReplayRegistry}
use ether_memories.Wal.Frame.{
  Platform, FrameRead, incomplete, complete, read_frame, single, decode_wal_frame,
}
use ether_memories.Wal.Frame.Size.{IsWithin, read_frame-IsWithin}
use ether_memories.Wal.Scan.{repeats}
use ether_memories.Wal.Scan.Chain.{Follows, IsChain, IsChain-snoc}
use ether_memories.Wal.Round.{
  Round, WalContinuation, WalBatch, WalStreamScanner, fill, after_frame_prefix, finish_duplicate,
  take_transaction,
}
use ether_memories.Wal.Stream.{
  full_buffer, rounds, check_pending, process, first_round, stopped, settle, next,
}

abbrev IsLinked : DurableTransaction → Type 0
IsLinked tx = is_successor tx.expected_base.tx_id tx.identity.tx_id ≡ true

decode_wal_frame-IsLinked :
    (platform : Platform) (registry : ReplayRegistry) (bytes : Bytes)
    → Ensures IsLinked (decode_wal_frame platform registry bytes)
unfolding decode_wal_frame
decode_wal_frame-IsLinked platform registry bytes =
    require_that-Ensures IsLinked (not (ltb wal_limits.frame_bytes (length bytes))) _ λ _.
      >>=-Ensures IsLinked (read_frame platform registry bytes) _ λ r e. alone r (
        ensured (IsWithin bytes) (read_frame platform registry bytes) r
          (read_frame-IsWithin platform registry bytes) e)
  where
    alone :
        (r : FrameRead)
        → IsWithin bytes r
        → Ensures IsLinked (single platform registry (length bytes) r)
    alone incomplete h = tt
    alone (complete tx n) h = Ensures-if IsLinked (n == length bytes) _ _ (λ _. h.2) (λ _. tt)

-- The transactions of the call lead from the tip it began with to the tip so far, and the input
-- is what was consumed and what is left.
abbrev IsRound : Text → CommittedTip → ℕ → Round → ℕ → Type 0
IsRound store_id start total r left =
    IsChain store_id start r.transactions r.tip × (r.consumed + left ≡ total)

module _ (platform : Platform) (registry : ReplayRegistry) (store_id : Text) (offset : ℕ)
    (start : CommittedTip) (total left : ℕ) where
  take_transaction-IsRound :
      (r : Round) (tx : DurableTransaction)
      → IsRound store_id start total r left
      → IsLinked tx
      → Ensures (λ q. IsRound store_id start total q left) (take_transaction store_id offset r tx)
  unfolding take_transaction
  take_transaction-IsRound r tx good linked =
      let P : Round → Type 0 = λ q. IsRound store_id start total q left in
      require_that-Ensures P (same tx.store_id store_id && same tx.identity.epoch_id r.tip.epoch_id)
        _
        λ here.
          Ensures-if P (same_tip tx.identity r.tip && repeats r.previous r.pending)
            (ok (finish_duplicate offset r)) _ (λ _. good)
            (λ _. require_that-Ensures P (same_tip tx.expected_base r.tip) _ λ based.
              let base : tx.expected_base ≡ r.tip = (same_tip_iff tx.expected_base r.tip).0 based in
              let follows : Follows store_id r.tip tx = (
                (same_iff tx.store_id store_id).0 (ground arith),
                (same_iff tx.identity.epoch_id r.tip.epoch_id).0 (ground arith),
                base,
                is_successor_value r.tip.tx_id tx.identity.tx_id (rw base at linked),
              ) in
              (IsChain-snoc store_id start r.tip r.transactions tx good.0 follows, good.1))

  full_buffer-IsRound :
      (r : Round)
      → IsRound store_id start total r left
      → Ensures
          (λ q. IsRound store_id start total q left)
          (full_buffer platform registry store_id offset r)
  unfolding full_buffer
  full_buffer-IsRound r good =
      let P : Round → Type 0 = λ q. IsRound store_id start total q left in
      let decoded = decode_wal_frame platform registry r.pending in
      Ensures-if P (r.target == wal_prefix_bytes) (after_frame_prefix r decoded)
        (decoded >>= take_transaction store_id offset r) (λ _. aimed decoded)
        (λ _. >>=-Ensures P decoded _ λ tx e.
          take_transaction-IsRound r tx good
            (ensured IsLinked decoded tx (decode_wal_frame-IsLinked platform registry r.pending) e))
    where
      aimed :
          (d : Result DurableTransaction)
          → Ensures (λ q. IsRound store_id start total q left) (after_frame_prefix r d)
      aimed (ok tx) = tt
      aimed (err ErrorCode.recovery_required) = good
      aimed (err e) = tt

split_length :
    (n : ℕ) (bytes : Bytes) → length (take n bytes) + length (drop n bytes) ≡ length bytes
split_length zero bytes = omega arith
split_length (suc n) [] = omega arith
split_length (suc n) (b ∷ bytes) = omega (arith, split_length n bytes)

module _ (platform : Platform) (registry : ReplayRegistry) (store_id : Text) (offset : ℕ)
    (start : CommittedTip) (total : ℕ) where
  abbrev IsLast : Round → Type 0
  IsLast q = IsChain store_id start q.transactions q.tip × (q.consumed ≤ total)

  rounds-IsLast :
      (fuel : ℕ) (rest : Bytes) (r : Round)
      → IsRound store_id start total r (length rest)
      → Ensures IsLast (rounds platform registry store_id offset fuel rest r)
  unfolding rounds
  rounds-IsLast zero rest r good = (good.0, omega (arith, good.1))
  rounds-IsLast (suc fuel) [] r good = (good.0, omega (arith, good.1))
  rounds-IsLast (suc fuel) (b ∷ rest) r good =
      let bytes : Bytes = b ∷ rest in
      let n = r.target - length r.pending in
      let filled = fill bytes r in
      let round = full_buffer platform registry store_id offset filled in
      let later = rounds platform registry store_id offset fuel (drop n bytes) in
      let full : IsRound store_id start total filled (length (drop n bytes)) =
        (good.0, omega (arith, good.1, split_length n bytes)) in
      whichever (ltb r.physical wal_limits.frames) (ltb (length filled.pending) filled.target) r
        filled (round >>= later) (good.0, omega (arith, good.1)) (full.0, omega (arith, full.1))
        (>>=-Ensures IsLast round later λ q e. rounds-IsLast fuel (drop n bytes) q (
          ensured (λ q. IsRound store_id start total q (length (drop n bytes))) round q
            (full_buffer-IsRound platform registry store_id offset start total
              (length (drop n bytes)) filled full)
            e))
    where
      whichever :
          (t u : Bool) (r filled : Round) (later : Result Round)
          → IsLast r
          → IsLast filled
          → Ensures IsLast later
          → Ensures IsLast
              (elim t [ false ↦ ok r | true ↦ elim u [ true ↦ ok filled | false ↦ later ] ])
      whichever false u r filled later a b c = a
      whichever true true r filled later a b c = b
      whichever true false r filled later a b c = c

  process-IsLast :
      (input : Bytes) (r : Round)
      → IsRound store_id start total r (length input)
      → Ensures IsLast (process platform registry store_id offset input r)
  unfolding process
  process-IsLast input r good =
      let loop = rounds platform registry store_id offset (length input) input r in
      >>=-Ensures IsLast loop _ λ last e.
        >>=-Ensures IsLast (check_pending platform registry store_id offset last.pending) _
          λ _ _. ensured IsLast loop last (rounds-IsLast (length input) input r good) e

-- The transactions of a batch lead from the tip of the scanner to that of the new continuation, and
-- its offset is that of the old one and what was consumed, which is part of the input.
abbrev pub IsBatch : WalStreamScanner → Bytes → WalBatch → Type 0
IsBatch s input batch =
    IsChain s.store_id s.current.tip batch.transactions batch.continuation.tip
    × (batch.consumed ≤ length input)
    × (batch.continuation.offset ≡ s.current.offset + batch.consumed)

settle-IsBatch :
    (s : WalStreamScanner) (input : Bytes) (final : Bool) (last : Round) (r : Result Round)
    → Ensures
        (λ q. IsChain s.store_id s.current.tip q.transactions q.tip × (q.consumed ≤ length input))
        r
    → Ensures (IsBatch s input) (settle s s.current input final last r).1
settle-IsBatch s input final last (ok q) h = (h.0, h.1, refl)
settle-IsBatch s input final last (err e) h = tt

-- A call of `next` that succeeds returns transactions of the scanner's store that lead from its tip
-- to that of the new continuation, each on the one before with the next sequence number, and moves
-- the offset by what it consumed of the input.
pub next-IsBatch :
    (platform : Platform) (registry : ReplayRegistry) (s : WalStreamScanner)
    (cursor : WalContinuation) (input : Bytes) (final : Bool) (batch : WalBatch)
    → (next platform registry s cursor input final).1 ≡ ok batch
    → IsBatch s input batch
unfolding next
next-IsBatch platform registry s cursor input final batch h =
    let start = first_round s s.current in
    let last = stopped platform registry s.store_id s.current.offset (length input) input start in
    let processed = process platform registry s.store_id s.current.offset input start in
    let good : IsRound s.store_id s.current.tip (length input) (first_round s s.current)
        (length input) =
      (refl, omega arith) in
    let outcome = settle s s.current input final last processed in
    ensured (IsBatch s input) _ batch
      (either (s.failed || not (cursor.token == s.current.token) || s.current.ended)
        (ltb wal_limits.stream_bytes (length input)
          || not (ltb (s.current.offset + length input) (2 ^ 53)))
        outcome
        (settle-IsBatch s input final last processed (
          process-IsLast platform registry s.store_id s.current.offset s.current.tip (length input)
            input (first_round s s.current) good)))
      h
  where
    either :
        (t u : Bool) (outcome : WalStreamScanner × Result WalBatch)
        → Ensures (IsBatch s input) outcome.1
        → Ensures
            (IsBatch s input)
            (if t
              then (s, err ErrorCode.recovery_required)
              else if u
              then (s, err ErrorCode.persistence_corruption)
              else outcome).1
    either true u outcome h = tt
    either false true outcome h = tt
    either false false outcome h = h
