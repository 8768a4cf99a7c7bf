-- ===== src/Wal/Stream/Rounds.antt =====
-- The loop of the stream scanner ends within as many rounds as its input has bytes.
use ether_memories.Prelude.{
  ℕ, ◌-◌, ◌≤◌, ◌<◌, ◌≡◌, refl, ◌∙◌, Bool, true, false, not, ◌&&◌, ◌==◌, ==_iff, ltb, ◌++◌, length,
  take, length-append, length-take, arith,
}
use ether_memories.Result.{Result, ok, err, ErrorCode, ◌>>=◌, require_that}
use ether_memories.Result.Ensures.{Ensures, Ensures-if, >>=-Ensures, require_that-Ensures}
use ether_memories.Text.{Text, same}
use ether_memories.Bytes.{Bytes, read_u32, complement}
use ether_memories.Durable.{DurableTransaction, same_tip}
use ether_memories.Wal.{wal_limits, wal_prefix_bytes}
use ether_memories.Wal.Registry.{ReplayRegistry}
use ether_memories.Wal.Frame.{
  Platform, FrameRead, total_bytes, plausible_prefix, read_lengths, read_frame, single,
  decode_wal_frame,
}
use ether_memories.Wal.Scan.{repeats}
use ether_memories.Wal.Round.{Round, fill, after_frame_prefix, finish_duplicate, take_transaction}
use ether_memories.Wal.Stream.{full_buffer}

-- The buffer has room up to its target.
abbrev pub IsOpen : Round → Type 0
IsOpen r = length r.pending < r.target

large_total : (h o n : ℕ) (t : Bool) → (n == total_bytes h o && t) ≡ true → wal_prefix_bytes < n
large_total h o n t e = ground arith

module _ (platform : Platform) (registry : ReplayRegistry) where
  -- A chain that does not end in a corruption passes its first test.
  passed :
      {A : Type 0} (t : Bool) (f : Unit {0} → Result A)
      → (require_that t >>= f) ≡ err ErrorCode.recovery_required
      → (t ≡ true) × (f tt ≡ err ErrorCode.recovery_required)
  passed true f h = (refl, h)
  passed false f h = ground arith

  passed_single :
      (t : Bool) (f : Unit {0} → Result FrameRead) (n : ℕ)
      → (require_that t >>= f >>= single platform registry n) ≡ err ErrorCode.recovery_required
      → (t ≡ true) × ((f tt >>= single platform registry n) ≡ err ErrorCode.recovery_required)
  passed_single true f n h = (refl, h)
  passed_single false f n h = ground arith

  -- A prefix that is the beginning of a frame says that the frame is longer.
  prefix_total :
      (p : Bytes)
      → length p ≡ wal_prefix_bytes
      → decode_wal_frame platform registry p ≡ err ErrorCode.recovery_required
      → wal_prefix_bytes < read_u32 p 16
  unfolding decode_wal_frame read_frame read_lengths
  prefix_total p len h =
      let h0 = read_u32 p 8 in
      let o0 = read_u32 p 12 in
      let total = total_bytes h0 o0 in
      let (_, h1) = passed (not (ltb wal_limits.frame_bytes (length p))) _ h in
      let (_, h2) = passed_single (plausible_prefix p) _ (length p) h1 in
      let whole : ltb (length p) wal_prefix_bytes ≡ false = rw len refl in
      let h3 = rw whole at h2 in
      let (e, _) =
        passed_single (read_u32 p 16 == total && read_u32 p 20 == complement total) _ (length p)
          h3 in
      large_total h0 o0 (read_u32 p 16) (read_u32 p 20 == complement total) e

module _ (platform : Platform) (registry : ReplayRegistry) (store_id : Text) (offset : ℕ) where
  take_transaction-IsOpen :
      (r : Round) (tx : DurableTransaction) → Ensures IsOpen (take_transaction store_id offset r tx)
  unfolding take_transaction
  take_transaction-IsOpen r tx =
      require_that-Ensures IsOpen
        (same tx.store_id store_id && same tx.identity.epoch_id r.tip.epoch_id) _
        λ _.
          Ensures-if IsOpen (same_tip tx.identity r.tip && repeats r.previous r.pending)
            (ok (finish_duplicate offset r)) _ (λ _. omega arith)
            (λ _. require_that-Ensures IsOpen (same_tip tx.expected_base r.tip) _ λ _. omega arith)

  -- A buffer that was filled up to its target has room again after its round.
  pub full_buffer-IsOpen :
      (r : Round)
      → length r.pending ≡ r.target
      → Ensures IsOpen (full_buffer platform registry store_id offset r)
  unfolding full_buffer
  full_buffer-IsOpen r full =
      let decoded = decode_wal_frame platform registry r.pending in
      Ensures-if IsOpen (r.target == wal_prefix_bytes) (after_frame_prefix r decoded)
        (decoded >>= take_transaction store_id offset r)
        (λ e. aimed decoded (λ h.
          let len : length r.pending ≡ wal_prefix_bytes =
            full ∙ (==_iff r.target wal_prefix_bytes).0 e in
          rw len (prefix_total platform registry r.pending len h)))
        (λ _. >>=-Ensures IsOpen decoded _ λ tx _. take_transaction-IsOpen r tx)
    where
      aimed :
          (d : Result DurableTransaction)
          → (d ≡ err ErrorCode.recovery_required → length r.pending < read_u32 r.pending 16)
          → Ensures IsOpen (after_frame_prefix r d)
      aimed (ok tx) h = tt
      aimed (err ErrorCode.recovery_required) h = h refl
      aimed (err e) h = tt

  pub filled_up :
      (r : Round) (bytes : Bytes)
      → IsOpen r
      → ltb (length (fill bytes r).pending) (fill bytes r).target ≡ false
      → length (fill bytes r).pending ≡ r.target
  filled_up r bytes open_ h =
      let taken = take (r.target - length r.pending) bytes in
      omega (
        arith,
        length-append r.pending taken,
        length-take (r.target - length r.pending) bytes,
        not_below (length (r.pending ++ taken)) r.target h,
      )
    where
      not_below : (a b : ℕ) → ltb a b ≡ false → b ≤ a
      not_below a b h = ground arith
