-- ===== src/Wal/Scan/Cut.antt =====
-- The scan of a log that was cut short, as a crash leaves it.
use ether_memories.Prelude.{
  ℕ, zero, suc, ◌-◌, ◌≤◌, ◌≡◌, refl, sym, ◌∙◌, Bool-cases, inl, inr, true, ◌&&◌, not, List, [], ◌∷◌,
  ◌++◌, append_assoc, length, take, drop, ltb, arith,
}
use mathlib.Core.List.{append-nil}
use ether_memories.Result.{Result, ok}
use ether_memories.Result.Ensures.{
  Ensures, ensured, Ensures-of, Ensures-if, >>=-Ensures, require_that-Ensures,
}
use ether_memories.Text.{Text, same}
use ether_memories.Bytes.{Bytes}
use ether_memories.Bytes.Slices.{take-take, drop-take, length-take_in, length-drop}
use ether_memories.Durable.{DurableTransaction, same_tip}
use ether_memories.Durable.Decimal.{is_successor}
use ether_memories.Codecs.{PersistedStoreHead}
use ether_memories.Wal.{wal_limits}
use ether_memories.Wal.Registry.{ReplayRegistry}
use ether_memories.Wal.Frame.{Platform, FrameRead, incomplete, complete, read_frame}
use ether_memories.Wal.Frame.Size.{IsWithin, read_frame-IsWithin}
use ether_memories.Wal.Frame.Cut.{cut}
use ether_memories.Wal.Frame.Cut.Whole.{read_frame-take}
use ether_memories.Wal.Scan.{
  WalScan, Progress, no_tail, incomplete_tail, scan_of, scan_start, accept, repeats,
  count_duplicate, after_frame, scan_frames, checkpoint_wal_anchor, scan_wal,
}

-- The second list is the first with more behind it.
abbrev pub Extends : List DurableTransaction → List DurableTransaction → Type 0
Extends txs more = (later : List DurableTransaction) × (txs ++ later ≡ more)

still_bounded : (limit m n : ℕ) → n ≤ m → not (ltb limit m) ≡ true → not (ltb limit n) ≡ true
still_bounded limit m n le h = ground arith

Extends-refl : (txs : List DurableTransaction) → Extends txs txs
Extends-refl txs = ([], append-nil txs)

Extends-trans : (r s t : List DurableTransaction) → Extends r s → Extends s t → Extends r t
Extends-trans r s t (a, p) (b, q) = (a ++ b, sym (append_assoc r a b) ∙ rw p q)

module _ (platform : Platform) (registry : ReplayRegistry) (store_id : Text) where
  accept-Extends :
      (next : DurableTransaction) (original : Bytes) (size : ℕ) (p : Progress)
      → Ensures (λ q. Extends p.transactions q.transactions) (accept store_id next original size p)
  unfolding accept
  accept-Extends next original size p =
      let P : Progress → Type 0 = λ q. Extends p.transactions q.transactions in
      require_that-Ensures P
        (same next.store_id store_id && same next.identity.epoch_id p.current.epoch_id) _
        λ _.
          Ensures-if P (same_tip next.identity p.current && repeats p.previous original)
            (ok (count_duplicate size p)) _ (λ _. Extends-refl p.transactions)
            (λ _.
              require_that-Ensures P
                (same_tip next.expected_base p.current
                  && is_successor p.current.tx_id next.identity.tx_id)
                _ λ _. (next ∷ [], refl))

  after_frame-Extends :
      (continue : Bytes → Progress → Result WalScan)
      → ((rest : Bytes) (p : Progress)
          → Ensures (λ s. Extends p.transactions s.transactions) (continue rest p))
      → (rest : Bytes) (p : Progress) (r : FrameRead)
      → Ensures
          (λ s. Extends p.transactions s.transactions)
          (after_frame platform registry store_id continue rest p r)
  unfolding after_frame
  after_frame-Extends continue h rest p incomplete = Extends-refl p.transactions
  after_frame-Extends continue h rest p (complete next size) =
      let P : WalScan → Type 0 = λ s. Extends p.transactions s.transactions in
      let Q : Progress → Type 0 = λ q. Extends p.transactions q.transactions in
      let accepted = accept store_id next (take size rest) size p in
      >>=-Ensures P accepted _ λ q e.
        let later = continue (drop size rest) q in
        Ensures-of P later λ s found.
          Extends-trans p.transactions q.transactions s.transactions
            (ensured Q accepted q (accept-Extends next (take size rest) size p) e)
            (ensured (λ s. Extends q.transactions s.transactions) later s (h (drop size rest) q)
              found)

  -- Later rounds only add transactions.
  scan_frames-Extends :
      (frames : ℕ) (rest : Bytes) (p : Progress)
      → Ensures
          (λ s. Extends p.transactions s.transactions)
          (scan_frames platform registry store_id frames rest p)
  unfolding scan_frames
  scan_frames-Extends frames [] p = Extends-refl p.transactions
  scan_frames-Extends zero (b ∷ rest) p = tt
  scan_frames-Extends (suc frames) (b ∷ rest) p =
      >>=-Ensures (λ s. Extends p.transactions s.transactions)
        (read_frame platform registry (b ∷ rest)) _
        λ r _.
          after_frame-Extends (scan_frames platform registry store_id frames)
            (λ later q. scan_frames-Extends frames later q) (b ∷ rest) p r

  -- The scan of the first `k` bytes succeeds too, with some of the transactions from the front.
  abbrev CutScan : ℕ → ℕ → Bytes → Progress → WalScan → Type 0
  CutScan k frames rest p s =
      (t : WalScan) × (scan_frames platform registry store_id frames (take k rest) p ≡ ok t)
      × Extends t.transactions s.transactions

  -- A first frame that the cut leaves incomplete ends the scan.
  torn :
      (k frames b : ℕ) (rest : Bytes) (p : Progress) (s : WalScan)
      → read_frame platform registry (b ∷ take k rest) ≡ ok incomplete
      → Extends p.transactions s.transactions
      → CutScan (suc k) (suc frames) (b ∷ rest) p s
  unfolding scan_frames after_frame
  torn k frames b rest p s e h =
      (scan_of p incomplete_tail (length (b ∷ take k rest)), rw e refl, h)

  -- The first round of the cut scan, where the first frame is complete.
  accepted_cut :
      (k frames b : ℕ) (rest : Bytes) (p : Progress) (next : DurableTransaction) (size : ℕ)
      (q : Progress) (t : WalScan)
      → read_frame platform registry (b ∷ take k rest) ≡ ok (complete next size)
      → take size (b ∷ take k rest) ≡ take size (b ∷ rest)
      → accept store_id next (take size (b ∷ rest)) size p ≡ ok q
      → scan_frames platform registry store_id frames (take (suc k - size) (drop size (b ∷ rest))) q
        ≡ ok t
      → scan_frames platform registry store_id (suc frames) (b ∷ take k rest) p ≡ ok t
  unfolding scan_frames after_frame
  accepted_cut k frames b rest p next size q t e original a run =
      let left : drop size (b ∷ take k rest) ≡ take (suc k - size) (drop size (b ∷ rest)) =
        drop-take size (suc k) (b ∷ rest) in
      rw (e, original, a, left) run

  round_cut :
      (k frames b : ℕ) (rest : Bytes) (p : Progress)
      → ((j : ℕ) (rest : Bytes) (q : Progress)
          → j ≤ length rest
          → Ensures
              (CutScan j frames rest q)
              (scan_frames platform registry store_id frames rest q))
      → suc k ≤ length (b ∷ rest)
      → (r : FrameRead) → read_frame platform registry (b ∷ take k rest) ≡ ok (cut (suc k) r)
      → IsWithin (b ∷ rest) r
      → Ensures (CutScan (suc k) (suc frames) (b ∷ rest) p) (
          after_frame platform registry store_id
            (scan_frames platform registry store_id frames)
            (b ∷ rest)
            p
            r)
  unfolding after_frame
  round_cut k frames b rest p later le incomplete e within =
      torn k frames b rest p (scan_of p incomplete_tail (length (b ∷ rest))) e
        (Extends-refl p.transactions)
  round_cut k frames b rest p later le (complete next size) e within =
      let P = CutScan (suc k) (suc frames) (b ∷ rest) p in
      let bytes : Bytes = b ∷ rest in
      let continue = scan_frames platform registry store_id frames in
      let accepted = accept store_id next (take size bytes) size p in
      let whole = after_frame platform registry store_id continue bytes p (complete next size) in
      elim (Bool-cases (ltb (suc k) size)) [
        | inl short ↦ Ensures-of P whole λ s found. torn k frames b rest p s (rw short at e) (
            ensured (λ s. Extends p.transactions s.transactions) whole s
              (after_frame-Extends continue (scan_frames-Extends frames) bytes p
                (complete next size))
              found)
        | inr long ↦ >>=-Ensures P accepted _ λ q a.
            let tail = continue (drop size bytes) q in
            Ensures-of P tail λ s found.
              let (t, run, more) =
                ensured (CutScan (suc k - size) frames (drop size bytes) q) tail s
                  (later (suc k - size) (drop size bytes) q
                    (rw (length-drop size bytes) (omega (arith, le))))
                  found in
              (
                t,
                accepted_cut k frames b rest p next size q t (rw long at e)
                    (take-take size (suc k) bytes (ground arith)) a run,
                more,
              )
      ]

  scan_frames_cut :
      (frames k : ℕ) (rest : Bytes) (p : Progress)
      → k ≤ length rest
      → Ensures (CutScan k frames rest p) (scan_frames platform registry store_id frames rest p)
  unfolding scan_frames
  scan_frames_cut frames zero rest p le =
      let whole = scan_frames platform registry store_id frames rest p in
      Ensures-of (CutScan 0 frames rest p) whole λ s found. (
        scan_of p no_tail 0,
        refl,
        ensured (λ s. Extends p.transactions s.transactions) whole s
            (scan_frames-Extends frames rest p) found,
      )
  scan_frames_cut frames (suc k) [] p le = absurd (omega arith)
  scan_frames_cut zero (suc k) (b ∷ rest) p le = tt
  scan_frames_cut (suc frames) (suc k) (b ∷ rest) p le =
      let P = CutScan (suc k) (suc frames) (b ∷ rest) p in
      let read = read_frame platform registry (b ∷ rest) in
      >>=-Ensures P read _ λ r found.
        round_cut k frames b rest p (λ j later q h. scan_frames_cut frames j later q h) le r
          (read_frame-take platform registry (b ∷ rest) (suc k) r le found)
          (ensured (IsWithin (b ∷ rest)) read r (read_frame-IsWithin platform registry (b ∷ rest))
            found)

-- A log of which a scan succeeds may be cut short anywhere: the scan of what is left succeeds as well,
-- and returns transactions of the first scan, from the first one on.
pub scan_wal-take :
    (platform : Platform) (bytes : Bytes) (head : PersistedStoreHead) (registry : ReplayRegistry)
    (s : WalScan) (k : ℕ)
    → k ≤ length bytes
    → scan_wal platform bytes head registry ≡ ok s
    → (t : WalScan) × (scan_wal platform (take k bytes) head registry ≡ ok t)
      × Extends t.transactions s.transactions
unfolding scan_wal
scan_wal-take platform bytes head registry s k le h =
    let P : WalScan → Type 0 = λ s.
      (t : WalScan) × (scan_wal platform (take k bytes) head registry ≡ ok t)
      × Extends t.transactions s.transactions in
    ensured P (scan_wal platform bytes head registry) s
      (require_that-Ensures P (not (ltb wal_limits.stream_bytes (length bytes))) _ λ bounded.
        >>=-Ensures P (checkpoint_wal_anchor platform head) _ λ anchor a.
          let whole =
            scan_frames platform registry head.store_id wal_limits.frames bytes
              (scan_start anchor) in
          Ensures-of P whole λ s found.
            let (t, run, more) =
              ensured
                (CutScan platform registry head.store_id k wal_limits.frames bytes
                  (scan_start anchor))
                whole s
                (scan_frames_cut platform registry head.store_id wal_limits.frames k bytes
                  (scan_start anchor) le)
                found in
            let bounded' : not (ltb wal_limits.stream_bytes (length (take k bytes))) ≡ true =
              rw (length-take_in k bytes le)
                (still_bounded wal_limits.stream_bytes (length bytes) k le bounded) in
            (t, rw (bounded', a) run, more))
      h
