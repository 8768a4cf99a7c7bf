-- ===== src/Wal/Frame/Cut/Trailer.antt =====
-- The last part of a frame that was cut short behind its operations.
use ether_memories.Prelude.{
  ℕ, ◌-◌, ◌≤◌, ◌<◌, ◌≡◌, refl, Bool-cases, inl, inr, true, length, take, ltb, leb, leb→le, arith,
  ◌++◌,
}
use ether_memories.Result.{ok}
use ether_memories.Result.Ensures.{Ensures, Ensures-if, >>=-Ensures, require_that-Ensures}
use ether_memories.Text.{same}
use ether_memories.Value.{Value}
use ether_memories.Bytes.{Bytes, subarray, hex}
use ether_memories.Bytes.Slices.{same-take, subarray-take, subarray-take_short}
use ether_memories.Wal.{end_mark}
use ether_memories.Wal.Registry.{ReplayRegistry}
use ether_memories.Wal.Header.{Header}
use ether_memories.Wal.Operations.{validate_operations}
use ether_memories.Wal.Frame.{Platform, FrameRead, incomplete, complete, transaction, read_trailer}
use ether_memories.Wal.Frame.Cut.{cut}

module _ (platform : Platform) (registry : ReplayRegistry) (frame : Bytes) (body_end total : ℕ)
    (header : Header) (parsed : Value) (hash : Bytes) where
  -- A cut before the end leaves no complete frame.
  pub read_trailer_short :
      (k : ℕ)
      → k < total
      → Ensures
          (λ r. cut k r ≡ incomplete)
          (read_trailer platform registry frame body_end total header parsed hash)
  unfolding read_trailer
  read_trailer_short k before =
      let P : FrameRead → Type 0 = λ r. cut k r ≡ incomplete in
      require_that-Ensures P (same (subarray frame body_end total) _) _ λ _.
        >>=-Ensures P (validate_operations platform.json registry parsed header.operation_count) _
          λ ops _. Ensures-if P (ltb (length frame) total) _ _ (λ _. refl) (λ _. ground arith)

  trailer_cut :
      (k : ℕ)
      → same
          (subarray frame body_end total)
          (take (length (subarray frame body_end total)) (hash ++ end_mark))
        ≡ true
      → same
          (subarray (take k frame) body_end total)
          (take (length (subarray (take k frame) body_end total)) (hash ++ end_mark))
        ≡ true
  trailer_cut k h = elim (Bool-cases (leb total k)) [
    | inl l ↦ rw (subarray-take frame k body_end total (leb→le total k l)) h
    | inr l ↦
        rw (subarray-take_short frame k body_end total (ground arith))
          (same-take (k - body_end) (subarray frame body_end total) (hash ++ end_mark) h)
  ]

  pub read_trailer-take :
      (k : ℕ)
      → length (take k frame) ≡ k
      → k ≤ length frame
      → Ensures
          (λ r.
            read_trailer platform registry (take k frame) body_end total header parsed hash
            ≡ ok (cut k r))
          (read_trailer platform registry frame body_end total header parsed hash)
  unfolding read_trailer
  read_trailer-take k len le =
      let P : FrameRead → Type 0 = λ r.
        read_trailer platform registry (take k frame) body_end total header parsed hash
        ≡ ok (cut k r) in
      require_that-Ensures P (same (subarray frame body_end total) _) _ λ s.
        >>=-Ensures P (validate_operations platform.json registry parsed header.operation_count) _
          λ ops v.
            Ensures-if P (ltb (length frame) total) (ok incomplete)
              (ok (complete (transaction header ops (hex hash)) total))
              (λ short.
                let before : ltb k total ≡ true = ground arith in
                rw (trailer_cut k s, v, len, before) refl)
              (λ long. elim (Bool-cases (ltb k total)) [
                | inl e ↦ rw (trailer_cut k s, v, len, e) refl
                | inr e ↦ rw (trailer_cut k s, v, len, e) refl
              ])
