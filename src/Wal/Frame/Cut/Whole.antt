-- ===== src/Wal/Frame/Cut/Whole.antt =====
-- `readFrame` on the first bytes of what it reads.
use ether_memories.Prelude.{
  ℕ, ◌+◌, ◌≤◌, ◌<◌, ◌≡◌, refl, ap, ◌∙◌, Bool, Bool-cases, inl, inr, true, false, not, ◌&&◌, ◌||◌,
  ◌==◌, length, take, ltb, leb, leb→le, arith, if◌then◌else◌,
}
use ether_memories.Result.{Result, ok, ◌>>=◌}
use ether_memories.Result.Ensures.{
  Ensures, ensured, Ensures-of, Ensures-if, >>=-Ensures, require_that-Ensures,
}
use ether_memories.Text.{same, same_iff}
use ether_memories.Bytes.{Bytes, subarray, read_u32, complement}
use ether_memories.Bytes.Slices.{take-take, take_comm, length-take_in, read_u32-take, subarray-take}
use ether_memories.Bytes.Utf8.{streams}
use ether_memories.Json.{decode_canonical_json, wal_corruption}
use ether_memories.Wal.{wal_limits, wal_prefix_bytes, json_bounds, magic}
use ether_memories.Wal.Registry.{ReplayRegistry}
use ether_memories.Wal.Header.{validate_header}
use ether_memories.Wal.Frame.{
  Platform, FrameRead, incomplete, total_bytes, plausible_prefix, read_body, read_metadata,
  read_lengths, read_frame,
}
use ether_memories.Wal.Frame.Cut.{cut}
use ether_memories.Wal.Frame.Cut.Body.{
  read_body_short, read_body-take, decoded_streams, subarray-streams,
}

module _ (platform : Platform) (registry : ReplayRegistry) (frame : Bytes) where
  module _ (header_end body_end total : ℕ) where
    abbrev metadata : Bytes
    metadata = subarray frame wal_prefix_bytes header_end

    abbrev after_metadata : Result FrameRead
    after_metadata =
        decode_canonical_json platform.json (json_bounds wal_limits.metadata_bytes) metadata
        >>= λ value.
            validate_header value
            >>= read_body platform registry frame header_end body_end total metadata

    read_metadata_short :
        (k : ℕ)
        → k < total
        → Ensures
            (λ r. cut k r ≡ incomplete)
            (read_metadata platform registry frame header_end body_end total)
    unfolding read_metadata
    read_metadata_short k before =
        let P : FrameRead → Type 0 = λ r. cut k r ≡ incomplete in
        Ensures-if P (ltb (length frame) header_end)
          (if streams metadata then ok incomplete else wal_corruption) after_metadata
          (λ _.
            Ensures-if P (streams metadata) (ok incomplete) wal_corruption (λ _. refl) (λ _. tt))
          (λ _.
            >>=-Ensures P
              (decode_canonical_json platform.json (json_bounds wal_limits.metadata_bytes) metadata)
              _
              λ value _. >>=-Ensures P (validate_header value) _ λ header _.
                read_body_short platform registry frame header_end body_end total metadata header k
                  before)

    metadata_incomplete :
        (k : ℕ)
        → length (take k frame) ≡ k
        → k < header_end
        → streams metadata ≡ true
        → read_metadata platform registry (take k frame) header_end body_end total ≡ ok incomplete
    unfolding read_metadata
    metadata_incomplete k len before taken =
        let short : ltb k header_end ≡ true = ground arith in
        rw (len, short, subarray-streams frame k wal_prefix_bytes header_end taken) refl

    read_metadata-take :
        (k : ℕ)
        → length (take k frame) ≡ k
        → k ≤ length frame
        → wal_prefix_bytes ≤ k
        → header_end ≤ total
        → body_end ≤ total
        → Ensures
            (λ r.
              read_metadata platform registry (take k frame) header_end body_end total
              ≡ ok (cut k r))
            (read_metadata platform registry frame header_end body_end total)
    unfolding read_metadata
    read_metadata-take k len le long order_header order_body =
        let P : FrameRead → Type 0 = λ r.
          read_metadata platform registry (take k frame) header_end body_end total ≡ ok (cut k r) in
        let decoder =
          decode_canonical_json platform.json (json_bounds wal_limits.metadata_bytes) metadata in
        Ensures-if P (ltb (length frame) header_end)
          (if streams metadata then ok incomplete else wal_corruption) after_metadata
          (λ e.
            Ensures-if P (streams metadata) (ok incomplete) wal_corruption
              (λ s. metadata_incomplete k len (ground arith) s) (λ _. tt))
          (λ _. >>=-Ensures P decoder _ λ value d.
            >>=-Ensures P (validate_header value) _ λ header v.
              let body =
                read_body platform registry frame header_end body_end total metadata header in
              elim (Bool-cases (ltb k header_end)) [
                | inl e ↦ Ensures-of P body λ r found.
                    let nothing : cut k r ≡ incomplete =
                      ensured (λ r. cut k r ≡ incomplete) body r
                        (read_body_short platform registry frame header_end body_end total metadata
                          header k (ground arith))
                        found in
                    metadata_incomplete k len (ground arith) (
                      ensured (λ _. streams metadata ≡ true) decoder value
                        (decoded_streams platform.json (json_bounds wal_limits.metadata_bytes)
                          metadata)
                        d)
                    ∙ ap ok (rw nothing refl)
                | inr e ↦ Ensures-of P body λ r found.
                    let whole : subarray (take k frame) wal_prefix_bytes header_end ≡ metadata =
                      subarray-take frame k wal_prefix_bytes header_end (ground arith) in
                    let there : ltb (length (take k frame)) header_end ≡ false = rw len e in
                    rw (whole, there, d, v)
                      (ensured
                        (λ r.
                          read_body platform registry (take k frame) header_end body_end total
                            metadata header
                          ≡ ok (cut k r))
                        body r
                        (read_body-take platform registry frame header_end body_end total metadata
                          header k len le long order_body)
                        found)
              ])

  read_lengths_short :
      (k : ℕ)
      → k ≤ wal_prefix_bytes
      → Ensures (λ r. cut k r ≡ incomplete) (read_lengths platform registry frame)
  unfolding read_lengths
  read_lengths_short k before =
      let P : FrameRead → Type 0 = λ r. cut k r ≡ incomplete in
      let h = read_u32 frame 8 in
      let o = read_u32 frame 12 in
      require_that-Ensures P
        (read_u32 frame 16 == total_bytes h o && read_u32 frame 20 == complement (total_bytes h o))
        _
        λ _.
          read_metadata_short (wal_prefix_bytes + h) (wal_prefix_bytes + h + o) (total_bytes h o) k
            (omega arith)

  read_lengths-take :
      (k : ℕ)
      → length (take k frame) ≡ k
      → k ≤ length frame
      → wal_prefix_bytes ≤ k
      → Ensures
          (λ r. read_lengths platform registry (take k frame) ≡ ok (cut k r))
          (read_lengths platform registry frame)
  unfolding read_lengths
  read_lengths-take k len le long =
      let P : FrameRead → Type 0 =
        λ r. read_lengths platform registry (take k frame) ≡ ok (cut k r) in
      let h = read_u32 frame 8 in
      let o = read_u32 frame 12 in
      require_that-Ensures P
        (read_u32 frame 16 == total_bytes h o && read_u32 frame 20 == complement (total_bytes h o))
        _
        λ c.
          let rest =
            read_metadata platform registry frame (wal_prefix_bytes + h) (wal_prefix_bytes + h + o)
              (total_bytes h o) in
          Ensures-of P rest λ r found.
            rw
              (
                read_u32-take frame k 8 (omega arith),
                read_u32-take frame k 12 (omega arith),
                read_u32-take frame k 16 (omega arith),
                read_u32-take frame k 20 long,
                c,
              )
              (ensured
                (λ r.
                  read_metadata platform registry (take k frame) (wal_prefix_bytes + h)
                    (wal_prefix_bytes + h + o) (total_bytes h o)
                  ≡ ok (cut k r))
                rest r
                (read_metadata-take (wal_prefix_bytes + h) (wal_prefix_bytes + h + o)
                  (total_bytes h o) k len le long (omega arith) (omega arith))
                found)

four_parts :
    (a b c d : Bool) → (a && b && c && d) ≡ true → (a ≡ true) × (b ≡ true) × (c ≡ true) × (d ≡ true)
four_parts a b c d h = ground arith

-- A test of a field holds of the cut, which has the field or does not look at it.
field_test_take :
    (k m field_end : ℕ) (test : ℕ → Bool) (x y : ℕ)
    → k ≤ m
    → (field_end ≤ k → x ≡ y)
    → not (leb field_end m && test y) ≡ true
    → not (leb field_end k && test x) ≡ true
field_test_take k m field_end test x y le same_field h = elim (Bool-cases (leb field_end k)) [
  | inl e ↦
      let there : leb field_end m ≡ true = ground arith in
      rw (e, same_field (leb→le field_end k e)) (rw there at h)
  | inr e ↦ rw e refl
]

module _ (frame : Bytes) (k : ℕ) (len : length (take k frame) ≡ k) (le : k ≤ length frame) where
  magic-take :
      same (take 8 frame) (take (length frame) magic) ≡ true
      → same (take 8 (take k frame)) (take k magic) ≡ true
  magic-take h = (same_iff (take 8 (take k frame)) (take k magic)).1 (
      take_comm 8 k frame
      ∙ ap (take k) ((same_iff (take 8 frame) (take (length frame) magic)).0 h)
      ∙ take-take k (length frame) magic le)

  plausible_prefix-take : plausible_prefix frame ≡ true → plausible_prefix (take k frame) ≡ true
  unfolding plausible_prefix
  plausible_prefix-take h =
      let m = length frame in
      let t1 : ℕ → Bool = λ x. ltb x 1 || ltb wal_limits.metadata_bytes x in
      let t2 : ℕ → Bool = λ x. ltb x 2 || ltb wal_limits.operation_list_bytes x in
      let t3 : ℕ → Bool = λ x. ltb wal_limits.frame_bytes x in
      let (a, b, c, d) = four_parts _ _ _ _ h in
      let b' =
        field_test_take k m 12 t1 (read_u32 (take k frame) 8) (read_u32 frame 8) le
          (read_u32-take frame k 8) b in
      let c' =
        field_test_take k m 16 t2 (read_u32 (take k frame) 12) (read_u32 frame 12) le
          (read_u32-take frame k 12) c in
      let d' =
        field_test_take k m 20 t3 (read_u32 (take k frame) 16) (read_u32 frame 16) le
          (read_u32-take frame k 16) d in
      rw len (rw (magic-take a, b', c', d') refl)

module _ (platform : Platform) (registry : ReplayRegistry) (frame : Bytes) where
  read_frame-cut :
      (k : ℕ)
      → k ≤ length frame
      → Ensures
          (λ r. read_frame platform registry (take k frame) ≡ ok (cut k r))
          (read_frame platform registry frame)
  unfolding read_frame
  read_frame-cut k le =
      let P : FrameRead → Type 0 =
        λ r. read_frame platform registry (take k frame) ≡ ok (cut k r) in
      let len = length-take_in k frame le in
      let rest = read_lengths platform registry frame in
      require_that-Ensures P (plausible_prefix frame) _ λ p.
        let p' = plausible_prefix-take frame k len le p in
        Ensures-if P (ltb (length frame) wal_prefix_bytes) (ok incomplete) rest
          (λ short.
            let before : ltb k wal_prefix_bytes ≡ true = ground arith in rw (p', len, before) refl)
          (λ long. elim (Bool-cases (ltb k wal_prefix_bytes)) [
            | inl e ↦ Ensures-of P rest λ r found.
                let nothing : cut k r ≡ incomplete =
                  ensured (λ r. cut k r ≡ incomplete) rest r
                    (read_lengths_short platform registry frame k (ground arith)) found in
                rw (p', len, e, nothing) refl
            | inr e ↦ Ensures-of P rest λ r found.
                let there : ltb (length (take k frame)) wal_prefix_bytes ≡ false = rw len e in
                rw (p', there)
                  (ensured (λ r. read_lengths platform registry (take k frame) ≡ ok (cut k r)) rest
                    r (read_lengths-take platform registry frame k len le (ground arith)) found)
          ])

  -- `readFrame` on the first `k` bytes of a frame that it takes: the same complete frame, if that
  -- ends there or before, and otherwise an incomplete frame, never a corruption.
  pub read_frame-take :
      (k : ℕ) (r : FrameRead)
      → k ≤ length frame
      → read_frame platform registry frame ≡ ok r
      → read_frame platform registry (take k frame) ≡ ok (cut k r)
  read_frame-take k r le h =
      ensured (λ r. read_frame platform registry (take k frame) ≡ ok (cut k r))
        (read_frame platform registry frame) r (read_frame-cut k le) h
