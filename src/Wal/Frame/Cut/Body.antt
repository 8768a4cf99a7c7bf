-- ===== src/Wal/Frame/Cut/Body.antt =====
-- The metadata and the operations of a frame that was cut short.
use ether_memories.Prelude.{
  ℕ, ◌-◌, ◌≤◌, ◌<◌, ◌≡◌, refl, ap, ◌∙◌, Bool-cases, inl, inr, true, false, Option, none, some,
  length, take, ltb, leb, leb→le, ◌==◌, ◌||◌, arith, if◌then◌else◌,
}
use ether_memories.Result.{Result, ok, ◌>>=◌}
use ether_memories.Result.Ensures.{
  Ensures, ensured, Ensures-of, Ensures-if, >>=-Ensures, require_that-Ensures,
}
use ether_memories.Text.{Text}
use ether_memories.Value.{Value}
use ether_memories.Bytes.{Bytes, subarray}
use ether_memories.Bytes.Slices.{take-take, subarray-take, subarray-take_short}
use ether_memories.Bytes.Utf8.{utf8_decode, streams, streams-take, streams_of_utf8_decode}
use ether_memories.Json.{
  JsonRuntime, JsonBounds, decode_canonical_json, decode_text, wal_corruption,
}
use ether_memories.Json.Nesting.{commas_within, commas_within-take}
use ether_memories.Wal.{wal_limits, wal_prefix_bytes, json_bounds}
use ether_memories.Wal.Registry.{ReplayRegistry}
use ether_memories.Wal.Header.{Header}
use ether_memories.Wal.Frame.{
  Platform, FrameRead, incomplete, frame_digest, read_trailer, read_body,
}
use ether_memories.Wal.Frame.Cut.{cut}
use ether_memories.Wal.Frame.Cut.Trailer.{read_trailer_short, read_trailer-take}

-- Bytes that decode are taken by the stream decoder.
pub decoded_streams :
    (json : JsonRuntime) (bounds : JsonBounds) (bytes : Bytes)
    → Ensures (λ _. streams bytes ≡ true) (decode_canonical_json json bounds bytes)
unfolding decode_canonical_json
decoded_streams json bounds bytes =
    let P : Value → Type 0 = λ _. streams bytes ≡ true in
    Ensures-if P (length bytes == 0 || ltb bounds.bytes (length bytes)) wal_corruption
      (decode_text json bounds bytes (utf8_decode bytes)) (λ _. tt)
      λ _. from_text (utf8_decode bytes) (λ s e. streams_of_utf8_decode bytes e)
  where
    from_text :
        (o : Option Text)
        → ((s : Text) → o ≡ some s → streams bytes ≡ true)
        → Ensures (λ _. streams bytes ≡ true) (decode_text json bounds bytes o)
    from_text none h = unfold decode_text in tt
    from_text (some s) h =
        Ensures-of (λ _. streams bytes ≡ true) (decode_text json bounds bytes (some s))
          (λ _ _. h s refl)

-- What the stream decoder takes of a slice, it takes of the slice as the cut leaves it.
pub subarray-streams :
    (frame : Bytes) (k from to : ℕ)
    → streams (subarray frame from to) ≡ true
    → streams (subarray (take k frame) from to) ≡ true
subarray-streams frame k from to h = elim (Bool-cases (leb to k)) [
  | inl l ↦ rw (subarray-take frame k from to (leb→le to k l)) h
  | inr l ↦
      rw (subarray-take_short frame k from to (ground arith))
        (streams-take (k - from) (subarray frame from to) h)
]

subarray_commas :
    (frame : Bytes) (k from to limit : ℕ)
    → commas_within limit (subarray frame from to) ≡ true
    → commas_within limit (subarray (take k frame) from to) ≡ true
subarray_commas frame k from to limit h = elim (Bool-cases (leb to k)) [
  | inl l ↦ rw (subarray-take frame k from to (leb→le to k l)) h
  | inr l ↦
      rw (subarray-take_short frame k from to (ground arith))
        (commas_within-take (k - from) limit (subarray frame from to) h)
]

module _ (platform : Platform) (registry : ReplayRegistry) (frame : Bytes)
    (header_end body_end total : ℕ) (header_bytes : Bytes) (header : Header) where
  abbrev body : Bytes
  body = subarray frame header_end body_end

  abbrev after_body : Result FrameRead
  after_body =
      decode_canonical_json platform.json (json_bounds wal_limits.operation_list_bytes) body
      >>= λ parsed.
          read_trailer platform registry frame body_end total header parsed
            (frame_digest platform (take wal_prefix_bytes frame) header_bytes body)

  pub read_body_short :
      (k : ℕ)
      → k < total
      → Ensures
          (λ r. cut k r ≡ incomplete)
          (read_body platform registry frame header_end body_end total header_bytes header)
  unfolding read_body
  read_body_short k before =
      let P : FrameRead → Type 0 = λ r. cut k r ≡ incomplete in
      require_that-Ensures P (commas_within wal_limits.operations body) _ λ _.
        Ensures-if P (ltb (length frame) body_end)
          (if streams body then ok incomplete else wal_corruption) after_body
          (λ _. Ensures-if P (streams body) (ok incomplete) wal_corruption (λ _. refl) (λ _. tt))
          (λ _.
            >>=-Ensures P
              (decode_canonical_json platform.json (json_bounds wal_limits.operation_list_bytes)
                body)
              _
              λ parsed _.
                read_trailer_short platform registry frame body_end total header parsed
                  (frame_digest platform (take wal_prefix_bytes frame) header_bytes body) k before)

  -- Operations that a cut leaves incomplete.
  body_incomplete :
      (k : ℕ)
      → length (take k frame) ≡ k
      → k < body_end
      → commas_within wal_limits.operations body ≡ true
      → streams body ≡ true
      → read_body platform registry (take k frame) header_end body_end total header_bytes header
        ≡ ok incomplete
  unfolding read_body
  body_incomplete k len before commas taken =
      let short : ltb k body_end ≡ true = ground arith in
      rw
        (
          subarray_commas frame k header_end body_end wal_limits.operations commas,
          len,
          short,
          subarray-streams frame k header_end body_end taken,
        )
        refl

  pub read_body-take :
      (k : ℕ)
      → length (take k frame) ≡ k
      → k ≤ length frame
      → wal_prefix_bytes ≤ k
      → body_end ≤ total
      → Ensures
          (λ r.
            read_body platform registry (take k frame) header_end body_end total header_bytes header
            ≡ ok (cut k r))
          (read_body platform registry frame header_end body_end total header_bytes header)
  unfolding read_body
  read_body-take k len le long order =
      let P : FrameRead → Type 0 = λ r.
        read_body platform registry (take k frame) header_end body_end total header_bytes header
        ≡ ok (cut k r) in
      let hash = frame_digest platform (take wal_prefix_bytes frame) header_bytes body in
      let decoder =
        decode_canonical_json platform.json (json_bounds wal_limits.operation_list_bytes) body in
      require_that-Ensures P (commas_within wal_limits.operations body) _ λ c.
        Ensures-if P (ltb (length frame) body_end)
          (if streams body then ok incomplete else wal_corruption) after_body
          (λ e.
            Ensures-if P (streams body) (ok incomplete) wal_corruption
              (λ s. body_incomplete k len (ground arith) c s) (λ _. tt))
          (λ _. >>=-Ensures P decoder _ λ parsed d.
            let trailer = read_trailer platform registry frame body_end total header parsed hash in
            elim (Bool-cases (ltb k body_end)) [
              | inl e ↦ Ensures-of P trailer λ r found.
                  let nothing : cut k r ≡ incomplete =
                    ensured (λ r. cut k r ≡ incomplete) trailer r
                      (read_trailer_short platform registry frame body_end total header parsed hash
                        k (ground arith))
                      found in
                  body_incomplete k len (ground arith) c (
                    ensured (λ _. streams body ≡ true) decoder parsed
                      (decoded_streams platform.json (json_bounds wal_limits.operation_list_bytes)
                        body)
                      d)
                  ∙ ap ok (rw nothing refl)
              | inr e ↦ Ensures-of P trailer λ r found.
                  let whole : subarray (take k frame) header_end body_end ≡ body =
                    subarray-take frame k header_end body_end (ground arith) in
                  let there : ltb (length (take k frame)) body_end ≡ false = rw len e in
                  rw (whole, c, there, d, take-take wal_prefix_bytes k frame long)
                    (ensured
                      (λ r.
                        read_trailer platform registry (take k frame) body_end total header parsed
                          hash
                        ≡ ok (cut k r))
                      trailer r
                      (read_trailer-take platform registry frame body_end total header parsed hash k
                        len le)
                      found)
            ])
