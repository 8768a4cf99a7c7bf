-- ===== src/Codecs/Checkpoint/RoundTrip.antt =====
-- A checkpoint of src/persistence/codecs.ts is verified as it was encoded.
use ether_memories.Prelude.{
  ℕ, zero, suc, ◌+◌, ◌-◌, ◌<◌, ◌≤◌, ◌≡◌, refl, Bool, true, false, not, ◌||◌, Option, none, some, [],
  ◌∷◌, ◌++◌, All, length, take, length-append, ltb, ◌==◌, arith,
}
use ether_memories.Result.{ok, ◌>>=◌}
use ether_memories.Result.Ensures.{
  Ensures, ensured, Ensures-of, Ensures-if, >>=-Ensures, require-Ensures, require_that-Ensures,
}
use ether_memories.Text.{Text, same, same_refl}
use ether_memories.Value.{Value, text, object}
use ether_memories.Bytes.{Bytes, hex, index_of}
use ether_memories.Bytes.Slices.{take-append}
use ether_memories.Bytes.Utf8.{utf8_encode, utf8_decode}
use ether_memories.Durable.{CommittedTip, same_tip_iff}
use ether_memories.Json.{JsonRuntime, ◌>?◌}
use ether_memories.Json.Nesting.{nests_within}
use ether_memories.Json.Records.{
  is_record, get_field, has_keys, has_own, read_text, as_count, count_value,
}
use ether_memories.Codecs.{
  PersistedStoreHead, PersistenceLimits, persistence_limits, is_identifier, is_digest, is_sequence,
  read_tip, parse_metadata, parse_text, compatibility,
}
use ether_memories.Codecs.Head.{
  encode_store_head, head_bytes, tip_fields, head_value, validate_head,
}
use ether_memories.Codecs.Checkpoint.{
  CheckpointMetadata, CheckpointHeader, Checkpoint, header_value, header_for, header_bytes,
  checkpoint_header, checkpoint_of, encode_checkpoint, verify_checkpoint,
}

-- What the decoder needs of `JSON.stringify` and `JSON.parse` at one value: its text, as UTF-8, is
-- read back, and has no line feed.
pub record IsFaithful (json : JsonRuntime) (value : Value) : Type 0 where
  pub parses : (utf8_decode (utf8_encode (json.stringify value)) >? json.parse) ≡ some value
  pub one_line : All (λ b. (b == 10) ≡ false) (utf8_encode (json.stringify value))

index_of-append :
    (n : ℕ) (front back : Bytes)
    → All (λ b. (b == 10) ≡ false) front
    → length front < n
    → index_of 10 (take n (front ++ 10 ∷ back)) ≡ some (length front)
unfolding index_of
index_of-append zero front back h lt = absurd (omega arith)
index_of-append (suc n) [] back h lt = refl
index_of-append (suc n) (b ∷ front) back h lt =
    rw (h.0, index_of-append n front back h.1 (omega arith)) refl

-- What is read from a text, a count or a tip is that.
read_text_fixed : (p : Text → Bool) (s t : Text) → read_text p (text s) ≡ some t → t ≡ s
unfolding read_text
read_text_fixed p s t h = ground arith

as_count_fixed : (n m : ℕ) → as_count (count_value n) ≡ some m → m ≡ n
unfolding as_count
as_count_fixed n m h = ground arith

read_tip_fixed :
    (limits : PersistenceLimits) (t : CommittedTip)
    → Ensures (λ found. found ≡ t) (read_tip limits (object (tip_fields t)))
unfolding read_tip is_record get_field has_keys has_own same
read_tip_fixed limits t =
    let p : CommittedTip → Type 0 = λ found. found ≡ t in
    require-Ensures p (read_text (is_identifier limits.identifier_bytes) (text t.epoch_id)) _
      λ epoch e. require-Ensures p (read_text is_digest (text t.digest)) _ λ digest d.
        require-Ensures p (read_text (is_sequence limits.transaction_digits) (text t.tx_id)) _
          λ tx s.
            rw
              (
                read_text_fixed (is_identifier limits.identifier_bytes) t.epoch_id epoch e,
                read_text_fixed is_digest t.digest digest d,
                read_text_fixed (is_sequence limits.transaction_digits) t.tx_id tx s,
              )
              refl

checkpoint_header_fixed :
    (limits : PersistenceLimits) (header : CheckpointHeader)
    → Ensures (λ found. found ≡ header) (checkpoint_header limits (header_value header))
unfolding checkpoint_header compatibility is_record get_field has_keys has_own same
checkpoint_header_fixed limits header =
    let p : CheckpointHeader → Type 0 = λ found. found ≡ header in
    let named = is_identifier limits.identifier_bytes in
    require-Ensures p (read_text named (text header.store_id)) _ λ store s.
      require-Ensures p (read_text named (text header.checkpoint_id)) _ λ checkpoint c.
        require-Ensures p (as_count (count_value header.payload_bytes)) _ λ n e.
          require_that-Ensures p (not (ltb n 1 || ltb limits.checkpoint_payload_bytes n)) _ λ _.
            >>=-Ensures p (read_tip limits (object (tip_fields header.tip))) _ λ tip t.
              rw
                (
                  read_text_fixed named header.store_id store s,
                  read_text_fixed named header.checkpoint_id checkpoint c,
                  as_count_fixed header.payload_bytes n e,
                  ensured (λ found. found ≡ header.tip)
                      (read_tip limits (object (tip_fields header.tip))) tip
                      (read_tip_fixed limits header.tip) t,
                )
                refl

module _ (json : JsonRuntime) (value : Value) where
  abbrev written : Bytes
  written = utf8_encode (json.stringify value)

  abbrev IsWritten : Value → Type 0
  IsWritten found = found ≡ value

  parse_text_fixed :
      (limits : PersistenceLimits) (o : Option Text)
      → (o >? json.parse) ≡ some value
      → Ensures IsWritten (parse_text json limits o)
  unfolding parse_text
  parse_text_fixed limits none h = tt
  parse_text_fixed limits (some s) h =
      Ensures-if IsWritten (nests_within limits.metadata_depth s) _ _ (λ _. rw h refl) (λ _. tt)

  -- Metadata that passes the tests is what was written, within the bound.
  parse_metadata_fixed :
      (max : ℕ) (limits : PersistenceLimits)
      → IsFaithful json value
      → Ensures
          (λ found. (found ≡ value) × (length written ≤ max))
          (parse_metadata json written max limits)
  unfolding parse_metadata
  parse_metadata_fixed max limits faithful =
      let P : Value → Type 0 = λ found. (found ≡ value) × (length written ≤ max) in
      let parsed = parse_text json limits (utf8_decode written) in
      Ensures-if P (length written == 0 || ltb max (length written)) _ parsed (λ _. tt)
        λ short. Ensures-of P parsed λ found e. (
          ensured IsWritten parsed found
              (parse_text_fixed limits (utf8_decode written) faithful.parses) e,
          ground arith,
        )

-- The sizes of a file of a header, a line feed and a payload.
file_bounded :
    (n h p mh mp : ℕ) → n ≡ h + suc p → h ≤ mh → p ≤ mp → not (ltb (mh + 1 + mp) n) ≡ true
file_bounded n h p mh mp e a b = ground arith

file_counted : (n h p : ℕ) → n ≡ h + suc p → (n - h - 1 == p) ≡ true
file_counted n h p e = ground arith

-- A head that is encoded is one that `validateHead` takes.
validated :
    (json : JsonRuntime) (head : PersistedStoreHead) (options : Value) (bytes : Bytes)
    → encode_store_head json head options ≡ ok bytes
    → (limits : PersistenceLimits) → persistence_limits options ≡ ok limits
    → (valid : PersistedStoreHead) × (validate_head limits (head_value head) ≡ ok valid)
unfolding encode_store_head
validated json head options bytes h limits l =
    let P : Bytes → Type 0 =
      λ _. (valid : PersistedStoreHead) × (validate_head limits (head_value head) ≡ ok valid) in
    ensured P
      (validate_head limits (head_value head) >>= λ valid.
        parse_metadata json (head_bytes json valid) limits.head_bytes limits >>= λ _.
        ok (head_bytes json valid))
      bytes
      (>>=-Ensures P (validate_head limits (head_value head)) _ λ valid v.
        Ensures-of P
          (parse_metadata json (head_bytes json valid) limits.head_bytes limits >>= λ _.
            ok (head_bytes json valid))
          λ _ _. (valid, v))
      (rw l at h)

module _ (json : JsonRuntime) (sha256 : Bytes → Bytes) (metadata : CheckpointMetadata)
    (payload : Bytes) (options : Value) (head : PersistedStoreHead)
    (valid : (limits : PersistenceLimits)
      → persistence_limits options ≡ ok limits
      → (h : PersistedStoreHead) × (validate_head limits (head_value head) ≡ ok h))
    (store : head.store_id ≡ metadata.store_id)
    (faithful : IsFaithful json (header_value (header_for metadata payload))) where
  abbrev header : CheckpointHeader
  header = header_for metadata payload

  abbrev file : Checkpoint
  file = checkpoint_of json sha256 header payload

  file_verified :
      (limits : PersistenceLimits) (value : Value)
      → persistence_limits options ≡ ok limits
      → checkpoint_header limits (header_value header) ≡ ok header
      → parse_metadata json (header_bytes json sha256 header) limits.checkpoint_header_bytes limits
        ≡ ok value
      → value ≡ header_value header
      → length (header_bytes json sha256 header) ≤ limits.checkpoint_header_bytes
      → length payload ≤ limits.checkpoint_payload_bytes
      → head.checkpoint ≡ file.identity
      → verify_checkpoint json sha256 file.bytes head options ≡ ok tt
  unfolding verify_checkpoint
  file_verified limits value l c p v short fits refers =
      let total : length file.bytes
          ≡ length (header_bytes json sha256 header) + suc (length payload) =
        length-append (header_bytes json sha256 header) (10 ∷ payload) in
      let bounded : not (
            ltb (limits.checkpoint_header_bytes + 1 + limits.checkpoint_payload_bytes)
              (length file.bytes))
          ≡ true =
        file_bounded _ _ (length payload) _ _ total short fits in
      let counted : (length file.bytes - length (header_bytes json sha256 header) - 1
            == length payload)
          ≡ true =
        file_counted _ _ _ total in
      let found =
        index_of-append (limits.checkpoint_header_bytes + 1) (header_bytes json sha256 header)
          payload faithful.one_line (omega arith) in
      let read : checkpoint_header limits value ≡ ok header = rw v c in
      rw
        (
          l,
          (valid limits l).1,
          bounded,
          found,
          take-append (header_bytes json sha256 header) (10 ∷ payload),
          p,
          read,
          same_refl (header_bytes json sha256 header),
          counted,
          refers,
          store,
          same_refl metadata.store_id,
          same_refl metadata.checkpoint_id,
          (same_tip_iff metadata.tip metadata.tip).1 refl,
          same_refl (hex (sha256 file.bytes)),
        )
        refl

  abbrev IsVerified : Checkpoint → Type 0
  IsVerified c =
      head.checkpoint ≡ c.identity → verify_checkpoint json sha256 c.bytes head options ≡ ok tt

  encode_checkpoint-IsVerified :
      Ensures IsVerified (encode_checkpoint json sha256 metadata payload options)
  unfolding encode_checkpoint
  encode_checkpoint-IsVerified = >>=-Ensures IsVerified (persistence_limits options) _ λ limits l.
      require_that-Ensures IsVerified
        (not (length payload == 0 || ltb limits.checkpoint_payload_bytes (length payload))) _
        λ fits. >>=-Ensures IsVerified (checkpoint_header limits (header_value header)) _ λ found c.
          let same_header : found ≡ header =
            ensured (λ h. h ≡ header) (checkpoint_header limits (header_value header)) found
              (checkpoint_header_fixed limits header) c in
          >>=-Ensures IsVerified
            (parse_metadata json (header_bytes json sha256 found) limits.checkpoint_header_bytes
              limits)
            _
            λ value p.
              let p' : parse_metadata json (header_bytes json sha256 header)
                    limits.checkpoint_header_bytes limits
                  ≡ ok value =
                rw same_header at p in
              let (e, short) =
                ensured
                  (λ found.
                    (found ≡ header_value header)
                    × (length (written json (header_value header))
                        ≤ limits.checkpoint_header_bytes))
                  (parse_metadata json (written json (header_value header))
                    limits.checkpoint_header_bytes limits)
                  value
                  (parse_metadata_fixed json (header_value header) limits.checkpoint_header_bytes
                    limits faithful)
                  p' in
              rw same_header
                (file_verified limits value l (rw same_header at c) p' e short (ground arith))

-- A checkpoint that `encodeCheckpoint` returns is accepted by `verifyCheckpoint`, under the same options, with every head that can be encoded and names its store and its identity, if the runtime reads the header back that it wrote, on one line.
pub verify_checkpoint-encode_checkpoint :
    (json : JsonRuntime) (sha256 : Bytes → Bytes) (metadata : CheckpointMetadata) (payload : Bytes)
    (options : Value) (head : PersistedStoreHead) (written_head : Bytes) (c : Checkpoint)
    → IsFaithful json (header_value (header_for metadata payload))
    → encode_checkpoint json sha256 metadata payload options ≡ ok c
    → encode_store_head json head options ≡ ok written_head
    → head.store_id ≡ metadata.store_id
    → head.checkpoint ≡ c.identity
    → verify_checkpoint json sha256 c.bytes head options ≡ ok tt
verify_checkpoint-encode_checkpoint json sha256 metadata payload options head written_head c
      faithful h e store refers =
    ensured
      (λ c.
        head.checkpoint ≡ c.identity → verify_checkpoint json sha256 c.bytes head options ≡ ok tt)
      (encode_checkpoint json sha256 metadata payload options) c
      (encode_checkpoint-IsVerified json sha256 metadata payload options head
        (validated json head options written_head e) store faithful)
      h refers
