-- ===== src/Codecs/Head/RoundTrip.antt =====
-- The store head of src/persistence/codecs.ts is written back with the bytes that it was read from.
use ether_memories.Prelude.{◌≡◌, refl, true}
use ether_memories.Result.{ok}
use ether_memories.Result.Ensures.{
  Ensures, ensured, >>=-Ensures, require-Ensures, require_that-Ensures,
}
use ether_memories.Text.{units, same, same_iff}
use ether_memories.Value.{Value, object, Fields}
use ether_memories.Bytes.{Bytes}
use ether_memories.Durable.{CommittedTip}
use ether_memories.Json.{JsonRuntime}
use ether_memories.Json.Records.{
  is_record, get_field, has_keys, has_own, read_text, read_text-Ensures,
}
use ether_memories.Codecs.{
  PersistedStoreHead, PersistenceLimits, persistence_limits, is_identifier, is_digest, is_sequence,
  read_tip, tip_keys, compatibility, parse_metadata, head_format, version_one,
}
use ether_memories.Codecs.Head.{
  HeadShape, head_of, head_shape, head_value, head_keys, checkpoint_keys, wal_format_keys,
  tip_fields, wal_format_fields, head_fields, validate_head, supported_wal, encode_store_head,
  decode_store_head, head_bytes,
}

abbrev IsTip : PersistenceLimits → CommittedTip → Type 0
IsTip limits t =
    (is_identifier limits.identifier_bytes t.epoch_id ≡ true)
    × (is_digest t.digest ≡ true)
    × (is_sequence limits.transaction_digits t.tx_id ≡ true)

pub read_tip-IsTip :
    (limits : PersistenceLimits) (v : Value) → Ensures (IsTip limits) (read_tip limits v)
unfolding read_tip
read_tip-IsTip limits v =
    let p = IsTip limits in
    require-Ensures p (is_record v) _ λ fs _. require_that-Ensures p (has_keys fs tip_keys) _ λ _.
      read_text-Ensures p (is_identifier limits.identifier_bytes) (get_field fs (units "epochId")) _
        λ epoch e. read_text-Ensures p is_digest (get_field fs (units "digest")) _ λ digest d.
          read_text-Ensures p (is_sequence limits.transaction_digits) (get_field fs (units "txId"))
            _ λ tx s. (e, d, s)

pub read_tip-tip_fields :
    (limits : PersistenceLimits) (t : CommittedTip)
    → IsTip limits t
    → read_tip limits (object (tip_fields t)) ≡ ok t
unfolding read_tip is_record has_keys has_own get_field read_text same
read_tip-tip_fields limits t (e, d, s) = rw (e, d, s) refl

abbrev IsShape : PersistenceLimits → HeadShape → Type 0
IsShape limits s =
    (is_identifier limits.identifier_bytes s.store_id ≡ true)
    × (is_identifier limits.identifier_bytes s.epoch_id ≡ true)
    × (is_identifier limits.identifier_bytes s.checkpoint_id ≡ true)
    × (is_digest s.digest ≡ true)

head_shape-IsShape :
    (limits : PersistenceLimits) (fs : Fields) → Ensures (IsShape limits) (head_shape limits fs)
unfolding head_shape
head_shape-IsShape limits fs =
    let p = IsShape limits in
    let named = is_identifier limits.identifier_bytes in
    require_that-Ensures p (has_keys fs head_keys) _ λ _.
      read_text-Ensures p named (get_field fs (units "storeId")) _ λ store s.
        read_text-Ensures p named (get_field fs (units "epochId")) _ λ epoch e.
          require-Ensures p (is_record (get_field fs (units "checkpoint"))) _ λ cs _.
            require_that-Ensures p (has_keys cs checkpoint_keys) _ λ _.
              read_text-Ensures p named (get_field cs (units "checkpointId")) _ λ checkpoint c.
                read_text-Ensures p is_digest (get_field cs (units "digest")) _ λ digest d.
                  require-Ensures p (is_record (get_field fs (units "walFormat"))) _
                    λ ws _. require_that-Ensures p (has_keys ws wal_format_keys) _ λ _. (s, e, c, d)

-- A head whose fields pass the tests of `validateHead`.
abbrev pub IsHead : PersistenceLimits → PersistedStoreHead → Type 0
IsHead limits head =
    (shape : HeadShape) × (tip : CommittedTip) × (head ≡ head_of shape tip)
    × IsShape limits shape
    × IsTip limits tip
    × (same tip.epoch_id shape.epoch_id ≡ true)

pub validate_head-IsHead :
    (limits : PersistenceLimits) (v : Value) → Ensures (IsHead limits) (validate_head limits v)
unfolding validate_head
validate_head-IsHead limits v =
    let p = IsHead limits in
    require-Ensures p (is_record v) _ λ fs _.
      >>=-Ensures p (compatibility fs head_format version_one) _ λ _ _.
        >>=-Ensures p (head_shape limits fs) _ λ shape s.
          >>=-Ensures p (supported_wal shape.wal) _ λ _ _.
            >>=-Ensures p (read_tip limits shape.tip) _ λ tip t.
              require_that-Ensures p (same tip.epoch_id shape.epoch_id) _ λ e. (
                shape,
                tip,
                refl,
                ensured (IsShape limits) (head_shape limits fs) shape (head_shape-IsShape limits fs)
                    s,
                ensured (IsTip limits) (read_tip limits shape.tip) tip
                    (read_tip-IsTip limits shape.tip) t,
                e,
              )

head_shape-head_fields :
    (limits : PersistenceLimits) (shape : HeadShape) (tip : CommittedTip)
    → IsShape limits shape
    → head_shape limits (head_fields (head_of shape tip))
      ≡ ok (record {
        store_id = shape.store_id;
        epoch_id = shape.epoch_id;
        checkpoint_id = shape.checkpoint_id;
        digest = shape.digest;
        tip = object (tip_fields tip);
        wal = wal_format_fields (head_of shape tip).wal_format;
      })
unfolding head_shape is_record has_keys has_own get_field read_text same
head_shape-head_fields limits shape tip (s, e, c, d) = rw (s, e, c, d) refl

-- Such a head passes them again, and nothing of it changes.
pub validate_head-head_value :
    (limits : PersistenceLimits) (head : PersistedStoreHead)
    → IsHead limits head
    → validate_head limits (head_value head) ≡ ok head
unfolding validate_head compatibility supported_wal get_field same is_record
validate_head-head_value limits head (shape, tip, e, s, t, same_epoch) =
    rw (e, head_shape-head_fields limits shape tip s, read_tip-tip_fields limits tip t, same_epoch)
      refl

module _ (json : JsonRuntime) (options : Value) (bytes : Bytes) where
  abbrev WritesBack : PersistedStoreHead → Type 0
  WritesBack head = encode_store_head json head options ≡ ok bytes

  decode_store_head-WritesBack : Ensures WritesBack (decode_store_head json bytes options)
  unfolding decode_store_head encode_store_head
  decode_store_head-WritesBack = >>=-Ensures WritesBack (persistence_limits options) _ λ limits l.
      >>=-Ensures WritesBack (parse_metadata json bytes limits.head_bytes limits) _ λ value p.
        >>=-Ensures WritesBack (validate_head limits value) _ λ head v.
          require_that-Ensures WritesBack (same bytes (head_bytes json head)) _ λ e.
            let fixed : validate_head limits (head_value head) ≡ ok head =
              validate_head-head_value limits head (
                ensured (IsHead limits) (validate_head limits value) head
                  (validate_head-IsHead limits value) v) in
            let written : bytes ≡ head_bytes json head =
              (same_iff bytes (head_bytes json head)).0 e in
            rw (l, fixed, ← written, p) refl

  -- A head that `decodeStoreHead` returns is encoded, under the same options, to the bytes that it
  -- was decoded from.
  pub encode_store_head-decode_store_head :
      (head : PersistedStoreHead)
      → decode_store_head json bytes options ≡ ok head
      → encode_store_head json head options ≡ ok bytes
  encode_store_head-decode_store_head head h =
      ensured WritesBack (decode_store_head json bytes options) head decode_store_head-WritesBack h
