-- ===== src/Wal/Header.antt =====
-- The metadata of a log frame: `validateHeader` of src/persistence/wal.ts.
use ether_memories.Prelude.{ℕ, Bool, true, false, ◌&&◌, not, List, [], ◌∷◌, all, length, leb, ltb}
use ether_memories.Result.{Result, ok, ◌>>=◌, require, require_that, support_that}
use ether_memories.Text.{Text, units, same}
use ether_memories.Value.{
  Value, null, undefined, bool, number, text, date, array, object, Fields, end, field,
}
use ether_memories.Durable.{CommittedTip, MutationIdentity}
use ether_memories.Durable.Decimal.{is_successor}
use ether_memories.Json.Records.{
  is_record, get_field, has_keys, as_text, read_text, as_count, count_value,
}
use ether_memories.Codecs.{
  wal_format, version_one, is_digest, is_sequence, is_lower_or_digit, is_identifier_unit,
  starts_with, tip_keys,
}
use ether_memories.Codecs.Head.{tip_fields}
use ether_memories.Wal.{wal_limits}

-- `identifier(value, limit)`, for a string
unfoldable pub is_wal_identifier : ℕ → Text → Bool
is_wal_identifier limit s =
    leb 1 (length s)
    && leb (length s) limit
    && starts_with is_lower_or_digit s
    && all is_identifier_unit s

-- The log's format and version are constants, and its audit location is null.
pub record Header : Type 0 where
  pub store_id : Text
  pub epoch_id : Text
  pub tx_id : Text
  pub base : CommittedTip
  pub mutation : MutationIdentity
  pub operation_count : ℕ

-- `tip(value)`, with the fields that were tested
unfoldable pub read_base : Value → Result CommittedTip
unfolding is_record has_keys get_field read_text is_wal_identifier is_sequence is_digest
read_base value = require (is_record value) >>= λ fs. require_that (has_keys fs tip_keys) >>= λ _.
    require
      (read_text (is_wal_identifier wal_limits.identifier_bytes) (get_field fs (units "epochId")))
    >>= λ epoch_id.
        require
          (read_text (is_sequence wal_limits.transaction_digits) (get_field fs (units "txId")))
        >>= λ tx_id. require (read_text is_digest (get_field fs (units "digest"))) >>= λ digest.
            ok (record { epoch_id = epoch_id; tx_id = tx_id; digest = digest })

abbrev pub mutation_keys : List Text
mutation_keys = units "mutationId" ∷ units "digest" ∷ []

unfoldable pub read_mutation : Value → Result MutationIdentity
unfolding is_record has_keys get_field read_text is_wal_identifier is_digest
read_mutation value = require (is_record value) >>= λ fs.
    require_that (has_keys fs mutation_keys) >>= λ _.
    require (
      read_text (is_wal_identifier wal_limits.mutation_id_bytes)
        (get_field fs (units "mutationId")))
    >>= λ mutation_id. require (read_text is_digest (get_field fs (units "digest"))) >>= λ digest.
        ok (record { mutation_id = mutation_id; digest = digest })

abbrev pub is_null : Value → Bool
is_null null = true
is_null undefined = false
is_null (bool b) = false
is_null (number n) = false
is_null (text s) = false
is_null (date t) = false
is_null (array xs) = false
is_null (object fs) = false

abbrev pub metadata_keys : List Text
metadata_keys =
    units "format"
    ∷ units "version"
    ∷ units "storeId"
    ∷ units "epochId"
    ∷ units "txId"
    ∷ units "base"
    ∷ units "mutation"
    ∷ units "operationCount"
    ∷ units "audit"
    ∷ []

unfoldable pub supported_format : Fields → Result {0} Unit
unfolding get_field
supported_format fs = require (as_text (get_field fs (units "format"))) >>= λ f.
    require (as_text (get_field fs (units "version"))) >>= λ v.
    support_that (same f wal_format && same v version_one)

-- The header of metadata with the right shape; what it lacks is a corruption, whichever it is.
unfoldable pub read_header : Fields → Result Header
unfolding read_base read_mutation get_field has_keys read_text is_wal_identifier is_sequence
    as_count
read_header fs = require_that (has_keys fs metadata_keys) >>= λ _.
    require
      (read_text (is_wal_identifier wal_limits.identifier_bytes) (get_field fs (units "storeId")))
    >>= λ store_id.
        require (
          read_text (is_wal_identifier wal_limits.identifier_bytes)
            (get_field fs (units "epochId")))
        >>= λ epoch_id.
            require
              (read_text (is_sequence wal_limits.transaction_digits) (get_field fs (units "txId")))
            >>= λ tx_id. read_base (get_field fs (units "base")) >>= λ base.
                read_mutation (get_field fs (units "mutation")) >>= λ mutation.
                require (as_count (get_field fs (units "operationCount"))) >>= λ count.
                require_that (not (ltb count 1) && not (ltb wal_limits.operations count)) >>= λ _.
                require_that (is_null (get_field fs (units "audit"))) >>= λ _. ok (record {
                  store_id = store_id;
                  epoch_id = epoch_id;
                  tx_id = tx_id;
                  base = base;
                  mutation = mutation;
                  operation_count = count;
                })

-- `validateHeader(value)`
unfoldable pub validate_header : Value → Result Header
unfolding is_record supported_format read_header is_successor
validate_header value = require (is_record value) >>= λ fs. supported_format fs >>= λ _.
    read_header fs >>= λ header.
    require_that
      (same header.epoch_id header.base.epoch_id && is_successor header.base.tx_id header.tx_id)
    >>= λ _. ok header

abbrev pub mutation_fields : MutationIdentity → Fields
mutation_fields m =
    field (units "mutationId") (text m.mutation_id) (field (units "digest") (text m.digest) end)

-- The header as the object that is written.
abbrev pub metadata_fields : Text → Text → Header → Value → Fields
metadata_fields format version h audit = field (units "format") (text format) (
    field (units "version") (text version) (
      field (units "storeId") (text h.store_id) (
        field (units "epochId") (text h.epoch_id) (
          field (units "txId") (text h.tx_id) (
            field (units "base") (object (tip_fields h.base)) (
              field (units "mutation") (object (mutation_fields h.mutation)) (
                field (units "operationCount") (count_value h.operation_count)
                  (field (units "audit") audit end))))))))
