-- ===== src/Durable.antt =====
-- The records of src/types/persistence.ts and src/utils/durablePersistence.ts. A payload is a
-- value, as its producer has not checked it to be a record yet.
pub mod Decimal
use ether_memories.Prelude.{
  ℕ, ◌≡◌, refl, ◌↔◌, Bool, true, false, not, ◌&&◌, ◌||◌, Option, none, some, List, [], ◌∷◌, all,
  length, ltb, leb, ◌==◌, if◌then◌else◌, arith,
}
use ether_memories.Result.{Result, ok, err, ErrorCode}
use ether_memories.Result.ErrorCode.{invalid_input, durability_unavailable}
use ether_memories.Text.{Text, same, same_iff, same_refl}
use ether_memories.Value.{Value}

pub record MutationIdentity : Type 0 where
  pub mutation_id : Text
  pub digest : Text

pub record CommittedTip : Type 0 where
  pub epoch_id : Text
  pub tx_id : Text
  pub digest : Text

pub record CheckpointIdentity : Type 0 where
  pub checkpoint_id : Text
  pub digest : Text
  pub tip : CommittedTip

pub record WalFormatIdentifier : Type 0 where
  pub format : Text
  pub version : Text

pub record StoreHead : Type 0 where
  pub version : Text
  pub store_id : Text
  pub epoch_id : Text
  pub checkpoint : CheckpointIdentity
  pub wal_format : WalFormatIdentifier

pub record WalOperation : Type 0 where
  pub op_type : Text
  pub version : Text
  pub payload : Value

pub record DurableTransaction : Type 0 where
  pub store_id : Text
  pub mutation : MutationIdentity
  pub format : WalFormatIdentifier
  pub expected_base : CommittedTip
  pub identity : CommittedTip
  pub operations : List WalOperation

abbrev pub is_digit : ℕ → Bool
is_digit unit = leb 48 unit && leb unit 57

-- `text.length > 1 && text[0] === "0"`
unfoldable pub has_leading_zero : Text → Bool
has_leading_zero [] = false
has_leading_zero (u ∷ []) = false
has_leading_zero (u ∷ v ∷ rest) = u == 48

-- `parseTransactionSequenceId`, for a value that is a string
unfoldable pub parse_sequence_id : Text → Result Text
unfolding has_leading_zero
parse_sequence_id value =
    if length value == 0 || not (all is_digit value) || has_leading_zero value
    then err ErrorCode.invalid_input
    else ok value

unfoldable pub same_tip : CommittedTip → CommittedTip → Bool
same_tip a b = same a.epoch_id b.epoch_id && same a.tx_id b.tx_id && same a.digest b.digest

same_fields :
    {a b : CommittedTip} → a.epoch_id ≡ b.epoch_id → a.tx_id ≡ b.tx_id → a.digest ≡ b.digest → a ≡ b
same_fields e t d i = record { epoch_id = e i; tx_id = t i; digest = d i }

pub same_tip_iff : (a b : CommittedTip) → (same_tip a b ≡ true) ↔ (a ≡ b)
unfolding same_tip
same_tip_iff a b = (
  λ h.
      same_fields ((same_iff a.epoch_id b.epoch_id).0 (ground arith))
        ((same_iff a.tx_id b.tx_id).0 (ground arith))
        ((same_iff a.digest b.digest).0 (ground arith)),
  λ e. rw (e, same_refl b.epoch_id, same_refl b.tx_id, same_refl b.digest) refl,
)

-- `storage.durable`, of whatever type the operations have; most storages have none.
unfoldable pub get_durable_operations {ℓ} : {D : Type ℓ} → Option D → Result D
get_durable_operations (some operations) = ok operations
get_durable_operations none = err ErrorCode.durability_unavailable
