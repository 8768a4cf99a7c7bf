-- ===== src/Wal/Registry.antt =====
-- src/persistence/walOperations.ts: the registry of replay operations. A definition's functions are
-- the program's own, handed in: none stands for one that throws or returns no result.
pub mod Laws
use ether_memories.Prelude.{
  ℕ, Bool, not, ◌&&◌, ◌||◌, Option, none, some, is_some, List, [], ◌∷◌, ◌++◌, all, length, leb,
  ◌==◌, if◌then◌else◌,
}
use ether_memories.Result.{Result, ok, err, ErrorCode, ◌>>=◌}
use ether_memories.Result.ErrorCode.{
  invalid_input, persistence_corruption, unsupported_persistence_format,
}
use ether_memories.Text.{Text, units}
use ether_memories.Value.{Value}
use ether_memories.OrderedMap
use ether_memories.OrderedMap.{Map, get, has}
use ether_memories.Durable.{WalOperation, is_digit}
use ether_memories.Json.{
  JsonRuntime, JsonBounds, canonical_json, decode_canonical_json, wal_corruption,
}
use ether_memories.Json.Records.{is_record}
use ether_memories.Codecs.{starts_with, is_lower_or_digit}

abbrev is_lower : ℕ → Bool
is_lower u = leb 97 u && leb u 122

-- `operationType(value)`, for a string
unfoldable pub operation_type : Text → Bool
operation_type s =
    leb 1 (length s)
    && leb (length s) 64
    && starts_with is_lower s
    && all (λ u. is_lower_or_digit u || u == 95 || u == 46 || u == 45) s

-- `operationVersion(value)`, for a string
unfoldable pub operation_version : Text → Bool
operation_version s =
    leb 1 (length s)
    && leb (length s) 16
    && starts_with (λ u. leb 49 u && leb u 57) s
    && all is_digit s

pub record ReplayOperationDefinition : Type 0 where
  pub op_type : Text
  pub version : Text
  pub validate : Value → Option (Result {0} Unit)
  pub reduce : Value → Value → Option (Result Value)

pub record ReplayRegistry : Type 0 where
  pub validate : WalOperation → Result {0} Unit
  pub reduce : Value → WalOperation → Result Value

abbrev pub replay_state_bounds : JsonBounds
replay_state_bounds = record { bytes = 1_048_576; depth = 32; nodes = 65_536 }

abbrev record_or_corrupt : Value → Result Value
record_or_corrupt v = if is_some (is_record v) then ok v else wal_corruption

-- `detachedState(state)`
unfoldable pub detached_state : JsonRuntime → Value → Result Value
unfolding canonical_json decode_canonical_json is_record
detached_state json state = canonical_json json replay_state_bounds state >>= λ bytes.
    decode_canonical_json json replay_state_bounds bytes >>= record_or_corrupt

-- `type + ":" + version`
abbrev pub operation_key : Text → Text → Text
operation_key op_type version = op_type ++ 58 ∷ version

abbrev pub Entries : Type 0
Entries = Map ReplayOperationDefinition

unfoldable pub register : Entries → ReplayOperationDefinition → Result Entries
unfolding has OrderedMap.set operation_type operation_version
register entries d =
    let key = operation_key d.op_type d.version in
    if not (operation_type d.op_type) || not (operation_version d.version)
    then err ErrorCode.invalid_input
    else if has key entries
    then err ErrorCode.invalid_input
    else ok (OrderedMap.set key d entries)

unfoldable pub register_all : Entries → List ReplayOperationDefinition → Result Entries
unfolding register
register_all entries [] = ok entries
register_all entries (d ∷ ds) = register entries d >>= λ more. register_all more ds

unfoldable pub lookup : Entries → WalOperation → Option ReplayOperationDefinition
unfolding get
lookup entries op = get (operation_key op.op_type op.version) entries

-- The result of a definition's function; one that throws or has no result is a corruption.
abbrev pub contracted {ℓ} : {A : Type ℓ} → Option (Result A) → Result A
contracted none = wal_corruption
contracted (some r) = r

abbrev validate_by : Option ReplayOperationDefinition → Value → Result {0} Unit
validate_by none payload = err ErrorCode.unsupported_persistence_format
validate_by (some d) payload = contracted (d.validate payload)

abbrev reduce_by : JsonRuntime → Option ReplayOperationDefinition → Value → Value → Result Value
reduce_by json none state payload = err ErrorCode.unsupported_persistence_format
reduce_by json (some d) state payload = contracted (d.reduce state payload) >>= detached_state json

module _ (json : JsonRuntime) where
  unfoldable pub registry_of : Entries → ReplayRegistry
  unfolding lookup detached_state
  registry_of entries = record {
    validate = λ op. validate_by (lookup entries op) op.payload;
    reduce = λ state op. reduce_by json (lookup entries op) state op.payload;
  }

  -- `createReplayRegistry(definitions)`
  unfoldable pub create_replay_registry : List ReplayOperationDefinition → Result ReplayRegistry
  unfolding register_all registry_of
  create_replay_registry definitions =
      register_all [] definitions >>= λ entries. ok (registry_of entries)
