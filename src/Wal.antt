-- ===== src/Wal.antt =====
-- The limits, constants and records of src/persistence/wal.ts. Its operations are in the children.
pub mod Registry
pub mod Header
pub mod Operations
pub mod Frame
pub mod Scan
pub mod Replay
pub mod Round
pub mod Stream
mod Tests
use ether_memories.Prelude.{ℕ, List, [], ◌∷◌}
use ether_memories.Text.{units}
use ether_memories.Bytes.{Bytes}
use ether_memories.Json.{JsonBounds}

pub record WalLimits : Type 0 where
  pub frame_bytes : ℕ
  pub metadata_bytes : ℕ
  pub operation_list_bytes : ℕ
  pub operations : ℕ
  pub payload_bytes : ℕ
  pub aggregate_payload_bytes : ℕ
  pub mutation_id_bytes : ℕ
  pub identifier_bytes : ℕ
  pub transaction_digits : ℕ
  pub metadata_depth : ℕ
  pub json_nodes : ℕ
  pub stream_bytes : ℕ
  pub frames : ℕ

abbrev pub wal_limits : WalLimits
wal_limits = record {
  frame_bytes = 1_048_576;
  metadata_bytes = 4096;
  operation_list_bytes = 786_432;
  operations = 128;
  payload_bytes = 65_536;
  aggregate_payload_bytes = 524_288;
  mutation_id_bytes = 128;
  identifier_bytes = 64;
  transaction_digits = 128;
  metadata_depth = 16;
  json_nodes = 65_536;
  stream_bytes = 8_388_608;
  frames = 1024;
}

abbrev pub wal_prefix_bytes : ℕ
wal_prefix_bytes = 24

abbrev pub magic : Bytes
magic = 0xff ∷ 0x45 ∷ 0x57 ∷ 0x41 ∷ 0x4c ∷ 0x0d ∷ 0x0a ∷ 0x1a ∷ []

abbrev pub end_mark : Bytes
end_mark = units "EWALDONE"

-- "ether.wal/1\0"
abbrev pub domain : Bytes
domain = units "ether.wal/1\0"

abbrev pub trailer_bytes : ℕ
trailer_bytes = 40

-- `bounds(bytes)`
abbrev pub json_bounds : ℕ → JsonBounds
json_bounds n = record {
  bytes = n;
  depth = wal_limits.metadata_depth;
  nodes = wal_limits.json_nodes;
}
