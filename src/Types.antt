-- ===== src/Types.antt =====
-- src/types/index.ts: the records of the three foundations.
use ether_memories.Prelude.{Option, Bool, List}
use ether_memories.Text.{Text}
use ether_memories.Time.{Time}
use ether_memories.Number.{Number}
use ether_memories.Value.{Value}

pub data MemorySource : Type 0 where
  user conversation diary ai imported system : MemorySource

pub data ProvenanceKind : Type 0 where
  user_explicit diary_extract condensed inferred imported system : ProvenanceKind

pub data EditKind : Type 0 where
  user system imported : EditKind

pub record MemoryProvenance : Type 0 where
  pub kind : ProvenanceKind
  pub parent_note_id : Option Text
  pub parent_diary_id : Option Text
  pub parent_edge_id : Option Text
  pub import_batch_id : Option Text
  pub detail : Option Text
  pub last_edit_kind : Option EditKind

pub data MemoryStatus : Type 0 where
  candidate active archived rejected : MemoryStatus

pub record MemoryNote : Type 0 where
  pub id : Text
  pub content : Text
  pub summary : Option Text
  pub category : Option Text
  pub tags : List Text
  pub source : MemorySource
  pub provenance : MemoryProvenance
  pub importance : Number
  pub confidence : Number
  pub pinned : Bool
  pub status : MemoryStatus
  pub expires_at : Option Time
  pub created_at : Time
  pub updated_at : Time
  pub metadata : Value

pub record DiaryEntry : Type 0 where
  pub id : Text
  pub content : Text
  pub created_at : Time
  pub updated_at : Time
  pub tags : List Text
  pub metadata : Value

pub record MindGraphNode : Type 0 where
  pub id : Text
  pub type : Text
  pub label : Option Text
  pub payload : Value

pub record MindGraphEdge : Type 0 where
  pub id : Text
  pub source : Text
  pub target : Text
  pub relationship : Text
  pub payload : Value
