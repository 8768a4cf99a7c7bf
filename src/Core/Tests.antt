-- ===== src/Core/Tests.antt =====
-- Runs of src/core/EtherMemories.ts, and the theorems about it at a concrete core.
use ether_memories.Prelude.{◌≡◌, false, none, some, keep}
use ether_memories.Text.{units}
use ether_memories.Time.{at}
use ether_memories.Value.{object, end}
use ether_memories.Notes.{AddNoteInput}
use ether_memories.Notes.Purge.{outlives}
use ether_memories.Diary.{AddDiaryInput}
use ether_memories.Types.{MemoryProvenance, diary_extract}
use ether_memories.Graph.Package.Simple.{simple_graph, simple_graph-laws}
use ether_memories.Core.{
  EtherMemoriesCore, UserIdentity, new_core, add_memory, add_diary_entry, delete_memory,
  purge_expired,
}
use ether_memories.Core.Invariant.{
  IsLinked, Reach, here, next, memory_added, memory_deleted, diary_added,
  EtherMemoriesCore-IsLinked,
}
use ether_memories.Core.Purge.{notes-purge_expired}

abbrev user : UserIdentity
user = record {
  user_id = units "u";
  display_name = none;
  created_at = at 1;
  last_active = at 1;
  preferences = object end;
}

abbrev from_diary : MemoryProvenance
from_diary = record {
  kind = diary_extract;
  parent_note_id = none;
  parent_diary_id = some (units "diary_1");
  parent_edge_id = none;
  import_batch_id = none;
  detail = none;
  last_edit_kind = none;
}

abbrev walk : AddNoteInput
walk = record {
  content = units "went for a walk";
  summary = none;
  category = none;
  tags = none;
  source = none;
  provenance = some from_diary;
  importance = none;
  confidence = none;
  pinned = none;
  status = none;
  expires_at = some (at 50);
  metadata = none;
}

abbrev day : AddDiaryInput
day = record { content = units "sunny"; tags = none; metadata = none }

-- A diary entry, two notes that were extracted from it, one of them deleted again.
abbrev with_notes : EtherMemoriesCore simple_graph
with_notes =
    (delete_memory simple_graph (units "mem_1") (at 4)
      (add_memory simple_graph (units "mem_2") (units "edge_2") (at 3) (at 3) walk
        (add_memory simple_graph (units "mem_1") (units "edge_1") (at 2) (at 2) walk
          (add_diary_entry simple_graph (units "diary_1") (at 1) (at 1) day
            (new_core simple_graph user)).1).1).1).1

with_notes-Reach : Reach simple_graph (new_core simple_graph user) with_notes
with_notes-Reach =
    next
      (next
        (next (next here (diary_added (units "diary_1") 1 (at 1) day))
          (memory_added (units "mem_1") (units "edge_1") (at 2) (at 2) walk))
        (memory_added (units "mem_2") (units "edge_2") (at 3) (at 3) walk))
      (memory_deleted (units "mem_1") (at 4))

EtherMemoriesCore-IsLinked_example : IsLinked simple_graph with_notes
EtherMemoriesCore-IsLinked_example =
    EtherMemoriesCore-IsLinked simple_graph simple_graph-laws user with_notes-Reach

notes-purge_expired_example :
    (purge_expired simple_graph 60 false (at 60) with_notes).1.notes.notes
    ≡ keep (outlives 60 false) with_notes.notes.notes
notes-purge_expired_example =
    notes-purge_expired simple_graph 60 false (at 60) with_notes
      (EtherMemoriesCore-IsLinked simple_graph simple_graph-laws user with_notes-Reach).notes_valid
