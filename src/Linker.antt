-- ===== src/Linker.antt =====
-- `FoundationLinker` of src/core/FoundationLinker.ts: the graph nodes of notes and diary entries.
-- The id of an edge that is added is an argument.
pub mod Laws
use ether_memories.Prelude.{
  Option, none, some, List, [], ◌∷◌, ◌++◌, if◌then◌else◌, or_default, is_some,
}
use ether_memories.Text.{Text, units}
use ether_memories.Text.Trim.{is_empty}
use ether_memories.Value.{Value, text, object, end, field}
use ether_memories.Types.{
  MemoryNote, DiaryEntry, MemoryStatus, ProvenanceKind, MindGraphNode, candidate, active, archived,
  rejected, user_explicit, diary_extract, condensed, inferred, imported, system,
}
use ether_memories.Graph.Package.{GraphPackage}
use ether_memories.Graph.{ensure_node, get_node, add_edge, remove_node}

-- `memory:${id}` and `diary:${id}`
unfoldable pub memory_node : Text → Text
memory_node id = units "memory:" ++ id

unfoldable pub diary_node : Text → Text
diary_node id = units "diary:" ++ id

abbrev status_text : MemoryStatus → Text
status_text candidate = units "candidate"
status_text active = units "active"
status_text archived = units "archived"
status_text rejected = units "rejected"

abbrev kind_text : ProvenanceKind → Text
kind_text user_explicit = units "user_explicit"
kind_text diary_extract = units "diary_extract"
kind_text condensed = units "condensed"
kind_text inferred = units "inferred"
kind_text imported = units "imported"
kind_text system = units "system"

note_node : MemoryNote → MindGraphNode
note_node note = record {
  id = memory_node note.id;
  type = units "memory";
  label = some (or_default note.summary note.content);
  payload = object (field (units "status") (text (status_text note.status)) end);
}

abbrev bare_diary_node : Text → Option Text → MindGraphNode
bare_diary_node id label = record {
  id = id;
  type = units "diary";
  label = label;
  payload = object end;
}

link_data : MemoryNote → Value
link_data note = object (
    field (units "origin") (text (units "foundation_linker")) (
      field (units "cause")
        (object (
          field (units "type") (text (units "note_created"))
            (field (units "noteId") (text note.id) end)))
        (field (units "provenanceKind") (text (kind_text note.provenance.kind)) end)))

module _ (pkg : GraphPackage) where
  open pkg use {Graph}

  -- `if (!this.graph.getNode(diaryId)) this.graph.ensureNode(...)`
  ensure_diary : Text → Graph → Graph
  ensure_diary diary_id g =
      if is_some (get_node pkg diary_id g)
      then g
      else (ensure_node pkg (bare_diary_node diary_id none) g).1

  -- The part of `linkNote` for a note with a `parentDiaryId`; the empty text counts as none.
  link_parent : Text → MemoryNote → Option Text → Graph → Graph
  unfolding link_data ensure_diary
  link_parent edge_id note none g = g
  link_parent edge_id note (some parent) g =
      let diary_id : Text = diary_node parent in
      let linked : Graph =
        (add_edge pkg edge_id (memory_node note.id) diary_id (units "derived_from") (link_data note)
          (ensure_diary diary_id g)).1 in
      if is_empty parent then g else linked

  unfoldable pub link_note : Text → MemoryNote → Graph → Graph
  unfolding note_node link_parent
  link_note edge_id note g =
      link_parent edge_id note note.provenance.parent_diary_id
        (ensure_node pkg (note_node note) g).1

  unfoldable pub link_diary : DiaryEntry → Graph → Graph
  link_diary entry g =
      (ensure_node pkg (bare_diary_node (diary_node entry.id) (some entry.content)) g).1

  unfoldable pub remove_note : Text → Graph → Graph
  remove_note note_id g = remove_node pkg (memory_node note_id) g

  unfoldable pub remove_diary : Text → Graph → Graph
  remove_diary diary_id g = remove_node pkg (diary_node diary_id) g
