-- ===== src/Core.antt =====
-- `EtherMemoriesCore` of src/core/EtherMemories.ts: the foundations behind one facade. Fresh ids
-- and the two clock reads of a call (`now` of the foundation, `touched` of `touch`) are arguments.
pub mod Invariant
pub mod Purge
pub mod Queries
mod Tests
use ether_memories.Prelude.{
  ℕ, Bool, true, false, Option, none, some, List, [], ◌∷◌, map, keep, length, if◌then◌else◌,
}
use ether_memories.Result.{Result, ok, err}
use ether_memories.Text.{Text}
use ether_memories.Time.{Time}
use ether_memories.Value.{Value, clone_value}
use ether_memories.Types.{MemoryNote, DiaryEntry, MindGraphNode, MindGraphEdge}
use ether_memories.Notes
use ether_memories.Notes.{
  MemoryNotes, AddNoteInput, UpdateNoteInput, empty_notes, clone_note, values_unsafe, is_purged,
}
use ether_memories.Diary
use ether_memories.Diary.{DiarySystem, AddDiaryInput, DiaryPatch, empty_diary, clone_entry}
use ether_memories.Graph
use ether_memories.Graph.Package.{GraphPackage}
use ether_memories.Linker.{link_note, link_diary, remove_note, remove_diary}

pub record UserIdentity : Type 0 where
  pub user_id : Text
  pub display_name : Option Text
  pub created_at : Time
  pub last_active : Time
  pub preferences : Value

pub record EtherSnapshot : Type 0 where
  pub identity : UserIdentity
  pub memory_notes : List MemoryNote
  pub diary : List DiaryEntry
  pub nodes : List MindGraphNode
  pub edges : List MindGraphEdge

unfoldable pub clone_identity : UserIdentity → UserIdentity
clone_identity i = record i { preferences = clone_value i.preferences }

pub record EtherMemoriesCore (pkg : GraphPackage) : Type 0 where
  pub notes : MemoryNotes
  pub diary : DiarySystem
  pub graph : pkg.Graph
  pub identity : UserIdentity

module _ (pkg : GraphPackage) where
  abbrev State : Type 0
  State = EtherMemoriesCore pkg

  unfoldable pub new_core : UserIdentity → State
  new_core identity = record {
    notes = empty_notes;
    diary = empty_diary;
    graph = pkg.new_graph;
    identity = identity;
  }

  abbrev touch : Time → State → State
  touch touched s = record s { identity = record s.identity { last_active = touched } }

  -- `if (result.ok) { this.linker.linkNote(result.value); this.touch(); } return result;`
  link_on_ok : Text → Time → State → Result MemoryNote × MemoryNotes → Result MemoryNote × State
  link_on_ok edge_id touched s (ok note, notes) = (
    ok note,
    touch touched (record s { notes = notes; graph = link_note pkg edge_id note s.graph }),
  )
  link_on_ok edge_id touched s (err e, notes) = (err e, record s { notes = notes })

  unfoldable pub add_memory :
      (id edge_id : Text) (now touched : Time) → AddNoteInput → State → Result MemoryNote × State
  unfolding link_on_ok
  add_memory id edge_id now touched input s =
      link_on_ok edge_id touched s (Notes.add id now input s.notes)

  unfoldable pub update_memory :
      (id edge_id : Text) (now touched : Time) → UpdateNoteInput → State → Result MemoryNote × State
  unfolding link_on_ok
  update_memory id edge_id now touched patch s =
      link_on_ok edge_id touched s (Notes.update id now patch s.notes)

  unfoldable pub promote_candidate :
      (id edge_id : Text) (now touched : Time) → State → Result MemoryNote × State
  unfolding link_on_ok
  promote_candidate id edge_id now touched s =
      link_on_ok edge_id touched s (Notes.promote_candidate id now s.notes)

  unlink_on_ok : Text → Time → State → Result (Unit {0}) × MemoryNotes → Result (Unit {0}) × State
  unlink_on_ok id touched s (ok u, notes) =
      (ok u, touch touched (record s { notes = notes; graph = remove_note pkg id s.graph }))
  unlink_on_ok id touched s (err e, notes) = (err e, record s { notes = notes })

  unfoldable pub delete_memory : (id : Text) (touched : Time) → State → Result (Unit {0}) × State
  unfolding unlink_on_ok
  delete_memory id touched s = unlink_on_ok id touched s (Notes.delete id s.notes)

  delete_all : List Text → Time → State → State
  delete_all [] touched s = s
  delete_all (id ∷ ids) touched s = delete_all ids touched (delete_memory id touched s).1

  -- The ids that `purgeExpired` deletes.
  purged_ids : ℕ → Bool → State → List Text
  purged_ids now force_pinned s =
      map (λ n. n.id) (keep (is_purged now force_pinned) (values_unsafe s.notes))

  unfoldable pub purge_expired : ℕ → Bool → Time → State → ℕ × State
  unfolding delete_all purged_ids
  purge_expired now force_pinned touched s =
      let ids = purged_ids now force_pinned s in (length ids, delete_all ids touched s)

  link_diary_on_ok : Time → State → Result DiaryEntry × DiarySystem → Result DiaryEntry × State
  link_diary_on_ok touched s (ok entry, diary) =
      (ok entry, touch touched (record s { diary = diary; graph = link_diary pkg entry s.graph }))
  link_diary_on_ok touched s (err e, diary) = (err e, record s { diary = diary })

  unfoldable pub add_diary_entry :
      (id : Text) (now touched : Time) → AddDiaryInput → State → Result DiaryEntry × State
  unfolding link_diary_on_ok
  add_diary_entry id now touched input s =
      link_diary_on_ok touched s (Diary.add id now input s.diary)

  unfoldable pub update_diary :
      (id : Text) (now touched : Time) → DiaryPatch → State → Result DiaryEntry × State
  unfolding link_diary_on_ok
  update_diary id now touched patch s =
      link_diary_on_ok touched s (Diary.update id now patch s.diary)

  unlink_diary_on_ok :
      Text → Time → State → Result (Unit {0}) × DiarySystem → Result (Unit {0}) × State
  unlink_diary_on_ok id touched s (ok u, diary) =
      (ok u, touch touched (record s { diary = diary; graph = remove_diary pkg id s.graph }))
  unlink_diary_on_ok id touched s (err e, diary) = (err e, record s { diary = diary })

  unfoldable pub delete_diary : (id : Text) (touched : Time) → State → Result (Unit {0}) × State
  unfolding unlink_diary_on_ok
  delete_diary id touched s = unlink_diary_on_ok id touched s (Diary.delete id s.diary)

  unfoldable pub export_data : State → EtherSnapshot
  unfolding clone_identity
  export_data s = record {
    identity = clone_identity s.identity;
    memory_notes = map clone_note (values_unsafe s.notes);
    diary = map clone_entry (Diary.values_unsafe s.diary);
    nodes = Graph.get_all_nodes pkg s.graph;
    edges = Graph.get_all_edges pkg s.graph;
  }
