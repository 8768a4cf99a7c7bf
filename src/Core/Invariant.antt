-- ===== src/Core/Invariant.antt =====
-- The calls of src/core/EtherMemories.ts on memories and diary entries keep the foundations and the
-- graph together.
use ether_memories.Prelude.{ℕ, ◌≡◌, sym, ◌∙◌, ap, Bool, true, List, [], ◌∷◌, arith}
use ether_memories.Result.{Result, ok, err}
use ether_memories.Text.{Text}
use ether_memories.Time.{Time, at}
use ether_memories.OrderedMap
use ether_memories.OrderedMap.Laws.{has-delete}
use ether_memories.Types.{MemoryNote, DiaryEntry}
use ether_memories.Notes
use ether_memories.Notes.{MemoryNotes, AddNoteInput, UpdateNoteInput}
use ether_memories.Notes.Invariant
use ether_memories.Notes.Writes
use ether_memories.Diary
use ether_memories.Diary.{DiarySystem, AddDiaryInput, DiaryPatch}
use ether_memories.Diary.Laws
use ether_memories.Diary.Writes as DiaryWrites
use ether_memories.Graph.Package.{GraphPackage, GraphLaws}
use ether_memories.Linker.{memory_node, diary_node}
use ether_memories.Linker.Laws.{
  same-memory-diary, same-diary-memory, same-memory, same-diary, has_node-link_note,
  has_node-link_diary, has_node-remove_note, has_node-remove_diary,
}
use ether_memories.Core.{
  EtherMemoriesCore, UserIdentity, new_core, add_memory, update_memory, promote_candidate,
  delete_memory, delete_all, purged_ids, purge_expired, add_diary_entry, update_diary, delete_diary,
  link_on_ok, unlink_on_ok, link_diary_on_ok, unlink_diary_on_ok,
}

-- The stored notes and entries are well formed; a note is stored exactly if its node is in the
-- graph; a stored diary entry has its node.
pub record IsLinked (pkg : GraphPackage) (s : EtherMemoriesCore pkg) : Type 0 where
  pub notes_valid : Notes.Invariant.IsValid s.notes
  pub diary_valid : Diary.Laws.IsValid s.diary
  pub notes_linked :
      (id : Text) → pkg.has_node s.graph (memory_node id) ≡ OrderedMap.has id s.notes.notes
  pub diary_linked :
      (id : Text)
      → OrderedMap.has id s.diary.entries ≡ true
      → pkg.has_node s.graph (diary_node id) ≡ true

module _ (pkg : GraphPackage) (laws : GraphLaws pkg) where
  link_on_ok-IsLinked :
      (id edge_id : Text) (touched : Time) (s : EtherMemoriesCore pkg) (r : Result MemoryNote)
      (notes : MemoryNotes)
      → Writes.Writes id s.notes (r, notes)
      → Notes.Invariant.IsValid notes
      → IsLinked pkg s
      → IsLinked pkg (link_on_ok pkg edge_id touched s (r, notes)).1
  unfolding link_on_ok
  link_on_ok-IsLinked id edge_id touched s (ok note) notes w valid h = record {
    notes_valid = valid;
    diary_valid = h.diary_valid;
    notes_linked = λ j.
        (has_node-link_note pkg laws edge_id note s.graph j).0
        ∙ ground (arith, h.notes_linked j, w.0, w.1 j);
    diary_linked = λ j had.
        (has_node-link_note pkg laws edge_id note s.graph (diary_node j)).1 (h.diary_linked j had);
  }
  link_on_ok-IsLinked id edge_id touched s (err e) notes w valid h = record {
    notes_valid = valid;
    diary_valid = h.diary_valid;
    notes_linked = λ j. h.notes_linked j ∙ ap (OrderedMap.has j) (sym w);
    diary_linked = h.diary_linked;
  }

  unlink_on_ok-IsLinked :
      (id : Text) (touched : Time) (s : EtherMemoriesCore pkg) (r : Result (Unit {0}))
      (notes : MemoryNotes)
      → Writes.Deletes id s.notes (r, notes)
      → Notes.Invariant.IsValid notes
      → IsLinked pkg s
      → IsLinked pkg (unlink_on_ok pkg id touched s (r, notes)).1
  unfolding unlink_on_ok
  unlink_on_ok-IsLinked id touched s (ok u) notes w valid h = record {
    notes_valid = valid;
    diary_valid = h.diary_valid;
    notes_linked = λ j.
        has_node-remove_note pkg laws id s.graph (memory_node j)
        ∙ ground (arith, h.notes_linked j, w, same-memory id j, has-delete id j s.notes.notes);
    diary_linked = λ j had.
        has_node-remove_note pkg laws id s.graph (diary_node j)
        ∙ ground (arith, h.diary_linked j had, same-memory-diary id j);
  }
  unlink_on_ok-IsLinked id touched s (err e) notes w valid h = record {
    notes_valid = valid;
    diary_valid = h.diary_valid;
    notes_linked = λ j. h.notes_linked j ∙ ap (OrderedMap.has j) (sym w.0);
    diary_linked = h.diary_linked;
  }

  link_diary_on_ok-IsLinked :
      (id : Text) (touched : Time) (s : EtherMemoriesCore pkg) (r : Result DiaryEntry)
      (diary : DiarySystem)
      → DiaryWrites.Writes id s.diary (r, diary)
      → Diary.Laws.IsValid diary
      → IsLinked pkg s
      → IsLinked pkg (link_diary_on_ok pkg touched s (r, diary)).1
  unfolding link_diary_on_ok
  link_diary_on_ok-IsLinked id touched s (ok entry) diary w valid h = record {
    notes_valid = h.notes_valid;
    diary_valid = valid;
    notes_linked = λ j.
        has_node-link_diary pkg laws entry s.graph (memory_node j)
        ∙ ground (arith, h.notes_linked j, same-diary-memory entry.id j);
    diary_linked = λ j had.
        has_node-link_diary pkg laws entry s.graph (diary_node j)
        ∙ ground (arith, h.diary_linked j, w.0, w.1 j, same-diary entry.id j);
  }
  link_diary_on_ok-IsLinked id touched s (err e) diary w valid h = record {
    notes_valid = h.notes_valid;
    diary_valid = valid;
    notes_linked = h.notes_linked;
    diary_linked = λ j had. h.diary_linked j (ap (OrderedMap.has j) (sym w) ∙ had);
  }

  unlink_diary_on_ok-IsLinked :
      (id : Text) (touched : Time) (s : EtherMemoriesCore pkg) (r : Result (Unit {0}))
      (diary : DiarySystem)
      → DiaryWrites.Deletes id s.diary (r, diary)
      → Diary.Laws.IsValid diary
      → IsLinked pkg s
      → IsLinked pkg (unlink_diary_on_ok pkg id touched s (r, diary)).1
  unfolding unlink_diary_on_ok
  unlink_diary_on_ok-IsLinked id touched s (ok u) diary w valid h = record {
    notes_valid = h.notes_valid;
    diary_valid = valid;
    notes_linked = λ j.
        has_node-remove_diary pkg laws id s.graph (memory_node j)
        ∙ ground (arith, h.notes_linked j, same-diary-memory id j);
    diary_linked = λ j had.
        has_node-remove_diary pkg laws id s.graph (diary_node j)
        ∙ ground (arith, h.diary_linked j, w, same-diary id j, has-delete id j s.diary.entries);
  }
  unlink_diary_on_ok-IsLinked id touched s (err e) diary w valid h = record {
    notes_valid = h.notes_valid;
    diary_valid = valid;
    notes_linked = h.notes_linked;
    diary_linked = λ j had. h.diary_linked j (ap (OrderedMap.has j) (sym w) ∙ had);
  }

  delete_memory-IsLinked :
      (id : Text) (touched : Time) (s : EtherMemoriesCore pkg)
      → IsLinked pkg s
      → IsLinked pkg (delete_memory pkg id touched s).1
  unfolding delete_memory
  delete_memory-IsLinked id touched s h =
      let called = Notes.delete id s.notes in
      unlink_on_ok-IsLinked id touched s called.0 called.1 (Writes.delete-Deletes id s.notes)
        (Notes.Invariant.Step-IsValid (Notes.Invariant.deleted id) h.notes_valid) h

  delete_all-IsLinked :
      (ids : List Text) (touched : Time) (s : EtherMemoriesCore pkg)
      → IsLinked pkg s
      → IsLinked pkg (delete_all pkg ids touched s)
  unfolding delete_all
  delete_all-IsLinked [] touched s h = h
  delete_all-IsLinked (id ∷ ids) touched s h =
      delete_all-IsLinked ids touched _ (delete_memory-IsLinked id touched s h)

module _ (pkg : GraphPackage) where
  -- One call on a memory or a diary entry, failing calls included.
  pub data Step (s : EtherMemoriesCore pkg) : EtherMemoriesCore pkg → Type 0 where
    memory_added :
        (id edge_id : Text) (now touched : Time) (input : AddNoteInput)
        → Step s (add_memory pkg id edge_id now touched input s).1
    memory_updated :
        (id edge_id : Text) (now touched : Time) (patch : UpdateNoteInput)
        → Step s (update_memory pkg id edge_id now touched patch s).1
    memory_promoted :
        (id edge_id : Text) (now touched : Time)
        → Step s (promote_candidate pkg id edge_id now touched s).1
    memory_deleted : (id : Text) (touched : Time) → Step s (delete_memory pkg id touched s).1
    expired_purged :
        (now : ℕ) (force_pinned : Bool) (touched : Time)
        → Step s (purge_expired pkg now force_pinned touched s).1
    diary_added :
        (id : Text) (now : ℕ) (touched : Time) (input : AddDiaryInput)
        → Step s (add_diary_entry pkg id (at now) touched input s).1
    diary_updated :
        (id : Text) (now : ℕ) (touched : Time) (patch : DiaryPatch)
        → Step s (update_diary pkg id (at now) touched patch s).1
    diary_deleted : (id : Text) (touched : Time) → Step s (delete_diary pkg id touched s).1

  pub data Reach (s : EtherMemoriesCore pkg) : EtherMemoriesCore pkg → Type 0 where
    here : Reach s s
    next : {t u : EtherMemoriesCore pkg} → Reach s t → Step t u → Reach s u

module _ (pkg : GraphPackage) (laws : GraphLaws pkg) where
  Step-IsLinked : {s t : EtherMemoriesCore pkg} → Step pkg s t → IsLinked pkg s → IsLinked pkg t
  unfolding add_memory update_memory promote_candidate purge_expired add_diary_entry update_diary
      delete_diary
  Step-IsLinked {s} (memory_added id edge_id now touched input) h =
      let called = Notes.add id now input s.notes in
      link_on_ok-IsLinked pkg laws id edge_id touched s called.0 called.1
        (Writes.add-Writes id now input s.notes)
        (Notes.Invariant.Step-IsValid (Notes.Invariant.added id now input) h.notes_valid) h
  Step-IsLinked {s} (memory_updated id edge_id now touched patch) h =
      let called = Notes.update id now patch s.notes in
      link_on_ok-IsLinked pkg laws id edge_id touched s called.0 called.1
        (Writes.update-Writes id now patch s.notes h.notes_valid)
        (Notes.Invariant.Step-IsValid (Notes.Invariant.updated id now patch) h.notes_valid) h
  Step-IsLinked {s} (memory_promoted id edge_id now touched) h =
      let called = Notes.promote_candidate id now s.notes in
      link_on_ok-IsLinked pkg laws id edge_id touched s called.0 called.1
        (Writes.promote_candidate-Writes id now s.notes h.notes_valid)
        (Notes.Invariant.Step-IsValid (Notes.Invariant.promoted id now) h.notes_valid) h
  Step-IsLinked {s} (memory_deleted id touched) h = delete_memory-IsLinked pkg laws id touched s h
  Step-IsLinked {s} (expired_purged now force touched) h =
      delete_all-IsLinked pkg laws (purged_ids pkg now force s) touched s h
  Step-IsLinked {s} (diary_added id now touched input) h =
      let called = Diary.add id (at now) input s.diary in
      link_diary_on_ok-IsLinked pkg laws id touched s called.0 called.1
        (DiaryWrites.add-Writes id (at now) input s.diary)
        (Diary.Laws.Step-IsValid (Diary.Laws.added id now input) h.diary_valid) h
  Step-IsLinked {s} (diary_updated id now touched patch) h =
      let called = Diary.update id (at now) patch s.diary in
      link_diary_on_ok-IsLinked pkg laws id touched s called.0 called.1
        (DiaryWrites.update-Writes id (at now) patch s.diary h.diary_valid)
        (Diary.Laws.Step-IsValid (Diary.Laws.updated id now patch) h.diary_valid) h
  Step-IsLinked {s} (diary_deleted id touched) h =
      let called = Diary.delete id s.diary in
      unlink_diary_on_ok-IsLinked pkg laws id touched s called.0 called.1
        (DiaryWrites.delete-Deletes id s.diary)
        (Diary.Laws.Step-IsValid (Diary.Laws.deleted id) h.diary_valid) h

  -- On a new core, whatever calls of `addMemory`, `updateMemory`, `promoteCandidate`, `deleteMemory`,
  -- `purgeExpired`, `addDiaryEntry`, `updateDiary` and `deleteDiary` are made, failing ones included:
  -- notes and diary stay well formed, a note is stored exactly if the graph has its node `memory:id`,
  -- and every stored diary entry has its node `diary:id`. The calls that import or load whole states
  -- are not among them.
  pub EtherMemoriesCore-IsLinked :
      (identity : UserIdentity) {s : EtherMemoriesCore pkg}
      → Reach pkg (new_core pkg identity) s
      → IsLinked pkg s
  unfolding new_core OrderedMap.has
  EtherMemoriesCore-IsLinked identity here = record {
    notes_valid = Notes.Invariant.IsValid-empty;
    diary_valid = record { distinct = tt; entries = tt };
    notes_linked = λ id. laws.has_node-new (memory_node id);
    diary_linked = λ id had. cc;
  }
  EtherMemoriesCore-IsLinked identity (next r st) =
      Step-IsLinked st (EtherMemoriesCore-IsLinked identity r)
