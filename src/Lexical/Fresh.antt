-- ===== src/Lexical/Fresh.antt =====
-- The cache of src/core/LexicalIndex.ts against the notes and the diary that it indexes.
use ether_memories.Prelude.{
  ℕ, ◌≡◌, refl, [], sym, ap, ◌∙◌, true, Option, none, some, map, ◌⊎◌, inl, inr, arith, Bool-cases,
}
use ether_memories.OrderedMap.{Map, values}
use ether_memories.Tokenizer.{Runtime}
use ether_memories.Notes
use ether_memories.Notes.{MemoryNotes, clone_note}
use ether_memories.Notes.Revision
use ether_memories.Notes.Revision.{same_revision}
use ether_memories.Diary
use ether_memories.Diary.{DiarySystem, clone_entry}
use ether_memories.Diary.Revision as DiaryRevision
use ether_memories.Diary.Revision.{same_entries}
use ether_memories.Lexical.{
  LexicalDocument, LexicalIndex, new_index, map_of, is_current, document_for_note,
  document_for_diary, note_documents, diary_documents, rebuild_notes, rebuild_diary, ensure_fresh,
  rebuild,
}

module _ (runtime : Runtime) where
  -- Changes of the notes and of the diary, and calls of the index, in any order.
  pub data Run (s0 : MemoryNotes) (d0 : DiarySystem)
      : MemoryNotes → DiarySystem → LexicalIndex → Type 0 where
    created : Run s0 d0 s0 d0 new_index
    notes_changed :
        {s t : MemoryNotes} {d : DiarySystem} {ix : LexicalIndex}
        → Run s0 d0 s d ix
        → Revision.Change s t
        → Run s0 d0 t d ix
    diary_changed :
        {s : MemoryNotes} {d e : DiarySystem} {ix : LexicalIndex}
        → Run s0 d0 s d ix
        → DiaryRevision.Change d e
        → Run s0 d0 s e ix
    refreshed :
        {s : MemoryNotes} {d : DiarySystem} {ix : LexicalIndex}
        → Run s0 d0 s d ix
        → Run s0 d0 s d (ensure_fresh runtime s d ix)
    rebuilt :
        {s : MemoryNotes} {d : DiarySystem} {ix : LexicalIndex}
        → Run s0 d0 s d ix
        → Run s0 d0 s d (rebuild runtime s d ix)

  -- The documents were never built, or were built from an earlier state of the notes.
  NotesBuilt : MemoryNotes → Map LexicalDocument → Option ℕ → Type 0
  NotesBuilt s docs revision =
      (revision ≡ none)
      ⊎ ((old : MemoryNotes) × Revision.History old s
          × (revision ≡ some old.mutation_revision)
          × (docs ≡ note_documents runtime old))

  DiaryBuilt : DiarySystem → Map LexicalDocument → Option ℕ → Type 0
  DiaryBuilt d docs revision =
      (revision ≡ none)
      ⊎ ((old : DiarySystem) × DiaryRevision.History old d
          × (revision ≡ some old.mutation_revision)
          × (docs ≡ diary_documents runtime old))

  documents_of_notes :
      (s t : MemoryNotes) → t.notes ≡ s.notes → note_documents runtime s ≡ note_documents runtime t
  unfolding note_documents Notes.values_unsafe
  documents_of_notes s t e =
      ap
        (λ ns.
          map_of (map (λ n. (n.id, document_for_note runtime n)) (map clone_note (values ns))) [])
        (sym e)

  documents_of_diary :
      (d e : DiarySystem)
      → e.entries ≡ d.entries
      → diary_documents runtime d ≡ diary_documents runtime e
  unfolding diary_documents Diary.values_unsafe
  documents_of_diary d e same =
      ap
        (λ es.
          map_of (map (λ n. (n.id, document_for_diary runtime n)) (map clone_entry (values es))) [])
        (sym same)

  -- Documents that show the current revision are the current documents.
  current_notes :
      (s : MemoryNotes) (docs : Map LexicalDocument) (revision : Option ℕ)
      → NotesBuilt s docs revision
      → is_current revision s.mutation_revision ≡ true
      → docs ≡ note_documents runtime s
  unfolding NotesBuilt
  current_notes s docs revision (inl e) now = ground (arith, e)
  current_notes s docs revision (inr (old, history, e, built)) now =
      built ∙ documents_of_notes old s (same_revision history (ground (arith, e)))

  current_diary :
      (d : DiarySystem) (docs : Map LexicalDocument) (revision : Option ℕ)
      → DiaryBuilt d docs revision
      → is_current revision d.mutation_revision ≡ true
      → docs ≡ diary_documents runtime d
  unfolding DiaryBuilt
  current_diary d docs revision (inl e) now = ground (arith, e)
  current_diary d docs revision (inr (old, history, e, built)) now =
      built ∙ documents_of_diary old d (same_entries history (ground (arith, e)))

  IsBuilt : MemoryNotes → DiarySystem → LexicalIndex → Type 0
  IsBuilt s d ix = NotesBuilt s ix.notes ix.notes_revision × DiaryBuilt d ix.diary ix.diary_revision

  ensure_fresh-IsBuilt :
      (s : MemoryNotes) (d : DiarySystem) (ix : LexicalIndex)
      → IsBuilt s d ix
      → IsBuilt s d (ensure_fresh runtime s d ix)
  unfolding IsBuilt NotesBuilt DiaryBuilt ensure_fresh rebuild_notes rebuild_diary
  ensure_fresh-IsBuilt s d ix h =
      let notes_now = inr (s, Revision.start, refl, refl) in
      let diary_now = inr (d, DiaryRevision.start, refl, refl) in
      elim (Bool-cases (is_current ix.notes_revision s.mutation_revision)) [
        | inl e ↦ elim (Bool-cases (is_current ix.diary_revision d.mutation_revision)) [
          | inl f ↦ rw (e, f) h
          | inr f ↦ rw (e, f) (h.0, diary_now)
        ]
        | inr e ↦ elim (Bool-cases (is_current ix.diary_revision d.mutation_revision)) [
          | inl f ↦ rw (e, f) (notes_now, h.1)
          | inr f ↦ rw (e, f) (notes_now, diary_now)
        ]
      ]

  NotesBuilt-Change :
      (s t : MemoryNotes) (docs : Map LexicalDocument) (revision : Option ℕ)
      → Revision.Change s t
      → NotesBuilt s docs revision
      → NotesBuilt t docs revision
  unfolding NotesBuilt
  NotesBuilt-Change s t docs revision c (inl e) = inl e
  NotesBuilt-Change s t docs revision c (inr (old, history, e, built)) =
      inr (old, Revision.after history c, e, built)

  DiaryBuilt-Change :
      (d t : DiarySystem) (docs : Map LexicalDocument) (revision : Option ℕ)
      → DiaryRevision.Change d t
      → DiaryBuilt d docs revision
      → DiaryBuilt t docs revision
  unfolding DiaryBuilt
  DiaryBuilt-Change d t docs revision c (inl e) = inl e
  DiaryBuilt-Change d t docs revision c (inr (old, history, e, built)) =
      inr (old, DiaryRevision.after history c, e, built)

  Run-IsBuilt :
      {s0 : MemoryNotes} {d0 : DiarySystem} {s : MemoryNotes} {d : DiarySystem} {ix : LexicalIndex}
      → Run s0 d0 s d ix
      → IsBuilt s d ix
  unfolding IsBuilt NotesBuilt DiaryBuilt rebuild rebuild_notes rebuild_diary
  Run-IsBuilt created = (inl refl, inl refl)
  Run-IsBuilt (notes_changed {s} {t} {d} {ix} r c) =
      let (n, h) = Run-IsBuilt r in (NotesBuilt-Change s t ix.notes ix.notes_revision c n, h)
  Run-IsBuilt (diary_changed {s} {d} {e} {ix} r c) =
      let (n, h) = Run-IsBuilt r in (n, DiaryBuilt-Change d e ix.diary ix.diary_revision c h)
  Run-IsBuilt (refreshed {s} {d} {ix} r) = ensure_fresh-IsBuilt s d ix (Run-IsBuilt r)
  Run-IsBuilt (rebuilt {s} {d} r) =
      (inr (s, Revision.start, refl, refl), inr (d, DiaryRevision.start, refl, refl))

  -- Whatever changes of notes and diary and whatever calls of the index came before, the documents
  -- after `ensureFresh` are those of the notes and of the diary as they are now, rebuilt or not.
  pub ensure_fresh_current :
      {s0 : MemoryNotes} {d0 : DiarySystem} {s : MemoryNotes} {d : DiarySystem} {ix : LexicalIndex}
      → Run s0 d0 s d ix
      → ((ensure_fresh runtime s d ix).notes ≡ note_documents runtime s)
        × ((ensure_fresh runtime s d ix).diary ≡ diary_documents runtime d)
  unfolding IsBuilt ensure_fresh rebuild_notes rebuild_diary
  ensure_fresh_current {s = s} {d = d} {ix = ix} r =
      let built = Run-IsBuilt r in
      let notes_now = current_notes s ix.notes ix.notes_revision built.0 in
      let diary_now = current_diary d ix.diary ix.diary_revision built.1 in
      elim (Bool-cases (is_current ix.notes_revision s.mutation_revision)) [
        | inl e ↦ elim (Bool-cases (is_current ix.diary_revision d.mutation_revision)) [
          | inl f ↦ rw (e, f) (notes_now e, diary_now f)
          | inr f ↦ rw (e, f) (notes_now e, refl)
        ]
        | inr e ↦ elim (Bool-cases (is_current ix.diary_revision d.mutation_revision)) [
          | inl f ↦ rw (e, f) (refl, diary_now f)
          | inr f ↦ rw (e, f) (refl, refl)
        ]
      ]
