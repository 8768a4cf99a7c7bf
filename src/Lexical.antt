-- ===== src/Lexical.antt =====
-- `LexicalIndex` of src/core/LexicalIndex.ts, over the notes and the diary that its four closures
-- read.
pub mod Fresh
pub mod Keyed
mod Tests
use ether_memories.Prelude.{
  ℕ, Bool, false, Option, none, some, List, [], ◌∷◌, ◌++◌, map, ◌==◌, if◌then◌else◌, or_default,
}
use ether_memories.Text.{Text, units}
use ether_memories.Value.{Value, Fields, text, object, end, field}
use ether_memories.Tokenizer.{Runtime, tokenize, join}
use ether_memories.OrderedMap
use ether_memories.OrderedMap.{Map, values}
use ether_memories.Types.{MemoryNote, DiaryEntry}
use ether_memories.Notes
use ether_memories.Notes.{MemoryNotes}
use ether_memories.Diary
use ether_memories.Diary.{DiarySystem}

-- Of its sets only the membership is asked, so they are lists.
pub record LexicalDocument : Type 0 where
  pub id : Text
  pub tokens : List Text
  pub token_set : List Text
  pub phrase_text : Text
  pub tag_tokens : List Text
  pub metadata_tokens : List Text

-- A revision of -1 is `none`.
pub record LexicalIndex : Type 0 where
  pub notes : Map LexicalDocument
  pub diary : Map LexicalDocument
  pub notes_revision : Option ℕ
  pub diary_revision : Option ℕ

abbrev pub new_index : LexicalIndex
new_index = record { notes = []; diary = []; notes_revision = none; diary_revision = none }

-- `new Map(entries)`
unfoldable pub map_of {ℓ} : {V : Type ℓ} → List (Text × V) → Map V → Map V
map_of [] m = m
map_of ((k, v) ∷ es) m = map_of es (OrderedMap.set k v m)

-- `this.revision !== this.getRevision()`, negated
abbrev is_current : Option ℕ → ℕ → Bool
is_current none now = false
is_current (some revision) now = revision == now

module _ (runtime : Runtime) where
  value_text : Value → Text
  value_text (text s) = s
  value_text v = runtime.stringify v

  entry_texts : Fields → List Text
  unfolding value_text
  entry_texts end = []
  entry_texts (field k v fs) = (k ++ 32 ∷ value_text v) ∷ entry_texts fs

  -- Metadata is an object; other values have no entries here.
  stringify_metadata : Value → Text
  unfolding entry_texts join
  stringify_metadata (object fs) = join (entry_texts fs)
  stringify_metadata v = []

  unfoldable pub document_for_note : MemoryNote → LexicalDocument
  unfolding stringify_metadata
  document_for_note note =
      let primary = tokenize runtime (note.content ++ 32 ∷ or_default note.summary []) in
      record {
        id = note.id;
        tokens = primary;
        token_set = primary;
        phrase_text = join primary;
        tag_tokens = tokenize runtime (join note.tags ++ 32 ∷ or_default note.category []);
        metadata_tokens = tokenize runtime (stringify_metadata note.metadata);
      }

  unfoldable pub document_for_diary : DiaryEntry → LexicalDocument
  unfolding stringify_metadata
  document_for_diary entry =
      let primary = tokenize runtime (entry.content ++ 32 ∷ join entry.tags) in
      record {
        id = entry.id;
        tokens = primary;
        token_set = primary;
        phrase_text = join primary;
        tag_tokens = tokenize runtime (join entry.tags);
        metadata_tokens = tokenize runtime (stringify_metadata entry.metadata);
      }

  unfoldable pub note_documents : MemoryNotes → Map LexicalDocument
  note_documents s = map_of (map (λ n. (n.id, document_for_note n)) (Notes.values_unsafe s)) []

  unfoldable pub diary_documents : DiarySystem → Map LexicalDocument
  diary_documents d = map_of (map (λ e. (e.id, document_for_diary e)) (Diary.values_unsafe d)) []

  rebuild_notes : MemoryNotes → LexicalIndex → LexicalIndex
  rebuild_notes s ix = record ix {
    notes = note_documents s;
    notes_revision = some s.mutation_revision;
  }

  rebuild_diary : DiarySystem → LexicalIndex → LexicalIndex
  rebuild_diary d ix = record ix {
    diary = diary_documents d;
    diary_revision = some d.mutation_revision;
  }

  unfoldable pub ensure_fresh : MemoryNotes → DiarySystem → LexicalIndex → LexicalIndex
  unfolding rebuild_notes rebuild_diary
  ensure_fresh s d ix =
      let ix' =
        if is_current ix.notes_revision s.mutation_revision then ix else rebuild_notes s ix in
      if is_current ix'.diary_revision d.mutation_revision then ix' else rebuild_diary d ix'

  unfoldable pub rebuild : MemoryNotes → DiarySystem → LexicalIndex → LexicalIndex
  unfolding rebuild_notes rebuild_diary
  rebuild s d ix = rebuild_diary d (rebuild_notes s ix)

  -- The reads refresh the index first: the document, and the index after the call.
  unfoldable pub get_note :
      Text → MemoryNotes → DiarySystem → LexicalIndex → Option LexicalDocument × LexicalIndex
  unfolding ensure_fresh
  get_note id s d ix = let ix' = ensure_fresh s d ix in (OrderedMap.get id ix'.notes, ix')

  unfoldable pub get_diary :
      Text → MemoryNotes → DiarySystem → LexicalIndex → Option LexicalDocument × LexicalIndex
  unfolding ensure_fresh
  get_diary id s d ix = let ix' = ensure_fresh s d ix in (OrderedMap.get id ix'.diary, ix')

  unfoldable pub all_notes :
      MemoryNotes → DiarySystem → LexicalIndex → List LexicalDocument × LexicalIndex
  unfolding ensure_fresh
  all_notes s d ix = let ix' = ensure_fresh s d ix in (values ix'.notes, ix')

  unfoldable pub all_diary :
      MemoryNotes → DiarySystem → LexicalIndex → List LexicalDocument × LexicalIndex
  unfolding ensure_fresh
  all_diary s d ix = let ix' = ensure_fresh s d ix in (values ix'.diary, ix')
