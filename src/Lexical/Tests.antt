-- ===== src/Lexical/Tests.antt =====
-- A run of src/core/LexicalIndex.ts between changes of the notes.
use ether_memories.Prelude.{◌≡◌, none, [], ◌∷◌}
use ether_memories.Text.{units}
use ether_memories.Time.{at}
use ether_memories.Tokenizer.{Runtime}
use ether_memories.Notes.{MemoryNotes, AddNoteInput, empty_notes, add}
use ether_memories.Notes.Revision.{called}
use ether_memories.Notes.Invariant.{added}
use ether_memories.Diary.{empty_diary}
use ether_memories.Lexical.{LexicalIndex, new_index, ensure_fresh, note_documents, diary_documents}
use ether_memories.Lexical.Fresh.{created, notes_changed, refreshed, ensure_fresh_current}

-- A runtime whose texts are one token each.
abbrev pub plain : Runtime
plain = record {
  normalize_nfc = λ s. s;
  to_lower_case = λ s. s;
  match_tokens = λ s. s ∷ [];
  stringify = λ v. [];
  add = λ a b. a;
  mul = λ a b. a;
}

abbrev tea : AddNoteInput
tea = record {
  content = units "tea";
  summary = none;
  category = none;
  tags = none;
  source = none;
  provenance = none;
  importance = none;
  confidence = none;
  pinned = none;
  status = none;
  expires_at = none;
  metadata = none;
}

abbrev one_note : MemoryNotes
one_note = (add (units "mem_1") (at 1) tea empty_notes).1

-- The index was built before the note was added.
abbrev stale : LexicalIndex
stale = ensure_fresh plain empty_notes empty_diary new_index

ensure_fresh_current_example :
    ((ensure_fresh plain one_note empty_diary stale).notes ≡ note_documents plain one_note)
    × ((ensure_fresh plain one_note empty_diary stale).diary ≡ diary_documents plain empty_diary)
ensure_fresh_current_example =
    ensure_fresh_current plain {s0 = empty_notes} {d0 = empty_diary} {s = one_note}
      {d = empty_diary} {ix = stale}
      (notes_changed (refreshed created) (called (added (units "mem_1") (at 1) tea)))
