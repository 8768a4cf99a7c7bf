-- ===== src/Notes/Tests.antt =====
-- Runs of src/core/MemoryNotes.ts, and the theorems about it at concrete notes.
use ether_memories.Prelude.{◌≡◌, refl, true, false, none, some, [], ◌∷◌, if◌then◌else◌}
use ether_memories.Result.{ok}
use ether_memories.Text.{Text, units, same, is_space}
use ether_memories.Number.{clamp}
use ether_memories.Text.Trim.{trim, is_blank}
use ether_memories.Time.{at}
use ether_memories.Value.{object, end, clone_value}
use ether_memories.OrderedMap
use ether_memories.OrderedMap.{IsDistinct}
use ether_memories.Types.{MemoryNote, MemorySource, active}
use ether_memories.Prelude.{keep, length, ◌+◌, ltb}
use ether_memories.Notes.{
  MemoryNotes, AddNoteInput, UpdateNoteInput, empty_notes, add, get, update, delete,
  promote_candidate, purge_expired, update_note, clone_note, new_note, patched, default_provenance,
  default_importance, default_confidence,
}
use ether_memories.Notes.Invariant.{
  IsValid, Reach, here, next, added, updated, deleted, promoted, purged, MemoryNotes-IsValid,
}
use ether_memories.Notes.Laws.{get-update, get-add, update_pinned}
use ether_memories.Notes.Revision.{start, after, called, same_revision}
use ether_memories.Notes.Purge.{outlives, purge_expired-eq}

abbrev first : Text
first = units "mem_1"

abbrev second : Text
second = units "mem_2"

abbrev tea : AddNoteInput
tea = record {
  content = units "  likes tea ";
  summary = none;
  category = none;
  tags = none;
  source = none;
  provenance = none;
  importance = none;
  confidence = none;
  pinned = some true;
  status = none;
  expires_at = some (at 50);
  metadata = none;
}

abbrev change : UpdateNoteInput
change = record {
  content = none;
  summary = some (units "tea");
  category = none;
  tags = none;
  source = none;
  provenance = none;
  importance = none;
  confidence = none;
  pinned = none;
  status = none;
  expires_at = none;
  metadata = none;
  allow_pinned_edit = false;
}

abbrev kept_note : MemoryNote
kept_note = record {
  id = first;
  content = units "likes tea";
  summary = none;
  category = none;
  tags = [];
  source = MemorySource.user;
  provenance = default_provenance;
  importance = default_importance;
  confidence = default_confidence;
  pinned = true;
  status = active;
  expires_at = some (at 50);
  created_at = at 10;
  updated_at = at 10;
  metadata = object end;
}

abbrev lost_note : MemoryNote
lost_note = record kept_note { id = second; pinned = false }

abbrev changed_note : MemoryNote
changed_note = record kept_note { summary = some (units "tea"); updated_at = at 20 }

abbrev two_notes : MemoryNotes
two_notes = record { notes = (first, kept_note) ∷ (second, lost_note) ∷ []; mutation_revision = 2 }

abbrev after_calls : MemoryNotes
after_calls =
    (purge_expired 60 false
      (promote_candidate first (at 30)
        (update first (at 20) change
          (delete second (add first (at 10) tea empty_notes).1).1).1).1).1

after_calls-Reach : Reach empty_notes after_calls
after_calls-Reach =
    next
      (next
        (next (next (next here (added first (at 10) tea)) (deleted second))
          (updated first (at 20) change))
        (promoted first (at 30)))
      (purged 60 false)

MemoryNotes-IsValid_example : IsValid after_calls
MemoryNotes-IsValid_example = MemoryNotes-IsValid after_calls-Reach

-- A failing `delete` leaves the revision.
abbrev after_miss : MemoryNotes
after_miss = (delete second empty_notes).1

same_revision_example : after_miss.notes ≡ empty_notes.notes
unfolding delete OrderedMap.has
same_revision_example =
    same_revision {s = empty_notes} {t = after_miss} (after start (called (deleted second))) refl

change_tea : (update first (at 20) change two_notes).0 ≡ ok changed_note
unfolding update update_note OrderedMap.get same clone_note patched clone_value
change_tea = refl

get-update_example : get first (update first (at 20) change two_notes).1 ≡ ok changed_note
get-update_example = get-update first (at 20) change two_notes changed_note change_tea

update_pinned_example :
    (note' : MemoryNote) × (OrderedMap.get first (update first (at 20) change two_notes).1.notes
      ≡ some note')
    × (note'.content ≡ kept_note.content)
unfolding OrderedMap.get same
update_pinned_example = update_pinned first (at 20) change two_notes kept_note refl refl refl

two_notes-IsDistinct : IsDistinct two_notes.notes
unfolding OrderedMap.has same
two_notes-IsDistinct = (refl, (refl, tt))

purge_expired-eq_example :
    ((purge_expired 60 false two_notes).1.notes ≡ keep (outlives 60 false) two_notes.notes)
    × ((purge_expired 60 false two_notes).0 + length (purge_expired 60 false two_notes).1.notes ≡ 2)
    × ((purge_expired 60 false two_notes).1.mutation_revision
        ≡ (if ltb 0 (purge_expired 60 false two_notes).0 then 3 else 2))
purge_expired-eq_example = purge_expired-eq 60 false two_notes two_notes-IsDistinct

add-tea : (add first (at 10) tea empty_notes).0 ≡ ok kept_note
unfolding add clone_note new_note is_blank trim clone_value is_space clamp
add-tea = refl

get-add_example :
    get second (add first (at 10) tea empty_notes).1
    ≡ (if same first second then ok kept_note else get second empty_notes)
get-add_example = get-add first (at 10) tea empty_notes kept_note second add-tea
