-- ===== src/Notes/Writes.antt =====
-- Which ids are stored after the calls of src/core/MemoryNotes.ts, in the form that the facade needs.
use ether_memories.Prelude.{
  ◌≡◌, refl, ◌∙◌, ap, true, false, not, ◌&&◌, Option, none, some, is_some, if◌then◌else◌,
  Bool-cases, inl, inr,
}
use ether_memories.Result.{Result, ok, err}
use ether_memories.Text.{Text, same}
use ether_memories.Text.Trim.{is_blank}
use ether_memories.Time.{Time}
use ether_memories.OrderedMap
use ether_memories.OrderedMap.{Map}
use ether_memories.OrderedMap.Laws.{has-set, All-get}
use ether_memories.Types.{MemoryNote, active}
use ether_memories.Notes.{
  MemoryNotes, AddNoteInput, UpdateNoteInput, bump, clone_note, new_note, patched, add, update,
  update_note, delete, promote_note, promote_candidate, blank_patch,
}
use ether_memories.Notes.Laws.{clone_note_lem}
use ether_memories.Notes.Invariant.{IsValid, IsEntry, id-patched}

-- A failing call leaves the notes alone; a successful one returns the note of `id` and stores it.
abbrev pub Writes : Text → MemoryNotes → Result MemoryNote × MemoryNotes → Type 0
Writes id s (ok n, t) =
    (n.id ≡ id)
    × ((j : Text)
        → OrderedMap.has j t.notes ≡ (if same id j then true else OrderedMap.has j s.notes))
Writes id s (err e, t) = t.notes ≡ s.notes

written :
    (id : Text) (note : MemoryNote) (s : MemoryNotes)
    → note.id ≡ id
    → Writes id s (ok (clone_note note), bump s (OrderedMap.set id note s.notes))
written id note s keyed =
    (ap (λ n. n.id) (clone_note_lem note) ∙ keyed, λ j. has-set id j note s.notes)

pub add-Writes :
    (id : Text) (now : Time) (input : AddNoteInput) (s : MemoryNotes)
    → Writes id s (add id now input s)
unfolding add
add-Writes id now input s = elim (Bool-cases (is_blank input.content)) [
  | inl e ↦ rw e refl
  | inr e ↦ rw e (written id (new_note id now input) s refl)
]

update_note-Writes :
    (id : Text) (now : Time) (input : UpdateNoteInput) (s : MemoryNotes) (found : Option MemoryNote)
    → IsValid s
    → OrderedMap.get id s.notes ≡ found
    → Writes id s (update_note id now input s found)
unfolding update_note
update_note-Writes id now input s none v e = refl
update_note-Writes id now input s (some note) v e =
    elim (Bool-cases (note.pinned && is_some input.content && not input.allow_pinned_edit)) [
      | inl shielded ↦ rw shielded refl
      | inr free ↦ elim (Bool-cases (blank_patch input.content)) [
        | inl blank ↦ rw (free, blank) refl
        | inr fine ↦
            let entry = All-get IsEntry id s.notes note v.entries e in
            rw (free, fine)
              (written id (patched now input note) s (id-patched now input note ∙ entry.keyed))
      ]
    ]

pub update-Writes :
    (id : Text) (now : Time) (input : UpdateNoteInput) (s : MemoryNotes)
    → IsValid s
    → Writes id s (update id now input s)
unfolding update
update-Writes id now input s v =
    update_note-Writes id now input s (OrderedMap.get id s.notes) v refl

promote_note-Writes :
    (id : Text) (now : Time) (s : MemoryNotes) (found : Option MemoryNote)
    → IsValid s
    → OrderedMap.get id s.notes ≡ found
    → Writes id s (promote_note id now s found)
unfolding promote_note
promote_note-Writes id now s none v e = refl
promote_note-Writes id now s (some note) v e =
    let entry = All-get IsEntry id s.notes note v.entries e in
    written id (record note { status = active; updated_at = now }) s entry.keyed

pub promote_candidate-Writes :
    (id : Text) (now : Time) (s : MemoryNotes)
    → IsValid s
    → Writes id s (promote_candidate id now s)
unfolding promote_candidate
promote_candidate-Writes id now s v =
    promote_note-Writes id now s (OrderedMap.get id s.notes) v refl

abbrev pub Deletes : Text → MemoryNotes → Result (Unit {0}) × MemoryNotes → Type 0
Deletes id s (ok u, t) = t.notes ≡ OrderedMap.delete id s.notes
Deletes id s (err e, t) = (t.notes ≡ s.notes) × (OrderedMap.has id s.notes ≡ false)

pub delete-Deletes : (id : Text) (s : MemoryNotes) → Deletes id s (delete id s)
unfolding delete
delete-Deletes id s = elim (Bool-cases (OrderedMap.has id s.notes)) [
  | inl e ↦ rw e refl
  | inr e ↦ rw e (refl, e)
]
