-- ===== src/Notes/Laws.antt =====
-- What `get` sees after the calls of src/core/MemoryNotes.ts.
use ether_memories.Prelude.{
  ◌≡◌, refl, true, false, Option, none, some, arith, inl, inr, Option-cases, map_of_id,
  if◌then◌else◌,
}
use ether_memories.Result.{ok}
use ether_memories.Text.{Text, same, same_refl}
use ether_memories.Time.{Time}
use ether_memories.Value.{clone_value_lem}
use ether_memories.OrderedMap
use ether_memories.OrderedMap.{values}
use ether_memories.OrderedMap.Laws.{get-set}
use ether_memories.Types.{MemoryNote}
use ether_memories.Notes.{
  MemoryNotes, AddNoteInput, UpdateNoteInput, clone_note, new_note, patched, add, get, update,
  update_note, values_unsafe,
}

pub clone_note_lem : (n : MemoryNote) → clone_note n ≡ n
unfolding clone_note
clone_note_lem n = rw (clone_value_lem n.metadata)

pub values_unsafe_lem : (s : MemoryNotes) → values_unsafe s ≡ values s.notes
unfolding values_unsafe
values_unsafe_lem s = map_of_id clone_note clone_note_lem (values s.notes)

update_note-reads :
    (id : Text) (now : Time) (input : UpdateNoteInput) (s : MemoryNotes) (found : Option MemoryNote)
    (n : MemoryNote)
    → (update_note id now input s found).0 ≡ ok n
    → OrderedMap.get id (update_note id now input s found).1.notes ≡ some n
unfolding update_note
update_note-reads id now input s none n h = cc
update_note-reads id now input s (some note) n h = ground (
  arith,
  same_refl id,
  clone_note_lem (patched now input note),
  get-set id id (patched now input note) s.notes,
)

get-of-found :
    (id : Text) (s : MemoryNotes) (n : MemoryNote)
    → OrderedMap.get id s.notes ≡ some n
    → get id s ≡ ok n
unfolding get
get-of-found id s n h = ground (arith, clone_note_lem n)

-- The note that a successful `update` returns is the one that `get` returns next.
pub get-update :
    (id : Text) (now : Time) (input : UpdateNoteInput) (s : MemoryNotes) (n : MemoryNote)
    → (update id now input s).0 ≡ ok n
    → get id (update id now input s).1 ≡ ok n
unfolding update
get-update id now input s n h =
    get-of-found id _ n (update_note-reads id now input s (OrderedMap.get id s.notes) n h)

-- After a successful `add` under the id `id`, `get` gives the note that `add` returned for `id`, and
-- what it gave before for every other id.
pub get-add :
    (id : Text) (now : Time) (input : AddNoteInput) (s : MemoryNotes) (n : MemoryNote) (j : Text)
    → (add id now input s).0 ≡ ok n
    → get j (add id now input s).1 ≡ (if same id j then ok n else get j s)
unfolding add get
get-add id now input s n j h = ground (
  arith,
  clone_note_lem (new_note id now input),
  clone_note_lem n,
  get-set id j (new_note id now input) s.notes,
)

content-patched :
    (now : Time) (input : UpdateNoteInput) (note : MemoryNote)
    → input.content ≡ none
    → (patched now input note).content ≡ note.content
unfolding patched
content-patched now input note e = rw e

update_note_pinned :
    (id : Text) (now : Time) (input : UpdateNoteInput) (s : MemoryNotes) (note : MemoryNote)
    → OrderedMap.get id s.notes ≡ some note
    → note.pinned ≡ true
    → input.allow_pinned_edit ≡ false
    → (note' : MemoryNote) × (OrderedMap.get id (update_note id now input s (some note)).1.notes
        ≡ some note')
      × (note'.content ≡ note.content)
unfolding update_note
update_note_pinned id now input s note found pinned forbidden = elim (Option-cases input.content) [
  | inl kept ↦ (
    patched now input note,
    ground (arith, same_refl id, get-set id id (patched now input note) s.notes),
    content-patched now input note kept,
  )
  | inr (c, e) ↦ (note, ground arith, refl)
]

-- A pinned note keeps its content under every `update` that does not set `allowPinnedEdit`, the
-- successful ones included.
pub update_pinned :
    (id : Text) (now : Time) (input : UpdateNoteInput) (s : MemoryNotes) (note : MemoryNote)
    → OrderedMap.get id s.notes ≡ some note
    → note.pinned ≡ true
    → input.allow_pinned_edit ≡ false
    → (note' : MemoryNote) × (OrderedMap.get id (update id now input s).1.notes ≡ some note')
      × (note'.content ≡ note.content)
unfolding update
update_pinned id now input s note found pinned forbidden =
    rw found (update_note_pinned id now input s note found pinned forbidden)
