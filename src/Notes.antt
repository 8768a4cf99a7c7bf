-- ===== src/Notes.antt =====
-- src/core/MemoryNotes.ts. The id of `createId` and the clock are arguments. A call returns its
-- result and the notes after it.
pub mod Laws
pub mod Invariant
pub mod Revision
pub mod Purge
pub mod Writes
mod Tests
use ether_memories.Prelude.{
  ℕ, zero, suc, ◌+◌, Bool, true, false, not, ◌&&◌, ◌||◌, Option, none, some, List, [], ◌∷◌, map,
  keep, if◌then◌else◌, or_default, is_some, ltb, ◌^◌, ◌*◌,
}
use ether_memories.Result.{Result, ok, err, invalid_input, not_found, conflict}
use ether_memories.Text.{Text}
use ether_memories.Text.Trim.{trim, is_blank}
use ether_memories.Time.{Time, at, later, no_later}
use ether_memories.Number.{Number, finite, pos, clamp}
use ether_memories.Value.{Value, object, end, clone_value}
use ether_memories.OrderedMap
use ether_memories.OrderedMap.{Map, values}
use ether_memories.Types.{
  MemoryNote, MemoryProvenance, MemorySource, MemoryStatus, EditKind, ProvenanceKind, candidate,
  active, archived, user_explicit,
}

pub record AddNoteInput : Type 0 where
  pub content : Text
  pub summary : Option Text
  pub category : Option Text
  pub tags : Option (List Text)
  pub source : Option MemorySource
  pub provenance : Option MemoryProvenance
  pub importance : Option Number
  pub confidence : Option Number
  pub pinned : Option Bool
  pub status : Option MemoryStatus
  pub expires_at : Option Time
  pub metadata : Option Value

pub record UpdateNoteInput : Type 0 where
  pub content : Option Text
  pub summary : Option Text
  pub category : Option Text
  pub tags : Option (List Text)
  pub source : Option MemorySource
  pub provenance : Option MemoryProvenance
  pub importance : Option Number
  pub confidence : Option Number
  pub pinned : Option Bool
  pub status : Option MemoryStatus
  pub expires_at : Option Time
  pub metadata : Option Value
  pub allow_pinned_edit : Bool

pub record MemoryNotes : Type 0 where
  pub notes : Map MemoryNote
  pub mutation_revision : ℕ

abbrev pub empty_notes : MemoryNotes
empty_notes = record { notes = []; mutation_revision = 0 }

-- New arrays and dates have the value of the old ones.
unfoldable pub clone_note : MemoryNote → MemoryNote
clone_note n = record n { metadata = clone_value n.metadata }

abbrev bump : MemoryNotes → Map MemoryNote → MemoryNotes
bump s notes = record { notes = notes; mutation_revision = s.mutation_revision + 1 }

abbrev default_provenance : MemoryProvenance
default_provenance = record {
  kind = user_explicit;
  parent_note_id = none;
  parent_diary_id = none;
  parent_edge_id = none;
  import_batch_id = none;
  detail = none;
  last_edit_kind = some EditKind.user;
}

-- 0.5 and 0.75, in units of 2^-1074.
abbrev default_importance : Number
default_importance = finite (pos (2 ^ 1073))

abbrev default_confidence : Number
default_confidence = finite (pos (3 * 2 ^ 1072))

-- The note that `add` builds.
unfoldable pub new_note : Text → Time → AddNoteInput → MemoryNote
new_note id now input = record {
  id = id;
  content = trim input.content;
  summary = input.summary;
  category = input.category;
  tags = or_default input.tags [];
  source = or_default input.source MemorySource.user;
  provenance = or_default input.provenance default_provenance;
  importance = clamp (or_default input.importance default_importance);
  confidence = clamp (or_default input.confidence default_confidence);
  pinned = or_default input.pinned false;
  status = or_default input.status active;
  expires_at = input.expires_at;
  created_at = now;
  updated_at = now;
  metadata = clone_value (or_default input.metadata (object end));
}

unfoldable pub add : Text → Time → AddNoteInput → MemoryNotes → Result MemoryNote × MemoryNotes
unfolding new_note
add id now input s =
    if is_blank input.content
    then (err invalid_input, s)
    else let note = new_note id now input in
      (ok (clone_note note), bump s (OrderedMap.set note.id note s.notes))

unfoldable pub get : Text → MemoryNotes → Result MemoryNote
get id s = elim (OrderedMap.get id s.notes) [
  | none ↦ err not_found
  | some note ↦ ok (clone_note note)
]

pub record GetAllOptions : Type 0 where
  pub include_expired : Bool
  pub include_archived : Bool
  pub include_candidate : Bool

abbrev pub status_is_archived : MemoryStatus → Bool
status_is_archived archived = true
status_is_archived _ = false

abbrev pub status_is_candidate : MemoryStatus → Bool
status_is_candidate candidate = true
status_is_candidate _ = false

-- `!n.expiresAt || n.expiresAt.getTime() > now`
abbrev pub not_expired : Time → Option Time → Bool
not_expired now none = true
not_expired now (some t) = later t now

-- `n.expiresAt && n.expiresAt.getTime() <= now`
abbrev pub has_expired : Time → Option Time → Bool
has_expired now none = false
has_expired now (some t) = no_later t now

unfoldable pub get_all : ℕ → GetAllOptions → MemoryNotes → List MemoryNote
unfolding clone_note
get_all now options s = map clone_note (
    keep (λ n. options.include_candidate || not (status_is_candidate n.status))
      (keep (λ n. options.include_archived || not (status_is_archived n.status))
        (keep (λ n. options.include_expired || not_expired (at now) n.expires_at)
          (values s.notes))))

-- The assignments of `update`, in one record: a field that the input leaves out stays.
unfoldable pub patched : Time → UpdateNoteInput → MemoryNote → MemoryNote
patched now input note =
    let provenance : MemoryProvenance = or_default input.provenance note.provenance in
    record note {
      content = elim input.content [ none ↦ note.content | some c ↦ trim c ];
      summary = elim input.summary [ none ↦ note.summary | some v ↦ some v ];
      category = elim input.category [ none ↦ note.category | some v ↦ some v ];
      tags = or_default input.tags note.tags;
      source = or_default input.source note.source;
      provenance = record provenance { last_edit_kind = some EditKind.user };
      importance = elim input.importance [ none ↦ note.importance | some n ↦ clamp n ];
      confidence = elim input.confidence [ none ↦ note.confidence | some n ↦ clamp n ];
      pinned = or_default input.pinned note.pinned;
      status = or_default input.status note.status;
      expires_at = elim input.expires_at [ none ↦ note.expires_at | some t ↦ some t ];
      updated_at = now;
      metadata = elim input.metadata [ none ↦ note.metadata | some v ↦ clone_value v ];
    }

abbrev blank_patch : Option Text → Bool
blank_patch none = false
blank_patch (some c) = is_blank c

update_note :
    Text
    → Time
    → UpdateNoteInput
    → MemoryNotes
    → Option MemoryNote
    → Result MemoryNote × MemoryNotes
update_note id now input s none = (err not_found, s)
update_note id now input s (some note) =
    if note.pinned && is_some input.content && not input.allow_pinned_edit
    then (err conflict, s)
    else if blank_patch input.content
    then (err invalid_input, s)
    else let note' = patched now input note in
      (ok (clone_note note'), bump s (OrderedMap.set id note' s.notes))

unfoldable pub update :
    Text → Time → UpdateNoteInput → MemoryNotes → Result MemoryNote × MemoryNotes
unfolding update_note
update id now input s = update_note id now input s (OrderedMap.get id s.notes)

unfoldable pub delete : Text → MemoryNotes → Result (Unit {0}) × MemoryNotes
delete id s =
    if OrderedMap.has id s.notes
    then (ok tt, bump s (OrderedMap.delete id s.notes))
    else (err not_found, s)

promote_note : Text → Time → MemoryNotes → Option MemoryNote → Result MemoryNote × MemoryNotes
promote_note id now s none = (err not_found, s)
promote_note id now s (some note) =
    let note' : MemoryNote = record note { status = active; updated_at = now } in
    (ok (clone_note note'), bump s (OrderedMap.set id note' s.notes))

unfoldable pub promote_candidate : Text → Time → MemoryNotes → Result MemoryNote × MemoryNotes
unfolding promote_note
promote_candidate id now s = promote_note id now s (OrderedMap.get id s.notes)

-- `note.expiresAt && note.expiresAt.getTime() <= now && (!note.pinned || forcePinned)`
abbrev pub is_purged : ℕ → Bool → MemoryNote → Bool
is_purged now force_pinned note =
    has_expired (at now) note.expires_at && (not note.pinned || force_pinned)

-- The loop of `purgeExpired` over the entries, deleting from the map as it goes.
purge_loop : ℕ → Bool → Map MemoryNote → Map MemoryNote → ℕ → Map MemoryNote × ℕ
purge_loop now force_pinned [] m count = (m, count)
purge_loop now force_pinned ((id, note) ∷ rest) m count =
    let gone = is_purged now force_pinned note in
    purge_loop now force_pinned rest (if gone then OrderedMap.delete id m else m)
      (if gone then count + 1 else count)

unfoldable pub purge_expired : ℕ → Bool → MemoryNotes → ℕ × MemoryNotes
unfolding purge_loop
purge_expired now force_pinned s =
    let (m, count) = purge_loop now force_pinned s.notes s.notes 0 in
    (count, (if ltb 0 count then bump s m else record s { notes = m }))

set_all : List MemoryNote → Map MemoryNote → Map MemoryNote
set_all [] m = m
set_all (note ∷ rest) m = set_all rest (OrderedMap.set note.id (clone_note note) m)

unfoldable pub replace_all : List MemoryNote → MemoryNotes → MemoryNotes
unfolding set_all
replace_all notes s = bump s (set_all notes [])

unfoldable pub values_unsafe : MemoryNotes → List MemoryNote
unfolding clone_note
values_unsafe s = map clone_note (values s.notes)
