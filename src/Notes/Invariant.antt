-- ===== src/Notes/Invariant.antt =====
-- What the public calls keep of the stored notes of src/core/MemoryNotes.ts.
use ether_memories.Prelude.{
  ℕ, ◌+◌, ◌≡◌, refl, Bool, true, false, Option, none, some, [], ◌∷◌, All, if◌then◌else◌, Bool-cases,
  Option-cases, inl, inr, ltb, is_some, ◌&&◌, not, ◌∙◌,
}
use ether_memories.Text.{Text}
use ether_memories.Text.Trim.{trim, is_blank, trim-trim, is_blank-trim}
use ether_memories.Time.{Time}
use ether_memories.Number.{IsUnit, clamp-IsUnit}
use ether_memories.OrderedMap
use ether_memories.OrderedMap.{Map, IsDistinct}
use ether_memories.OrderedMap.Laws.{IsDistinct-set, IsDistinct-delete, All-set, All-delete, All-get}
use ether_memories.Types.{MemoryNote, active}
use ether_memories.Notes.{
  MemoryNotes, AddNoteInput, UpdateNoteInput, empty_notes, new_note, patched, add, update,
  update_note, delete, promote_note, promote_candidate, purge_loop, purge_expired, is_purged,
  blank_patch,
}

-- A stored note: its content is trimmed and not blank, its weights lie in the unit interval.
pub record IsGood (n : MemoryNote) : Type 0 where
  pub trimmed : trim n.content ≡ n.content
  pub not_blank : is_blank n.content ≡ false
  pub importance : IsUnit n.importance
  pub confidence : IsUnit n.confidence

pub record IsEntry (e : Text × MemoryNote) : Type 0 where
  pub keyed : e.1.id ≡ e.0
  pub good : IsGood e.1

pub record IsValid (s : MemoryNotes) : Type 0 where
  pub distinct : IsDistinct s.notes
  pub entries : All IsEntry s.notes

-- One public call that changes notes one by one, whether it succeeds or not.
pub data Step (s : MemoryNotes) : MemoryNotes → Type 0 where
  added : (id : Text) (now : Time) (input : AddNoteInput) → Step s (add id now input s).1
  updated : (id : Text) (now : Time) (input : UpdateNoteInput) → Step s (update id now input s).1
  deleted : (id : Text) → Step s (delete id s).1
  promoted : (id : Text) (now : Time) → Step s (promote_candidate id now s).1
  purged : (now : ℕ) (force_pinned : Bool) → Step s (purge_expired now force_pinned s).1

pub data Reach (s : MemoryNotes) : MemoryNotes → Type 0 where
  here : Reach s s
  next : {t u : MemoryNotes} → Reach s t → Step t u → Reach s u

new_note-IsGood :
    (id : Text) (now : Time) (input : AddNoteInput)
    → is_blank input.content ≡ false
    → IsGood (new_note id now input)
unfolding new_note
new_note-IsGood id now input h = record {
  trimmed = trim-trim input.content;
  not_blank = rw (is_blank-trim input.content) h;
  importance = clamp-IsUnit _;
  confidence = clamp-IsUnit _;
}

pub id-patched :
    (now : Time) (input : UpdateNoteInput) (note : MemoryNote)
    → (patched now input note).id ≡ note.id
unfolding patched
id-patched now input note = refl

module _ (now : Time) (input : UpdateNoteInput) (note : MemoryNote) (good : IsGood note) where
  patched-trimmed : trim (patched now input note).content ≡ (patched now input note).content
  unfolding patched
  patched-trimmed = elim (Option-cases input.content) [
    | inl e ↦ rw e good.trimmed
    | inr (c, e) ↦ rw e (trim-trim c)
  ]

  patched-not_blank :
      blank_patch input.content ≡ false → is_blank (patched now input note).content ≡ false
  unfolding patched
  patched-not_blank h = elim (Option-cases input.content) [
    | inl e ↦ rw e good.not_blank
    | inr (c, e) ↦ rw e (rw (is_blank-trim c) (rw e at h))
  ]

  patched-importance : IsUnit (patched now input note).importance
  unfolding patched
  patched-importance = elim (Option-cases input.importance) [
    | inl e ↦ rw e good.importance
    | inr (n, e) ↦ rw e (clamp-IsUnit n)
  ]

  patched-confidence : IsUnit (patched now input note).confidence
  unfolding patched
  patched-confidence = elim (Option-cases input.confidence) [
    | inl e ↦ rw e good.confidence
    | inr (n, e) ↦ rw e (clamp-IsUnit n)
  ]

  patched-IsGood : blank_patch input.content ≡ false → IsGood (patched now input note)
  patched-IsGood h = record {
    trimmed = patched-trimmed;
    not_blank = patched-not_blank h;
    importance = patched-importance;
    confidence = patched-confidence;
  }

-- A write of a good note under its own id.
set-IsValid :
    (id : Text) (note : MemoryNote) (s : MemoryNotes) (revision : ℕ)
    → note.id ≡ id
    → IsGood note
    → IsValid s
    → IsValid (record { notes = OrderedMap.set id note s.notes; mutation_revision = revision })
set-IsValid id note s revision keyed good v = record {
  distinct = IsDistinct-set id note s.notes v.distinct;
  entries = All-set IsEntry id note s.notes (record { keyed = keyed; good = good }) v.entries;
}

add-IsValid :
    (id : Text) (now : Time) (input : AddNoteInput) (s : MemoryNotes)
    → IsValid s
    → IsValid (add id now input s).1
unfolding add
add-IsValid id now input s v = elim (Bool-cases (is_blank input.content)) [
  | inl e ↦ rw e v
  | inr e ↦ rw e (set-IsValid id _ s _ refl (new_note-IsGood id now input e) v)
]

stored :
    (id : Text) (s : MemoryNotes) {note : MemoryNote}
    → IsValid s
    → OrderedMap.get id s.notes ≡ some note
    → IsEntry (id, note)
stored id s {note} v e = All-get IsEntry id s.notes note v.entries e

update_note-IsValid :
    (id : Text) (now : Time) (input : UpdateNoteInput) (s : MemoryNotes) (found : Option MemoryNote)
    → IsValid s
    → OrderedMap.get id s.notes ≡ found
    → IsValid (update_note id now input s found).1
unfolding update_note
update_note-IsValid id now input s none v e = v
update_note-IsValid id now input s (some note) v e =
    let entry = stored id s v e in
    elim (Bool-cases (note.pinned && is_some input.content && not input.allow_pinned_edit)) [
      | inl shielded ↦ rw shielded v
      | inr open_ ↦ elim (Bool-cases (blank_patch input.content)) [
        | inl blank ↦ rw (open_, blank) v
        | inr fine ↦
            rw (open_, fine)
              (set-IsValid id _ s _ (id-patched now input note ∙ entry.keyed)
                (patched-IsGood now input note entry.good fine) v)
      ]
    ]

promote_note-IsValid :
    (id : Text) (now : Time) (s : MemoryNotes) (found : Option MemoryNote)
    → IsValid s
    → OrderedMap.get id s.notes ≡ found
    → IsValid (promote_note id now s found).1
unfolding promote_note
promote_note-IsValid id now s none v e = v
promote_note-IsValid id now s (some note) v e =
    let entry = stored id s v e in
    let good : IsGood (record note { status = active; updated_at = now }) = record {
      trimmed = entry.good.trimmed;
      not_blank = entry.good.not_blank;
      importance = entry.good.importance;
      confidence = entry.good.confidence;
    } in
    set-IsValid id _ s _ entry.keyed good v

delete-IsValid : (id : Text) (s : MemoryNotes) → IsValid s → IsValid (delete id s).1
unfolding delete
delete-IsValid id s v = elim (Bool-cases (OrderedMap.has id s.notes)) [
  | inl e ↦ rw e (record {
    distinct = IsDistinct-delete id s.notes v.distinct;
    entries = All-delete IsEntry id s.notes v.entries;
  })
  | inr e ↦ rw e v
]

delete_if-keeps :
    (gone : Bool) (id : Text) (m : Map MemoryNote)
    → IsDistinct m
    → All IsEntry m
    → IsDistinct (if gone then OrderedMap.delete id m else m)
      × All IsEntry (if gone then OrderedMap.delete id m else m)
delete_if-keeps true id m d h = (IsDistinct-delete id m d, All-delete IsEntry id m h)
delete_if-keeps false id m d h = (d, h)

-- The loop of `purgeExpired` only deletes.
purge_loop-keeps :
    (now : ℕ) (force : Bool) (rest m : Map MemoryNote) (count : ℕ)
    → IsDistinct m
    → All IsEntry m
    → IsDistinct (purge_loop now force rest m count).0
      × All IsEntry (purge_loop now force rest m count).0
unfolding purge_loop
purge_loop-keeps now force [] m count d h = (d, h)
purge_loop-keeps now force ((id, note) ∷ rest) m count d h =
    let gone = is_purged now force note in
    let (d', h') = delete_if-keeps gone id m d h in
    purge_loop-keeps now force rest (if gone then OrderedMap.delete id m else m)
      (if gone then count + 1 else count) d' h'

purge_expired-IsValid :
    (now : ℕ) (force : Bool) (s : MemoryNotes) → IsValid s → IsValid (purge_expired now force s).1
unfolding purge_expired
purge_expired-IsValid now force s v =
    let kept = purge_loop-keeps now force s.notes s.notes 0 v.distinct v.entries in
    elim (Bool-cases (ltb 0 (purge_loop now force s.notes s.notes 0).1)) [
      | inl e ↦ rw e (record { distinct = kept.0; entries = kept.1 })
      | inr e ↦ rw e (record { distinct = kept.0; entries = kept.1 })
    ]

pub Step-IsValid : {s t : MemoryNotes} → Step s t → IsValid s → IsValid t
unfolding update promote_candidate
Step-IsValid {s} (added id now input) v = add-IsValid id now input s v
Step-IsValid {s} (updated id now input) v =
    update_note-IsValid id now input s (OrderedMap.get id s.notes) v refl
Step-IsValid {s} (deleted id) v = delete-IsValid id s v
Step-IsValid {s} (promoted id now) v =
    promote_note-IsValid id now s (OrderedMap.get id s.notes) v refl
Step-IsValid {s} (purged now force) v = purge_expired-IsValid now force s v

pub IsValid-empty : IsValid empty_notes
IsValid-empty = record { distinct = tt; entries = tt }

-- Whatever calls of `add`, `update`, `delete`, `promoteCandidate` and `purgeExpired` are made on
-- a new `MemoryNotes`, failing calls included: no id stands twice, every note is stored under
-- its own id with trimmed, nonblank content, and importance and confidence are in [0, 1] or NaN.
pub MemoryNotes-IsValid : {s : MemoryNotes} → Reach empty_notes s → IsValid s
MemoryNotes-IsValid here = IsValid-empty
MemoryNotes-IsValid (next r st) = Step-IsValid st (MemoryNotes-IsValid r)
