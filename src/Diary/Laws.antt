-- ===== src/Diary/Laws.antt =====
-- The calls of src/core/DiarySystem.ts on single entries: what they keep, and the order of `getAll`.
use ether_memories.Prelude.{
  ℕ, ◌≡◌, ◌≢◌, refl, false, Option, none, some, arith, All, Bool-cases, Option-cases, inl, inr,
}
use ether_memories.Text.{Text}
use ether_memories.Text.Trim.{trim, is_blank, trim-trim, is_blank-trim}
use ether_memories.Time.{Time, at, invalid}
use ether_memories.Value.{clone_value_lem}
use ether_memories.OrderedMap
use ether_memories.OrderedMap.{IsDistinct}
use ether_memories.OrderedMap.Laws.{IsDistinct-set, IsDistinct-delete, All-set, All-delete, All-get}
use ether_memories.Types.{DiaryEntry}
use ether_memories.Diary.{
  DiarySystem, AddDiaryInput, DiaryPatch, empty_diary, clone_entry, new_entry, add, patched,
  blank_patch, update, update_entry, delete,
}

-- A stored entry: trimmed, nonblank content, under its own id, with a valid creation date.
pub record IsEntry (e : Text × DiaryEntry) : Type 0 where
  pub keyed : e.1.id ≡ e.0
  pub trimmed : trim e.1.content ≡ e.1.content
  pub not_blank : is_blank e.1.content ≡ false
  pub dated : e.1.created_at ≢ invalid

pub record IsValid (s : DiarySystem) : Type 0 where
  pub distinct : IsDistinct s.entries
  pub entries : All IsEntry s.entries

-- One call that changes the diary. The clock never shows an invalid date.
pub data Step (s : DiarySystem) : DiarySystem → Type 0 where
  added : (id : Text) (now : ℕ) (input : AddDiaryInput) → Step s (add id (at now) input s).1
  updated : (id : Text) (now : ℕ) (patch : DiaryPatch) → Step s (update id (at now) patch s).1
  deleted : (id : Text) → Step s (delete id s).1

pub data Reach (s : DiarySystem) : DiarySystem → Type 0 where
  here : Reach s s
  next : {t u : DiarySystem} → Reach s t → Step t u → Reach s u

add-IsValid :
    (id : Text) (now : ℕ) (input : AddDiaryInput) (s : DiarySystem)
    → IsValid s
    → IsValid (add id (at now) input s).1
unfolding add
add-IsValid id now input s v = elim (Bool-cases (is_blank input.content)) [
  | inl e ↦ rw e v
  | inr e ↦
      let entry : IsEntry (id, new_entry id (at now) input) = record {
        keyed = refl;
        trimmed = trim-trim input.content;
        not_blank = rw (is_blank-trim input.content) e;
        dated = ground arith;
      } in
      rw e (record {
        distinct = IsDistinct-set id _ s.entries v.distinct;
        entries = All-set IsEntry id _ s.entries entry v.entries;
      })
]

pub id-patched :
    (now : Time) (patch : DiaryPatch) (e : DiaryEntry) → (patched now patch e).id ≡ e.id
unfolding patched
id-patched now patch e = refl

patched-IsEntry :
    (id : Text) (now : Time) (patch : DiaryPatch) (e : DiaryEntry)
    → IsEntry (id, e)
    → blank_patch patch.content ≡ false
    → IsEntry (id, patched now patch e)
unfolding patched
patched-IsEntry id now patch e h fine = elim (Option-cases patch.content) [
  | inl kept ↦ record {
    keyed = h.keyed;
    trimmed = rw kept h.trimmed;
    not_blank = rw kept h.not_blank;
    dated = h.dated;
  }
  | inr (c, new) ↦ record {
    keyed = h.keyed;
    trimmed = rw new (trim-trim c);
    not_blank = rw new (rw (is_blank-trim c) (rw new at fine));
    dated = h.dated;
  }
]

update_entry-IsValid :
    (id : Text) (now : Time) (patch : DiaryPatch) (s : DiarySystem) (found : Option DiaryEntry)
    → IsValid s
    → OrderedMap.get id s.entries ≡ found
    → IsValid (update_entry id now patch s found).1
unfolding update_entry
update_entry-IsValid id now patch s none v e = v
update_entry-IsValid id now patch s (some d) v e = elim (Bool-cases (blank_patch patch.content)) [
  | inl blank ↦ rw blank v
  | inr fine ↦
      let entry =
        patched-IsEntry id now patch d (All-get IsEntry id s.entries d v.entries e) fine in
      rw fine (record {
        distinct = IsDistinct-set id _ s.entries v.distinct;
        entries = All-set IsEntry id _ s.entries entry v.entries;
      })
]

delete-IsValid : (id : Text) (s : DiarySystem) → IsValid s → IsValid (delete id s).1
unfolding delete
delete-IsValid id s v = elim (Bool-cases (OrderedMap.has id s.entries)) [
  | inl e ↦ rw e (record {
    distinct = IsDistinct-delete id s.entries v.distinct;
    entries = All-delete IsEntry id s.entries v.entries;
  })
  | inr e ↦ rw e v
]

pub Step-IsValid : {s t : DiarySystem} → Step s t → IsValid s → IsValid t
unfolding update
Step-IsValid {s} (added id now input) v = add-IsValid id now input s v
Step-IsValid {s} (updated id now patch) v =
    update_entry-IsValid id (at now) patch s (OrderedMap.get id s.entries) v refl
Step-IsValid {s} (deleted id) v = delete-IsValid id s v

-- Whatever calls of `add`, `update` and `delete` are made on a new `DiarySystem`: no id stands
-- twice, every entry is stored under its own id, with trimmed, nonblank content and a valid
-- creation date.
pub DiarySystem-IsValid : {s : DiarySystem} → Reach empty_diary s → IsValid s
DiarySystem-IsValid here = record { distinct = tt; entries = tt }
DiarySystem-IsValid (next r st) = Step-IsValid st (DiarySystem-IsValid r)

pub clone_entry_lem : (e : DiaryEntry) → clone_entry e ≡ e
unfolding clone_entry
clone_entry_lem e = rw (clone_value_lem e.metadata)

abbrev HasDate : DiaryEntry → Type 0
HasDate e = e.created_at ≢ invalid
