-- ===== src/Diary/Writes.antt =====
-- Which ids are stored after the calls of src/core/DiarySystem.ts, in the form that the facade needs.
use ether_memories.Prelude.{
  ◌≡◌, refl, ◌∙◌, ap, true, Option, none, some, if◌then◌else◌, Bool-cases, inl, inr,
}
use ether_memories.Result.{Result, ok, err}
use ether_memories.Text.{Text, same}
use ether_memories.Text.Trim.{is_blank}
use ether_memories.Time.{Time}
use ether_memories.OrderedMap
use ether_memories.OrderedMap.Laws.{has-set, All-get}
use ether_memories.Types.{DiaryEntry}
use ether_memories.Diary.{
  DiarySystem, AddDiaryInput, DiaryPatch, bump, clone_entry, new_entry, patched, blank_patch, add,
  update, update_entry, delete,
}
use ether_memories.Diary.Laws.{IsValid, IsEntry, clone_entry_lem, id-patched}

-- A failing call leaves the entries alone; a successful one returns the entry of `id` and stores it.
abbrev pub Writes : Text → DiarySystem → Result DiaryEntry × DiarySystem → Type 0
Writes id s (ok e, t) =
    (e.id ≡ id)
    × ((j : Text)
        → OrderedMap.has j t.entries ≡ (if same id j then true else OrderedMap.has j s.entries))
Writes id s (err c, t) = t.entries ≡ s.entries

written :
    (id : Text) (e : DiaryEntry) (s : DiarySystem)
    → e.id ≡ id
    → Writes id s (ok (clone_entry e), bump s (OrderedMap.set id e s.entries))
written id e s keyed = (ap (λ x. x.id) (clone_entry_lem e) ∙ keyed, λ j. has-set id j e s.entries)

pub add-Writes :
    (id : Text) (now : Time) (input : AddDiaryInput) (s : DiarySystem)
    → Writes id s (add id now input s)
unfolding add
add-Writes id now input s = elim (Bool-cases (is_blank input.content)) [
  | inl e ↦ rw e refl
  | inr e ↦ rw e (written id (new_entry id now input) s refl)
]

update_entry-Writes :
    (id : Text) (now : Time) (patch : DiaryPatch) (s : DiarySystem) (found : Option DiaryEntry)
    → IsValid s
    → OrderedMap.get id s.entries ≡ found
    → Writes id s (update_entry id now patch s found)
unfolding update_entry
update_entry-Writes id now patch s none v e = refl
update_entry-Writes id now patch s (some d) v e = elim (Bool-cases (blank_patch patch.content)) [
  | inl blank ↦ rw blank refl
  | inr fine ↦
      let entry = All-get IsEntry id s.entries d v.entries e in
      rw fine (written id (patched now patch d) s (id-patched now patch d ∙ entry.keyed))
]

pub update-Writes :
    (id : Text) (now : Time) (patch : DiaryPatch) (s : DiarySystem)
    → IsValid s
    → Writes id s (update id now patch s)
unfolding update
update-Writes id now patch s v =
    update_entry-Writes id now patch s (OrderedMap.get id s.entries) v refl

abbrev pub Deletes : Text → DiarySystem → Result (Unit {0}) × DiarySystem → Type 0
Deletes id s (ok u, t) = t.entries ≡ OrderedMap.delete id s.entries
Deletes id s (err e, t) = t.entries ≡ s.entries

pub delete-Deletes : (id : Text) (s : DiarySystem) → Deletes id s (delete id s)
unfolding delete
delete-Deletes id s = elim (Bool-cases (OrderedMap.has id s.entries)) [
  | inl e ↦ rw e refl
  | inr e ↦ rw e refl
]
