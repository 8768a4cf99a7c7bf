-- ===== src/Diary.antt =====
-- src/core/DiarySystem.ts. The id of `createId` and the clock are arguments.
pub mod Laws
pub mod Revision
pub mod Writes
mod Tests
use ether_memories.Prelude.{
  ℕ, ◌+◌, Bool, true, false, Option, none, some, List, [], ◌∷◌, map, if◌then◌else◌, or_default,
  Ordering,
}
use ether_memories.Result.{Result, ok, err, invalid_input, not_found}
use ether_memories.Text.{Text}
use ether_memories.Text.Trim.{trim, is_blank}
use ether_memories.Time.{Time, time_compare}
use ether_memories.Value.{Value, object, end, clone_value}
use ether_memories.OrderedMap
use ether_memories.OrderedMap.{Map, values}
use ether_memories.Sort.{sort}
use ether_memories.Types.{DiaryEntry}

pub record AddDiaryInput : Type 0 where
  pub content : Text
  pub tags : Option (List Text)
  pub metadata : Option Value

-- The patch of `update`.
pub record DiaryPatch : Type 0 where
  pub content : Option Text
  pub tags : Option (List Text)
  pub metadata : Option Value

pub record DiarySystem : Type 0 where
  pub entries : Map DiaryEntry
  pub mutation_revision : ℕ

abbrev pub empty_diary : DiarySystem
empty_diary = record { entries = []; mutation_revision = 0 }

-- New arrays and dates have the value of the old ones.
unfoldable pub clone_entry : DiaryEntry → DiaryEntry
clone_entry e = record e { metadata = clone_value e.metadata }

abbrev bump : DiarySystem → Map DiaryEntry → DiarySystem
bump s entries = record { entries = entries; mutation_revision = s.mutation_revision + 1 }

unfoldable pub new_entry : Text → Time → AddDiaryInput → DiaryEntry
new_entry id now input = record {
  id = id;
  content = trim input.content;
  created_at = now;
  updated_at = now;
  tags = or_default input.tags [];
  metadata = clone_value (or_default input.metadata (object end));
}

unfoldable pub add : Text → Time → AddDiaryInput → DiarySystem → Result DiaryEntry × DiarySystem
unfolding new_entry
add id now input s =
    if is_blank input.content
    then (err invalid_input, s)
    else let entry = new_entry id now input in
      (ok (clone_entry entry), bump s (OrderedMap.set entry.id entry s.entries))

unfoldable pub get : Text → DiarySystem → Result DiaryEntry
get id s = elim (OrderedMap.get id s.entries) [ none ↦ err not_found | some e ↦ ok (clone_entry e) ]

-- `a.createdAt.getTime() - b.createdAt.getTime()`
abbrev pub by_creation : DiaryEntry → DiaryEntry → Ordering
by_creation a b = time_compare a.created_at b.created_at

unfoldable pub get_all : DiarySystem → List DiaryEntry
unfolding clone_entry
get_all s = map clone_entry (sort by_creation (values s.entries))

unfoldable pub patched : Time → DiaryPatch → DiaryEntry → DiaryEntry
patched now patch e = record e {
  content = elim patch.content [ none ↦ e.content | some c ↦ trim c ];
  updated_at = now;
  tags = or_default patch.tags e.tags;
  metadata = elim patch.metadata [ none ↦ e.metadata | some v ↦ clone_value v ];
}

abbrev blank_patch : Option Text → Bool
blank_patch none = false
blank_patch (some c) = is_blank c

update_entry :
    Text → Time → DiaryPatch → DiarySystem → Option DiaryEntry → Result DiaryEntry × DiarySystem
update_entry id now patch s none = (err not_found, s)
update_entry id now patch s (some e) =
    if blank_patch patch.content
    then (err invalid_input, s)
    else let e' = patched now patch e in
      (ok (clone_entry e'), bump s (OrderedMap.set id e' s.entries))

unfoldable pub update : Text → Time → DiaryPatch → DiarySystem → Result DiaryEntry × DiarySystem
unfolding update_entry
update id now patch s = update_entry id now patch s (OrderedMap.get id s.entries)

unfoldable pub delete : Text → DiarySystem → Result (Unit {0}) × DiarySystem
delete id s =
    if OrderedMap.has id s.entries
    then (ok tt, bump s (OrderedMap.delete id s.entries))
    else (err not_found, s)

set_all : List DiaryEntry → Map DiaryEntry → Map DiaryEntry
set_all [] m = m
set_all (e ∷ rest) m = set_all rest (OrderedMap.set e.id (clone_entry e) m)

unfoldable pub replace_all : List DiaryEntry → DiarySystem → DiarySystem
unfolding set_all
replace_all entries s = bump s (set_all entries [])

unfoldable pub values_unsafe : DiarySystem → List DiaryEntry
unfolding clone_entry
values_unsafe s = map clone_entry (values s.entries)
