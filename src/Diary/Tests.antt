-- ===== src/Diary/Tests.antt =====
-- Runs of src/core/DiarySystem.ts, and the theorems about it at concrete entries.
use ether_memories.Prelude.{◌≡◌, refl, none, some}
use ether_memories.Text.{Text, units}
use ether_memories.Time.{at}
use ether_memories.OrderedMap
use ether_memories.Diary.{DiarySystem, AddDiaryInput, DiaryPatch, empty_diary, add, update, delete}
use ether_memories.Diary.Revision.{start, after, called, same_entries}
use ether_memories.Diary.Laws.{
  IsValid, Reach, here, next, added, updated, deleted, DiarySystem-IsValid,
}

abbrev monday : Text
monday = units "diary_1"

abbrev tuesday : Text
tuesday = units "diary_2"

abbrev input : AddDiaryInput
input = record { content = units " rain"; tags = none; metadata = none }

abbrev rewrite : DiaryPatch
rewrite = record { content = some (units "sun "); tags = none; metadata = none }

-- The later entry is added first, and a third one is deleted.
abbrev after_calls : DiarySystem
after_calls =
    (delete (units "diary_3")
      (update monday (at 30) rewrite
        (add (units "diary_3") (at 5) input
          (add monday (at 10) input (add tuesday (at 20) input empty_diary).1).1).1).1).1

after_calls-Reach : Reach empty_diary after_calls
after_calls-Reach =
    next
      (next
        (next (next (next here (added tuesday 20 input)) (added monday 10 input))
          (added (units "diary_3") 5 input))
        (updated monday 30 rewrite))
      (deleted (units "diary_3"))

DiarySystem-IsValid_example : IsValid after_calls
DiarySystem-IsValid_example = DiarySystem-IsValid after_calls-Reach

-- A failing `delete` leaves the revision.
abbrev after_miss : DiarySystem
after_miss = (delete monday empty_diary).1

same_entries_example : after_miss.entries ≡ empty_diary.entries
unfolding delete OrderedMap.has
same_entries_example =
    same_entries {s = empty_diary} {t = after_miss} (after start (called (deleted monday))) refl
