-- ===== src/Diary/Revision.antt =====
-- The revision of src/core/DiarySystem.ts is a version stamp of the entries.
use ether_memories.Prelude.{◌+◌, ◌≤◌, ◌≡◌, refl, List, arith, ◌⊎◌}
use ether_memories.Types.{DiaryEntry}
use ether_memories.Diary.{DiarySystem, add, update, update_entry, delete, replace_all}
use ether_memories.Diary.Laws.{Step, added, updated, deleted}

-- One change of the entries, `replaceAll` included, and any number of them.
pub data Change (s : DiarySystem) : DiarySystem → Type 0 where
  called : {t : DiarySystem} → Step s t → Change s t
  replaced : (entries : List DiaryEntry) → Change s (replace_all entries s)

pub data History (s : DiarySystem) : DiarySystem → Type 0 where
  start : History s s
  after : {t u : DiarySystem} → History s t → Change t u → History s u

-- Either nothing changed, or the revision grew by one.
abbrev Stamped : DiarySystem → DiarySystem → Type 0
Stamped s t =
    ((t.entries ≡ s.entries) × (t.mutation_revision ≡ s.mutation_revision))
    ⊎ (t.mutation_revision ≡ s.mutation_revision + 1)

Change-Stamped : {s t : DiarySystem} → Change s t → Stamped s t
unfolding add update update_entry delete replace_all
Change-Stamped (called (added id now input)) = ground arith
Change-Stamped (called (updated id now patch)) = ground arith
Change-Stamped (called (deleted id)) = ground arith
Change-Stamped (replaced entries) = ground arith

History-revision : {s t : DiarySystem} → History s t → s.mutation_revision ≤ t.mutation_revision
History-revision start = omega arith
History-revision (after r st) = ground (arith, History-revision r, Change-Stamped st)

-- Two states of one `DiarySystem`, any changes apart, that show the same revision hold the same
-- entries.
pub same_entries :
    {s t : DiarySystem}
    → History s t
    → t.mutation_revision ≡ s.mutation_revision
    → t.entries ≡ s.entries
same_entries start e = refl
same_entries (after r st) e = ground (arith, same_entries r, History-revision r, Change-Stamped st)
