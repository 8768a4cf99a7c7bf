-- ===== src/Notes/Revision.antt =====
-- The revision of src/core/MemoryNotes.ts is a version stamp of the notes.
use ether_memories.Prelude.{ℕ, ◌+◌, ◌≤◌, ◌<◌, ◌≡◌, refl, Bool, List, [], ◌∷◌, arith, ◌⊎◌, inr}
use ether_memories.OrderedMap
use ether_memories.OrderedMap.{Map}
use ether_memories.Types.{MemoryNote}
use ether_memories.Notes.{
  MemoryNotes, add, update, update_note, delete, promote_note, promote_candidate, purge_loop,
  purge_expired, replace_all,
}
use ether_memories.Notes.Invariant.{Step, added, updated, deleted, promoted, purged}

-- One change of the notes, `replaceAll` included, and any number of them.
pub data Change (s : MemoryNotes) : MemoryNotes → Type 0 where
  called : {t : MemoryNotes} → Step s t → Change s t
  replaced : (notes : List MemoryNote) → Change s (replace_all notes s)

pub data History (s : MemoryNotes) : MemoryNotes → Type 0 where
  start : History s s
  after : {t u : MemoryNotes} → History s t → Change t u → History s u

-- Either nothing changed, or the revision grew by one.
abbrev Stamped : MemoryNotes → MemoryNotes → Type 0
Stamped s t =
    ((t.notes ≡ s.notes) × (t.mutation_revision ≡ s.mutation_revision))
    ⊎ (t.mutation_revision ≡ s.mutation_revision + 1)

purge_loop-count :
    (now : ℕ) (force : Bool) (rest m : Map MemoryNote) (count : ℕ)
    → (count < (purge_loop now force rest m count).1)
      ⊎ (((purge_loop now force rest m count).0 ≡ m)
          × ((purge_loop now force rest m count).1 ≡ count))
unfolding purge_loop
purge_loop-count now force [] m count = inr (refl, refl)
purge_loop-count now force ((id, note) ∷ rest) m count = ground (
  arith,
  purge_loop-count now force rest (OrderedMap.delete id m) (count + 1),
  purge_loop-count now force rest m count,
)

Step-Stamped : {s t : MemoryNotes} → Step s t → Stamped s t
unfolding add update update_note delete promote_candidate promote_note purge_expired
Step-Stamped (added id now input) = ground arith
Step-Stamped (updated id now input) = ground arith
Step-Stamped (deleted id) = ground arith
Step-Stamped (promoted id now) = ground arith
Step-Stamped {s} (purged now force) = ground (arith, purge_loop-count now force s.notes s.notes 0)

Change-Stamped : {s t : MemoryNotes} → Change s t → Stamped s t
unfolding replace_all
Change-Stamped (called st) = Step-Stamped st
Change-Stamped (replaced notes) = ground arith

History-revision : {s t : MemoryNotes} → History s t → s.mutation_revision ≤ t.mutation_revision
History-revision start = omega arith
History-revision (after r st) = ground (arith, History-revision r, Change-Stamped st)

-- Two states of one `MemoryNotes`, any changes apart, that show the same revision hold the same
-- notes: a copy that was built at a revision is still right while the revision is the same.
pub same_revision :
    {s t : MemoryNotes}
    → History s t
    → t.mutation_revision ≡ s.mutation_revision
    → t.notes ≡ s.notes
same_revision start e = refl
same_revision (after r st) e =
    ground (arith, same_revision r, History-revision r, Change-Stamped st)
