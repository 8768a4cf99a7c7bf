-- ===== src/Notes/Purge.antt =====
-- `purgeExpired` of src/core/MemoryNotes.ts against a filter.
use ether_memories.Prelude.{
  ℕ, ◌+◌, ◌≡◌, refl, sym, ap, ◌∙◌, Bool, true, not, ◌&&◌, ◌||◌, none, some, [], ◌∷◌, ◌++◌,
  append_assoc, arith, keep, length, if◌then◌else◌, Bool-cases, inl, inr, ltb,
}
use mathlib.Core.Path.{subst}
use ether_memories.Text.{Text}
use ether_memories.OrderedMap.{Map, IsDistinct}
use ether_memories.OrderedMap.Laws.{IsDistinct-delete, delete-middle}
use ether_memories.Types.{MemoryNote}
use ether_memories.Time.{at, no_later}
use ether_memories.Notes.{MemoryNotes, is_purged, purge_loop, purge_expired}

-- What a purge leaves, and how much it drops.
abbrev pub survives : ℕ → Bool → Text × MemoryNote → Bool
survives now force e = not (is_purged now force e.1)

-- It has no expiry, or one after `now`, or it is pinned and the purge is not forced.
abbrev pub outlives : ℕ → Bool → Text × MemoryNote → Bool
outlives now force (id, note) = elim note.expires_at [
  | none ↦ true
  | some t ↦ not (no_later t (at now)) || (note.pinned && not force)
]

survives_lem :
    (now : ℕ) (force : Bool) (e : Text × MemoryNote) → survives now force e ≡ outlives now force e
survives_lem now force (id, note) = ground arith

pub keep-survives :
    (now : ℕ) (force : Bool) (m : Map MemoryNote)
    → keep (survives now force) m ≡ keep (outlives now force) m
keep-survives now force [] = refl
keep-survives now force (e ∷ m) = rw (survives_lem now force e, keep-survives now force m)

dropped : ℕ → Bool → Map MemoryNote → ℕ
dropped now force [] = 0
dropped now force ((id, note) ∷ rest) =
    dropped now force rest + (if is_purged now force note then 1 else 0)

module _ (now : ℕ) (force : Bool) where
  -- The loop over the entries that are left, behind those that were kept so far.
  purge_loop-eq :
      (kept rest : Map MemoryNote) (count : ℕ)
      → IsDistinct (kept ++ rest)
      → purge_loop now force rest (kept ++ rest) count
        ≡ (kept ++ keep (survives now force) rest, count + dropped now force rest)
  unfolding purge_loop dropped
  purge_loop-eq kept [] count d = ground arith
  purge_loop-eq kept ((id, note) ∷ rest) count d = elim (Bool-cases (is_purged now force note)) [
    | inl gone ↦
        let same_rest = delete-middle id note kept rest d in
        let d' : IsDistinct (kept ++ rest) =
          subst IsDistinct same_rest (IsDistinct-delete id (kept ++ (id, note) ∷ rest) d) in
        rw (gone, same_rest)
          (purge_loop-eq kept rest (count + 1) d'
            ∙ ap (λ n. (kept ++ keep (survives now force) rest, n)) (omega arith))
    | inr stays ↦
        let whole = append_assoc kept ((id, note) ∷ []) rest in
        let ih =
          purge_loop-eq (kept ++ (id, note) ∷ []) rest count (subst IsDistinct (sym whole) d) in
        rw stays (
          rw (whole, append_assoc kept ((id, note) ∷ [])) at ih
          ∙ ap (λ n. (kept ++ (id, note) ∷ keep (survives now force) rest, n)) (omega arith))
  ]

  length-survivors :
      (m : Map MemoryNote) → length (keep (survives now force) m) + dropped now force m ≡ length m
  unfolding dropped
  length-survivors [] = omega arith
  length-survivors ((id, note) ∷ m) = ground (arith, length-survivors m)

purge_survivors :
    (now : ℕ) (force : Bool) (s : MemoryNotes)
    → IsDistinct s.notes
    → ((purge_expired now force s).1.notes ≡ keep (survives now force) s.notes)
      × ((purge_expired now force s).0 + length (purge_expired now force s).1.notes
          ≡ length s.notes)
      × ((purge_expired now force s).1.mutation_revision ≡ (
          if ltb 0 (purge_expired now force s).0
          then s.mutation_revision + 1
          else s.mutation_revision))
unfolding purge_expired
purge_survivors now force s d =
    let run = purge_loop-eq now force [] s.notes 0 d in
    rw run (ground (arith, length-survivors now force s.notes))

-- `purgeExpired` keeps exactly the notes that have not expired or are pinned and not forced, in
-- their order; what it returns is the number of the others; the revision moves, by one, exactly
-- if that number is not 0.
pub purge_expired-eq :
    (now : ℕ) (force : Bool) (s : MemoryNotes)
    → IsDistinct s.notes
    → ((purge_expired now force s).1.notes ≡ keep (outlives now force) s.notes)
      × ((purge_expired now force s).0 + length (purge_expired now force s).1.notes
          ≡ length s.notes)
      × ((purge_expired now force s).1.mutation_revision ≡ (
          if ltb 0 (purge_expired now force s).0
          then s.mutation_revision + 1
          else s.mutation_revision))
purge_expired-eq now force s d =
    let (kept, counted, stamped) = purge_survivors now force s d in
    (kept ∙ keep-survives now force s.notes, counted, stamped)
