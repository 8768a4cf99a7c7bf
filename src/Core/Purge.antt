-- ===== src/Core/Purge.antt =====
-- `purgeExpired` of the facade against that of the notes alone.
use ether_memories.Prelude.{
  ℕ, ◌≡◌, refl, sym, ◌∙◌, ap, Bool, List, [], ◌∷◌, ◌++◌, append_assoc, All, map, keep, Bool-cases,
  inl, inr,
}
use mathlib.Core.Path.{subst}
use ether_memories.Result.{Result, ok, err}
use ether_memories.Text.{Text}
use ether_memories.Time.{Time}
use ether_memories.OrderedMap
use ether_memories.OrderedMap.{Map, IsDistinct, values}
use ether_memories.OrderedMap.Laws.{IsDistinct-delete, delete-middle, delete_absent}
use ether_memories.Types.{MemoryNote}
use ether_memories.Notes
use ether_memories.Notes.{MemoryNotes, is_purged, values_unsafe}
use ether_memories.Notes.Laws.{values_unsafe_lem}
use ether_memories.Notes.Invariant
use ether_memories.Notes.Invariant.{IsEntry}
use ether_memories.Notes.Purge.{survives, outlives, keep-survives}
use ether_memories.Notes.Writes
use ether_memories.Graph.Package.{GraphPackage}
use ether_memories.Core.{
  EtherMemoriesCore, delete_memory, delete_all, purged_ids, purge_expired, unlink_on_ok,
}

delete_each : List Text → Map MemoryNote → Map MemoryNote
delete_each [] m = m
delete_each (id ∷ ids) m = delete_each ids (OrderedMap.delete id m)

-- Deleting the expired ids one by one leaves what a filter leaves.
delete_each-eq :
    (now : ℕ) (force : Bool) (kept rest : Map MemoryNote)
    → IsDistinct (kept ++ rest)
    → All IsEntry rest
    → delete_each (map (λ n. n.id) (keep (is_purged now force) (values rest))) (kept ++ rest)
      ≡ kept ++ keep (survives now force) rest
unfolding delete_each
delete_each-eq now force kept [] d h = refl
delete_each-eq now force kept ((id, note) ∷ rest) d h =
    elim (Bool-cases (is_purged now force note)) [
      | inl gone ↦
          let dropped = delete-middle id note kept rest d in
          let d' : IsDistinct (kept ++ rest) =
            subst IsDistinct dropped (IsDistinct-delete id (kept ++ (id, note) ∷ rest) d) in
          let ids : List Text = map (λ n. n.id) (keep (is_purged now force) (values rest)) in
          rw gone (
            ap (λ k. delete_each ids (OrderedMap.delete k (kept ++ (id, note) ∷ rest))) h.0.keyed
            ∙ ap (delete_each ids) dropped
            ∙ delete_each-eq now force kept rest d' h.1)
      | inr stays ↦
          let whole = append_assoc kept ((id, note) ∷ []) rest in
          let ih =
            delete_each-eq now force (kept ++ (id, note) ∷ []) rest (subst IsDistinct (sym whole) d)
              h.1 in
          rw stays (rw (whole, append_assoc kept ((id, note) ∷ [])) at ih)
    ]

module _ (pkg : GraphPackage) where
  notes-unlink :
      (id : Text) (touched : Time) (s : EtherMemoriesCore pkg) (r : Result (Unit {0}))
      (notes : MemoryNotes)
      → Writes.Deletes id s.notes (r, notes)
      → (unlink_on_ok pkg id touched s (r, notes)).1.notes.notes
        ≡ OrderedMap.delete id s.notes.notes
  unfolding unlink_on_ok
  notes-unlink id touched s (ok u) notes w = w
  notes-unlink id touched s (err e) notes w = w.0 ∙ sym (delete_absent id s.notes.notes w.1)

  notes-delete_memory :
      (id : Text) (touched : Time) (s : EtherMemoriesCore pkg)
      → (delete_memory pkg id touched s).1.notes.notes ≡ OrderedMap.delete id s.notes.notes
  unfolding delete_memory
  notes-delete_memory id touched s =
      let called = Notes.delete id s.notes in
      notes-unlink id touched s called.0 called.1 (Writes.delete-Deletes id s.notes)

  notes-delete_all :
      (ids : List Text) (touched : Time) (s : EtherMemoriesCore pkg)
      → (delete_all pkg ids touched s).notes.notes ≡ delete_each ids s.notes.notes
  unfolding delete_all delete_each
  notes-delete_all [] touched s = refl
  notes-delete_all (id ∷ ids) touched s =
      notes-delete_all ids touched (delete_memory pkg id touched s).1
      ∙ ap (delete_each ids) (notes-delete_memory id touched s)

  -- From well-formed notes, `purgeExpired` of the facade leaves exactly the notes that have not
  -- expired or are pinned and not forced, in their order, as `MemoryNotes.purgeExpired` does.
  pub notes-purge_expired :
      (now : ℕ) (force : Bool) (touched : Time) (s : EtherMemoriesCore pkg)
      → Notes.Invariant.IsValid s.notes
      → (purge_expired pkg now force touched s).1.notes.notes
        ≡ keep (outlives now force) s.notes.notes
  unfolding purge_expired purged_ids
  notes-purge_expired now force touched s v =
      notes-delete_all (purged_ids pkg now force s) touched s
      ∙ ap (λ ns. delete_each (map (λ n. n.id) (keep (is_purged now force) ns)) s.notes.notes)
          (values_unsafe_lem s.notes)
      ∙ delete_each-eq now force [] s.notes.notes v.distinct v.entries
      ∙ keep-survives now force s.notes.notes
