-- ===== src/Linker/Laws.antt =====
-- Which nodes the graph has after the calls of src/core/FoundationLinker.ts.
use ether_memories.Prelude.{
  ◌≡◌, refl, ap, ◌∙◌, true, false, Option, none, some, arith, is_some, if◌then◌else◌, Bool-cases,
  inl, inr,
}
use ether_memories.Text.{Text, same}
use ether_memories.Text.Trim.{is_empty}
use ether_memories.Types.{MemoryNote, DiaryEntry}
use ether_memories.Graph.Package.{GraphPackage, GraphLaws}
use ether_memories.Graph.{ensure_node, get_node}
use ether_memories.Graph.Nodes.{has_node-ensure, has_node-add_edge, has_node-remove}
use ether_memories.Linker.{
  memory_node, diary_node, note_node, bare_diary_node, ensure_diary, link_parent, link_note,
  link_diary, remove_note, remove_diary,
}

-- The two prefixes keep the nodes of notes and of diary entries apart.
pub same-memory-diary : (i j : Text) → same (memory_node i) (diary_node j) ≡ false
unfolding same memory_node diary_node
same-memory-diary i j = refl

pub same-diary-memory : (i j : Text) → same (diary_node i) (memory_node j) ≡ false
unfolding same memory_node diary_node
same-diary-memory i j = refl

pub same-memory : (i j : Text) → same (memory_node i) (memory_node j) ≡ same i j
unfolding same memory_node diary_node
same-memory i j = refl

pub same-diary : (i j : Text) → same (diary_node i) (diary_node j) ≡ same i j
unfolding same memory_node diary_node
same-diary i j = refl

module _ (pkg : GraphPackage) (laws : GraphLaws pkg) where
  open pkg use {Graph}

  has_node-ensure_diary :
      (id : Text) (g : Graph) (j : Text)
      → (same id j ≡ false → pkg.has_node (ensure_diary pkg id g) j ≡ pkg.has_node g j)
        × (pkg.has_node g j ≡ true → pkg.has_node (ensure_diary pkg id g) j ≡ true)
  unfolding ensure_diary
  has_node-ensure_diary id g j = elim (Bool-cases (is_some (get_node pkg id g))) [
    | inl e ↦ rw e (λ _. refl, λ h. h)
    | inr e ↦ rw e (
      λ other. has_node-ensure pkg laws _ g j ∙ ground arith,
      λ had. has_node-ensure pkg laws (bare_diary_node id none) g j ∙ ground arith,
    )
  ]

  -- Linking a parent adds no note's node, and loses no node.
  has_node-link_parent :
      (edge_id : Text) (note : MemoryNote) (parent : Option Text) (g : Graph) (j : Text)
      → (pkg.has_node (link_parent pkg edge_id note parent g) (memory_node j)
          ≡ pkg.has_node g (memory_node j))
        × (pkg.has_node g j ≡ true → pkg.has_node (link_parent pkg edge_id note parent g) j ≡ true)
  unfolding link_parent
  has_node-link_parent edge_id note none g j = (refl, λ h. h)
  has_node-link_parent edge_id note (some parent) g j = elim (Bool-cases (is_empty parent)) [
    | inl e ↦ rw e (refl, λ h. h)
    | inr e ↦ rw e (
      has_node-add_edge pkg laws edge_id _ _ _ _ _ (memory_node j)
          ∙ (has_node-ensure_diary (diary_node parent) g (memory_node j)).0
              (same-diary-memory parent j),
      λ had.
          has_node-add_edge pkg laws edge_id _ _ _ _ _ j
          ∙ (has_node-ensure_diary (diary_node parent) g j).1 had,
    )
  ]

  -- `linkNote` adds the note's node, no other note's node, and loses no node.
  pub has_node-link_note :
      (edge_id : Text) (note : MemoryNote) (g : Graph) (j : Text)
      → (pkg.has_node (link_note pkg edge_id note g) (memory_node j)
          ≡ (if same note.id j then true else pkg.has_node g (memory_node j)))
        × (pkg.has_node g j ≡ true → pkg.has_node (link_note pkg edge_id note g) j ≡ true)
  unfolding link_note note_node
  has_node-link_note edge_id note g j =
      let ensured = (ensure_node pkg (note_node note) g).1 in
      let parent = note.provenance.parent_diary_id in
      let linked = has_node-link_parent edge_id note parent ensured j in
      (
        linked.0
            ∙ has_node-ensure pkg laws (note_node note) g (memory_node j)
            ∙ ap (λ b. if b then true else pkg.has_node g (memory_node j)) (same-memory note.id j),
        λ had. linked.1 (has_node-ensure pkg laws (note_node note) g j ∙ ground arith),
      )

  pub has_node-link_diary :
      (entry : DiaryEntry) (g : Graph) (j : Text)
      → pkg.has_node (link_diary pkg entry g) j
        ≡ (if same (diary_node entry.id) j then true else pkg.has_node g j)
  unfolding link_diary
  has_node-link_diary entry g j = has_node-ensure pkg laws _ g j

  pub has_node-remove_note :
      (id : Text) (g : Graph) (j : Text)
      → pkg.has_node (remove_note pkg id g) j
        ≡ (if same (memory_node id) j then false else pkg.has_node g j)
  unfolding remove_note
  has_node-remove_note id g j = has_node-remove pkg laws (memory_node id) g j

  pub has_node-remove_diary :
      (id : Text) (g : Graph) (j : Text)
      → pkg.has_node (remove_diary pkg id g) j
        ≡ (if same (diary_node id) j then false else pkg.has_node g j)
  unfolding remove_diary
  has_node-remove_diary id g j = has_node-remove pkg laws (diary_node id) g j
