-- ===== src/Graph/Relations.antt =====
-- The relationships that src/core/MindGraph.ts stores are the starter relations, and its edges keep
-- their ends.
use ether_memories.Prelude.{
  ◌≡◌, refl, true, not, ◌||◌, Option, none, some, List, [], ◌∷◌, All, All-append, All-keep, All-map,
  All-zip, All-keep_self, ◌∙◌, arith, Bool-cases, inl, inr, or_default,
}
use ether_memories.Text.{Text, same, same_iff, includes}
use ether_memories.Value.{Value}
use ether_memories.Types.{MindGraphNode, MindGraphEdge}
use ether_memories.Graph.Package.{GraphPackage, GraphLaws, GraphEdge, touches}
use ether_memories.Graph.{
  normalized, starter_relations, related_to, add_node, ensure_node, add_edge_with_id, add_edge,
  attempt, remove_node, clear, get_all_edges, shown_edge,
}

module _ (pkg : GraphPackage) where
  open pkg use {Graph}

  -- One call of the manager that changes the graph.
  pub data Step (g : Graph) : Graph → Type 0 where
    node_added : (node : MindGraphNode) → Step g (add_node pkg node g).1
    node_ensured : (node : MindGraphNode) → Step g (ensure_node pkg node g).1
    edge_added :
        (id source target relationship : Text) (payload : Value)
        → Step g (add_edge pkg id source target relationship payload g).1
    edge_with_id_added :
        (id source target relationship : Text) (payload : Value)
        → Step g (add_edge_with_id pkg id source target relationship payload g).1
    node_removed : (id : Text) → Step g (remove_node pkg id g)
    cleared : Step g (clear pkg g)

  pub data Reach (g : Graph) : Graph → Type 0 where
    here : Reach g g
    next : {h k : Graph} → Reach g h → Step h k → Reach g k

normalized-starter : (r : Text) → includes starter_relations (normalized r) ≡ true
unfolding normalized includes same
normalized-starter r = elim (Bool-cases (includes starter_relations r)) [
  | inl e ↦ rw e e
  | inr e ↦ rw e refl
]

-- An edge whose relationship is one of the starter relations, between nodes of the graph.
abbrev pub IsSound : (pkg : GraphPackage) → pkg.Graph → GraphEdge → Type 0
IsSound pkg g e =
    (includes starter_relations (or_default e.attributes.relationship related_to) ≡ true)
    × (pkg.has_node g e.source ≡ true)
    × (pkg.has_node g e.target ≡ true)

-- Every edge of the graph is one.
abbrev pub AllSound : (pkg : GraphPackage) → pkg.Graph → Type 0
AllSound pkg g = All (IsSound pkg g) (pkg.edges g)

module _ (pkg : GraphPackage) (laws : GraphLaws pkg) where
  open pkg use {Graph}

  carry :
      (g h : Graph) (es : List GraphEdge)
      → ((j : Text) → pkg.has_node g j ≡ true → pkg.has_node h j ≡ true)
      → All (IsSound pkg g) es
      → All (IsSound pkg h) es
  carry g h [] grows s = tt
  carry g h (e ∷ es) grows s =
      ((s.0.0, grows e.source s.0.1, grows e.target s.0.2), carry g h es grows s.1)

  -- A change that loses no node and no edge.
  keeps_edges :
      (g h : Graph)
      → pkg.edges h ≡ pkg.edges g
      → ((j : Text) → pkg.has_node g j ≡ true → pkg.has_node h j ≡ true)
      → AllSound pkg g
      → All (IsSound pkg h) (pkg.edges h)
  keeps_edges g h same_edges grows sound = rw same_edges (carry g h (pkg.edges g) grows sound)

  -- An edge that the package takes over, or refuses.
  attempt-IsSound :
      (g : Graph) (e : GraphEdge) (shown : MindGraphEdge) (o : Option Graph)
      → pkg.add_edge_with_key g e ≡ o
      → IsSound pkg g e
      → AllSound pkg g
      → All (IsSound pkg (attempt pkg o shown g).1) (pkg.edges (attempt pkg o shown g).1)
  attempt-IsSound g e shown none h new sound = sound
  attempt-IsSound g e shown (some g') h new sound =
      let kept = λ (j : Text). laws.has_node-add_edge g g' e j h in
      rw (laws.edges-add_edge g g' e h) (
        All-append (IsSound pkg g') (pkg.edges g) (e ∷ [])
          (carry g g' (pkg.edges g) (λ j had. kept j ∙ had) sound)
          ((new.0, kept e.source ∙ new.1, kept e.target ∙ new.2), tt))

  add_node-IsSound :
      (node : MindGraphNode) (g : Graph)
      → AllSound pkg g
      → All (IsSound pkg (add_node pkg node g).1) (pkg.edges (add_node pkg node g).1)
  unfolding add_node
  add_node-IsSound node g sound = elim (Bool-cases (pkg.has_node g node.id)) [
    | inl e ↦ rw e sound
    | inr e ↦ rw e (
        keeps_edges g _ (laws.edges-add g node.id _)
          (λ j had. laws.has_node-add g node.id j _ ∙ ground arith) sound)
  ]

  ensure_node-IsSound :
      (node : MindGraphNode) (g : Graph)
      → AllSound pkg g
      → All (IsSound pkg (ensure_node pkg node g).1) (pkg.edges (ensure_node pkg node g).1)
  unfolding ensure_node
  ensure_node-IsSound node g sound = elim (Bool-cases (pkg.has_node g node.id)) [
    | inl e ↦ rw e (
        keeps_edges g _ (laws.edges-merge g node.id _)
          (λ j had. laws.has_node-merge g node.id j _ ∙ had) sound)
    | inr e ↦ rw e (add_node-IsSound node g sound)
  ]

  add_edge-IsSound :
      (id source target relationship : Text) (payload : Value) (g : Graph)
      → AllSound pkg g
      → All
          (IsSound pkg (add_edge pkg id source target relationship payload g).1)
          (pkg.edges (add_edge pkg id source target relationship payload g).1)
  unfolding add_edge
  add_edge-IsSound id source target relationship payload g sound =
      elim (Bool-cases (not (pkg.has_node g source) || not (pkg.has_node g target))) [
        | inl missing ↦ rw missing sound
        | inr there ↦ rw there (
            attempt-IsSound g _ _ _ refl
              (normalized-starter relationship, ground arith, ground arith) sound)
      ]

  add_edge_with_id-IsSound :
      (id source target relationship : Text) (payload : Value) (g : Graph)
      → AllSound pkg g
      → AllSound pkg (add_edge_with_id pkg id source target relationship payload g).1
  unfolding add_edge_with_id
  add_edge_with_id-IsSound id source target relationship payload g sound =
      elim (Bool-cases (not (pkg.has_node g source) || not (pkg.has_node g target))) [
        | inl missing ↦ rw missing sound
        | inr there ↦ elim (Bool-cases (pkg.has_edge g id)) [
          | inl taken ↦ rw (there, taken) sound
          | inr free ↦
              rw (there, free)
                (attempt-IsSound g _ _ _ refl
                  (normalized-starter relationship, ground arith, ground arith) sound)
        ]
      ]

  -- What a dropped node leaves behind does not touch it.
  drop_node-IsSound : (id : Text) (g : Graph) → AllSound pkg g → AllSound pkg (pkg.drop_node g id)
  drop_node-IsSound id g sound = rw (laws.edges-drop g id) (
      All-zip (IsSound pkg g) (λ e. not (touches id e) ≡ true) (IsSound pkg (pkg.drop_node g id))
        (λ e s free. (
          s.0,
          ground
              (arith, laws.has_node-drop g id e.source, same_iff id e.source, same_iff e.source id),
          ground
              (arith, laws.has_node-drop g id e.target, same_iff id e.target, same_iff e.target id),
        ))
        _ (All-keep (IsSound pkg g) (λ e. not (touches id e)) (pkg.edges g) sound)
        (All-keep_self (λ e. not (touches id e)) (pkg.edges g)))

  remove_node-IsSound :
      (id : Text) (g : Graph) → AllSound pkg g → AllSound pkg (remove_node pkg id g)
  unfolding remove_node
  remove_node-IsSound id g sound = elim (Bool-cases (pkg.has_node g id)) [
    | inl e ↦ rw e (drop_node-IsSound id g sound)
    | inr e ↦ rw e sound
  ]

  Step-AllSound : {g h : Graph} → Step pkg g h → AllSound pkg g → AllSound pkg h
  unfolding clear
  Step-AllSound {g} (node_added node) s = add_node-IsSound node g s
  Step-AllSound {g} (node_ensured node) s = ensure_node-IsSound node g s
  Step-AllSound {g} (edge_added id source target r payload) s =
      add_edge-IsSound id source target r payload g s
  Step-AllSound {g} (edge_with_id_added id source target r payload) s =
      add_edge_with_id-IsSound id source target r payload g s
  Step-AllSound {g} (node_removed id) s = remove_node-IsSound id g s
  Step-AllSound {g} cleared s = rw (laws.edges-clear g) tt

  Reach-AllSound : {g h : Graph} → AllSound pkg g → Reach pkg g h → AllSound pkg h
  Reach-AllSound s here = s
  Reach-AllSound s (next r st) = Step-AllSound st (Reach-AllSound s r)

  -- Whatever calls of the manager are made on a new graph, every edge that `getAllEdges` shows
  -- carries one of the eight starter relations, and joins two nodes that the graph has.
  pub get_all_edges_sound :
      {g : Graph}
      → Reach pkg pkg.new_graph g
      → All
          (λ e.
            (includes starter_relations e.relationship ≡ true)
            × (pkg.has_node g e.source ≡ true)
            × (pkg.has_node g e.target ≡ true))
          (get_all_edges pkg g)
  unfolding get_all_edges
  get_all_edges_sound {g} r =
      let empty : AllSound pkg pkg.new_graph = rw laws.edges-new tt in
      All-map _ shown_edge (pkg.edges g) (Reach-AllSound empty r)
