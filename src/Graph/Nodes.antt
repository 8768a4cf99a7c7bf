-- ===== src/Graph/Nodes.antt =====
-- Which nodes the graph has after the calls of the manager of src/core/MindGraph.ts.
use ether_memories.Prelude.{
  ◌≡◌, refl, ◌∙◌, true, false, not, ◌||◌, Option, none, some, arith, if◌then◌else◌, Bool-cases, inl,
  inr,
}
use ether_memories.Text.{Text, same, same_iff}
use ether_memories.Value.{Value}
use ether_memories.Types.{MindGraphNode, MindGraphEdge}
use ether_memories.Graph.Package.{GraphPackage, GraphLaws, GraphEdge}
use ether_memories.Graph.{add_node, ensure_node, add_edge, attempt, remove_node}

module _ (pkg : GraphPackage) (laws : GraphLaws pkg) where
  open pkg use {Graph}

  pub has_node-ensure :
      (node : MindGraphNode) (g : Graph) (j : Text)
      → pkg.has_node (ensure_node pkg node g).1 j
        ≡ (if same node.id j then true else pkg.has_node g j)
  unfolding ensure_node add_node
  has_node-ensure node g j = elim (Bool-cases (pkg.has_node g node.id)) [
    | inl e ↦ rw e (laws.has_node-merge g node.id j _ ∙ ground (arith, same_iff node.id j))
    | inr e ↦ rw e (laws.has_node-add g node.id j _)
  ]

  has_node-attempt :
      (g : Graph) (e : GraphEdge) (shown : MindGraphEdge) (o : Option Graph) (j : Text)
      → pkg.add_edge_with_key g e ≡ o
      → pkg.has_node (attempt pkg o shown g).1 j ≡ pkg.has_node g j
  has_node-attempt g e shown none j h = refl
  has_node-attempt g e shown (some g') j h = laws.has_node-add_edge g g' e j h

  pub has_node-add_edge :
      (id source target relationship : Text) (payload : Value) (g : Graph) (j : Text)
      → pkg.has_node (add_edge pkg id source target relationship payload g).1 j ≡ pkg.has_node g j
  unfolding add_edge
  has_node-add_edge id source target relationship payload g j =
      elim (Bool-cases (not (pkg.has_node g source) || not (pkg.has_node g target))) [
        | inl e ↦ rw e
        | inr e ↦ rw e (has_node-attempt g _ _ _ j refl)
      ]

  pub has_node-remove :
      (k : Text) (g : Graph) (j : Text)
      → pkg.has_node (remove_node pkg k g) j ≡ (if same k j then false else pkg.has_node g j)
  unfolding remove_node
  has_node-remove k g j = elim (Bool-cases (pkg.has_node g k)) [
    | inl e ↦ rw e (laws.has_node-drop g k j)
    | inr e ↦ rw e (ground (arith, same_iff k j))
  ]
