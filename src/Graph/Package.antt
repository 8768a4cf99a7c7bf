-- ===== src/Graph/Package.antt =====
-- The graph package (graphology, a directed graph with no parallel edges) that src/core/MindGraph.ts
-- calls: its operations, and the documented behaviour that the proofs rely on.
pub mod Simple
use ether_memories.Prelude.{
  ◌≡◌, ◌↔◌, Bool, true, false, Option, some, List, [], ◌∷◌, ◌++◌, if◌then◌else◌, keep, not, ◌||◌,
  All,
}
use ether_memories.Text.{Text, same}
use ether_memories.Value.{Value}

-- The attributes that the manager stores on a node and on an edge.
pub record NodeAttributes : Type 0 where
  pub type : Text
  pub label : Option Text
  pub payload : Value

pub record EdgeAttributes : Type 0 where
  pub relationship : Option Text
  pub payload : Value

-- An edge as the iteration callbacks receive it.
pub record GraphEdge : Type 0 where
  pub key : Text
  pub attributes : EdgeAttributes
  pub source : Text
  pub target : Text

pub record GraphPackage : Type 1 where
  pub Graph : Type 0
  pub new_graph : Graph
  pub has_node : Graph → Text → Bool
  pub get_node_attributes : Graph → Text → NodeAttributes
  pub nodes : Graph → List Text
  -- `edges()`, each with its attributes and extremities
  pub edges : Graph → List GraphEdge
  pub has_edge : Graph → Text → Bool
  pub out_edges : Graph → Text → List GraphEdge
  pub in_edges : Graph → Text → List GraphEdge
  pub add_node : Graph → Text → NodeAttributes → Graph
  pub merge_node_attributes : Graph → Text → NodeAttributes → Graph
  -- `none` where the package throws
  pub add_edge_with_key : Graph → GraphEdge → Option Graph
  pub drop_node : Graph → Text → Graph
  pub clear : Graph → Graph

abbrev pub touches : Text → GraphEdge → Bool
touches k e = same e.source k || same e.target k

module _ (pkg : GraphPackage) where
  open pkg use {
    Graph, new_graph, has_node, edges, out_edges, in_edges, add_node, merge_node_attributes,
    add_edge_with_key, drop_node, clear,
  }

  pub record GraphLaws : Type 1 where
    pub has_node-new : (j : Text) → has_node new_graph j ≡ false
    pub has_node-add :
        (g : Graph) (k j : Text) (a : NodeAttributes)
        → has_node (add_node g k a) j ≡ (if same k j then true else has_node g j)
    pub has_node-merge :
        (g : Graph) (k j : Text) (a : NodeAttributes)
        → has_node (merge_node_attributes g k a) j ≡ has_node g j
    pub has_node-add_edge :
        (g g' : Graph) (e : GraphEdge) (j : Text)
        → add_edge_with_key g e ≡ some g'
        → has_node g' j ≡ has_node g j
    pub has_node-drop :
        (g : Graph) (k j : Text)
        → has_node (drop_node g k) j ≡ (if same k j then false else has_node g j)
    pub has_node-clear : (g : Graph) (j : Text) → has_node (clear g) j ≡ false
    pub edges-new : edges new_graph ≡ []
    pub edges-add : (g : Graph) (k : Text) (a : NodeAttributes) → edges (add_node g k a) ≡ edges g
    pub edges-merge :
        (g : Graph) (k : Text) (a : NodeAttributes) → edges (merge_node_attributes g k a) ≡ edges g
    pub edges-add_edge :
        (g g' : Graph) (e : GraphEdge)
        → add_edge_with_key g e ≡ some g'
        → edges g' ≡ edges g ++ e ∷ []
    pub edges-drop :
        (g : Graph) (k : Text) → edges (drop_node g k) ≡ keep (λ e. not (touches k e)) (edges g)
    pub edges-clear : (g : Graph) → edges (clear g) ≡ []
    -- The iterations meet the edges that leave, and those that enter, in some order.
    pub All-out :
        (P : GraphEdge → Type 0) (g : Graph) (n : Text)
        → All P (keep (λ e. same e.source n) (edges g)) ↔ All P (out_edges g n)
    pub All-in :
        (P : GraphEdge → Type 0) (g : Graph) (n : Text)
        → All P (keep (λ e. same e.target n) (edges g)) ↔ All P (in_edges g n)
