-- ===== src/Graph.antt =====
-- `MindGraphManager` of src/core/MindGraph.ts, over the package graphology, which is a parameter.
-- The manager's state is its graph; the id of `createId` is an argument.
pub mod Package
pub mod Nodes
pub mod Relations
pub mod Recall
pub mod Neighbors
pub mod Tests
use ether_memories.Prelude.{
  Bool, true, false, not, ◌&&◌, ◌||◌, Option, none, some, List, [], ◌∷◌, map, keep, if◌then◌else◌,
  or_default,
}
use ether_memories.Result.{Result, ok, err, not_found, conflict}
use ether_memories.Text.{Text, units, same, includes}
use ether_memories.Value.{Value, Fields, text, object, end, field, clone_value}
use ether_memories.Types.{MindGraphNode, MindGraphEdge}
use ether_memories.Graph.Package.{GraphPackage, NodeAttributes, EdgeAttributes, GraphEdge}

abbrev pub related_to : Text
related_to = units "related_to"

abbrev pub starter_relations : List Text
starter_relations =
    related_to
    ∷ units "mentions"
    ∷ units "derived_from"
    ∷ units "supports"
    ∷ units "prefers"
    ∷ units "worked_on"
    ∷ units "part_of"
    ∷ units "about"
    ∷ []

unfoldable pub normalized : Text → Text
normalized relationship =
    if includes starter_relations relationship then relationship else related_to

set_field : Text → Value → Fields → Fields
set_field k v end = field k v end
set_field k v (field j w fs) = if same j k then field j v fs else field j w (set_field k v fs)

-- `{ ...data, rawRelation: relationship }`
with_raw_relation : Text → Value → Value
unfolding set_field
with_raw_relation relationship (object fs) =
    object (set_field (units "rawRelation") (text relationship) fs)
with_raw_relation relationship v = v

abbrev pub node_attributes : MindGraphNode → NodeAttributes
node_attributes node = record {
  type = node.type;
  label = node.label;
  payload = clone_value node.payload;
}

abbrev pub cloned_node : MindGraphNode → MindGraphNode
cloned_node node = record node { payload = clone_value node.payload }

-- An edge of the package as the manager shows it.
abbrev pub shown_edge : GraphEdge → MindGraphEdge
shown_edge e = record {
  id = e.key;
  source = e.source;
  target = e.target;
  relationship = or_default e.attributes.relationship related_to;
  payload = clone_value e.attributes.payload;
}

abbrev new_edge : Text → Text → Text → Text → Value → GraphEdge
new_edge key source target relationship payload = record {
  key = key;
  attributes = record { relationship = some relationship; payload = clone_value payload };
  source = source;
  target = target;
}

module _ (pkg : GraphPackage) where
  open pkg use {Graph}

  unfoldable pub add_node : MindGraphNode → Graph → Result MindGraphNode × Graph
  add_node node g =
      if pkg.has_node g node.id
      then (ok node, g)
      else (ok (cloned_node node), pkg.add_node g node.id (node_attributes node))

  unfoldable pub ensure_node : MindGraphNode → Graph → Result MindGraphNode × Graph
  ensure_node node g =
      if pkg.has_node g node.id
      then (ok (cloned_node node), pkg.merge_node_attributes g node.id (node_attributes node))
      else add_node node g

  -- `try { addEdgeWithKey } catch { CONFLICT }`
  abbrev attempt : Option Graph → MindGraphEdge → Graph → Result MindGraphEdge × Graph
  attempt none edge g = (err conflict, g)
  attempt (some g') edge g = (ok edge, g')

  abbrev shown : Text → Text → Text → Text → Value → MindGraphEdge
  shown id source target relationship payload = record {
    id = id;
    source = source;
    target = target;
    relationship = relationship;
    payload = clone_value payload;
  }

  unfoldable pub add_edge_with_id :
      Text → Text → Text → Text → Value → Graph → Result MindGraphEdge × Graph
  add_edge_with_id id source target relationship payload g =
      if not (pkg.has_node g source) || not (pkg.has_node g target)
      then (err not_found, g)
      else if pkg.has_edge g id
      then (err conflict, g)
      else let relation = normalized relationship in
        attempt (pkg.add_edge_with_key g (new_edge id source target relation payload))
          (shown id source target relation payload) g

  unfoldable pub add_edge : Text → Text → Text → Text → Value → Graph → Result MindGraphEdge × Graph
  unfolding with_raw_relation
  add_edge edge_id source target relationship payload g =
      if not (pkg.has_node g source) || not (pkg.has_node g target)
      then (err not_found, g)
      else let relation = normalized relationship in
        let stored =
          if same relation relationship then payload else with_raw_relation relationship payload in
        attempt (pkg.add_edge_with_key g (new_edge edge_id source target relation stored))
          (shown edge_id source target relation payload) g

  unfoldable pub get_node : Text → Graph → Option MindGraphNode
  get_node id g =
      let a = pkg.get_node_attributes g id in
      if pkg.has_node g id
      then some
          (record { id = id; type = a.type; label = a.label; payload = clone_value a.payload })
      else none

  -- `ids.map(id => this.getNode(id)!).filter(Boolean)`
  pub nodes_of : List Text → Graph → List MindGraphNode
  nodes_of [] g = []
  nodes_of (id ∷ ids) g = elim (get_node id g) [
    | none ↦ nodes_of ids g
    | some n ↦ n ∷ nodes_of ids g
  ]

  pub list_by_type : Text → Graph → List MindGraphNode
  unfolding nodes_of
  list_by_type type g =
      nodes_of (keep (λ id. same (pkg.get_node_attributes g id).type type) (pkg.nodes g)) g

  pub get_all_nodes : Graph → List MindGraphNode
  unfolding nodes_of
  get_all_nodes g = nodes_of (pkg.nodes g) g

  unfoldable pub get_all_edges : Graph → List MindGraphEdge
  get_all_edges g = map shown_edge (pkg.edges g)

  unfoldable pub remove_node : Text → Graph → Graph
  remove_node id g = if pkg.has_node g id then pkg.drop_node g id else g

  unfoldable pub clear : Graph → Graph
  clear g = pkg.clear g
