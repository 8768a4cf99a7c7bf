-- ===== src/Graph/Neighbors/Tests.antt =====
-- The theorem about `getNeighbors` at a concrete graph.
use ether_memories.Prelude.{◌≡◌, ◌≢◌, ◌↔◌, refl, true, none, map, All, Some}
use ether_memories.Text.{units, same, includes}
use ether_memories.Value.{object, end, clone_value}
use ether_memories.OrderedMap
use ether_memories.Graph.{add_node, ensure_node, add_edge_with_id, normalized, shown_edge}
use ether_memories.Graph.Package.Simple.{simple_graph, simple_graph-laws}
use ether_memories.Graph.Tests.{ann, bob, two_people}
use ether_memories.Graph.Recall.{outgoing}
use ether_memories.Graph.Neighbors.{get_neighbors}
use ether_memories.Graph.Neighbors.Edges.{IsAllowed, IsWithin}
use ether_memories.Graph.Neighbors.Nodes.{get_neighbors_iff}
use ether_memories.Graph.Neighbors.SliceEdges.{get_neighbors_edges}
use ether_memories.Graph.Package.{GraphEdge}

-- One edge, from ann to bob.
abbrev one_way : simple_graph.Graph
one_way =
    (add_edge_with_id simple_graph (units "e1") ann bob (units "supports") (object end)
      two_people).1

has-ann : simple_graph.has_node one_way ann ≡ true
unfolding simple_graph OrderedMap.has add_node ensure_node OrderedMap.set add_edge_with_id same
    normalized clone_value includes
has-ann = refl

get_neighbors_iff_example :
    (includes (map (λ k. k.id) (get_neighbors simple_graph ann 1 none outgoing one_way).nodes) bob
      ≡ true)
    ↔ (IsWithin simple_graph outgoing none one_way ann 1 bob
        × (bob ≢ ann)
        × (simple_graph.has_node one_way bob ≡ true))
get_neighbors_iff_example =
    get_neighbors_iff simple_graph simple_graph-laws ann 1 none outgoing one_way bob has-ann

get_neighbors_edges_example :
    All
      (λ f.
        ((e : GraphEdge) × (shown_edge e ≡ f)
          × Some (λ d. d ≡ e) (simple_graph.edges one_way)
          × IsAllowed none e)
        × IsWithin simple_graph outgoing none one_way ann 1 f.source
        × IsWithin simple_graph outgoing none one_way ann 1 f.target)
      (get_neighbors simple_graph ann 1 none outgoing one_way).edges
get_neighbors_edges_example =
    get_neighbors_edges simple_graph simple_graph-laws outgoing none one_way ann 1
