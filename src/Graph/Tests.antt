-- ===== src/Graph/Tests.antt =====
-- Runs of src/core/MindGraph.ts, and the theorems about it at a concrete graph.
use ether_memories.Prelude.{◌≡◌, true, none, All}
use ether_memories.Text.{Text, units, includes}
use ether_memories.Value.{object, end}
use ether_memories.Types.{MindGraphNode}
use ether_memories.Graph.Package.Simple.{simple_graph, simple_graph-laws}
use ether_memories.Graph.{
  starter_relations, add_node, ensure_node, add_edge_with_id, add_edge, get_all_edges,
}
use ether_memories.Graph.Relations.{
  Reach, here, next, node_added, node_ensured, edge_added, edge_with_id_added, get_all_edges_sound,
}

abbrev pub ann : Text
ann = units "ann"

abbrev pub bob : Text
bob = units "bob"

abbrev person : Text → MindGraphNode
person id = record { id = id; type = units "person"; label = none; payload = object end }

abbrev pub two_people : simple_graph.Graph
two_people =
    (add_node simple_graph (person bob)
      (ensure_node simple_graph (person ann) simple_graph.new_graph).1).1

-- The second edge has a relation of its own, which is stored as `related_to`.
abbrev pub linked : simple_graph.Graph
linked =
    (add_edge simple_graph (units "e2") bob ann (units "admires") (object end)
      (add_edge_with_id simple_graph (units "e1") ann bob (units "supports") (object end)
        two_people).1).1

linked-Reach : Reach simple_graph simple_graph.new_graph linked
linked-Reach =
    next
      (next (next (next here (node_ensured (person ann))) (node_added (person bob)))
        (edge_with_id_added (units "e1") ann bob (units "supports") (object end)))
      (edge_added (units "e2") bob ann (units "admires") (object end))

get_all_edges_sound_example :
    All
      (λ e.
        (includes starter_relations e.relationship ≡ true)
        × (simple_graph.has_node linked e.source ≡ true)
        × (simple_graph.has_node linked e.target ≡ true))
      (get_all_edges simple_graph linked)
get_all_edges_sound_example = get_all_edges_sound simple_graph simple_graph-laws linked-Reach
