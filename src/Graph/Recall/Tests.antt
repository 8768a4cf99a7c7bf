-- ===== src/Graph/Recall/Tests.antt =====
-- Runs of `getRecallNeighbors`, and the theorems about it at concrete graphs.
use ether_memories.Prelude.{◌≡◌, ◌≤◌, ◌≢◌, refl, none, some, [], ◌∷◌, length, arith}
use ether_memories.Text.{units, same, includes, code_unit_compare}
use ether_memories.Value.{object, end, clone_value}
use ether_memories.OrderedMap
use ether_memories.Sort.{sort}
use ether_memories.Types.{MindGraphEdge}
use ether_memories.Graph.Package.Simple.{simple_graph}
use ether_memories.Graph.{add_node, ensure_node, add_edge_with_id, normalized}
use ether_memories.Graph.Tests.{ann, bob, two_people, linked}
use ether_memories.Graph.Recall.{both, outgoing, recall, get_recall_neighbors, candidates, neighbor}
use ether_memories.Graph.Recall.Bounds.{get_recall_neighbors-bound}
use ether_memories.Graph.Recall.SelfLoop.{self_loop_path}

get_recall_neighbors-bound_example :
    length (get_recall_neighbors simple_graph ann 2 1 none both linked).nodes ≤ 1
get_recall_neighbors-bound_example =
    get_recall_neighbors-bound simple_graph ann 2 1 none both linked

bob-ann : bob ≢ ann
bob-ann e = ground (arith, e)

-- An edge from ann to herself, whose id comes first.
abbrev looped : simple_graph.Graph
looped =
    (add_edge_with_id simple_graph (units "e2") ann bob (units "supports") (object end)
      (add_edge_with_id simple_graph (units "e1") ann ann (units "about") (object end)
        two_people).1).1

abbrev loop : MindGraphEdge
loop = record {
  id = units "e1";
  source = ann;
  target = ann;
  relationship = units "about";
  payload = object end;
}

abbrev away : MindGraphEdge
away = record {
  id = units "e2";
  source = ann;
  target = bob;
  relationship = units "supports";
  payload = object end;
}

two_candidates : candidates 8 outgoing simple_graph none looped ann ≡ loop ∷ away ∷ []
unfolding candidates simple_graph sort add_edge_with_id OrderedMap.has add_node ensure_node
    OrderedMap.set same code_unit_compare normalized clone_value includes
two_candidates = refl

self_loop_path_example :
    OrderedMap.get bob (recall simple_graph ann 1 8 none outgoing looped).paths
    ≡ some (loop ∷ away ∷ [])
unfolding neighbor same
self_loop_path_example =
    self_loop_path simple_graph ann bob 8 none outgoing looped loop away two_candidates refl refl
      bob-ann (omega arith)
