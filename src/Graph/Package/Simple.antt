-- ===== src/Graph/Package/Simple.antt =====
-- A graph as a map of nodes and a list of edges, which meets the laws of the package.
use ether_memories.Prelude.{
  refl, Bool, Option, none, some, List, [], ◌∷◌, ◌++◌, if◌then◌else◌, keep, not, ◌||◌, ◌&&◌, any,
  arith, or_default,
}
use ether_memories.Text.{same, same_iff}
use ether_memories.Value.{null}
use ether_memories.OrderedMap
use ether_memories.OrderedMap.{Map, keys}
use ether_memories.OrderedMap.Laws.{has-set, has-delete}
use ether_memories.Graph.Package.{NodeAttributes, GraphEdge, GraphPackage, GraphLaws, touches}

pub record SimpleGraph : Type 0 where
  pub node_map : Map NodeAttributes
  pub edge_list : List GraphEdge

abbrev missing : NodeAttributes
missing = record { type = []; label = none; payload = null }

-- Both ends are there, and neither the key nor the pair of ends is taken.
abbrev fits : SimpleGraph → GraphEdge → Bool
fits g e =
    OrderedMap.has e.source g.node_map
    && OrderedMap.has e.target g.node_map
    && not (
        any (λ f. same f.key e.key || (same f.source e.source && same f.target e.target))
          g.edge_list)

insert_edge : SimpleGraph → GraphEdge → Option SimpleGraph
insert_edge g e = if fits g e then some (record g { edge_list = g.edge_list ++ e ∷ [] }) else none

unfoldable pub simple_graph : GraphPackage
unfolding insert_edge
simple_graph = record {
  Graph = SimpleGraph;
  new_graph = record { node_map = []; edge_list = [] };
  has_node = λ g k. OrderedMap.has k g.node_map;
  get_node_attributes = λ g k. or_default (OrderedMap.get k g.node_map) missing;
  nodes = λ g. keys g.node_map;
  edges = λ g. g.edge_list;
  has_edge = λ g k. any (λ e. same e.key k) g.edge_list;
  out_edges = λ g n. keep (λ e. same e.source n) g.edge_list;
  in_edges = λ g n. keep (λ e. same e.target n) g.edge_list;
  add_node = λ g k a. record g { node_map = OrderedMap.set k a g.node_map };
  merge_node_attributes = λ g k a.
      if OrderedMap.has k g.node_map
      then record g { node_map = OrderedMap.set k a g.node_map }
      else g;
  add_edge_with_key = insert_edge;
  drop_node = λ g k. record {
    node_map = OrderedMap.delete k g.node_map;
    edge_list = keep (λ e. not (touches k e)) g.edge_list;
  };
  clear = λ g. record { node_map = []; edge_list = [] };
}

pub simple_graph-laws : GraphLaws simple_graph
unfolding simple_graph OrderedMap.has
simple_graph-laws = record {
  has_node-new = λ j. refl;
  has_node-add = λ g k j a. has-set k j a g.node_map;
  has_node-merge = λ g k j a. ground (arith, has-set k j a g.node_map, same_iff k j);
  has_node-add_edge = λ g g' e j h. ground arith;
  has_node-drop = λ g k j. has-delete k j g.node_map;
  has_node-clear = λ g j. refl;
  edges-new = refl;
  edges-add = λ g k a. refl;
  edges-merge = λ g k a. ground arith;
  edges-add_edge = λ g g' e h. ground arith;
  edges-drop = λ g k. refl;
  edges-clear = λ g. refl;
  All-out = λ P g n. (λ h. h, λ h. h);
  All-in = λ P g n. (λ h. h, λ h. h);
}
