-- ===== src/Graph/Neighbors.antt =====
-- `getNeighbors` of src/core/MindGraph.ts. The depth of a call, 0, 1 or 2, is a number here.
pub mod Near
pub mod Exact
pub mod Edges
pub mod Nodes
pub mod SliceEdges
mod Tests
use ether_memories.Prelude.{
  ℕ, zero, suc, Bool, true, false, not, ◌&&◌, ◌||◌, ◌==◌, Option, List, [], ◌∷◌, ◌++◌, map, keep,
  if◌then◌else◌,
}
use ether_memories.Text.{Text, same, includes, code_unit_compare}
use ether_memories.OrderedMap
use ether_memories.OrderedMap.{Map, values}
use ether_memories.Sort.{sort}
use ether_memories.Types.{MindGraphNode, MindGraphEdge}
use ether_memories.Graph.Package.{GraphPackage}
use ether_memories.Graph.{shown_edge, nodes_of}
use ether_memories.Graph.Recall.{Direction, incoming, outgoing, both, allowed, by_id}

-- The variables of the loop, each in the order of insertion.
pub record Visit : Type 0 where
  pub visited : List Text
  pub next : List Text
  pub edges : Map MindGraphEdge

pub record Slice : Type 0 where
  pub nodes : List MindGraphNode
  pub edges : List MindGraphEdge

abbrev pub other_end : Text → MindGraphEdge → Text
other_end n e = if same e.source n then e.target else e.source

-- The body of `visit`, for an edge whose relationship is allowed.
visit : Text → MindGraphEdge → Visit → Visit
visit n e st =
    let m = other_end n e in
    let edges = OrderedMap.set e.id e st.edges in
    if includes st.visited m
    then record st { edges = edges }
    else record { visited = st.visited ++ m ∷ []; next = st.next ++ m ∷ []; edges = edges }

visit_all : Text → List MindGraphEdge → Visit → Visit
unfolding visit
visit_all n [] st = st
visit_all n (e ∷ es) st = visit_all n es (visit n e st)

module _ (direction : Direction) (pkg : GraphPackage) (relation_allowlist : Option (List Text))
    (g : pkg.Graph) where
  -- The edges that the calls of `visit` meet at a node and do not pass over.
  pub nearby : Text → List MindGraphEdge
  nearby n = keep (allowed relation_allowlist) (
      map shown_edge (elim direction [
        | incoming ↦ pkg.in_edges g n
        | outgoing ↦ pkg.out_edges g n
        | both ↦ pkg.out_edges g n ++ pkg.in_edges g n
      ]))

  expand : List Text → Visit → Visit
  unfolding visit_all nearby
  expand [] st = st
  expand (n ∷ frontier) st = expand frontier (visit_all n (nearby n) st)

  pub levels : ℕ → List Text → Visit → Visit
  unfolding expand
  levels zero frontier st = st
  levels (suc depth) frontier st =
      let st' = expand (sort code_unit_compare frontier) (record st { next = [] }) in
      levels depth st'.next st'

abbrev from_seed : Text → Visit
from_seed id = record { visited = id ∷ []; next = []; edges = [] }

module _ (pkg : GraphPackage) where
  pub visit_from : Text → ℕ → Option (List Text) → Direction → pkg.Graph → Visit
  unfolding levels
  visit_from id depth relation_allowlist direction g =
      levels direction pkg relation_allowlist g depth (id ∷ []) (from_seed id)

  pub get_neighbors : Text → ℕ → Option (List Text) → Direction → pkg.Graph → Slice
  unfolding visit_from
  get_neighbors id depth relation_allowlist direction g =
      let st = visit_from id depth relation_allowlist direction g in
      if not (pkg.has_node g id) || depth == 0 then record { nodes = []; edges = [] } else record {
        nodes = nodes_of pkg (sort code_unit_compare (keep (λ n. not (same n id)) st.visited)) g;
        edges = sort by_id (
            keep (λ e. includes st.visited e.source && includes st.visited e.target)
              (values st.edges));
      }
