-- ===== src/Graph/Recall.antt =====
-- `getRecallNeighbors` of src/core/MindGraph.ts.
pub mod Bounds
pub mod NoLoop
pub mod Paths
pub mod SelfLoop
mod Tests
use ether_memories.Prelude.{
  ℕ, zero, suc, ◌+◌, Bool, true, false, not, ◌||◌, Option, none, some, List, [], ◌∷◌, ◌++◌, map,
  keep, length, leb, ltb, ◌==◌, ◌&&◌, if◌then◌else◌, or_default, Ordering,
}
use ether_memories.Text.{Text, same, includes, code_unit_compare}
use ether_memories.OrderedMap
use ether_memories.OrderedMap.{Map, values}
use ether_memories.Sort.{sort}
use ether_memories.Types.{MindGraphNode, MindGraphEdge}
use ether_memories.Graph.Package.{GraphPackage}
use ether_memories.Graph.{shown_edge, nodes_of}

pub data Direction : Type 0 where
  incoming outgoing both : Direction

-- The loop's variables. `visited` and `next` are in the order of insertion.
pub record Recall : Type 0 where
  pub visited : List Text
  pub next : List Text
  pub edges : Map MindGraphEdge
  pub paths : Map (List MindGraphEdge)

pub record RecallSlice : Type 0 where
  pub nodes : List MindGraphNode
  pub edges : List MindGraphEdge
  pub paths : Map (List MindGraphEdge)

unfoldable pub compare_path_ids : List MindGraphEdge → List MindGraphEdge → Ordering
compare_path_ids [] [] = Ordering.eq
compare_path_ids [] (f ∷ q) = Ordering.lt
compare_path_ids (e ∷ p) [] = Ordering.gt
compare_path_ids (e ∷ p) (f ∷ q) =
    let rest = compare_path_ids p q in
    elim (code_unit_compare e.id f.id) [
      | Ordering.lt ↦ Ordering.lt
      | Ordering.eq ↦ rest
      | Ordering.gt ↦ Ordering.gt
    ]

abbrev pub by_id : MindGraphEdge → MindGraphEdge → Ordering
by_id a b = code_unit_compare a.id b.id

abbrev pub allowed : Option (List Text) → MindGraphEdge → Bool
allowed none e = true
allowed (some list) e = includes list e.relationship

-- `set.add(x)`
abbrev add_to : Text → List Text → List Text
add_to x xs = if includes xs x then xs else xs ++ x ∷ []

unfoldable pub neighbor : Direction → Text → MindGraphEdge → Text
neighbor incoming current e = e.source
neighbor outgoing current e = if same e.source current then e.target else e.source
neighbor both current e = if same e.source current then e.target else e.source

abbrev pub path_to : Recall → Text → List MindGraphEdge
path_to st n = or_default (OrderedMap.get n st.paths) []

abbrev is_lt : Ordering → Bool
is_lt Ordering.lt = true
is_lt _ = false

-- `!frontier.length`
abbrev no_more : List Text → Bool
no_more [] = true
no_more (n ∷ ns) = false

module _ (max_nodes : ℕ) where
  -- `visited.size - 1 >= maxNodes`
  abbrev pub is_full : Recall → Bool
  is_full st = leb (max_nodes + 1) (length st.visited)

  module _ (direction : Direction) where
    see_neighbor :
        Recall
        → Text
        → MindGraphEdge
        → List MindGraphEdge
        → Option (List MindGraphEdge)
        → Recall × Bool
    see_neighbor st m e candidate_path (some existing) = (
      (if length candidate_path == length existing
            && is_lt (compare_path_ids candidate_path existing)
          then record st {
            paths = OrderedMap.set m candidate_path st.paths;
            edges = OrderedMap.set e.id e st.edges;
          }
          else st),
      false,
    )
    see_neighbor st m e candidate_path none =
        let st' : Recall = record {
          visited = add_to m st.visited;
          next = st.next ++ m ∷ [];
          edges = OrderedMap.set e.id e st.edges;
          paths = OrderedMap.set m candidate_path st.paths;
        } in
        (st', is_full st')

    -- The body of the loop over the candidates: the variables after it, and whether it breaks.
    see_edge : Text → MindGraphEdge → Recall → Recall × Bool
    unfolding see_neighbor
    see_edge current e st =
        let m = neighbor direction current e in
        see_neighbor st m e (path_to st current ++ e ∷ []) (OrderedMap.get m st.paths)

    see_edges : Text → List MindGraphEdge → Recall → Recall
    unfolding see_edge
    see_edges current [] st = st
    see_edges current (e ∷ es) st =
        let (st', stop) = see_edge current e st in
        let rest = see_edges current es st' in if stop then st' else rest

    module _ (pkg : GraphPackage) (relation_allowlist : Option (List Text)) (g : pkg.Graph) where
      incident : Text → List MindGraphEdge
      incident current = map shown_edge (elim direction [
        | incoming ↦ pkg.in_edges g current
        | outgoing ↦ pkg.out_edges g current
        | both ↦ pkg.out_edges g current ++ pkg.in_edges g current
      ])

      pub candidates : Text → List MindGraphEdge
      unfolding incident
      candidates current = sort by_id (keep (allowed relation_allowlist) (incident current))

      visit_frontier : List Text → Recall → Recall
      unfolding see_edges candidates
      visit_frontier [] st = st
      visit_frontier (current ∷ more) st =
          let st' = see_edges current (candidates current) st in
          let rest = visit_frontier more st' in if is_full st' then st' else rest

      -- `for (level < depth && frontier.length && visited.size - 1 < maxNodes)`
      recall_levels : ℕ → List Text → Recall → Recall
      unfolding visit_frontier
      recall_levels zero frontier st = st
      recall_levels (suc depth) frontier st =
          let st' = visit_frontier (sort code_unit_compare frontier) (record st { next = [] }) in
          let rest = recall_levels depth st'.next st' in
          if no_more frontier || is_full st then st else rest

abbrev pub start : Text → Recall
start id = record { visited = id ∷ []; next = []; edges = []; paths = [] }

-- The depth of a call, 0, 1 or 2, is a number here.
module _ (pkg : GraphPackage) where
  unfoldable pub recall : Text → ℕ → ℕ → Option (List Text) → Direction → pkg.Graph → Recall
  unfolding recall_levels
  recall id depth max_nodes relation_allowlist direction g =
      recall_levels max_nodes direction pkg relation_allowlist g depth (id ∷ []) (start id)

  pub get_recall_neighbors : Text → ℕ → ℕ → Option (List Text) → Direction → pkg.Graph → RecallSlice
  unfolding recall nodes_of
  get_recall_neighbors id depth max_nodes relation_allowlist direction g =
      let st = recall id depth max_nodes relation_allowlist direction g in
      if not (pkg.has_node g id) || depth == 0 || max_nodes == 0
      then record { nodes = []; edges = []; paths = [] }
      else record {
        nodes = nodes_of pkg (sort code_unit_compare (keep (λ n. not (same n id)) st.visited)) g;
        edges = sort by_id (values st.edges);
        paths = st.paths;
      }
