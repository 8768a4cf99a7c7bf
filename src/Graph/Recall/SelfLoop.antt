-- ===== src/Graph/Recall/SelfLoop.antt =====
-- What a self-loop of the seed does to `getRecallNeighbors`.
use ether_memories.Prelude.{ℕ, ◌<◌, ◌≡◌, ◌≢◌, false, Option, some, List, [], ◌∷◌, arith}
use ether_memories.Text.{Text, same_refl, same_iff, includes}
use ether_memories.OrderedMap
use ether_memories.Sort.{sort, insert}
use ether_memories.Types.{MindGraphEdge}
use ether_memories.Graph.Package.{GraphPackage}
use ether_memories.Graph.Recall.{
  Recall, Direction, start, see_neighbor, see_edge, see_edges, candidates, visit_frontier,
  recall_levels, recall, neighbor,
}

module _ (max : ℕ) (direction : Direction) (id m : Text) (e f : MindGraphEdge)
    (loop : neighbor direction id e ≡ id) (away : neighbor direction id f ≡ m) (other : m ≢ id)
    (room : 0 < max) where
  after_loop : Recall
  after_loop = record {
    visited = id ∷ [];
    next = id ∷ [];
    edges = (e.id, e) ∷ [];
    paths = (id, e ∷ []) ∷ [];
  }

  see_loop : see_edge max direction id e (start id) ≡ (after_loop, false)
  unfolding see_edge see_neighbor after_loop OrderedMap.get OrderedMap.set includes
  see_loop = rw (loop, same_refl id) (ground (arith, same_refl id))

  see_away : OrderedMap.get m (see_edge max direction id f after_loop).0.paths ≡ some (e ∷ f ∷ [])
  unfolding see_edge see_neighbor after_loop OrderedMap.get OrderedMap.set
  see_away = rw away (ground (arith, same_refl id, same_iff id m, same_refl m))

  see_both :
      OrderedMap.get m (see_edges max direction id (e ∷ f ∷ []) (start id)).paths
      ≡ some (e ∷ f ∷ [])
  unfolding see_edges
  see_both = ground (arith, see_loop, see_away)

-- If the seed has exactly two candidate edges, the first a self-loop and the second one to another
-- node, and at least one node may be found, then even at depth 1 the path that is recorded for that
-- direct neighbour is the self-loop and the edge: two edges, more than the depth.
pub self_loop_path :
    (pkg : GraphPackage) (id m : Text) (max : ℕ) (allowlist : Option (List Text))
    (direction : Direction) (g : pkg.Graph) (e f : MindGraphEdge)
    → candidates max direction pkg allowlist g id ≡ e ∷ f ∷ []
    → neighbor direction id e ≡ id
    → neighbor direction id f ≡ m
    → m ≢ id
    → 0 < max
    → OrderedMap.get m (recall pkg id 1 max allowlist direction g).paths ≡ some (e ∷ f ∷ [])
unfolding recall recall_levels visit_frontier sort insert
self_loop_path pkg id m max allowlist direction g e f two loop away other room =
    let seen = see_both max direction id m e f loop away other room in rw two (ground (arith, seen))
