-- ===== src/Graph/Neighbors/Nodes.antt =====
-- The nodes that `getNeighbors` of src/core/MindGraph.ts returns.
use ether_memories.Prelude.{
  ℕ, zero, suc, ◌≡◌, ◌≢◌, ◌↔◌, inl, inr, refl, sym, ◌∙◌, ap, Bool, true, false, not, ◌&&◌, ◌==◌,
  Option, List, [], ◌∷◌, map, keep, arith, Bool-cases,
}
use ether_memories.Text.{Text, same, same_iff, includes, code_unit_compare}
use ether_memories.Sort.{sort}
use ether_memories.Types.{MindGraphNode}
use ether_memories.Graph.{get_node, nodes_of}
use ether_memories.Graph.Package.{GraphPackage, GraphLaws}
use ether_memories.Graph.Recall.{Direction}
use ether_memories.Graph.Neighbors.{visit_from, get_neighbors}
use ether_memories.Graph.Neighbors.Exact.{includes-sort}
use ether_memories.Graph.Neighbors.Edges.{IsWithin, start, visit_from-IsWithin}

includes-keep :
    (p : Text → Bool) (xs : List Text) (n : Text) → includes (keep p xs) n ≡ (includes xs n && p n)
unfolding includes
includes-keep p [] n = refl
includes-keep p (x ∷ xs) n = elim (Bool-cases (same x n)) [
  | inl hit ↦
      let e : p x ≡ p n = ap p ((same_iff x n).0 hit) in
      ground (arith, hit, e, includes-keep p xs n)
  | inr miss ↦ ground (arith, miss, includes-keep p xs n)
]

module _ (pkg : GraphPackage) (g : pkg.Graph) where
  abbrev ids_of : List MindGraphNode → List Text
  ids_of nodes = map (λ k. k.id) nodes

  -- The nodes of the ids that the graph has.
  includes-nodes_of :
      (ids : List Text) (n : Text)
      → includes (ids_of (nodes_of pkg ids g)) n ≡ (includes ids n && pkg.has_node g n)
  unfolding includes nodes_of get_node
  includes-nodes_of [] n = refl
  includes-nodes_of (id ∷ ids) n = elim (Bool-cases (same id n)) [
    | inl hit ↦
        let e : pkg.has_node g id ≡ pkg.has_node g n =
          ap (pkg.has_node g) ((same_iff id n).0 hit) in
        ground (arith, hit, e, includes-nodes_of ids n)
    | inr miss ↦ ground (arith, miss, includes-nodes_of ids n)
  ]

returned-eq :
    (pkg : GraphPackage) (id : Text) (depth : ℕ) (list : Option (List Text)) (direction : Direction)
    (g : pkg.Graph) (n : Text)
    → pkg.has_node g id ≡ true
    → includes (ids_of pkg g (get_neighbors pkg id depth list direction g).nodes) n ≡ (
        not (depth == 0)
        && includes (visit_from pkg id depth list direction g).visited n
        && not (same n id)
        && pkg.has_node g n)
unfolding get_neighbors includes
returned-eq pkg id depth list direction g n there_ = elim (Bool-cases (depth == 0)) [
  | inl none_asked ↦ rw (there_, none_asked) refl
  | inr asked ↦
      let visited = (visit_from pkg id depth list direction g).visited in
      let others = keep (λ m. not (same m id)) visited in
      rw (there_, asked)
        (ground (
          arith,
          includes-nodes_of pkg g (sort code_unit_compare others) n,
          includes-sort others n,
          includes-keep (λ m. not (same m id)) visited n,
        ))
]

-- For a seed that the graph has, `getNeighbors` returns a node exactly if the graph has it, it is
-- not the seed, and at most `depth` allowed edges of the graph lead to it from the seed, each one
-- followed from its source, from its target, or either way, as `direction` asks.
pub get_neighbors_iff :
    (pkg : GraphPackage) (laws : GraphLaws pkg) (id : Text) (depth : ℕ) (list : Option (List Text))
    (direction : Direction) (g : pkg.Graph) (n : Text)
    → pkg.has_node g id ≡ true
    → (includes (map (λ k. k.id) (get_neighbors pkg id depth list direction g).nodes) n ≡ true)
      ↔ (IsWithin pkg direction list g id depth n × (n ≢ id) × (pkg.has_node g n ≡ true))
get_neighbors_iff pkg laws id depth list direction g n there_ =
    let e = returned-eq pkg id depth list direction g n there_ in
    let (within, seen) = visit_from-IsWithin pkg laws direction list g id depth n in
    (
      λ h.
          let all : (not (depth == 0)
                && includes (visit_from pkg id depth list direction g).visited n
                && not (same n id)
                && pkg.has_node g n)
              ≡ true =
            sym e ∙ h in
          (
            within (ground arith),
            λ same_node. ground (arith, (same_iff n id).1 same_node),
            ground arith,
          ),
      λ (near, other, had).
          let visited : includes (visit_from pkg id depth list direction g).visited n ≡ true =
            seen near in
          let some_depth : (depth == 0) ≡ false = deeper depth n near other in
          let not_seed : same n id ≡ false = ground (arith, other, (same_iff n id).0) in
          e ∙ rw (visited, some_depth, not_seed, had) refl,
    )
  where
    deeper : (k : ℕ) (m : Text) → IsWithin pkg direction list g id k m → m ≢ id → (k == 0) ≡ false
    deeper zero m (start k) other = absurd (other refl)
    deeper (suc k) m near other = ground arith
