-- ===== src/Graph/Recall/Bounds.antt =====
-- The cap of `getRecallNeighbors`: at most `maxNodes` nodes come back.
use ether_memories.Prelude.{
  ℕ, zero, suc, ◌+◌, ◌≤◌, ◌≡◌, true, false, not, ◌||◌, Option, none, some, List, [], ◌∷◌, ◌++◌,
  keep, length, length-append, length-keep, arith, Bool-cases, inl, inr, ◌==◌,
}
use ether_memories.Text.{Text, same, same_refl, includes, code_unit_compare}
use ether_memories.OrderedMap
use ether_memories.Sort.{sort, length-sort}
use ether_memories.Types.{MindGraphEdge}
use ether_memories.Graph.Package.{GraphPackage}
use ether_memories.Graph.{nodes_of}
use ether_memories.Graph.Recall.{
  Recall, Direction, add_to, start, see_neighbor, see_edge, see_edges, candidates, visit_frontier,
  recall_levels, recall, get_recall_neighbors, neighbor, path_to,
}

length-add_to : (x : Text) (xs : List Text) → length (add_to x xs) ≤ length xs + 1
length-add_to x xs = ground (arith, length-append xs (x ∷ []))

includes-append :
    (xs : List Text) (y id : Text) → includes xs id ≡ true → includes (xs ++ y ∷ []) id ≡ true
unfolding includes
includes-append [] y id h = ground arith
includes-append (x ∷ xs) y id h = ground (arith, includes-append xs y id)

includes-add_to :
    (x : Text) (xs : List Text) (id : Text)
    → includes xs id ≡ true
    → includes (add_to x xs) id ≡ true
includes-add_to x xs id h = ground (arith, includes-append xs x id h)

module _ (max : ℕ) (direction : Direction) (id : Text) where
  -- At most one node too many for another round, and the seed among them.
  abbrev Within : Recall → Type 0
  Within st = (length st.visited ≤ max + 1) × (includes st.visited id ≡ true)

  abbrev Open : Recall → Type 0
  Open st = (length st.visited ≤ max) × (includes st.visited id ≡ true)

  see_neighbor-Within :
      (st : Recall) (m : Text) (e : MindGraphEdge) (path : List MindGraphEdge)
      (old : Option (List MindGraphEdge))
      → Open st
      → Within (see_neighbor max direction st m e path old).0
        × ((see_neighbor max direction st m e path old).1 ≡ false
            → Open (see_neighbor max direction st m e path old).0)
  unfolding see_neighbor
  see_neighbor-Within st m e path (some existing) h = ground arith
  see_neighbor-Within st m e path none h =
      ground (arith, length-add_to m st.visited, includes-add_to m st.visited id h.1)

  see_edges-Within :
      (current : Text) (es : List MindGraphEdge) (st : Recall)
      → Open st
      → Within (see_edges max direction current es st)
  unfolding see_edges see_edge
  see_edges-Within current [] st h = ground arith
  see_edges-Within current (e ∷ es) st h = ground (
    arith,
    see_neighbor-Within st (neighbor direction current e) e (path_to st current ++ e ∷ [])
        (OrderedMap.get (neighbor direction current e) st.paths) h,
    see_edges-Within current es (see_edge max direction current e st).0,
  )

  module _ (pkg : GraphPackage) (allowlist : Option (List Text)) (g : pkg.Graph) where
    visit_frontier-Within :
        (frontier : List Text) (st : Recall)
        → Open st
        → Within (visit_frontier max direction pkg allowlist g frontier st)
    unfolding visit_frontier
    visit_frontier-Within [] st h = ground arith
    visit_frontier-Within (current ∷ more) st h = ground (
      arith,
      see_edges-Within current (candidates max direction pkg allowlist g current) st h,
      visit_frontier-Within more
          (see_edges max direction current (candidates max direction pkg allowlist g current) st),
    )

    recall_levels-Within :
        (depth : ℕ) (frontier : List Text) (st : Recall)
        → Within st
        → Within (recall_levels max direction pkg allowlist g depth frontier st)
    unfolding recall_levels
    recall_levels-Within zero frontier st h = h
    recall_levels-Within (suc depth) frontier st h =
        let st' =
          visit_frontier max direction pkg allowlist g (sort code_unit_compare frontier)
            (record st { next = [] }) in
        ground (
          arith,
          visit_frontier-Within (sort code_unit_compare frontier) (record st { next = [] }),
          recall_levels-Within depth st'.next st',
        )

-- Leaving the seed out leaves one node less.
length-without :
    (id : Text) (xs : List Text)
    → includes xs id ≡ true
    → length (keep (λ n. not (same n id)) xs) + 1 ≤ length xs
unfolding includes
length-without id [] h = ground arith
length-without id (x ∷ xs) h = elim (Bool-cases (same x id)) [
  | inl e ↦ rw e (omega (arith, length-keep (λ n. not (same n id)) xs))
  | inr e ↦ rw e (omega (arith, length-without id xs (rw e at h)))
]

module _ (pkg : GraphPackage) where
  length-nodes_of : (ids : List Text) (g : pkg.Graph) → length (nodes_of pkg ids g) ≤ length ids
  unfolding nodes_of
  length-nodes_of [] g = omega arith
  length-nodes_of (id ∷ ids) g = ground (arith, length-nodes_of ids g)

  -- `getRecallNeighbors` returns at most `maxNodes` nodes, whatever the graph, the depth, the
  -- direction and the allowed relations.
  pub get_recall_neighbors-bound :
      (id : Text) (depth max : ℕ) (allowlist : Option (List Text)) (direction : Direction)
      (g : pkg.Graph)
      → length (get_recall_neighbors pkg id depth max allowlist direction g).nodes ≤ max
  unfolding get_recall_neighbors recall includes
  get_recall_neighbors-bound id depth max allowlist direction g =
      let st = recall pkg id depth max allowlist direction g in
      let others = keep (λ n. not (same n id)) st.visited in
      elim (Bool-cases (not (pkg.has_node g id) || depth == 0 || max == 0)) [
        | inl none_asked ↦ rw none_asked (omega arith)
        | inr asked ↦
            let room : Within max direction id (start id) =
              (omega arith, ground (arith, same_refl id)) in
            let within =
              recall_levels-Within max direction id pkg allowlist g depth (id ∷ []) (start id)
                room in
            rw asked (
              omega (
                arith,
                length-nodes_of (sort code_unit_compare others) g,
                length-sort code_unit_compare others,
                length-without id st.visited within.1,
                within.0,
              ))
      ]
