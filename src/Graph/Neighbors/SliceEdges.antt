-- ===== src/Graph/Neighbors/SliceEdges.antt =====
-- The edges that `getNeighbors` of src/core/MindGraph.ts returns.
use ether_memories.Prelude.{
  ℕ, zero, suc, ◌≡◌, inl, inr, true, not, ◌&&◌, ◌||◌, ◌==◌, Option, List, [], ◌∷◌, keep, All, Some,
  All-imp, All-zip, All-keep, All-keep_self, arith, Bool-cases,
}
use ether_memories.Text.{Text, includes, code_unit_compare}
use ether_memories.OrderedMap.{values}
use ether_memories.OrderedMap.Laws.{All-values-set}
use ether_memories.Sort.{sort, All-sort}
use ether_memories.Types.{MindGraphEdge}
use ether_memories.Graph.{shown_edge}
use ether_memories.Graph.Package.{GraphPackage, GraphLaws, GraphEdge}
use ether_memories.Graph.Recall.{Direction, by_id}
use ether_memories.Graph.Neighbors.{
  Visit, other_end, visit, visit_all, nearby, expand, levels, visit_from, get_neighbors,
}
use ether_memories.Graph.Neighbors.Edges.{
  IsAllowed, IsWithin, IsMet, nearby-IsMet, visit_from-IsWithin,
}

module _ (pkg : GraphPackage) (laws : GraphLaws pkg) (direction : Direction)
    (list : Option (List Text)) (g : pkg.Graph) where
  -- An edge of the graph that is allowed, as the manager shows it.
  abbrev pub IsShownEdge : MindGraphEdge → Type 0
  IsShownEdge f =
      (e : GraphEdge) × (shown_edge e ≡ f) × Some (λ d. d ≡ e) (pkg.edges g) × IsAllowed list e

  abbrev AreShown : Visit → Type 0
  AreShown st = All IsShownEdge (values st.edges)

  visit-AreShown :
      (n : Text) (e : MindGraphEdge) (st : Visit)
      → IsShownEdge e
      → AreShown st
      → AreShown (visit n e st)
  unfolding visit
  visit-AreShown n e st shown h =
      let added = All-values-set IsShownEdge e.id e st.edges shown h in
      elim (Bool-cases (includes st.visited (other_end n e))) [
        | inl old ↦ rw old added
        | inr new ↦ rw new added
      ]

  visit_all-AreShown :
      (n : Text) (es : List MindGraphEdge) (st : Visit)
      → All IsShownEdge es
      → AreShown st
      → AreShown (visit_all n es st)
  unfolding visit_all
  visit_all-AreShown n [] st shown h = h
  visit_all-AreShown n (e ∷ es) st shown h =
      visit_all-AreShown n es (visit n e st) shown.1 (visit-AreShown n e st shown.0 h)

  nearby-IsShownEdge : (n : Text) → All IsShownEdge (nearby direction pkg list g n)
  nearby-IsShownEdge n =
      All-imp (IsMet pkg laws g direction list n) IsShownEdge
        (λ f (e, shown, here_, meets, fine). (e, shown, here_, fine))
        (nearby direction pkg list g n) (nearby-IsMet pkg laws g direction list n)

  expand-AreShown :
      (frontier : List Text) (st : Visit)
      → AreShown st
      → AreShown (expand direction pkg list g frontier st)
  unfolding expand
  expand-AreShown [] st h = h
  expand-AreShown (n ∷ frontier) st h =
      expand-AreShown frontier _
        (visit_all-AreShown n (nearby direction pkg list g n) st (nearby-IsShownEdge n) h)

  levels-AreShown :
      (depth : ℕ) (frontier : List Text) (st : Visit)
      → AreShown st
      → AreShown (levels direction pkg list g depth frontier st)
  unfolding levels
  levels-AreShown zero frontier st h = h
  levels-AreShown (suc depth) frontier st h =
      levels-AreShown depth _ _
        (expand-AreShown (sort code_unit_compare frontier) (record st { next = [] }) h)

  -- Each edge that `getNeighbors` returns is an edge of the graph, with an allowed relationship, and
  -- at most `depth` allowed edges lead from the seed to its source, and to its target, each one
  -- followed as `direction` asks.
  pub get_neighbors_edges :
      (id : Text) (depth : ℕ)
      → All
          (λ f.
            ((e : GraphEdge) × (shown_edge e ≡ f)
              × Some (λ d. d ≡ e) (pkg.edges g)
              × IsAllowed list e)
            × IsWithin pkg direction list g id depth f.source
            × IsWithin pkg direction list g id depth f.target)
          (get_neighbors pkg id depth list direction g).edges
  unfolding get_neighbors visit_from
  get_neighbors_edges id depth =
      let st = visit_from pkg id depth list direction g in
      let both_seen =
        λ (f : MindGraphEdge). includes st.visited f.source && includes st.visited f.target in
      let IsGood : MindGraphEdge → Type 0 = λ f.
        IsShownEdge f
        × IsWithin pkg direction list g id depth f.source
        × IsWithin pkg direction list g id depth f.target in
      let shown : AreShown st = levels-AreShown depth (id ∷ []) _ tt in
      let good : All IsGood (keep both_seen (values st.edges)) =
        All-zip IsShownEdge (λ f. both_seen f ≡ true) IsGood
          (λ f fine seen. (
            fine,
            (visit_from-IsWithin pkg laws direction list g id depth f.source).0 (ground arith),
            (visit_from-IsWithin pkg laws direction list g id depth f.target).0 (ground arith),
          ))
          (keep both_seen (values st.edges))
          (All-keep IsShownEdge both_seen (values st.edges) shown)
          (All-keep_self both_seen (values st.edges)) in
      elim (Bool-cases (not (pkg.has_node g id) || depth == 0)) [
        | inl nothing ↦ rw nothing tt
        | inr asked ↦ rw asked (All-sort by_id IsGood (keep both_seen (values st.edges)) good)
      ]
