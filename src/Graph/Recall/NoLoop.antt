-- ===== src/Graph/Recall/NoLoop.antt =====
-- In a graph with no self-loop, no candidate edge leads back to the node where it is taken.
use ether_memories.Prelude.{
  ℕ, ◌≡◌, ◌≢◌, refl, sym, ◌∙◌, true, false, Option, List, All, All-append, All-keep, All-keep_self,
  All-zip, All-map, All-imp, arith,
}
use ether_memories.Text.{Text, same, same_iff}
use ether_memories.Sort.{All-sort}
use ether_memories.Graph.Package.{GraphPackage, GraphLaws, GraphEdge}
use ether_memories.Graph.{shown_edge}
use ether_memories.Graph.Recall.{
  Direction, incoming, outgoing, both, candidates, incident, allowed, by_id, neighbor,
}

-- What a package shows at a node of a graph with no self-loop leads elsewhere.
abbrev pub NoSelfLoop : (pkg : GraphPackage) → pkg.Graph → Type 0
NoSelfLoop pkg g = All (λ e. e.source ≢ e.target) (pkg.edges g)

module _ (pkg : GraphPackage) (laws : GraphLaws pkg) (g : pkg.Graph) where
  module _ (simple : NoSelfLoop pkg g) (n : Text) where
    out_elsewhere : All (λ e. (e.source ≢ e.target) × (same e.source n ≡ true)) (pkg.out_edges g n)
    out_elsewhere = (laws.All-out _ g n).0 (
        All-zip _ _ _ (λ e a b. (a, b)) _ (All-keep _ (λ e. same e.source n) (pkg.edges g) simple)
          (All-keep_self (λ e. same e.source n) (pkg.edges g)))

    in_elsewhere : All (λ e. (e.source ≢ e.target) × (same e.target n ≡ true)) (pkg.in_edges g n)
    in_elsewhere = (laws.All-in _ g n).0 (
        All-zip _ _ _ (λ e a b. (a, b)) _ (All-keep _ (λ e. same e.target n) (pkg.edges g) simple)
          (All-keep_self (λ e. same e.target n) (pkg.edges g)))

    neighbor_out :
        (direction : Direction) (e : GraphEdge)
        → direction ≢ incoming
        → (e.source ≢ e.target) × (same e.source n ≡ true)
        → neighbor direction n (shown_edge e) ≢ n
    unfolding neighbor
    neighbor_out incoming e d h = absurd (d refl)
    neighbor_out outgoing e d h = rw h.1 (λ p. h.0 ((same_iff e.source n).0 h.1 ∙ sym p))
    neighbor_out both e d h = rw h.1 (λ p. h.0 ((same_iff e.source n).0 h.1 ∙ sym p))

    neighbor_in :
        (direction : Direction) (e : GraphEdge)
        → (e.source ≢ e.target) × (same e.target n ≡ true)
        → neighbor direction n (shown_edge e) ≢ n
    unfolding neighbor
    neighbor_in direction e h = by_direction direction
      where
        apart : e.source ≢ n
        apart p = h.0 (p ∙ sym ((same_iff e.target n).0 h.1))

        off : same e.source n ≡ false
        off = ground (arith, same_iff e.source n, apart)

        by_direction : (d : Direction) → neighbor d n (shown_edge e) ≢ n
        by_direction incoming = apart
        by_direction outgoing = rw off apart
        by_direction both = rw off apart

    incident_elsewhere :
        (max : ℕ) (direction : Direction) (allowlist : Option (List Text))
        → All (λ e. neighbor direction n e ≢ n) (incident max direction pkg allowlist g n)
    unfolding incident
    incident_elsewhere max incoming allowlist =
        All-map _ shown_edge _ (All-imp _ _ (neighbor_in incoming) _ in_elsewhere)
    incident_elsewhere max outgoing allowlist =
        All-map _ shown_edge _
          (All-imp _ _ (λ e. neighbor_out outgoing e (ground arith)) _ out_elsewhere)
    incident_elsewhere max both allowlist = All-map _ shown_edge _ (
        All-append _ (pkg.out_edges g n) (pkg.in_edges g n)
          (All-imp _ _ (λ e. neighbor_out both e (ground arith)) _ out_elsewhere)
          (All-imp _ _ (neighbor_in both) _ in_elsewhere))

    pub candidates_elsewhere :
        (max : ℕ) (direction : Direction) (allowlist : Option (List Text))
        → All (λ e. neighbor direction n e ≢ n) (candidates max direction pkg allowlist g n)
    unfolding candidates
    candidates_elsewhere max direction allowlist = All-sort by_id _ _ (
        All-keep _ (allowed allowlist) (incident max direction pkg allowlist g n)
          (incident_elsewhere max direction allowlist))
