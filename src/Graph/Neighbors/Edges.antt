-- ===== src/Graph/Neighbors/Edges.antt =====
-- The search of `getNeighbors` against the edges of the graph.
use mathlib.Core.Path.{subst}
use ether_memories.Prelude.{
  ℕ, suc, ◌≡◌, ◌↔◌, ◌⊎◌, inl, inr, refl, sym, ◌∙◌, ap, Bool, true, Option, none, some, List, [],
  ◌∷◌, ◌++◌, map, keep, All, Some, All-self, All-imp, All-zip, All-keep, All-keep_self, All-append,
  All-Some, Some-keep, Some-map, Some-append-left, Some-append-right, Bool-cases, or_default,
}
use ether_memories.Text.{Text, same, same_iff, same_refl, includes}
use ether_memories.Types.{MindGraphEdge}
use ether_memories.Graph.{shown_edge, related_to}
use ether_memories.Graph.Package.{GraphPackage, GraphLaws, GraphEdge}
use ether_memories.Graph.Recall.{Direction, incoming, outgoing, both, allowed}
use ether_memories.Graph.Neighbors.{other_end, nearby, visit_from}
use ether_memories.Graph.Neighbors.Near.{IsNear, seed, step}
use ether_memories.Graph.Neighbors.Exact.{visit_from-IsNear}

-- Along the edge, in the direction that is asked for, a step leads from `n` to `m`.
abbrev pub Leads : Direction → GraphEdge → Text → Text → Type 0
Leads outgoing e n m = (e.source ≡ n) × (e.target ≡ m)
Leads incoming e n m = (e.target ≡ n) × (e.source ≡ m)
Leads both e n m = ((e.source ≡ n) × (e.target ≡ m)) ⊎ ((e.target ≡ n) × (e.source ≡ m))

-- There is no list of relationships, or that of the edge is in it; `related_to` stands for none.
abbrev pub IsAllowed : Option (List Text) → GraphEdge → Type 0
IsAllowed none e = Unit
IsAllowed (some list) e = includes list (or_default e.attributes.relationship related_to) ≡ true

-- The edge begins where a search in this direction leaves `n`.
abbrev Meets : Direction → GraphEdge → Text → Type 0
Meets outgoing e n = e.source ≡ n
Meets incoming e n = e.target ≡ n
Meets both e n = (e.source ≡ n) ⊎ (e.target ≡ n)

allowed-IsAllowed :
    (list : Option (List Text)) (e : GraphEdge)
    → (allowed list (shown_edge e) ≡ true) ↔ IsAllowed list e
allowed-IsAllowed none e = (λ h. tt, λ h. refl)
allowed-IsAllowed (some list) e = (λ h. h, λ h. h)

other_end-out : (e : GraphEdge) (n : Text) → e.source ≡ n → other_end n (shown_edge e) ≡ e.target
other_end-out e n h = rw ((same_iff e.source n).1 h) refl

other_end-in : (e : GraphEdge) (n : Text) → e.target ≡ n → other_end n (shown_edge e) ≡ e.source
other_end-in e n h = elim (Bool-cases (same e.source n)) [
  | inl loop ↦ rw loop (h ∙ sym ((same_iff e.source n).0 loop))
  | inr away ↦ rw away refl
]

Leads-Meets :
    (direction : Direction) (e : GraphEdge) (n m : Text)
    → Leads direction e n m
    → Meets direction e n × (other_end n (shown_edge e) ≡ m)
Leads-Meets outgoing e n m h = (h.0, other_end-out e n h.0 ∙ h.1)
Leads-Meets incoming e n m h = (h.0, other_end-in e n h.0 ∙ h.1)
Leads-Meets both e n m (inl h) = (inl h.0, other_end-out e n h.0 ∙ h.1)
Leads-Meets both e n m (inr h) = (inr h.0, other_end-in e n h.0 ∙ h.1)

Meets-Leads :
    (direction : Direction) (e : GraphEdge) (n m : Text)
    → Meets direction e n
    → other_end n (shown_edge e) ≡ m
    → Leads direction e n m
Meets-Leads outgoing e n m h end = (h, sym (other_end-out e n h) ∙ end)
Meets-Leads incoming e n m h end = (h, sym (other_end-in e n h) ∙ end)
Meets-Leads both e n m (inl h) end = inl (h, sym (other_end-out e n h) ∙ end)
Meets-Leads both e n m (inr h) end = inr (h, sym (other_end-in e n h) ∙ end)

module _ (pkg : GraphPackage) (laws : GraphLaws pkg) (g : pkg.Graph) where
  abbrev IsEdge : GraphEdge → Type 0
  IsEdge e = Some (λ f. f ≡ e) (pkg.edges g)

  -- What is kept of the edges are edges that pass the test.
  kept_edges : (p : GraphEdge → Bool) → All (λ e. IsEdge e × (p e ≡ true)) (keep p (pkg.edges g))
  kept_edges p =
      All-zip IsEdge (λ e. p e ≡ true) (λ e. IsEdge e × (p e ≡ true)) (λ e a b. (a, b))
        (keep p (pkg.edges g)) (All-keep IsEdge p (pkg.edges g) (All-self (pkg.edges g)))
        (All-keep_self p (pkg.edges g))

  out_edges-are : (n : Text) → All (λ e. IsEdge e × (e.source ≡ n)) (pkg.out_edges g n)
  out_edges-are n = (laws.All-out (λ e. IsEdge e × (e.source ≡ n)) g n).0 (
      All-imp (λ e. IsEdge e × (same e.source n ≡ true)) (λ e. IsEdge e × (e.source ≡ n))
        (λ e h. (h.0, (same_iff e.source n).0 h.1)) _ (kept_edges (λ e. same e.source n)))

  in_edges-are : (n : Text) → All (λ e. IsEdge e × (e.target ≡ n)) (pkg.in_edges g n)
  in_edges-are n = (laws.All-in (λ e. IsEdge e × (e.target ≡ n)) g n).0 (
      All-imp (λ e. IsEdge e × (same e.target n ≡ true)) (λ e. IsEdge e × (e.target ≡ n))
        (λ e h. (h.0, (same_iff e.target n).0 h.1)) _ (kept_edges (λ e. same e.target n)))

  in_out_edges : (e : GraphEdge) → IsEdge e → Some (λ f. f ≡ e) (pkg.out_edges g e.source)
  in_out_edges e h =
      All-Some (λ f. Some (λ d. d ≡ f) (pkg.out_edges g e.source)) _ e
        ((laws.All-out (λ f. Some (λ d. d ≡ f) (pkg.out_edges g e.source)) g e.source).1
          (All-self (pkg.out_edges g e.source)))
        (Some-keep (λ f. same f.source e.source) (pkg.edges g) e h (same_refl e.source))

  in_in_edges : (e : GraphEdge) → IsEdge e → Some (λ f. f ≡ e) (pkg.in_edges g e.target)
  in_in_edges e h =
      All-Some (λ f. Some (λ d. d ≡ f) (pkg.in_edges g e.target)) _ e
        ((laws.All-in (λ f. Some (λ d. d ≡ f) (pkg.in_edges g e.target)) g e.target).1
          (All-self (pkg.in_edges g e.target)))
        (Some-keep (λ f. same f.target e.target) (pkg.edges g) e h (same_refl e.target))

  -- What an edge that is met at `n` says of the graph.
  abbrev pub IsMet : Direction → Option (List Text) → Text → MindGraphEdge → Type 0
  IsMet direction list n f =
      (e : GraphEdge) × (shown_edge e ≡ f) × IsEdge e × Meets direction e n × IsAllowed list e

  module _ (direction : Direction) (list : Option (List Text)) where
    met :
        (n : Text) (es : List GraphEdge)
        → All (λ e. IsEdge e × Meets direction e n) es
        → All (IsMet direction list n) (keep (allowed list) (map shown_edge es))
    met n [] h = tt
    met n (e ∷ es) h = elim (Bool-cases (allowed list (shown_edge e))) [
      | inl fine ↦
          rw fine ((e, refl, h.0.0, h.0.1, (allowed-IsAllowed list e).0 fine), met n es h.1)
      | inr passed_over ↦ rw passed_over (met n es h.1)
    ]

    is_near_by :
        (n : Text) (e : GraphEdge) (es : List GraphEdge)
        → Some (λ f. f ≡ e) es
        → IsAllowed list e
        → Some (λ f. f ≡ shown_edge e) (keep (allowed list) (map shown_edge es))
    is_near_by n e es there_ fine =
        Some-keep (allowed list) (map shown_edge es) (shown_edge e)
          (Some-map shown_edge es e there_) ((allowed-IsAllowed list e).1 fine)

  pub nearby-IsMet :
      (direction : Direction) (list : Option (List Text)) (n : Text)
      → All (IsMet direction list n) (nearby direction pkg list g n)
  unfolding nearby
  nearby-IsMet incoming list n = met incoming list n (pkg.in_edges g n) (in_edges-are n)
  nearby-IsMet outgoing list n = met outgoing list n (pkg.out_edges g n) (out_edges-are n)
  nearby-IsMet both list n = met both list n (pkg.out_edges g n ++ pkg.in_edges g n) (
      All-append (λ e. IsEdge e × Meets both e n) (pkg.out_edges g n) (pkg.in_edges g n)
        (All-imp (λ e. IsEdge e × (e.source ≡ n)) (λ e. IsEdge e × Meets both e n)
          (λ e h. (h.0, inl h.1)) (pkg.out_edges g n) (out_edges-are n))
        (All-imp (λ e. IsEdge e × (e.target ≡ n)) (λ e. IsEdge e × Meets both e n)
          (λ e h. (h.0, inr h.1)) (pkg.in_edges g n) (in_edges-are n)))

  in_nearby :
      (direction : Direction) (list : Option (List Text)) (n : Text) (e : GraphEdge)
      → IsEdge e
      → Meets direction e n
      → IsAllowed list e
      → Some (λ f. f ≡ shown_edge e) (nearby direction pkg list g n)
  unfolding nearby
  in_nearby incoming list n e h meets fine =
      is_near_by incoming list n e (pkg.in_edges g n)
        (subst (λ k. Some (λ f. f ≡ e) (pkg.in_edges g k)) meets (in_in_edges e h)) fine
  in_nearby outgoing list n e h meets fine =
      is_near_by outgoing list n e (pkg.out_edges g n)
        (subst (λ k. Some (λ f. f ≡ e) (pkg.out_edges g k)) meets (in_out_edges e h)) fine
  in_nearby both list n e h (inl meets) fine =
      is_near_by both list n e (pkg.out_edges g n ++ pkg.in_edges g n)
        (Some-append-left (pkg.out_edges g n) (pkg.in_edges g n)
          (subst (λ k. Some (λ f. f ≡ e) (pkg.out_edges g k)) meets (in_out_edges e h)))
        fine
  in_nearby both list n e h (inr meets) fine =
      is_near_by both list n e (pkg.out_edges g n ++ pkg.in_edges g n)
        (Some-append-right (pkg.out_edges g n) (pkg.in_edges g n)
          (subst (λ k. Some (λ f. f ≡ e) (pkg.in_edges g k)) meets (in_in_edges e h)))
        fine

-- At most `k` allowed edges of the graph lead from the seed to the node, each followed in the
-- direction that is asked for.
pub data IsWithin (pkg : GraphPackage) (direction : Direction) (list : Option (List Text))
    (g : pkg.Graph) (id : Text) : ℕ → Text → Type 0 where
  start : (k : ℕ) → IsWithin pkg direction list g id k id
  along :
      {k : ℕ} {n m : Text} (e : GraphEdge)
      → IsWithin pkg direction list g id k n
      → Some (λ f. f ≡ e) (pkg.edges g)
      → IsAllowed list e
      → Leads direction e n m
      → IsWithin pkg direction list g id (suc k) m

module _ (pkg : GraphPackage) (laws : GraphLaws pkg) (direction : Direction)
    (list : Option (List Text)) (g : pkg.Graph) (id : Text) where
  IsWithin-IsNear :
      {k : ℕ} {n : Text} → IsWithin pkg direction list g id k n → IsNear direction pkg list g id k n
  IsWithin-IsNear (start k) = seed k
  IsWithin-IsNear (along {n = n} {m = m} e before h fine leads) =
      let (meets, end) = Leads-Meets direction e n m leads in
      step (shown_edge e) (IsWithin-IsNear before)
        (in_nearby pkg laws g direction list n e h meets fine) end

  IsNear-IsWithin :
      {k : ℕ} {n : Text} → IsNear direction pkg list g id k n → IsWithin pkg direction list g id k n
  IsNear-IsWithin (seed k) = start k
  IsNear-IsWithin (step {n = n} {m = m} f before there_ end) =
      let (e, shown, h, meets, fine) =
        All-Some (IsMet pkg laws g direction list n) (nearby direction pkg list g n) f
          (nearby-IsMet pkg laws g direction list n) there_ in
      along e (IsNear-IsWithin before) h fine
        (Meets-Leads direction e n m meets (ap (other_end n) shown ∙ end))

  -- The search visits exactly the nodes within the depth.
  pub visit_from-IsWithin :
      (depth : ℕ) (n : Text)
      → (includes (visit_from pkg id depth list direction g).visited n ≡ true)
        ↔ IsWithin pkg direction list g id depth n
  visit_from-IsWithin depth n =
      let (seen, near) = visit_from-IsNear pkg id depth list direction g n in
      (λ h. IsNear-IsWithin (seen h), λ h. near (IsWithin-IsNear h))
