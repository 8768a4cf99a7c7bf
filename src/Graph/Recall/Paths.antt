-- ===== src/Graph/Recall/Paths.antt =====
-- The paths of `getRecallNeighbors`: chains of allowed edges from the seed, no longer than the
-- depth, where the graph has no self-loop.
use ether_memories.Prelude.{
  ℕ, suc, ◌≤◌, ◌≡◌, ◌≢◌, true, Option, List, [], ◌∷◌, ◌++◌, length, All, Some,
}
use ether_memories.Text.{Text, includes}
use ether_memories.OrderedMap
use ether_memories.OrderedMap.{Map}
use ether_memories.Types.{MindGraphEdge}
use ether_memories.Graph.Package.{GraphPackage}
use ether_memories.Graph.Recall.{Recall, Direction, candidates, neighbor, path_to}

module _ (max : ℕ) (direction : Direction) (pkg : GraphPackage) (allowlist : Option (List Text))
    (g : pkg.Graph) (id : Text) where
  -- A chain of candidate edges from the seed.
  pub data IsPath : Text → List MindGraphEdge → Type 0 where
    seed : IsPath id []
    step :
        {n m : Text} {p q : List MindGraphEdge} (e : MindGraphEdge)
        → IsPath n p
        → Some (λ f. f ≡ e) (candidates max direction pkg allowlist g n)
        → neighbor direction n e ≡ m
        → q ≡ p ++ e ∷ []
        → IsPath m q

  -- A recorded path to a node of the frontier, or of the next one.
  abbrev Reached : ℕ → Recall → Text → Type 0
  Reached level st n = IsPath n (path_to st n) × (length (path_to st n) ≡ level)

  record AtLevel (level : ℕ) (frontier : List Text) (st : Recall) : Type 0 where
    on_frontier : (n : Text) → includes frontier n ≡ true → Reached level st n
    on_next : (n : Text) → includes st.next n ≡ true → Reached (suc level) st n
    recorded : All (λ e. IsPath e.0 e.1 × (length e.1 ≤ suc level)) st.paths

  module _ (level : ℕ) (frontier : List Text)
      (origin : level ≡ 0 → (n : Text) → includes frontier n ≡ true → n ≡ id) where
    -- What the loops need of a candidate: that it stands there, and leads elsewhere.
    abbrev Leads : Text → MindGraphEdge → Type 0
    Leads n e =
        Some (λ f. f ≡ e) (candidates max direction pkg allowlist g n)
        × (neighbor direction n e ≢ n)

  abbrev NoWayBack : Type 0
  NoWayBack =
      (n : Text)
      → All (λ e. neighbor direction n e ≢ n) (candidates max direction pkg allowlist g n)
