-- ===== src/Graph/Neighbors/Near.antt =====
-- What is near a node, and that `getNeighbors` visits only that.
use mathlib.Core.Path.{subst}
use ether_memories.Prelude.{
  ℕ, zero, suc, ◌+◌, ◌≡◌, inl, inr, refl, Option, List, [], ◌∷◌, All, Some, All-append, All-self,
  arith, Bool-cases,
}
use ether_memories.Text.{Text, includes, code_unit_compare}
use ether_memories.Sort.{sort, All-sort}
use ether_memories.Types.{MindGraphEdge}
use ether_memories.Graph.Package.{GraphPackage}
use ether_memories.Graph.Recall.{Direction}
use ether_memories.Graph.Neighbors.{Visit, other_end, visit, visit_all, nearby, expand, levels}

module _ (direction : Direction) (pkg : GraphPackage) (allowlist : Option (List Text))
    (g : pkg.Graph) (id : Text) where
  -- At most `k` allowed edges lead from the seed to the node.
  pub data IsNear : ℕ → Text → Type 0 where
    seed : (k : ℕ) → IsNear k id
    step :
        {k : ℕ} {n m : Text} (e : MindGraphEdge)
        → IsNear k n
        → Some (λ f. f ≡ e) (nearby direction pkg allowlist g n)
        → other_end n e ≡ m
        → IsNear (suc k) m

  IsNear-suc : {k : ℕ} {n : Text} → IsNear k n → IsNear (suc k) n
  IsNear-suc (seed k) = seed (suc k)
  IsNear-suc (step e near there_ end) = step e (IsNear-suc near) there_ end

  All-suc : (k : ℕ) (ns : List Text) → All (IsNear k) ns → All (IsNear (suc k)) ns
  All-suc k [] h = tt
  All-suc k (n ∷ ns) h = (IsNear-suc h.0, All-suc k ns h.1)

  -- All that was visited, and the next frontier, is near.
  abbrev AllNear : ℕ → Visit → Type 0
  AllNear k st = All (IsNear k) st.visited × All (IsNear k) st.next

  visit-AllNear :
      (k : ℕ) (n : Text) (e : MindGraphEdge) (st : Visit)
      → IsNear (suc k) (other_end n e)
      → AllNear (suc k) st
      → AllNear (suc k) (visit n e st)
  unfolding visit
  visit-AllNear k n e st near h = elim (Bool-cases (includes st.visited (other_end n e))) [
    | inl old ↦ rw old h
    | inr new ↦ rw new (
      All-append (IsNear (suc k)) st.visited (other_end n e ∷ []) h.0 (near, tt),
      All-append (IsNear (suc k)) st.next (other_end n e ∷ []) h.1 (near, tt),
    )
  ]

  visit_all-AllNear :
      (k : ℕ) (n : Text) (es : List MindGraphEdge) (st : Visit)
      → IsNear k n
      → All (λ e. Some (λ f. f ≡ e) (nearby direction pkg allowlist g n)) es
      → AllNear (suc k) st
      → AllNear (suc k) (visit_all n es st)
  unfolding visit_all
  visit_all-AllNear k n [] st near there_ h = h
  visit_all-AllNear k n (e ∷ es) st near there_ h =
      visit_all-AllNear k n es (visit n e st) near there_.1
        (visit-AllNear k n e st (step e near there_.0 refl) h)

  expand-AllNear :
      (k : ℕ) (frontier : List Text) (st : Visit)
      → All (IsNear k) frontier
      → AllNear (suc k) st
      → AllNear (suc k) (expand direction pkg allowlist g frontier st)
  unfolding expand
  expand-AllNear k [] st near h = h
  expand-AllNear k (n ∷ frontier) st near h =
      let edges = nearby direction pkg allowlist g n in
      expand-AllNear k frontier (visit_all n edges st) near.1
        (visit_all-AllNear k n edges st near.0 (All-self edges) h)

  pub levels-IsNear :
      (depth k total : ℕ) (frontier : List Text) (st : Visit)
      → k + depth ≡ total
      → All (IsNear k) frontier
      → All (IsNear k) st.visited
      → All (IsNear total) (levels direction pkg allowlist g depth frontier st).visited
  unfolding levels
  levels-IsNear zero k total frontier st sum near h =
      let same_k : k ≡ total = omega (arith, sum) in subst (λ j. All (IsNear j) st.visited) same_k h
  levels-IsNear (suc depth) k total frontier st sum near h =
      let sorted = sort code_unit_compare frontier in
      let cleared : Visit = record st { next = [] } in
      let st' = expand direction pkg allowlist g sorted cleared in
      let after =
        expand-AllNear k sorted cleared (All-sort code_unit_compare (IsNear k) frontier near)
          (All-suc k st.visited h, tt) in
      levels-IsNear depth (suc k) total st'.next st' (omega (arith, sum)) after.1 after.0
