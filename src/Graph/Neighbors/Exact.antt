-- ===== src/Graph/Neighbors/Exact.antt =====
-- The search of `getNeighbors` against a description of what is near.
use mathlib.Core.Path.{subst}
use ether_memories.Prelude.{
  All-imp, ℕ, zero, suc, ◌+◌, ◌≡◌, ◌↔◌, ◌⊎◌, inl, inr, refl, sym, ap, ◌∙◌, true, ◌||◌, Ordering,
  Option, List, [], ◌∷◌, All, All-Some, arith, Bool-cases,
}
use ether_memories.Text.{
  Text, same, same_iff, same_refl, includes, includes-snoc, code_unit_compare,
}
use ether_memories.Sort.{place, insert, sort}
use ether_memories.Types.{MindGraphEdge}
use ether_memories.Graph.Package.{GraphPackage}
use ether_memories.Graph.Recall.{Direction}
use ether_memories.Graph.Neighbors.{
  Visit, other_end, visit, visit_all, nearby, expand, levels, from_seed, visit_from,
}
use ether_memories.Graph.Neighbors.Near.{IsNear, seed, step, levels-IsNear}

includes-insert :
    (x : Text) (xs : List Text) (n : Text)
    → includes (insert code_unit_compare x xs) n ≡ (same x n || includes xs n)
unfolding insert includes
includes-insert x [] n = refl
includes-insert x (y ∷ ys) n =
    let later = includes-insert x ys n in
    elim (code_unit_compare x y)
      as (λ o.
        includes (place o x y ys (insert code_unit_compare x ys)) n
        ≡ (same x n || (same y n || includes ys n))) [
          | Ordering.gt ↦ ground (arith, later)
          | _ ↦ ground arith
        ]

pub includes-sort :
    (xs : List Text) (n : Text) → includes (sort code_unit_compare xs) n ≡ includes xs n
unfolding sort includes
includes-sort [] n = refl
includes-sort (x ∷ xs) n =
    includes-insert x (sort code_unit_compare xs) n ∙ ap (λ b. same x n || b) (includes-sort xs n)

All-includes :
    (P : Text → Type 0) (xs : List Text) (n : Text) → All P xs → includes xs n ≡ true → P n
unfolding includes
All-includes P [] n h e = ground arith
All-includes P (x ∷ xs) n h e = elim (Bool-cases (same x n)) [
  | inl at_once ↦ subst P ((same_iff x n).0 at_once) h.0
  | inr later ↦ All-includes P xs n h.1 (rw later at e)
]

module _ (direction : Direction) (pkg : GraphPackage) (allowlist : Option (List Text))
    (g : pkg.Graph) where
  -- Every edge near `n` leads to a visited node.
  abbrev Closed : List Text → Text → Type 0
  Closed visited n =
      All (λ e. includes visited (other_end n e) ≡ true) (nearby direction pkg allowlist g n)

  Closed-grows :
      (xs ys : List Text) (n : Text)
      → ((m : Text) → includes xs m ≡ true → includes ys m ≡ true)
      → Closed xs n
      → Closed ys n
  Closed-grows xs ys n grows h =
      All-imp (λ e. includes xs (other_end n e) ≡ true) (λ e. includes ys (other_end n e) ≡ true)
        (λ e. grows (other_end n e)) (nearby direction pkg allowlist g n) h

  -- From `s` to `t` nothing visited is lost, and what is new is on the next frontier.
  record Grows (s t : Visit) : Type 0 where
    kept : (n : Text) → includes s.visited n ≡ true → includes t.visited n ≡ true
    fresh :
        (n : Text)
        → includes t.visited n ≡ true
        → (includes s.visited n ≡ true) ⊎ (includes t.next n ≡ true)
    waiting : (n : Text) → includes s.next n ≡ true → includes t.next n ≡ true

  Grows-refl : (s : Visit) → Grows s s
  Grows-refl s = record { kept = λ n h. h; fresh = λ n h. inl h; waiting = λ n h. h }

  Grows-trans : (s t u : Visit) → Grows s t → Grows t u → Grows s u
  Grows-trans s t u a b = record {
    kept = λ n h. b.kept n (a.kept n h);
    fresh = λ n h. elim (b.fresh n h) [
      | inl old ↦ elim (a.fresh n old) [ inl older ↦ inl older | inr new ↦ inr (b.waiting n new) ]
      | inr new ↦ inr new
    ];
    waiting = λ n h. b.waiting n (a.waiting n h);
  }

  visit-Grows : (n : Text) (e : MindGraphEdge) (st : Visit) → Grows st (visit n e st)
  unfolding visit
  visit-Grows n e st = elim (Bool-cases (includes st.visited (other_end n e))) [
    | inl old ↦ rw old (record { kept = λ m h. h; fresh = λ m h. inl h; waiting = λ m h. h })
    | inr new ↦ rw new (record {
      kept = λ m h. ground (arith, includes-snoc st.visited (other_end n e) m);
      fresh = λ m h. ground (
        arith,
        includes-snoc st.visited (other_end n e) m,
        includes-snoc st.next (other_end n e) m,
      );
      waiting = λ m h. ground (arith, includes-snoc st.next (other_end n e) m);
    })
  ]

  visit-visits :
      (n : Text) (e : MindGraphEdge) (st : Visit)
      → includes (visit n e st).visited (other_end n e) ≡ true
  unfolding visit
  visit-visits n e st = elim (Bool-cases (includes st.visited (other_end n e))) [
    | inl old ↦ rw old old
    | inr new ↦ rw new (
        ground (
          arith,
          includes-snoc st.visited (other_end n e) (other_end n e),
          same_refl (other_end n e),
        ))
  ]

  visit_all-Grows : (n : Text) (es : List MindGraphEdge) (st : Visit) → Grows st (visit_all n es st)
  unfolding visit_all
  visit_all-Grows n [] st = Grows-refl st
  visit_all-Grows n (e ∷ es) st =
      Grows-trans st (visit n e st) (visit_all n es (visit n e st)) (visit-Grows n e st)
        (visit_all-Grows n es (visit n e st))

  visit_all-visits :
      (n : Text) (es : List MindGraphEdge) (st : Visit)
      → All (λ e. includes (visit_all n es st).visited (other_end n e) ≡ true) es
  unfolding visit_all
  visit_all-visits n [] st = tt
  visit_all-visits n (e ∷ es) st = (
    (visit_all-Grows n es (visit n e st)).kept (other_end n e) (visit-visits n e st),
    visit_all-visits n es (visit n e st),
  )

  expand-Grows :
      (frontier : List Text) (st : Visit) → Grows st (expand direction pkg allowlist g frontier st)
  unfolding expand
  expand-Grows [] st = Grows-refl st
  expand-Grows (n ∷ frontier) st =
      let st' = visit_all n (nearby direction pkg allowlist g n) st in
      Grows-trans st st' (expand direction pkg allowlist g frontier st')
        (visit_all-Grows n (nearby direction pkg allowlist g n) st) (expand-Grows frontier st')

  -- Every node that a level expands is closed after it.
  expand-Closed :
      (frontier : List Text) (st : Visit) (n : Text)
      → includes frontier n ≡ true
      → Closed (expand direction pkg allowlist g frontier st).visited n
  unfolding expand includes
  expand-Closed [] st n h = ground arith
  expand-Closed (m ∷ frontier) st n h =
      let edges = nearby direction pkg allowlist g m in
      let st' = visit_all m edges st in
      let last = expand direction pkg allowlist g frontier st' in
      elim (Bool-cases (same m n)) [
        | inl here_ ↦ subst (Closed last.visited) ((same_iff m n).0 here_) (
            Closed-grows st'.visited last.visited m (expand-Grows frontier st').kept
              (visit_all-visits m edges st))
        | inr later ↦ expand-Closed frontier st' n (rw later at h)
      ]

module _ (direction : Direction) (pkg : GraphPackage) (allowlist : Option (List Text))
    (g : pkg.Graph) (id : Text) where
  -- After `k` levels: what is near is visited, and a visited node is on the frontier or closed.
  record Covers (k : ℕ) (frontier : List Text) (visited : List Text) : Type 0 where
    near : (n : Text) → IsNear direction pkg allowlist g id k n → includes visited n ≡ true
    open_or_closed :
        (n : Text)
        → includes visited n ≡ true
        → (includes frontier n ≡ true) ⊎ Closed direction pkg allowlist g visited n

  near_visited :
      (k : ℕ) (xs ys : List Text) (n : Text)
      → includes xs id ≡ true
      → ((m : Text) → IsNear direction pkg allowlist g id k m → includes xs m ≡ true)
      → ((m : Text) → includes xs m ≡ true → Closed direction pkg allowlist g ys m)
      → ((m : Text) → includes xs m ≡ true → includes ys m ≡ true)
      → IsNear direction pkg allowlist g id (suc k) n
      → includes ys n ≡ true
  near_visited k xs ys n start near closed kept (seed j) = kept id start
  near_visited k xs ys n start near closed kept (step {n = p} e before there_ end) =
      let all_seen = closed p (near p before) in
      ap (includes ys) (sym end)
      ∙ All-Some (λ f. includes ys (other_end p f) ≡ true) (nearby direction pkg allowlist g p) e
          all_seen there_

  -- One level.
  level-Covers :
      (k : ℕ) (frontier : List Text) (st : Visit)
      → includes st.visited id ≡ true
      → Covers k frontier st.visited
      → Covers
          (suc k)
          (expand direction pkg allowlist g
            (sort code_unit_compare frontier)
            (record st { next = [] })).next
          (expand direction pkg allowlist g
            (sort code_unit_compare frontier)
            (record st { next = [] })).visited
  level-Covers k frontier st start c =
      let sorted = sort code_unit_compare frontier in
      let cleared : Visit = record st { next = [] } in
      let st' = expand direction pkg allowlist g sorted cleared in
      let grows = expand-Grows direction pkg allowlist g sorted cleared in
      let closed : (n : Text)
          → includes st.visited n ≡ true
          → Closed direction pkg allowlist g st'.visited n =
        λ n old. elim (c.open_or_closed n old) [
          | inl waits ↦
              expand-Closed direction pkg allowlist g sorted cleared n
                (includes-sort frontier n ∙ waits)
          | inr done ↦
              Closed-grows direction pkg allowlist g st.visited st'.visited n grows.kept done
        ] in
      record {
        near =
            λ n near. near_visited k st.visited st'.visited n start c.near closed grows.kept near;
        open_or_closed = λ n seen. elim (grows.fresh n seen) [
          | inl old ↦ inr (closed n old)
          | inr new ↦ inl new
        ];
      }

  levels-near :
      (depth k total : ℕ) (frontier : List Text) (st : Visit)
      → k + depth ≡ total
      → includes st.visited id ≡ true
      → Covers k frontier st.visited
      → (n : Text) → IsNear direction pkg allowlist g id total n
      → includes (levels direction pkg allowlist g depth frontier st).visited n ≡ true
  unfolding levels
  levels-near zero k total frontier st sum start c n near =
      let same_k : total ≡ k = omega (arith, sum) in
      c.near n (subst (λ j. IsNear direction pkg allowlist g id j n) same_k near)
  levels-near (suc depth) k total frontier st sum start c n near =
      let sorted = sort code_unit_compare frontier in
      let cleared : Visit = record st { next = [] } in
      let st' = expand direction pkg allowlist g sorted cleared in
      let grows = expand-Grows direction pkg allowlist g sorted cleared in
      levels-near depth (suc k) total st'.next st' (omega (arith, sum)) (grows.kept id start)
        (level-Covers k frontier st start c) n near

-- The search visits exactly what is near the seed.
pub visit_from-IsNear :
    (pkg : GraphPackage) (id : Text) (depth : ℕ) (allowlist : Option (List Text))
    (direction : Direction) (g : pkg.Graph) (n : Text)
    → (includes (visit_from pkg id depth allowlist direction g).visited n ≡ true)
      ↔ IsNear direction pkg allowlist g id depth n
unfolding visit_from includes
visit_from-IsNear pkg id depth allowlist direction g n =
    let near_seed : All (IsNear direction pkg allowlist g id 0) (id ∷ []) = (seed 0, tt) in
    let at_start : includes (id ∷ []) id ≡ true = ground (arith, same_refl id) in
    (
      λ seen.
          All-includes (IsNear direction pkg allowlist g id depth)
            (visit_from pkg id depth allowlist direction g).visited n
            (levels-IsNear direction pkg allowlist g id depth 0 depth (id ∷ []) (from_seed id)
              (omega arith) near_seed near_seed)
            seen,
      λ near.
          levels-near direction pkg allowlist g id depth 0 depth (id ∷ []) (from_seed id)
            (omega arith) at_start
            (record { near = λ m h. only_seed m h; open_or_closed = λ m h. inl h }) n near,
    )
  where
    only_seed : (m : Text) → IsNear direction pkg allowlist g id 0 m → includes (id ∷ []) m ≡ true
    only_seed m (seed k) = ground (arith, same_refl id)
