-- ===== src/Retrieval/Query/Order.antt =====
-- The order of what `query` of src/core/MemoryRetriever.ts returns.
use mathlib.Core.Path.{subst}
use ether_memories.Prelude.{
  ℕ, ◌+◌, ◌≡◌, ◌≢◌, ◌≤◌, refl, Ordering, ap, ◌&&◌, some, List, [], take, arith, Bool-cases, inl,
  inr, or_default,
}
use ether_memories.Text.{Text}
use ether_memories.Text.Trim.{is_empty}
use ether_memories.OrderedMap.{values}
use ether_memories.Sort.{sort}
use ether_memories.Sort.Coarse.{Ordered, Ordered-take, IsCoarse, sort-Ordered}
use ether_memories.Tokenizer.{Runtime, normalize_phrase}
use ether_memories.Notes.{MemoryNotes}
use ether_memories.Diary.{DiarySystem}
use ether_memories.Graph.Package.{GraphPackage}
use ether_memories.Lexical.{LexicalIndex, ensure_fresh}
use ether_memories.Retrieval.{
  MatchClass, RetrievalMatch, QueryOptions, class_rank, compare_matches, is_nil,
}
use ether_memories.Retrieval.Query.{resolve_as_of, all_candidates, query, query_at}

-- The place of a class in the results: the explicit ids come first.
abbrev pub place_of : MatchClass → ℕ
place_of MatchClass.explicit_id = 0
place_of MatchClass.exact_phrase = 1
place_of MatchClass.full_token_match = 2
place_of MatchClass.partial_token_match = 3
place_of MatchClass.tag_metadata_match = 4
place_of MatchClass.graph_only = 5

-- The class of `a` comes no later than that of `b`.
abbrev pub ComesFirst : RetrievalMatch → RetrievalMatch → Type 0
ComesFirst a b = place_of a.match_class ≤ place_of b.match_class

class_rank-place_of : (c : MatchClass) → class_rank c + place_of c ≡ 6
class_rank-place_of MatchClass.explicit_id = refl
class_rank-place_of MatchClass.exact_phrase = refl
class_rank-place_of MatchClass.full_token_match = refl
class_rank-place_of MatchClass.partial_token_match = refl
class_rank-place_of MatchClass.tag_metadata_match = refl
class_rank-place_of MatchClass.graph_only = refl

-- The comparator goes by the ranks first, the higher one before the lower.
compare_matches-rank :
    (a b : RetrievalMatch)
    → (compare_matches a b ≢ Ordering.gt → class_rank b.match_class ≤ class_rank a.match_class)
      × (compare_matches a b ≡ Ordering.gt → class_rank a.match_class ≤ class_rank b.match_class)
unfolding compare_matches
compare_matches-rank a b = (λ h. ground arith, λ h. ground arith)

compare_matches-IsCoarse : IsCoarse compare_matches ComesFirst
compare_matches-IsCoarse = record {
  forward = λ x y h. omega (
    arith,
    (compare_matches-rank x y).0 h,
    class_rank-place_of x.match_class,
    class_rank-place_of y.match_class,
  );
  backward = λ x y h. omega (
    arith,
    (compare_matches-rank x y).1 h,
    class_rank-place_of x.match_class,
    class_rank-place_of y.match_class,
  );
  trans = λ x y z h k. omega arith;
}

query_at-Ordered :
    (runtime : Runtime) (pkg : GraphPackage) (text : Text) (options : QueryOptions) (as_of : ℕ)
    (s : MemoryNotes) (d : DiarySystem) (g : pkg.Graph) (ix : LexicalIndex)
    (matches : List RetrievalMatch)
    → (query_at runtime pkg text options (some as_of) s d g ix).0 ≡ some matches
    → Ordered ComesFirst matches
unfolding query_at
query_at-Ordered runtime pkg text options as_of s d g ix matches found =
    let fresh = ensure_fresh runtime s d ix in
    let found_all = values (all_candidates runtime options as_of pkg g text s fresh.notes) in
    let sorted = sort compare_matches found_all in
    let limit = or_default options.limit 50 in
    elim (Bool-cases
      (is_empty (normalize_phrase runtime text) && is_nil (or_default options.explicit_ids []))) [
        | inl nothing_asked ↦
            let none_found : [] ≡ matches = ap (λ o. or_default o []) (rw nothing_asked at found) in
            subst (Ordered ComesFirst) none_found tt
        | inr asked ↦
            let these : take limit sorted ≡ matches =
              ap (λ o. or_default o []) (rw asked at found) in
            subst (Ordered ComesFirst) these (
              Ordered-take ComesFirst limit sorted
                (sort-Ordered compare_matches ComesFirst compare_matches-IsCoarse found_all))
      ]

-- The matches of a query whose date is accepted stand in the order of their classes: explicit ids,
-- exact phrases, full and partial token matches, tags and metadata, and what only the graph led to.
pub query_by_class :
    (runtime : Runtime) (pkg : GraphPackage) (text : Text) (options : QueryOptions) (now as_of : ℕ)
    (s : MemoryNotes) (d : DiarySystem) (g : pkg.Graph) (ix : LexicalIndex)
    (matches : List RetrievalMatch)
    → resolve_as_of now options.as_of ≡ some as_of
    → (query runtime pkg text options now s d g ix).0 ≡ some matches
    → Ordered ComesFirst matches
unfolding query
query_by_class runtime pkg text options now as_of s d g ix matches date found =
    query_at-Ordered runtime pkg text options as_of s d g ix matches (rw date at found)
