-- ===== src/Retrieval/Query/Once.antt =====
-- A `query` of src/core/MemoryRetriever.ts finds no memory twice.
use mathlib.Core.Path.{subst}
use ether_memories.Prelude.{
  ℕ, ◌≡◌, ◌≢◌, inl, inr, sym, ap, ◌∙◌, Bool, true, false, not, ◌&&◌, ◌||◌, Option, none, some, List,
  [], ◌∷◌, map, All, All-imp, length, take, arith, Bool-cases, if◌then◌else◌, or_default, ltb, ◌==◌,
}
use ether_memories.Text.{Text, same, same_refl, includes, units}
use ether_memories.Text.Trim.{is_empty}
use ether_memories.OrderedMap
use ether_memories.OrderedMap.{Map, IsDistinct, values}
use ether_memories.OrderedMap.Laws.{IsDistinct-set}
use ether_memories.Sort.{sort}
use ether_memories.Sort.Coarse.{Ordered, Ordered-take, sort-kept}
use ether_memories.Types.{MemoryNote, MindGraphEdge, MindGraphNode}
use ether_memories.Tokenizer.{Runtime, tokenize, normalize_phrase}
use ether_memories.Notes.{MemoryNotes}
use ether_memories.Diary.{DiarySystem}
use ether_memories.Graph.Package.{GraphPackage}
use ether_memories.Graph.Recall.{Direction, both, get_recall_neighbors}
use ether_memories.Linker.{memory_node}
use ether_memories.Lexical.{LexicalDocument, LexicalIndex, ensure_fresh}
use ether_memories.Retrieval.{
  RetrievalMatch, QueryOptions, GraphRecall, Lexical, compare_matches, passes, is_nil,
}
use ether_memories.Retrieval.Query.{
  resolve_as_of, keep_better, notes_by_id, see_explicit, see_explicit_ids, see_class, see_document,
  see_notes, see_path, see_nodes, see_seeds, recall_from, all_candidates, query, query_at,
  is_better, after_prefix, capped_depth,
}
use ether_memories.Retrieval.Query.Results.{IsShown, all_candidates-IsShown}

IsDistinct-if :
    (b : Bool) (m n : Map RetrievalMatch)
    → IsDistinct m
    → IsDistinct n
    → IsDistinct (if b then m else n)
IsDistinct-if true m n hm hn = hm
IsDistinct-if false m n hm hn = hn

keep_better-IsDistinct :
    (id : Text) (c : RetrievalMatch) (m : Map RetrievalMatch) (old : Option RetrievalMatch)
    → IsDistinct m
    → IsDistinct (keep_better id c m old)
unfolding keep_better
keep_better-IsDistinct id c m none h = IsDistinct-set id c m h
keep_better-IsDistinct id c m (some existing) h =
    IsDistinct-if (is_better (compare_matches c existing)) _ m (IsDistinct-set id c m h) h

module _ (runtime : Runtime) (options : QueryOptions) (as_of : ℕ) where
  see_explicit_ids-IsDistinct :
      (ids : List Text) (notes : Map MemoryNote) (m : Map RetrievalMatch)
      → IsDistinct m
      → IsDistinct (see_explicit_ids runtime options as_of ids notes m)
  unfolding see_explicit_ids see_explicit
  see_explicit_ids-IsDistinct [] notes m h = h
  see_explicit_ids-IsDistinct (id ∷ ids) notes m h =
      see_explicit_ids-IsDistinct ids notes _ (one (OrderedMap.get id notes))
    where
      one : (found : Option MemoryNote) → IsDistinct (see_explicit runtime options as_of id found m)
      one none = h
      one (some note) = IsDistinct-if (passes note options as_of) _ m (IsDistinct-set id _ m h) h

  see_document-IsDistinct :
      (tokens : List Text) (note : MemoryNote) (document : Option LexicalDocument)
      (m : Map RetrievalMatch)
      → IsDistinct m
      → IsDistinct (see_document runtime options as_of tokens note document m)
  unfolding see_document see_class
  see_document-IsDistinct tokens note none m h = h
  see_document-IsDistinct tokens note (some d) m h = IsDistinct-if (is_nil tokens) m _ h (one _)
    where
      one : (found : Option Lexical) → IsDistinct (see_class runtime options as_of note found m)
      one none = h
      one (some found) = keep_better-IsDistinct note.id _ m (OrderedMap.get note.id m) h

  see_notes-IsDistinct :
      (tokens : List Text) (notes : List MemoryNote) (documents : Map LexicalDocument)
      (m : Map RetrievalMatch)
      → IsDistinct m
      → IsDistinct (see_notes runtime options as_of tokens notes documents m)
  unfolding see_notes
  see_notes-IsDistinct tokens [] documents m h = h
  see_notes-IsDistinct tokens (note ∷ notes) documents m h =
      see_notes-IsDistinct tokens notes documents _ (
        IsDistinct-if (passes note options as_of) _ m
          (see_document-IsDistinct tokens note (OrderedMap.get note.id documents) m h) h)

  see_path-IsDistinct :
      (seed : RetrievalMatch) (depth : ℕ) (direction : Direction) (id : Text)
      (found : Option MemoryNote) (path : Option (List MindGraphEdge)) (m : Map RetrievalMatch)
      → IsDistinct m
      → IsDistinct (see_path runtime options as_of seed depth direction id found path m)
  unfolding see_path
  see_path-IsDistinct seed depth direction id none path m h = h
  see_path-IsDistinct seed depth direction id (some note) none m h = h
  see_path-IsDistinct seed depth direction id (some note) (some path) m h =
      IsDistinct-if (not (passes note options as_of) || ltb depth (length path) || length path == 0)
        m _ h (keep_better-IsDistinct id _ m (OrderedMap.get id m) h)

  see_nodes-IsDistinct :
      (seed : RetrievalMatch) (depth : ℕ) (direction : Direction) (direct_ids : List Text)
      (notes : Map MemoryNote) (paths : Map (List MindGraphEdge)) (nodes : List MindGraphNode)
      (m : Map RetrievalMatch)
      → IsDistinct m
      → IsDistinct
          (see_nodes runtime options as_of seed depth direction direct_ids notes paths nodes m)
  unfolding see_nodes
  see_nodes-IsDistinct seed depth direction direct_ids notes paths [] m h = h
  see_nodes-IsDistinct seed depth direction direct_ids notes paths (node ∷ nodes) m h =
      let id = after_prefix (units "memory:") node.id in
      see_nodes-IsDistinct seed depth direction direct_ids notes paths nodes _ (
        IsDistinct-if (is_empty id || includes direct_ids id) m _ h (
          see_path-IsDistinct seed depth direction id (OrderedMap.get id notes)
            (OrderedMap.get node.id paths) m h))

  module _ (pkg : GraphPackage) (g : pkg.Graph) where
    see_seeds-IsDistinct :
        (cfg : GraphRecall) (depth : ℕ) (seeds : List RetrievalMatch) (direct_ids : List Text)
        (notes : Map MemoryNote) (m : Map RetrievalMatch)
        → IsDistinct m
        → IsDistinct (see_seeds runtime options as_of pkg g cfg depth seeds direct_ids notes m)
    unfolding see_seeds
    see_seeds-IsDistinct cfg depth [] direct_ids notes m h = h
    see_seeds-IsDistinct cfg depth (seed ∷ seeds) direct_ids notes m h =
        let direction = or_default cfg.direction both in
        let slice =
          get_recall_neighbors pkg (memory_node seed.memory.id) depth (or_default cfg.max_results 8)
            cfg.relation_allowlist direction g in
        see_seeds-IsDistinct cfg depth seeds direct_ids notes _
          (see_nodes-IsDistinct seed depth direction direct_ids notes slice.paths slice.nodes m h)

    recall_from-IsDistinct :
        (cfg : Option GraphRecall) (notes : Map MemoryNote) (m : Map RetrievalMatch)
        → IsDistinct m
        → IsDistinct (recall_from runtime options as_of pkg g cfg notes m)
    unfolding recall_from
    recall_from-IsDistinct none notes m h = h
    recall_from-IsDistinct (some cfg) notes m h =
        let direct = values m in
        let seeds = take (or_default options.limit 50) (sort compare_matches direct) in
        let depth = capped_depth runtime options as_of pkg g cfg.depth in
        IsDistinct-if cfg.enabled _ m
          (see_seeds-IsDistinct cfg depth seeds (map (λ d. d.memory.id) direct) notes m h) h

    all_candidates-IsDistinct :
        (text : Text) (s : MemoryNotes) (documents : Map LexicalDocument)
        → IsDistinct (all_candidates runtime options as_of pkg g text s documents)
    unfolding all_candidates
    all_candidates-IsDistinct text s documents =
        let notes = notes_by_id s in
        let ids = or_default options.explicit_ids [] in
        let explicit = see_explicit_ids runtime options as_of ids notes [] in
        let direct =
          see_notes runtime options as_of (tokenize runtime text) (values notes) documents
            explicit in
        recall_from-IsDistinct options.graph_recall notes direct (
          see_notes-IsDistinct (tokenize runtime text) (values notes) documents explicit
            (see_explicit_ids-IsDistinct ids notes [] tt))

-- The memories of two matches are not the same.
abbrev pub AreApart : RetrievalMatch → RetrievalMatch → Type 0
AreApart a b = a.memory.id ≢ b.memory.id

absent_ids :
    (k : Text) (c : RetrievalMatch) (m : Map RetrievalMatch)
    → c.memory.id ≡ k
    → All (λ e. e.1.memory.id ≡ e.0) m
    → OrderedMap.has k m ≡ false
    → All (AreApart c) (values m)
unfolding OrderedMap.has
absent_ids k c [] own keyed absent = tt
absent_ids k c ((j, d) ∷ m) own keyed absent = elim (Bool-cases (same j k)) [
  | inl taken ↦ ground arith
  | inr other ↦ (
    λ e. ground (arith, other, ap (λ i. same i k) (sym keyed.0 ∙ sym e ∙ own), same_refl k),
    absent_ids k c m own keyed.1 (rw other at absent),
  )
]

values-AreApart :
    (m : Map RetrievalMatch)
    → All (λ e. e.1.memory.id ≡ e.0) m
    → IsDistinct m
    → Ordered AreApart (values m)
values-AreApart [] keyed d = tt
values-AreApart ((k, c) ∷ m) keyed d =
    (absent_ids k c m keyed.0 keyed.1 d.0, values-AreApart m keyed.1 d.1)

query_at-AreApart :
    (runtime : Runtime) (pkg : GraphPackage) (text : Text) (options : QueryOptions) (as_of : ℕ)
    (s : MemoryNotes) (d : DiarySystem) (g : pkg.Graph) (ix : LexicalIndex)
    (matches : List RetrievalMatch)
    → (query_at runtime pkg text options (some as_of) s d g ix).0 ≡ some matches
    → Ordered AreApart matches
unfolding query_at
query_at-AreApart runtime pkg text options as_of s d g ix matches found =
    let fresh = ensure_fresh runtime s d ix in
    let all_found = all_candidates runtime options as_of pkg g text s fresh.notes in
    let limit = or_default options.limit 50 in
    let keyed =
      All-imp (IsShown runtime options as_of s) (λ e. e.1.memory.id ≡ e.0) (λ e h. h.1.0) all_found
        (all_candidates-IsShown runtime options as_of s pkg g text fresh.notes) in
    let apart =
      values-AreApart all_found keyed
        (all_candidates-IsDistinct runtime options as_of pkg g text s fresh.notes) in
    elim (Bool-cases
      (is_empty (normalize_phrase runtime text) && is_nil (or_default options.explicit_ids []))) [
        | inl nothing_asked ↦
            let none_found : [] ≡ matches = ap (λ o. or_default o []) (rw nothing_asked at found) in
            subst (Ordered AreApart) none_found tt
        | inr asked ↦
            let these : take limit (sort compare_matches (values all_found)) ≡ matches =
              ap (λ o. or_default o []) (rw asked at found) in
            subst (Ordered AreApart) these (
              Ordered-take AreApart limit (sort compare_matches (values all_found)) (
                sort-kept compare_matches AreApart (λ a b apart e. apart (sym e)) (values all_found)
                  apart))
      ]

-- A query whose date is accepted returns no memory twice: the ids of the memories of any two of its
-- matches differ, whether they were asked for, matched by their words or reached through the graph.
pub query_once :
    (runtime : Runtime) (pkg : GraphPackage) (text : Text) (options : QueryOptions) (now as_of : ℕ)
    (s : MemoryNotes) (d : DiarySystem) (g : pkg.Graph) (ix : LexicalIndex)
    (matches : List RetrievalMatch)
    → resolve_as_of now options.as_of ≡ some as_of
    → (query runtime pkg text options now s d g ix).0 ≡ some matches
    → Ordered (λ a b. a.memory.id ≢ b.memory.id) matches
unfolding query
query_once runtime pkg text options now as_of s d g ix matches date found =
    query_at-AreApart runtime pkg text options as_of s d g ix matches (rw date at found)
