-- ===== src/Retrieval/Query/Results.antt =====
-- What `query` of src/core/MemoryRetriever.ts returns.
use mathlib.Core.Path.{subst}
use ether_memories.Prelude.{
  ℕ, ◌≡◌, ◌≤◌, inl, inr, refl, ap, Bool, true, false, not, ◌&&◌, ◌||◌, Option, none, some, List, [],
  ◌∷◌, map, All, Some, All-self, All-map, All-imp, All-take, length, length-take, take, arith,
  Bool-cases, if◌then◌else◌, or_default, ltb, ◌==◌,
}
use ether_memories.Text.{Text, includes, units}
use ether_memories.Text.Trim.{is_empty}
use ether_memories.OrderedMap
use ether_memories.OrderedMap.{Map, values}
use ether_memories.OrderedMap.Laws.{All-set, All-get}
use ether_memories.Sort.{sort, All-sort}
use ether_memories.Types.{MemoryNote, MindGraphEdge, MindGraphNode}
use ether_memories.Tokenizer.{Runtime, tokenize, normalize_phrase}
use ether_memories.Notes.{MemoryNotes, values_unsafe}
use ether_memories.Diary.{DiarySystem}
use ether_memories.Graph.Package.{GraphPackage}
use ether_memories.Graph.Recall.{Direction, both, get_recall_neighbors}
use ether_memories.Linker.{memory_node}
use ether_memories.Lexical.{LexicalDocument, LexicalIndex, map_of, ensure_fresh}
use ether_memories.Retrieval.{
  RetrievalMatch, QueryOptions, GraphRecall, Lexical, compare_matches, passes, is_nil, make_match,
}
use ether_memories.Retrieval.Allowed.{IsAllowed, passes-IsAllowed}
use ether_memories.Retrieval.Query.{
  resolve_as_of, keep_better, notes_by_id, see_explicit, see_explicit_ids, see_class, see_document,
  see_notes, graph_match, see_path, see_nodes, see_seeds, recall_from, all_candidates, query,
  query_at, is_better, after_prefix, capped_depth,
}

-- A note of the store, under its id.
abbrev pub IsStored : MemoryNotes → Text × MemoryNote → Type 0
IsStored s e = (e.1.id ≡ e.0) × Some (λ n. n ≡ e.1) (values_unsafe s)

map_of-IsStored :
    (s : MemoryNotes) (ns : List MemoryNote) (m : Map MemoryNote)
    → All (λ n. Some (λ k. k ≡ n) (values_unsafe s)) ns
    → All (IsStored s) m
    → All (IsStored s) (map_of (map (λ n. (n.id, n)) ns) m)
unfolding map_of
map_of-IsStored s [] m stored h = h
map_of-IsStored s (n ∷ ns) m stored h =
    map_of-IsStored s ns (OrderedMap.set n.id n m) stored.1
      (All-set (IsStored s) n.id n m (refl, stored.0) h)

notes_by_id-IsStored : (s : MemoryNotes) → All (IsStored s) (notes_by_id s)
unfolding notes_by_id
notes_by_id-IsStored s = map_of-IsStored s (values_unsafe s) [] (All-self (values_unsafe s)) tt

All-if :
    (P : Text × RetrievalMatch → Type 0) (b : Bool) (m n : Map RetrievalMatch)
    → All P m
    → All P n
    → All P (if b then m else n)
All-if P true m n hm hn = hm
All-if P false m n hm hn = hn

module _ (runtime : Runtime) (options : QueryOptions) (as_of : ℕ) (s : MemoryNotes) where
  -- The memory of a candidate passes the filters, and is a note of the store, under its id.
  abbrev pub IsShown : Text × RetrievalMatch → Type 0
  IsShown e = (passes e.1.memory options as_of ≡ true) × IsStored s (e.0, e.1.memory)

  keep_better-IsShown :
      (id : Text) (c : RetrievalMatch) (m : Map RetrievalMatch) (old : Option RetrievalMatch)
      → IsShown (id, c)
      → All IsShown m
      → All IsShown (keep_better id c m old)
  unfolding keep_better
  keep_better-IsShown id c m none new h = All-set IsShown id c m new h
  keep_better-IsShown id c m (some existing) new h =
      elim (Bool-cases (is_better (compare_matches c existing))) [
        | inl e ↦ rw e (All-set IsShown id c m new h)
        | inr e ↦ rw e h
      ]

  see_explicit-IsShown :
      (id : Text) (found : Option MemoryNote) (notes : Map MemoryNote) (m : Map RetrievalMatch)
      → OrderedMap.get id notes ≡ found
      → All (IsStored s) notes
      → All IsShown m
      → All IsShown (see_explicit runtime options as_of id found m)
  unfolding see_explicit make_match
  see_explicit-IsShown id none notes m e stored h = h
  see_explicit-IsShown id (some note) notes m e stored h =
      elim (Bool-cases (passes note options as_of)) [
        | inl good ↦
            rw good (All-set IsShown id _ m (good, All-get (IsStored s) id notes note stored e) h)
        | inr bad ↦ rw bad h
      ]

  see_explicit_ids-IsShown :
      (ids : List Text) (notes : Map MemoryNote) (m : Map RetrievalMatch)
      → All (IsStored s) notes
      → All IsShown m
      → All IsShown (see_explicit_ids runtime options as_of ids notes m)
  unfolding see_explicit_ids
  see_explicit_ids-IsShown [] notes m stored h = h
  see_explicit_ids-IsShown (id ∷ ids) notes m stored h =
      see_explicit_ids-IsShown ids notes _ stored
        (see_explicit-IsShown id (OrderedMap.get id notes) notes m refl stored h)

  see_class-IsShown :
      (note : MemoryNote) (found : Option Lexical) (m : Map RetrievalMatch)
      → passes note options as_of ≡ true
      → IsStored s (note.id, note)
      → All IsShown m
      → All IsShown (see_class runtime options as_of note found m)
  unfolding see_class make_match
  see_class-IsShown note none m good stored h = h
  see_class-IsShown note (some found) m good stored h =
      keep_better-IsShown note.id _ m (OrderedMap.get note.id m) (good, stored) h

  see_document-IsShown :
      (tokens : List Text) (note : MemoryNote) (document : Option LexicalDocument)
      (m : Map RetrievalMatch)
      → passes note options as_of ≡ true
      → IsStored s (note.id, note)
      → All IsShown m
      → All IsShown (see_document runtime options as_of tokens note document m)
  unfolding see_document
  see_document-IsShown tokens note none m good stored h = h
  see_document-IsShown tokens note (some d) m good stored h = elim (Bool-cases (is_nil tokens)) [
    | inl e ↦ rw e h
    | inr e ↦ rw e (see_class-IsShown note _ m good stored h)
  ]

  see_note-IsShown :
      (tokens : List Text) (note : MemoryNote) (document : Option LexicalDocument)
      (m : Map RetrievalMatch)
      → IsStored s (note.id, note)
      → All IsShown m
      → All IsShown (
          if passes note options as_of
          then see_document runtime options as_of tokens note document m
          else m)
  see_note-IsShown tokens note document m stored h = elim (Bool-cases (passes note options as_of)) [
    | inl good ↦ rw good (see_document-IsShown tokens note document m good stored h)
    | inr bad ↦ rw bad h
  ]

  see_notes-IsShown :
      (tokens : List Text) (notes : Map MemoryNote) (documents : Map LexicalDocument)
      (m : Map RetrievalMatch)
      → All (IsStored s) notes
      → All IsShown m
      → All IsShown (see_notes runtime options as_of tokens (values notes) documents m)
  unfolding see_notes
  see_notes-IsShown tokens [] documents m stored h = h
  see_notes-IsShown tokens ((id, note) ∷ notes) documents m stored h =
      let document = OrderedMap.get note.id documents in
      let seen = see_document runtime options as_of tokens note document m in
      see_notes-IsShown tokens notes documents (if passes note options as_of then seen else m)
        stored.1 (see_note-IsShown tokens note document m (refl, stored.0.1) h)

  see_path-IsShown :
      (seed : RetrievalMatch) (depth : ℕ) (direction : Direction) (id : Text)
      (found : Option MemoryNote) (path : Option (List MindGraphEdge)) (notes : Map MemoryNote)
      (m : Map RetrievalMatch)
      → OrderedMap.get id notes ≡ found
      → All (IsStored s) notes
      → All IsShown m
      → All IsShown (see_path runtime options as_of seed depth direction id found path m)
  unfolding see_path graph_match make_match
  see_path-IsShown seed depth direction id none path notes m e stored h = h
  see_path-IsShown seed depth direction id (some note) none notes m e stored h = h
  see_path-IsShown seed depth direction id (some note) (some path) notes m e stored h =
      elim (Bool-cases
        (not (passes note options as_of) || ltb depth (length path) || length path == 0)) [
          | inl skip ↦ rw skip h
          | inr take_it ↦ rw take_it (
              keep_better-IsShown id _ m (OrderedMap.get id m)
                (ground arith, All-get (IsStored s) id notes note stored e) h)
        ]

  see_nodes-IsShown :
      (seed : RetrievalMatch) (depth : ℕ) (direction : Direction) (direct_ids : List Text)
      (notes : Map MemoryNote) (paths : Map (List MindGraphEdge)) (nodes : List MindGraphNode)
      (m : Map RetrievalMatch)
      → All (IsStored s) notes
      → All IsShown m
      → All IsShown
          (see_nodes runtime options as_of seed depth direction direct_ids notes paths nodes m)
  unfolding see_nodes
  see_nodes-IsShown seed depth direction direct_ids notes paths [] m stored h = h
  see_nodes-IsShown seed depth direction direct_ids notes paths (node ∷ nodes) m stored h =
      let id = after_prefix (units "memory:") node.id in
      elim (Bool-cases (is_empty id || includes direct_ids id)) [
        | inl skip ↦
            rw skip (see_nodes-IsShown seed depth direction direct_ids notes paths nodes m stored h)
        | inr other ↦ rw other (
            see_nodes-IsShown seed depth direction direct_ids notes paths nodes _ stored (
              see_path-IsShown seed depth direction id (OrderedMap.get id notes)
                (OrderedMap.get node.id paths) notes m refl stored h))
      ]

  module _ (pkg : GraphPackage) (g : pkg.Graph) where
    see_seeds-IsShown :
        (cfg : GraphRecall) (depth : ℕ) (seeds : List RetrievalMatch) (direct_ids : List Text)
        (notes : Map MemoryNote) (m : Map RetrievalMatch)
        → All (IsStored s) notes
        → All IsShown m
        → All IsShown (see_seeds runtime options as_of pkg g cfg depth seeds direct_ids notes m)
    unfolding see_seeds
    see_seeds-IsShown cfg depth [] direct_ids notes m stored h = h
    see_seeds-IsShown cfg depth (seed ∷ seeds) direct_ids notes m stored h =
        let direction = or_default cfg.direction both in
        let slice =
          get_recall_neighbors pkg (memory_node seed.memory.id) depth (or_default cfg.max_results 8)
            cfg.relation_allowlist direction g in
        see_seeds-IsShown cfg depth seeds direct_ids notes
          (see_nodes runtime options as_of seed depth direction direct_ids notes slice.paths
            slice.nodes m)
          stored
          (see_nodes-IsShown seed depth direction direct_ids notes slice.paths slice.nodes m stored
            h)

    recall_from-IsShown :
        (cfg : Option GraphRecall) (notes : Map MemoryNote) (m : Map RetrievalMatch)
        → All (IsStored s) notes
        → All IsShown m
        → All IsShown (recall_from runtime options as_of pkg g cfg notes m)
    unfolding recall_from
    recall_from-IsShown none notes m stored h = h
    recall_from-IsShown (some cfg) notes m stored h =
        let direct = values m in
        let seeds = take (or_default options.limit 50) (sort compare_matches direct) in
        let depth = capped_depth runtime options as_of pkg g cfg.depth in
        All-if IsShown cfg.enabled _ m
          (see_seeds-IsShown cfg depth seeds (map (λ d. d.memory.id) direct) notes m stored h) h

    pub all_candidates-IsShown :
        (text : Text) (documents : Map LexicalDocument)
        → All IsShown (all_candidates runtime options as_of pkg g text s documents)
    unfolding all_candidates
    all_candidates-IsShown text documents =
        let stored = notes_by_id-IsStored s in
        let notes = notes_by_id s in
        let ids = or_default options.explicit_ids [] in
        let tokens = tokenize runtime text in
        let explicit = see_explicit_ids runtime options as_of ids notes [] in
        let direct = see_notes runtime options as_of tokens (values notes) documents explicit in
        recall_from-IsShown options.graph_recall notes direct stored (
          see_notes-IsShown tokens notes documents explicit stored
            (see_explicit_ids-IsShown ids notes [] stored tt))

abbrev AreResults : QueryOptions → ℕ → MemoryNotes → List RetrievalMatch → Type 0
AreResults options as_of s ms =
    (length ms ≤ or_default options.limit 50)
    × All (λ m. IsAllowed options as_of m.memory × Some (λ n. n ≡ m.memory) (values_unsafe s)) ms

query_at-AreResults :
    (runtime : Runtime) (pkg : GraphPackage) (text : Text) (options : QueryOptions) (as_of : ℕ)
    (s : MemoryNotes) (d : DiarySystem) (g : pkg.Graph) (ix : LexicalIndex)
    (matches : List RetrievalMatch)
    → (query_at runtime pkg text options (some as_of) s d g ix).0 ≡ some matches
    → AreResults options as_of s matches
unfolding query_at
query_at-AreResults runtime pkg text options as_of s d g ix matches found =
    let fresh = ensure_fresh runtime s d ix in
    let all_found = all_candidates runtime options as_of pkg g text s fresh.notes in
    let shown = all_candidates-IsShown runtime options as_of s pkg g text fresh.notes in
    let sorted = sort compare_matches (values all_found) in
    let good = All-sort compare_matches _ (values all_found) (
      All-map _ (λ e. e.1) all_found
        (All-imp _
          (λ e. IsAllowed options as_of e.1.memory × Some (λ n. n ≡ e.1.memory) (values_unsafe s))
          (λ e h. (passes-IsAllowed e.1.memory options as_of h.0, h.1.1)) all_found shown)) in
    elim (Bool-cases
      (is_empty (normalize_phrase runtime text) && is_nil (or_default options.explicit_ids []))) [
        | inl nothing_asked ↦
            let none_found : [] ≡ matches = ap (λ o. or_default o []) (rw nothing_asked at found) in
            subst (AreResults options as_of s) none_found (omega arith, tt)
        | inr asked ↦
            let these : take (or_default options.limit 50) sorted ≡ matches =
              ap (λ o. or_default o []) (rw asked at found) in
            subst (AreResults options as_of s) these (
              length-take (or_default options.limit 50) sorted,
              All-take _ (or_default options.limit 50) sorted good,
            )
      ]

-- A query whose date is accepted returns at most `limit` matches (50, if it is left out). The memory
-- of each one is a note of the store and meets the options: it is no candidate and not archived
-- unless those are included, it has no expiry or one after the date unless expired notes are
-- included, it is pinned if only pinned ones are asked for, and it has every tag that is asked for.
pub query_results :
    (runtime : Runtime) (pkg : GraphPackage) (text : Text) (options : QueryOptions) (now as_of : ℕ)
    (s : MemoryNotes) (d : DiarySystem) (g : pkg.Graph) (ix : LexicalIndex)
    (matches : List RetrievalMatch)
    → resolve_as_of now options.as_of ≡ some as_of
    → (query runtime pkg text options now s d g ix).0 ≡ some matches
    → (length matches ≤ or_default options.limit 50)
      × All
          (λ m. IsAllowed options as_of m.memory × Some (λ n. n ≡ m.memory) (values_unsafe s))
          matches
unfolding query
query_results runtime pkg text options now as_of s d g ix matches date found =
    query_at-AreResults runtime pkg text options as_of s d g ix matches (rw date at found)
