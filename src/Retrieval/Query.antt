-- ===== src/Retrieval/Query.antt =====
-- `query` of src/core/MemoryRetriever.ts, over the notes, the diary and the graph that it reads.
pub mod Results
pub mod Order
pub mod Once
mod Tests
use ether_memories.Prelude.{
  ℕ, ◌+◌, ◌^◌, Ordering, Bool, true, false, not, ◌&&◌, ◌||◌, Option, none, some, List, [], ◌∷◌, map,
  keep, any, take, length, ltb, ◌==◌, if◌then◌else◌, or_default, is_some,
}
use ether_memories.Text.{Text, units, same, includes}
use ether_memories.Text.Trim.{is_empty}
use ether_memories.Time.{Time, at, invalid}
use ether_memories.Number.{Number, finite, pos, num_zero}
use ether_memories.OrderedMap
use ether_memories.OrderedMap.{Map, values}
use ether_memories.Sort.{sort}
use ether_memories.Types.{MemoryNote, MindGraphNode, MindGraphEdge}
use ether_memories.Tokenizer.{Runtime, tokenize, normalize_phrase}
use ether_memories.Notes.{MemoryNotes, values_unsafe}
use ether_memories.Diary.{DiarySystem}
use ether_memories.Graph.Package.{GraphPackage}
use ether_memories.Graph.Recall.{
  Direction, incoming, outgoing, both, RecallSlice, get_recall_neighbors,
}
use ether_memories.Linker.{memory_node}
use ether_memories.Lexical.{LexicalDocument, LexicalIndex, map_of, ensure_fresh}
use ether_memories.Retrieval.{
  MatchClass, MatchedBy, PathStep, GraphEvidence, GraphTrace, RetrievalMatch, GraphRecall,
  QueryOptions, Lexical, Details, class_weight, compare_matches, passes, classify_lexical,
  make_match, is_nil,
}

-- `none` where the date is refused.
abbrev pub resolve_as_of : ℕ → Option Time → Option ℕ
resolve_as_of now none = some now
resolve_as_of now (some (at t)) = some t
resolve_as_of now (some invalid) = none

abbrev pub bare : Details
bare = record {
  matched_tokens = [];
  tags = [];
  category = none;
  metadata_fields = [];
  is_explicit = false;
  phrase = none;
  graph = none;
}

step_to : Direction → Bool → MindGraphEdge → Text
step_to incoming is_out e = e.source
step_to outgoing is_out e = if is_out then e.target else e.source
step_to both is_out e = if is_out then e.target else e.source

evidence_path : Text → Direction → List MindGraphEdge → List PathStep
unfolding step_to
evidence_path current direction [] = []
evidence_path current direction (e ∷ es) =
    let is_out = same e.source current in
    record {
      edge_id = e.id;
      relationship = e.relationship;
      is_out = is_out;
      from = e.source;
      to = e.target;
    }
    ∷ evidence_path (step_to direction is_out e) direction es

-- `node.id.startsWith("memory:") ? node.id.slice(7) : ""`
after_prefix : Text → Text → Text
after_prefix [] s = s
after_prefix (p ∷ ps) [] = []
after_prefix (p ∷ ps) (c ∷ s) = if c == p then after_prefix ps s else []

abbrev is_better : Ordering → Bool
is_better Ordering.lt = true
is_better _ = false

-- `if (!existing || compareMatches(candidate, existing) < 0) candidates.set(id, candidate)`
keep_better :
    Text → RetrievalMatch → Map RetrievalMatch → Option RetrievalMatch → Map RetrievalMatch
keep_better id candidate m none = OrderedMap.set id candidate m
keep_better id candidate m (some existing) =
    if is_better (compare_matches candidate existing) then OrderedMap.set id candidate m else m

unfoldable pub notes_by_id : MemoryNotes → Map MemoryNote
notes_by_id s = map_of (map (λ n. (n.id, n)) (values_unsafe s)) []

module _ (runtime : Runtime) (options : QueryOptions) (as_of : ℕ) where
  see_explicit : Text → Option MemoryNote → Map RetrievalMatch → Map RetrievalMatch
  see_explicit id none m = m
  see_explicit id (some note) m =
      if passes note options as_of
      then OrderedMap.set id
          (make_match runtime note MatchClass.explicit_id num_zero (MatchedBy.explicit_id ∷ []) none
            (record bare { is_explicit = true }) num_zero)
          m
      else m

  see_explicit_ids : List Text → Map MemoryNote → Map RetrievalMatch → Map RetrievalMatch
  unfolding see_explicit
  see_explicit_ids [] notes m = m
  see_explicit_ids (id ∷ ids) notes m =
      see_explicit_ids ids notes (see_explicit id (OrderedMap.get id notes) m)

  see_class : MemoryNote → Option Lexical → Map RetrievalMatch → Map RetrievalMatch
  unfolding keep_better
  see_class note none m = m
  see_class note (some found) m =
      let details : Details = record bare {
        phrase = found.phrase;
        matched_tokens = found.matched_tokens;
        tags = found.tags;
        category = note.category;
        metadata_fields = found.metadata_fields;
      } in
      keep_better note.id
        (make_match runtime note found.match_class found.score found.matched_by none details
          num_zero)
        m (OrderedMap.get note.id m)

  see_document :
      List Text → MemoryNote → Option LexicalDocument → Map RetrievalMatch → Map RetrievalMatch
  unfolding see_class
  see_document query_tokens note none m = m
  see_document query_tokens note (some d) m =
      let found =
        classify_lexical runtime d.tokens d.token_set d.tag_tokens d.metadata_tokens query_tokens in
      if is_nil query_tokens then m else see_class note found m

  -- The index is fresh here, so a `getNote` only reads it.
  see_notes :
      List Text → List MemoryNote → Map LexicalDocument → Map RetrievalMatch → Map RetrievalMatch
  unfolding see_document
  see_notes query_tokens [] documents m = m
  see_notes query_tokens (note ∷ notes) documents m =
      let seen = see_document query_tokens note (OrderedMap.get note.id documents) m in
      see_notes query_tokens notes documents (if passes note options as_of then seen else m)

  -- A note that the graph recall of `seed` reached along `path`.
  graph_match : RetrievalMatch → Direction → MemoryNote → List MindGraphEdge → RetrievalMatch
  unfolding evidence_path
  graph_match seed direction note path =
      let steps = evidence_path (memory_node seed.memory.id) direction path in
      let factor = if length path == 1 then finite (pos (2 ^ 1073)) else finite (pos (2 ^ 1072)) in
      let score = runtime.mul seed.score factor in
      make_match runtime note MatchClass.graph_only score (MatchedBy.graph_neighbor ∷ [])
        (some (record { seed_memory_id = seed.memory.id; depth = length path; path = steps }))
        (record bare {
          graph = some (record {
            seed_memory_id = seed.memory.id;
            depth = length path;
            edge_ids = map (λ e. e.id) path;
            path = steps;
          });
        })
        score

  see_path :
      RetrievalMatch
      → ℕ
      → Direction
      → Text
      → Option MemoryNote
      → Option (List MindGraphEdge)
      → Map RetrievalMatch
      → Map RetrievalMatch
  unfolding graph_match keep_better
  see_path seed depth direction id none path m = m
  see_path seed depth direction id (some note) none m = m
  see_path seed depth direction id (some note) (some path) m =
      let seen = keep_better id (graph_match seed direction note path) m (OrderedMap.get id m) in
      if not (passes note options as_of) || ltb depth (length path) || length path == 0
      then m
      else seen

  see_nodes :
      RetrievalMatch
      → ℕ
      → Direction
      → List Text
      → Map MemoryNote
      → Map (List MindGraphEdge)
      → List MindGraphNode
      → Map RetrievalMatch
      → Map RetrievalMatch
  unfolding see_path after_prefix
  see_nodes seed depth direction direct_ids notes paths [] m = m
  see_nodes seed depth direction direct_ids notes paths (node ∷ nodes) m =
      let id = after_prefix (units "memory:") node.id in
      let seen =
        see_path seed depth direction id (OrderedMap.get id notes) (OrderedMap.get node.id paths)
          m in
      see_nodes seed depth direction direct_ids notes paths nodes
        (if is_empty id || includes direct_ids id then m else seen)

  module _ (pkg : GraphPackage) (g : pkg.Graph) where
    see_seeds :
        GraphRecall
        → ℕ
        → List RetrievalMatch
        → List Text
        → Map MemoryNote
        → Map RetrievalMatch
        → Map RetrievalMatch
    unfolding see_nodes
    see_seeds cfg depth [] direct_ids notes m = m
    see_seeds cfg depth (seed ∷ seeds) direct_ids notes m =
        let direction = or_default cfg.direction both in
        let slice =
          get_recall_neighbors pkg (memory_node seed.memory.id) depth (or_default cfg.max_results 8)
            cfg.relation_allowlist direction g in
        see_seeds cfg depth seeds direct_ids notes
          (see_nodes seed depth direction direct_ids notes slice.paths slice.nodes m)

    -- `Math.min(cfg.depth ?? 1, 2)`
    abbrev capped_depth : Option ℕ → ℕ
    capped_depth asked = let depth = or_default asked 1 in if ltb depth 2 then depth else 2

    recall_from : Option GraphRecall → Map MemoryNote → Map RetrievalMatch → Map RetrievalMatch
    unfolding see_seeds
    recall_from none notes m = m
    recall_from (some cfg) notes m =
        let direct = values m in
        let seeds = take (or_default options.limit 50) (sort compare_matches direct) in
        let seen =
          see_seeds cfg (capped_depth cfg.depth) seeds (map (λ d. d.memory.id) direct) notes m in
        if cfg.enabled then seen else m

    -- The candidates of a query whose index is fresh.
    pub all_candidates : Text → MemoryNotes → Map LexicalDocument → Map RetrievalMatch
    unfolding see_explicit_ids see_notes recall_from notes_by_id
    all_candidates text s documents =
        let notes = notes_by_id s in
        let explicit = see_explicit_ids (or_default options.explicit_ids []) notes [] in
        let direct = see_notes (tokenize runtime text) (values notes) documents explicit in
        recall_from options.graph_recall notes direct

module _ (runtime : Runtime) (pkg : GraphPackage) where
  query_at :
      Text
      → QueryOptions
      → Option ℕ
      → MemoryNotes
      → DiarySystem
      → pkg.Graph
      → LexicalIndex
      → Option (List RetrievalMatch) × LexicalIndex
  unfolding all_candidates
  query_at text options none s d g ix = (none, ix)
  query_at text options (some as_of) s d g ix =
      let fresh = ensure_fresh runtime s d ix in
      let found = values (all_candidates runtime options as_of pkg g text s fresh.notes) in
      if is_empty (normalize_phrase runtime text) && is_nil (or_default options.explicit_ids [])
      then (some [], ix)
      else (some (take (or_default options.limit 50) (sort compare_matches found)), fresh)

  -- The matches, or `none` where the date is refused, and the index after the call.
  unfoldable pub query :
      Text
      → QueryOptions
      → ℕ
      → MemoryNotes
      → DiarySystem
      → pkg.Graph
      → LexicalIndex
      → Option (List RetrievalMatch) × LexicalIndex
  unfolding query_at
  query text options now s d g ix = query_at text options (resolve_as_of now options.as_of) s d g ix
