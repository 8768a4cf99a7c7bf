-- ===== src/Retrieval/Query/Tests.antt =====
-- Runs of `query`, and the theorem about it at a concrete store.
use ether_memories.Prelude.{
  ◌≡◌, ◌≢◌, ◌≤◌, refl, false, none, some, List, [], ◌∷◌, length, All, Some, or_default,
}
use ether_memories.Text.{Text, units}
use ether_memories.Time.{at}
use ether_memories.Tokenizer.{Runtime, normalize_phrase, tokenize, join}
use ether_memories.Notes.{MemoryNotes, AddNoteInput, empty_notes, add, values_unsafe}
use ether_memories.Diary.{empty_diary}
use ether_memories.Graph.Package.Simple.{simple_graph}
use ether_memories.Lexical.{new_index}
use ether_memories.Retrieval.{QueryOptions, RetrievalMatch}
use ether_memories.Retrieval.Query.{query, query_at}
use ether_memories.Sort.Coarse.{Ordered}
use ether_memories.Retrieval.Query.Order.{ComesFirst, query_by_class}
use ether_memories.Retrieval.Query.Once.{query_once}
use ether_memories.Retrieval.Query.Results.{query_results}
use ether_memories.Retrieval.Allowed.{IsAllowed}

-- A runtime whose texts are one token each.
abbrev plain : Runtime
plain = record {
  normalize_nfc = λ s. s;
  to_lower_case = λ s. s;
  match_tokens = λ s. s ∷ [];
  stringify = λ v. [];
  add = λ a b. a;
  mul = λ a b. a;
}

abbrev note : Text → AddNoteInput
note content = record {
  content = content;
  summary = none;
  category = none;
  tags = none;
  source = none;
  provenance = none;
  importance = none;
  confidence = none;
  pinned = none;
  status = none;
  expires_at = some (at 50);
  metadata = none;
}

abbrev two_notes : MemoryNotes
two_notes =
    (add (units "mem_2") (at 2) (note (units "milk"))
      (add (units "mem_1") (at 1) (note (units "tea")) empty_notes).1).1

abbrev options : QueryOptions
options = record {
  explicit_ids = some (units "mem_2" ∷ []);
  as_of = some (at 40);
  include_candidate = false;
  include_archived = false;
  include_expired = false;
  tags = none;
  categories = none;
  pinned_only = false;
  limit = none;
  graph_recall = none;
}

abbrev found : List RetrievalMatch
found =
    or_default
      (query plain simple_graph (units "tea") options 90 two_notes empty_diary
        simple_graph.new_graph new_index).0
      []

found-query :
    (query plain simple_graph
      (units "tea")
      options
      90
      two_notes
      empty_diary
      simple_graph.new_graph
      new_index).0
    ≡ some found
unfolding query query_at normalize_phrase tokenize join
found-query = refl

query_results_example :
    (length found ≤ 50)
    × All
        (λ m. IsAllowed options 40 m.memory × Some (λ n. n ≡ m.memory) (values_unsafe two_notes))
        found
query_results_example =
    query_results plain simple_graph (units "tea") options 90 40 two_notes empty_diary
      simple_graph.new_graph new_index found refl found-query

query_by_class_example : Ordered ComesFirst found
query_by_class_example =
    query_by_class plain simple_graph (units "tea") options 90 40 two_notes empty_diary
      simple_graph.new_graph new_index found refl found-query

query_once_example : Ordered (λ a b. a.memory.id ≢ b.memory.id) found
query_once_example =
    query_once plain simple_graph (units "tea") options 90 40 two_notes empty_diary
      simple_graph.new_graph new_index found refl found-query
