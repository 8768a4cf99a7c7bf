-- ===== src/Core/Queries.antt =====
-- The queries of `EtherMemoriesCore` of src/core/EtherMemories.ts. Besides the core, a query reads
-- and refreshes the index of its retriever.
use ether_memories.Prelude.{ℕ, ◌≡◌, refl, Option, none, some, List, map, map_of_id, ap}
use ether_memories.Text.{Text}
use ether_memories.Types.{MemoryNote}
use ether_memories.Tokenizer.{Runtime}
use ether_memories.Notes.{clone_note}
use ether_memories.Notes.Laws.{clone_note_lem}
use ether_memories.Graph.Package.{GraphPackage}
use ether_memories.Lexical.{LexicalIndex}
use ether_memories.Retrieval.{RetrievalMatch, QueryOptions}
use ether_memories.Retrieval.Query.{query}
use ether_memories.Core.{EtherMemoriesCore}

module _ (runtime : Runtime) (pkg : GraphPackage) where
  abbrev notes_of : Option (List RetrievalMatch) → Option (List MemoryNote)
  notes_of none = none
  notes_of (some matches) = some (map (λ m. clone_note m.memory) matches)

  -- `none` where the retriever refuses the date.
  unfoldable pub query_memories :
      Text
      → QueryOptions
      → ℕ
      → EtherMemoriesCore pkg
      → LexicalIndex
      → Option (List MemoryNote) × LexicalIndex
  query_memories text options now s ix =
      let (found, ix') = query runtime pkg text options now s.notes s.diary s.graph ix in
      (notes_of found, ix')

  abbrev clone_match : RetrievalMatch → RetrievalMatch
  clone_match m = record m { memory = clone_note m.memory }

  abbrev matches_of : Option (List RetrievalMatch) → Option (List RetrievalMatch)
  matches_of none = none
  matches_of (some matches) = some (map clone_match matches)

  -- New arrays of the evidence have the values of the old ones.
  unfoldable pub query_memories_detailed :
      Text
      → QueryOptions
      → ℕ
      → EtherMemoriesCore pkg
      → LexicalIndex
      → Option (List RetrievalMatch) × LexicalIndex
  query_memories_detailed text options now s ix =
      let (found, ix') = query runtime pkg text options now s.notes s.diary s.graph ix in
      (matches_of found, ix')

  clone_match_lem : (m : RetrievalMatch) → clone_match m ≡ m
  clone_match_lem m = rw (clone_note_lem m.memory)

  matches_of_lem : (o : Option (List RetrievalMatch)) → matches_of o ≡ o
  matches_of_lem none = refl
  matches_of_lem (some matches) = ap some (map_of_id clone_match clone_match_lem matches)

  -- `queryMemories` gives the notes of the matches that `queryMemoriesDetailed` gives, and both
  -- leave the index in the same state.
  pub query_memories_eq :
      (text : Text) (options : QueryOptions) (now : ℕ) (s : EtherMemoriesCore pkg)
      (ix : LexicalIndex)
      → query_memories text options now s ix ≡ (
        notes_of (query_memories_detailed text options now s ix).0,
        (query_memories_detailed text options now s ix).1,
      )
  unfolding query_memories query_memories_detailed
  query_memories_eq text options now s ix =
      let found = (query runtime pkg text options now s.notes s.diary s.graph ix).0 in
      rw (matches_of_lem found) refl
