-- ===== src/Retrieval.antt =====
-- src/core/MemoryRetriever.ts: matches, their classes, filters and order. Children have the queries
-- and what is proved of them.
pub mod Query
pub mod Allowed
pub mod DiarySearch
pub mod Classes
mod Tests
pub mod Phrase
use ether_memories.Prelude.{
  ℕ, ◌+◌, ◌*◌, ◌^◌, compare, Ordering, Bool, true, false, not, ◌&&◌, ◌||◌, Option, none, some, List,
  [], ◌∷◌, all, any, keep, length, ltb, leb, ◌==◌, if◌then◌else◌, or_default,
}
use ether_memories.Text.{Text, same, includes, code_unit_compare}
use ether_memories.Text.Trim.{is_empty}
use ether_memories.Time.{Time, at, time_compare}
use ether_memories.Number.{Number, finite, pos, num_leb, num_one, num_zero}
use ether_memories.Tokenizer.{Runtime, join}
use ether_memories.Types.{MemoryNote}
use ether_memories.Notes.{not_expired, status_is_archived, status_is_candidate}
use ether_memories.Graph.Recall.{Direction}

pub data MatchClass : Type 0 where
  explicit_id exact_phrase full_token_match partial_token_match tag_metadata_match graph_only :
      MatchClass

pub data MatchedBy : Type 0 where
  exact_phrase token full_token_match partial_token_match tag category metadata : MatchedBy
  graph_neighbor recency pinned importance explicit_id : MatchedBy

pub record PathStep : Type 0 where
  pub edge_id : Text
  pub relationship : Text
  pub is_out : Bool
  pub from : Text
  pub to : Text

pub record GraphEvidence : Type 0 where
  pub seed_memory_id : Text
  pub depth : ℕ
  pub path : List PathStep

-- The `graph` of the evidence.
pub record GraphTrace : Type 0 where
  pub seed_memory_id : Text
  pub depth : ℕ
  pub edge_ids : List Text
  pub path : List PathStep

pub record Contributions : Type 0 where
  pub lexical : Number
  pub graph : Number
  pub importance : Number
  pub confidence : Number

pub record RetrievalEvidence : Type 0 where
  pub match_class : MatchClass
  pub score : Number
  pub phrase : Option Text
  pub matched_tokens : List Text
  pub tags : List Text
  pub category : Option Text
  pub metadata_fields : List Text
  pub is_explicit : Bool
  pub graph : Option GraphTrace
  pub contributions : Contributions

pub record RetrievalMatch : Type 0 where
  pub memory : MemoryNote
  pub score : Number
  pub match_class : MatchClass
  pub matched_by : List MatchedBy
  pub evidence : RetrievalEvidence
  pub graph_evidence : Option GraphEvidence

pub record GraphRecall : Type 0 where
  pub enabled : Bool
  pub depth : Option ℕ
  pub max_results : Option ℕ
  pub direction : Option Direction
  pub relation_allowlist : Option (List Text)

-- A flag that is left out is false. A limit is a whole number, and `asOf` a date or the timestamp
-- of one.
pub record QueryOptions : Type 0 where
  pub explicit_ids : Option (List Text)
  pub as_of : Option Time
  pub include_candidate : Bool
  pub include_archived : Bool
  pub include_expired : Bool
  pub tags : Option (List Text)
  pub categories : Option (List Text)
  pub pinned_only : Bool
  pub limit : Option ℕ
  pub graph_recall : Option GraphRecall

-- 0.9, 0.7, 0.5, 0.3 and 0.2, in units of 2^-1074.
abbrev pub class_weight : MatchClass → Number
class_weight MatchClass.explicit_id = num_one
class_weight MatchClass.exact_phrase = finite (pos (8106479329266893 * 2 ^ 1021))
class_weight MatchClass.full_token_match = finite (pos (3152519739159347 * 2 ^ 1022))
class_weight MatchClass.partial_token_match = finite (pos (2 ^ 1073))
class_weight MatchClass.tag_metadata_match = finite (pos (5404319552844595 * 2 ^ 1020))
class_weight MatchClass.graph_only = finite (pos (3602879701896397 * 2 ^ 1020))

abbrev pub class_rank : MatchClass → ℕ
class_rank MatchClass.explicit_id = 6
class_rank MatchClass.exact_phrase = 5
class_rank MatchClass.full_token_match = 4
class_rank MatchClass.partial_token_match = 3
class_rank MatchClass.tag_metadata_match = 2
class_rank MatchClass.graph_only = 1

-- 0.02, 0.05 and 0.025.
abbrev per_hit : Number
per_hit = finite (pos (5764607523034235 * 2 ^ 1016))

abbrev per_importance : Number
per_importance = finite (pos (3602879701896397 * 2 ^ 1018))

abbrev per_confidence : Number
per_confidence = finite (pos (3602879701896397 * 2 ^ 1017))

-- The sign of `a - b`, where NaN counts as 0.
abbrev num_compare : Number → Number → Ordering
num_compare a b =
    if num_leb a b
    then (if num_leb b a then Ordering.eq else Ordering.lt)
    else if num_leb b a
    then Ordering.gt
    else Ordering.eq

-- `first || second` on signs.
infixr 4 ◌or_else◌
abbrev pub ◌or_else◌ : Ordering → Ordering → Ordering
Ordering.lt or_else second = Ordering.lt
Ordering.eq or_else second = second
Ordering.gt or_else second = Ordering.gt

abbrev seed_of : RetrievalMatch → Text
seed_of m = elim m.graph_evidence [ none ↦ [] | some g ↦ g.seed_memory_id ]

unfoldable pub compare_matches : RetrievalMatch → RetrievalMatch → Ordering
compare_matches a b =
    compare (class_rank b.match_class) (class_rank a.match_class)
    or_else num_compare b.score a.score
    or_else time_compare b.memory.updated_at a.memory.updated_at
    or_else code_unit_compare a.memory.id b.memory.id
    or_else code_unit_compare (seed_of a) (seed_of b)

-- `!list.length`
abbrev pub is_nil {ℓ} : {A : Type ℓ} → List A → Bool
is_nil [] = true
is_nil (x ∷ xs) = false

-- The empty text counts as no category.
abbrev in_categories : List Text → Option Text → Bool
in_categories categories none = false
in_categories categories (some c) = not (is_empty c) && includes categories c

unfoldable pub passes : MemoryNote → QueryOptions → ℕ → Bool
passes note options as_of =
    let tags = or_default options.tags [] in
    let categories = or_default options.categories [] in
    (options.include_candidate || not (status_is_candidate note.status))
    && (options.include_archived || not (status_is_archived note.status))
    && (options.include_expired || not_expired (at as_of) note.expires_at)
    && (not options.pinned_only || note.pinned)
    && (is_nil tags || all (includes note.tags) tags)
    && (is_nil categories || in_categories categories note.category)

-- `phraseTokens.every((token, offset) => tokens[i + offset] === token)`, of the tokens from `i` on.
unfoldable pub phrase_at : List Text → List Text → Bool
phrase_at tokens [] = true
phrase_at [] (p ∷ phrase) = false
phrase_at (t ∷ tokens) (p ∷ phrase) = same t p && phrase_at tokens phrase

-- The loop over `i`; past the last place where the phrase has room, `phrase_at` is false.
unfoldable pub phrase_from : List Text → List Text → Bool
unfolding phrase_at
phrase_from [] phrase = phrase_at [] phrase
phrase_from (t ∷ tokens) phrase = phrase_at (t ∷ tokens) phrase || phrase_from tokens phrase

unfoldable pub contains_phrase : List Text → List Text → Bool
unfolding phrase_from
contains_phrase tokens phrase =
    if is_nil phrase || ltb (length tokens) (length phrase)
    then false
    else phrase_from tokens phrase

pub record Lexical : Type 0 where
  pub match_class : MatchClass
  pub score : Number
  pub matched_by : List MatchedBy
  pub phrase : Option Text
  pub matched_tokens : List Text
  pub tags : List Text
  pub metadata_fields : List Text

-- The optional details of a match.
pub record Details : Type 0 where
  pub matched_tokens : List Text
  pub tags : List Text
  pub category : Option Text
  pub metadata_fields : List Text
  pub is_explicit : Bool
  pub phrase : Option Text
  pub graph : Option GraphTrace

module _ (runtime : Runtime) where
  -- `weight + count * 0.02`
  hit_score : MatchClass → ℕ → Number
  hit_score c count =
      runtime.add (class_weight c) (runtime.mul (finite (pos (count * 2 ^ 1074))) per_hit)

  unfoldable pub classify_lexical :
      (tokens token_set tag_tokens metadata_tokens query_tokens : List Text) → Option Lexical
  unfolding hit_score contains_phrase join
  classify_lexical tokens token_set tag_tokens metadata_tokens query_tokens =
      let matched = keep (includes token_set) query_tokens in
      let hits = length matched in
      let tags = keep (includes tag_tokens) query_tokens in
      let fields = keep (includes metadata_tokens) query_tokens in
      let found : MatchClass → ℕ → List MatchedBy → Option Text → Option Lexical =
        λ c count by phrase. some (record {
          match_class = c;
          score = hit_score c count;
          matched_by = by;
          phrase = phrase;
          matched_tokens = matched;
          tags = tags;
          metadata_fields = fields;
        }) in
      if contains_phrase tokens query_tokens
      then found MatchClass.exact_phrase hits (MatchedBy.exact_phrase ∷ MatchedBy.token ∷ [])
          (some (join query_tokens))
      else if hits == length query_tokens
      then found MatchClass.full_token_match hits
          (MatchedBy.full_token_match ∷ MatchedBy.token ∷ []) none
      else if ltb 0 hits
      then found MatchClass.partial_token_match hits
          (MatchedBy.partial_token_match ∷ MatchedBy.token ∷ []) none
      else if ltb 0 (length tags) || ltb 0 (length fields)
      then found MatchClass.tag_metadata_match (length tags + length fields)
          (if ltb 0 (length tags)
            then (if ltb 0 (length fields)
                then MatchedBy.tag ∷ MatchedBy.metadata ∷ []
                else MatchedBy.tag ∷ [])
            else MatchedBy.metadata ∷ [])
          none
      else none

  unfoldable pub make_match :
      MemoryNote
      → MatchClass
      → Number
      → List MatchedBy
      → Option GraphEvidence
      → Details
      → Number
      → RetrievalMatch
  make_match memory match_class score matched_by graph_evidence details graph_contribution =
      let by_importance = runtime.mul memory.importance per_importance in
      let by_confidence = runtime.mul memory.confidence per_confidence in
      let total = runtime.add (runtime.add score by_importance) by_confidence in
      record {
        memory = memory;
        score = total;
        match_class = match_class;
        matched_by = matched_by;
        evidence = record {
          match_class = match_class;
          score = total;
          phrase = details.phrase;
          matched_tokens = details.matched_tokens;
          tags = details.tags;
          category = details.category;
          metadata_fields = details.metadata_fields;
          is_explicit = details.is_explicit;
          graph = details.graph;
          contributions = record {
            lexical = score;
            graph = graph_contribution;
            importance = by_importance;
            confidence = by_confidence;
          };
        };
        graph_evidence = graph_evidence;
      }
