-- ===== src/Retrieval/DiarySearch.antt =====
-- `searchDiary` and `searchDiaryDetailed` of src/core/MemoryRetriever.ts.
pub mod Found
use ether_memories.Prelude.{
  ℕ, suc, ◌≡◌, ◌≤◌, refl, ap, Ordering, Bool, not, ◌&&◌, Option, none, some, List, [], ◌∷◌, map,
  any, take, All, Some, All-self, All-map, All-take, length, length-take, arith, if◌then◌else◌,
  Bool-cases, inl, inr,
}
use ether_memories.Text.{Text, includes, code_unit_compare}
use ether_memories.Time.{time_compare}
use ether_memories.OrderedMap
use ether_memories.OrderedMap.{Map, values}
use ether_memories.OrderedMap.Laws.{All-set, All-get}
use ether_memories.Sort.{sort, All-sort}
use ether_memories.Types.{DiaryEntry}
use ether_memories.Tokenizer.{Runtime, tokenize}
use ether_memories.Notes.{MemoryNotes}
use ether_memories.Diary
use ether_memories.Diary.{DiarySystem}
use ether_memories.Lexical.{LexicalDocument, LexicalIndex, map_of, all_diary, ensure_fresh}
use ether_memories.Retrieval.{MatchedBy, ◌or_else◌, contains_phrase, is_nil}

pub record DiaryMatch : Type 0 where
  pub entry : DiaryEntry
  pub matched_by : List MatchedBy

abbrev by_update : DiaryMatch → DiaryMatch → Ordering
by_update a b =
    time_compare b.entry.updated_at a.entry.updated_at
    or_else code_unit_compare a.entry.id b.entry.id

unfoldable pub entries_by_id : DiarySystem → Map DiaryEntry
entries_by_id d = map_of (map (λ e. (e.id, e)) (Diary.values_unsafe d)) []

abbrev has_token : List Text → LexicalDocument → Bool
has_token query_tokens document = any (includes document.token_set) query_tokens

-- The item that the callback of `map` makes of a document, if it makes one.
see_entry : List Text → LexicalDocument → Option DiaryEntry → List DiaryMatch → List DiaryMatch
see_entry query_tokens document none rest = rest
see_entry query_tokens document (some entry) rest =
    let is_exact = contains_phrase document.tokens query_tokens in
    let found : DiaryMatch = record {
      entry = entry;
      matched_by =
          if is_exact then MatchedBy.exact_phrase ∷ MatchedBy.token ∷ [] else MatchedBy.token ∷ [];
    } in
    if not is_exact && not (has_token query_tokens document) then rest else found ∷ rest

diary_matches : List Text → Map DiaryEntry → List LexicalDocument → List DiaryMatch
unfolding see_entry
diary_matches query_tokens entries [] = []
diary_matches query_tokens entries (document ∷ documents) =
    see_entry query_tokens document (OrderedMap.get document.id entries)
      (diary_matches query_tokens entries documents)

module _ (runtime : Runtime) where
  unfoldable pub search_diary_detailed :
      Text → ℕ → MemoryNotes → DiarySystem → LexicalIndex → List DiaryMatch × LexicalIndex
  unfolding diary_matches entries_by_id
  search_diary_detailed text limit s d ix =
      let query_tokens = tokenize runtime text in
      let (documents, fresh) = all_diary runtime s d (ensure_fresh runtime s d ix) in
      let found = diary_matches query_tokens (entries_by_id d) documents in
      if is_nil query_tokens then ([], ix) else (take limit (sort by_update found), fresh)

  unfoldable pub search_diary :
      Text → ℕ → MemoryNotes → DiarySystem → LexicalIndex → List DiaryEntry × LexicalIndex
  search_diary text limit s d ix =
      let (found, ix') = search_diary_detailed text limit s d ix in (map (λ r. r.entry) found, ix')
