-- ===== src/Retrieval/DiarySearch/Found.antt =====
-- What `searchDiary` of src/core/MemoryRetriever.ts finds, against a filter and a sort.
use ether_memories.Prelude.{
  ℕ, zero, suc, ◌≡◌, refl, sym, ap, ◌∙◌, Ordering, Bool, true, false, some, List, [], ◌∷◌, ◌++◌,
  map, map_of_id, keep, any, take, All, All-imp, arith, if◌then◌else◌, Bool-cases, inl, inr,
}
use ether_memories.Text.{Text, includes, code_unit_compare}
use ether_memories.Time.{time_compare}
use ether_memories.OrderedMap
use ether_memories.OrderedMap.{Map, IsDistinct, values}
use ether_memories.Sort.{sort}
use ether_memories.Sort.Map.{map-take, map-sort}
use ether_memories.Types.{DiaryEntry}
use ether_memories.Tokenizer.{Runtime, tokenize, join}
use ether_memories.Notes.{MemoryNotes}
use ether_memories.Diary
use ether_memories.Diary.{DiarySystem, clone_entry}
use ether_memories.Diary.Laws
use ether_memories.Diary.Laws.{clone_entry_lem}
use ether_memories.Lexical.{
  LexicalIndex, document_for_diary, diary_documents, all_diary, ensure_fresh,
}
use ether_memories.Lexical.Keyed.{IsKeyed, map_of-by_id, values-by_id, by_id_self, found_by_id}
use ether_memories.Lexical.Fresh.{Run, refreshed, ensure_fresh_current}
use ether_memories.Retrieval.{◌or_else◌, contains_phrase, is_nil}
use ether_memories.Retrieval.Phrase.{contains_phrase_iff}
use ether_memories.Retrieval.Classes.{includes-contains_phrase}
use ether_memories.Retrieval.DiarySearch.{
  DiaryMatch, by_update, entries_by_id, see_entry, diary_matches, search_diary_detailed,
  search_diary,
}

-- The later update first, and the lower id first if the updates are at the same time.
abbrev pub newest : DiaryEntry → DiaryEntry → Ordering
newest a b = time_compare b.updated_at a.updated_at or_else code_unit_compare a.id b.id

-- Some token of the query is a token of the content or of the tags.
abbrev pub shares_token : Runtime → List Text → DiaryEntry → Bool
shares_token runtime query e =
    any (includes (tokenize runtime (e.content ++ 32 ∷ join e.tags))) query

-- A phrase that is found has a token that is found.
exact_hit :
    (tokens query : List Text)
    → contains_phrase tokens query ≡ true
    → any (includes tokens) query ≡ true
exact_hit tokens [] h = absurd (((contains_phrase_iff tokens []).0 h).0 refl)
exact_hit tokens (q ∷ query) h = rw (includes-contains_phrase tokens q query h) refl

keep_none : {A : Type 0} (xs : List A) → keep (λ x. false) xs ≡ []
keep_none [] = refl
keep_none (x ∷ xs) = keep_none xs

module _ (runtime : Runtime) (query : List Text) where
  see_entry-eq :
      (e : DiaryEntry) (rest : List DiaryMatch)
      → map (λ r. r.entry) (see_entry query (document_for_diary runtime e) (some e) rest) ≡ (
          if shares_token runtime query e
          then e ∷ map (λ r. r.entry) rest
          else map (λ r. r.entry) rest)
  unfolding see_entry document_for_diary
  see_entry-eq e rest =
      let tokens = tokenize runtime (e.content ++ 32 ∷ join e.tags) in
      elim (Bool-cases (any (includes tokens) query)) [
        | inl shared ↦ elim (Bool-cases (contains_phrase tokens query)) [
          | inl exact ↦ rw (shared, exact) refl
          | inr inexact ↦ rw (shared, inexact) refl
        ]
        | inr none_shared ↦
            let inexact : contains_phrase tokens query ≡ false =
              ground (arith, exact_hit tokens query) in
            rw (none_shared, inexact) refl
      ]

  diary_matches-eq :
      (entries m : Map DiaryEntry)
      → All (λ x. OrderedMap.get x.1.id entries ≡ some x.1) m
      → map
          (λ r. r.entry)
          (diary_matches query entries (map (document_for_diary runtime) (values m)))
        ≡ keep (shares_token runtime query) (values m)
  unfolding diary_matches
  diary_matches-eq entries [] h = refl
  diary_matches-eq entries ((j, e) ∷ m) h =
      let documents = map (document_for_diary runtime) (values m) in
      let found : OrderedMap.get (document_for_diary runtime e).id entries ≡ some e =
        unfold document_for_diary in h.0 in
      rw found (
        see_entry-eq e (diary_matches query entries documents)
        ∙ ap (λ rest. if shares_token runtime query e then e ∷ rest else rest)
            (diary_matches-eq entries m h.1)
        ∙ sym (keep-cons (shares_token runtime query) e (values m)))
    where
      keep-cons :
          (p : DiaryEntry → Bool) (x : DiaryEntry) (xs : List DiaryEntry)
          → keep p (x ∷ xs) ≡ (if p x then x ∷ keep p xs else keep p xs)
      keep-cons p x xs = refl

valid_keys : (m : Map DiaryEntry) → All Diary.Laws.IsEntry m → IsKeyed m
valid_keys m h = All-imp Diary.Laws.IsEntry (λ x. x.1.id ≡ x.0) (λ x e. e.keyed) m h

entries_by_id_lem : (d : DiarySystem) → Diary.Laws.IsValid d → entries_by_id d ≡ d.entries
unfolding entries_by_id Diary.values_unsafe
entries_by_id_lem d valid =
    let keyed = valid_keys d.entries valid.entries in
    rw (map_of_id clone_entry clone_entry_lem (values d.entries))
      (map_of-by_id (λ e. e) d.entries keyed valid.distinct ∙ by_id_self d.entries keyed)

values-diary_documents :
    (runtime : Runtime) (d : DiarySystem)
    → Diary.Laws.IsValid d
    → values (diary_documents runtime d) ≡ map (document_for_diary runtime) (values d.entries)
unfolding diary_documents Diary.values_unsafe
values-diary_documents runtime d valid =
    rw (map_of_id clone_entry clone_entry_lem (values d.entries)) (
      ap values (
        map_of-by_id (document_for_diary runtime) d.entries (valid_keys d.entries valid.entries)
          valid.distinct)
      ∙ values-by_id (document_for_diary runtime) (values d.entries))

-- A query of no tokens finds nothing.
nothing_shared :
    (runtime : Runtime) (limit : ℕ) (query : List Text) (es : List DiaryEntry)
    → is_nil query ≡ true
    → take limit (sort newest (keep (shares_token runtime query) es)) ≡ []
unfolding sort
nothing_shared runtime zero query es h = refl
nothing_shared runtime (suc n) [] es h =
    ap (λ found. take (suc n) (sort newest found)) (keep_none es)
nothing_shared runtime (suc n) (q ∷ query) es h = ground arith

-- On a well-formed diary, and with an index that any changes and calls have led to, `searchDiary`
-- returns the entries that share a token with the query, in their content or their tags: the latest
-- update first, by id where the updates are at the same time, and of these the first `limit`.
pub search_diary-eq :
    (runtime : Runtime) (text : Text) (limit : ℕ) {s0 : MemoryNotes} {d0 : DiarySystem}
    (s : MemoryNotes) (d : DiarySystem) (ix : LexicalIndex)
    → Run runtime s0 d0 s d ix
    → Diary.Laws.IsValid d
    → (search_diary runtime text limit s d ix).0
      ≡ take limit
          (sort newest (keep (shares_token runtime (tokenize runtime text)) (values d.entries)))
unfolding search_diary search_diary_detailed all_diary
search_diary-eq runtime text limit s d ix run valid =
    let query = tokenize runtime text in
    let entry_of : DiaryMatch → DiaryEntry = λ r. r.entry in
    let once = ensure_fresh runtime s d ix in
    let matches =
      diary_matches query (entries_by_id d) (values (ensure_fresh runtime s d once).diary) in
    let fresh = (ensure_fresh_current runtime (refreshed run)).1 in
    let found : map entry_of matches ≡ keep (shares_token runtime query) (values d.entries) =
      rw (fresh, values-diary_documents runtime d valid, entries_by_id_lem d valid)
        (diary_matches-eq runtime query d.entries d.entries
          (found_by_id d.entries (valid_keys d.entries valid.entries) valid.distinct)) in
    elim (Bool-cases (is_nil query)) [
      | inl nothing ↦
          rw nothing (sym (nothing_shared runtime limit query (values d.entries) nothing))
      | inr asked ↦ rw asked (
          map-take entry_of limit (sort by_update matches)
          ∙ ap (take limit) (map-sort entry_of newest matches ∙ ap (sort newest) found))
    ]
