-- ===== src/Retrieval/Tests.antt =====
-- The theorems about src/core/MemoryRetriever.ts at concrete phrases and entries.
use ether_memories.Prelude.{
  ◌≡◌, ◌≢◌, ◌↔◌, ◌||◌, true, false, none, List, [], ◌∷◌, ◌++◌, All, take, keep,
}
use ether_memories.Text.{Text, units, includes}
use ether_memories.Time.{at}
use ether_memories.Tokenizer.{Runtime, tokenize}
use ether_memories.Notes.{empty_notes}
use ether_memories.Sort.{sort}
use ether_memories.OrderedMap.{values}
use ether_memories.Diary
use ether_memories.Diary.Laws
use ether_memories.Diary.{DiarySystem, empty_diary, add}
use ether_memories.Lexical.{new_index}
use ether_memories.Retrieval.{contains_phrase, classify_lexical}
use ether_memories.Retrieval.Phrase.{contains_phrase_iff}
use ether_memories.Retrieval.Classes.{classify_lexical-none}
use ether_memories.Lexical.Fresh.{created}
use ether_memories.Retrieval.DiarySearch.{search_diary}
use ether_memories.Retrieval.DiarySearch.Found.{newest, shares_token, search_diary-eq}

-- A runtime whose texts are one token each.
abbrev plain : Runtime
plain = record {
  normalize_nfc = λ s. s;
  to_lower_case = λ s. s;
  match_tokens = λ s. s ∷ [];
  stringify = λ v. [];
  add = λ a b. a;
  mul = λ a b. a;
}

abbrev words : List Text
words = units "green" ∷ units "tea" ∷ units "leaves" ∷ []

abbrev asked : List Text
asked = units "tea" ∷ units "leaves" ∷ []

contains_phrase_iff_example :
    (contains_phrase words asked ≡ true)
    ↔ ((asked ≢ []) × (pre : List Text) × (post : List Text) × (words ≡ pre ++ asked ++ post))
contains_phrase_iff_example = contains_phrase_iff words asked

classify_lexical-none_example :
    (classify_lexical plain words words [] [] (units "coffee" ∷ units "tea" ∷ []) ≡ none)
    ↔ All
        (λ t. (includes words t || includes [] t || includes [] t) ≡ false)
        (units "coffee" ∷ units "tea" ∷ [])
classify_lexical-none_example =
    classify_lexical-none plain words [] [] (units "coffee") (units "tea" ∷ [])

abbrev day : DiarySystem
day =
    (add (units "diary_1") (at 1) (record { content = units "sunny"; tags = none; metadata = none })
      empty_diary).1

day-IsValid : Diary.Laws.IsValid day
day-IsValid = Diary.Laws.DiarySystem-IsValid (
    Diary.Laws.next Diary.Laws.here (
      Diary.Laws.added (units "diary_1") 1
        (record { content = units "sunny"; tags = none; metadata = none })))

search_diary-eq_example :
    (search_diary plain (units "sunny ") 3 empty_notes day new_index).0
    ≡ take 3 (
        sort newest
          (keep (shares_token plain (tokenize plain (units "sunny "))) (values day.entries)))
search_diary-eq_example =
    search_diary-eq plain (units "sunny ") 3 {s0 = empty_notes} {d0 = day} empty_notes day new_index
      created day-IsValid
