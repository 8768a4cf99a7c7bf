-- ===== src/Retrieval/Phrase.antt =====
-- `containsPhrase` and `classifyLexical` of src/core/MemoryRetriever.ts.
use ether_memories.Prelude.{
  ◌≡◌, suc, ◌≢◌, ◌↔◌, inl, inr, refl, ap, ◌∙◌, true, false, List, [], ◌∷◌, ◌++◌, length,
  length-append, arith, ltb, Bool-cases,
}
use ether_memories.Text.{Text, same_iff, same_refl}
use ether_memories.Retrieval.{phrase_at, phrase_from, contains_phrase}

phrase_at-append : (phrase post : List Text) → phrase_at (phrase ++ post) phrase ≡ true
unfolding phrase_at
phrase_at-append [] post = refl
phrase_at-append (p ∷ phrase) post = rw (same_refl p) (phrase_at-append phrase post)

phrase_at-splits :
    (tokens phrase : List Text)
    → phrase_at tokens phrase ≡ true
    → (post : List Text) × (tokens ≡ phrase ++ post)
unfolding phrase_at
phrase_at-splits tokens [] h = (tokens, refl)
phrase_at-splits [] (p ∷ phrase) h = ground arith
phrase_at-splits (t ∷ tokens) (p ∷ phrase) h =
    let (post, e) = phrase_at-splits tokens phrase (ground arith) in
    let first : t ≡ p = (same_iff t p).0 (ground arith) in (post, rw (first, e))

phrase_from-append :
    (pre phrase post : List Text) → phrase_from (pre ++ phrase ++ post) phrase ≡ true
unfolding phrase_from
phrase_from-append [] [] [] = refl
phrase_from-append [] [] (t ∷ post) = refl
phrase_from-append [] (p ∷ phrase) post = ground (arith, phrase_at-append (p ∷ phrase) post)
phrase_from-append (t ∷ pre) phrase post = ground (arith, phrase_from-append pre phrase post)

phrase_from-splits :
    (tokens phrase : List Text)
    → phrase_from tokens phrase ≡ true
    → (pre : List Text) × (post : List Text) × (tokens ≡ pre ++ phrase ++ post)
unfolding phrase_from
phrase_from-splits [] phrase h = let (post, e) = phrase_at-splits [] phrase h in ([], post, e)
phrase_from-splits (t ∷ tokens) phrase h = elim (Bool-cases (phrase_at (t ∷ tokens) phrase)) [
  | inl at_once ↦ let (post, e) = phrase_at-splits (t ∷ tokens) phrase at_once in ([], post, e)
  | inr later_on ↦
      let (pre, post, e) = phrase_from-splits tokens phrase (rw later_on at h) in
      (t ∷ pre, post, ap (λ ts. t ∷ ts) e)
]

contains_phrase-run :
    (pre : List Text) (p : Text) (phrase post : List Text)
    → contains_phrase (pre ++ (p ∷ phrase) ++ post) (p ∷ phrase) ≡ true
unfolding contains_phrase
contains_phrase-run pre p phrase post =
    let tokens : List Text = pre ++ (p ∷ phrase) ++ post in
    let whole = length-append (pre ++ (p ∷ phrase)) post in
    let front = length-append pre (p ∷ phrase) in
    let room : ltb (length tokens) (suc (length phrase)) ≡ false = ground (arith, whole, front) in
    rw (room, phrase_from-append pre (p ∷ phrase) post) refl

-- `containsPhrase` finds a phrase in the tokens exactly if the phrase is not empty and stands in
-- them as one run, with any tokens before and after it.
pub contains_phrase_iff :
    (tokens phrase : List Text)
    → (contains_phrase tokens phrase ≡ true)
      ↔ ((phrase ≢ []) × (pre : List Text) × (post : List Text) × (tokens ≡ pre ++ phrase ++ post))
unfolding contains_phrase
contains_phrase_iff tokens [] = (λ h. ground arith, λ h. absurd (h.0 refl))
contains_phrase_iff tokens (p ∷ phrase) = (
  λ h.
      let (pre, post, e) = phrase_from-splits tokens (p ∷ phrase) (ground arith) in
      (λ e. ground (arith, e), pre, post, e),
  λ h. ap (λ ts. contains_phrase ts (p ∷ phrase)) h.3 ∙ contains_phrase-run h.1 p phrase h.2,
)
