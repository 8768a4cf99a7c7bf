-- ===== src/Retrieval/Classes.antt =====
-- When `classifyLexical` of src/core/MemoryRetriever.ts finds a match.
use ether_memories.Prelude.{
  ◌≡◌, ◌↔◌, refl, ap, ◌∙◌, Bool, true, false, ◌||◌, none, List, [], ◌∷◌, ◌++◌, length, keep, All,
  All-zip, All-imp, arith,
}
use ether_memories.Text.{Text, same_refl, includes}
use ether_memories.Tokenizer.{Runtime}
use ether_memories.Retrieval.{contains_phrase, classify_lexical}
use ether_memories.Retrieval.Phrase.{contains_phrase_iff}

includes-append :
    (xs ys : List Text) (t : Text) → includes (xs ++ ys) t ≡ (includes xs t || includes ys t)
unfolding includes
includes-append [] ys t = refl
includes-append (x ∷ xs) ys t = ground (arith, includes-append xs ys t)

-- The first token of a phrase that is found is one of the tokens.
pub includes-contains_phrase :
    (tokens : List Text) (p : Text) (phrase : List Text)
    → contains_phrase tokens (p ∷ phrase) ≡ true
    → includes tokens p ≡ true
unfolding includes
includes-contains_phrase tokens p phrase h =
    let (_, pre, post, e) = (contains_phrase_iff tokens (p ∷ phrase)).0 h in
    ap (λ ts. includes ts p) e
    ∙ ground (
      arith,
      includes-append (pre ++ (p ∷ phrase)) post p,
      includes-append pre (p ∷ phrase) p,
      same_refl p,
    )

none_kept : (p : Text → Bool) (xs : List Text) → length (keep p xs) ≡ 0 → All (λ x. p x ≡ false) xs
none_kept p [] h = tt
none_kept p (x ∷ xs) h = (ground arith, none_kept p xs (ground arith))

length-none_kept :
    (p : Text → Bool) (xs : List Text) → All (λ x. p x ≡ false) xs → length (keep p xs) ≡ 0
length-none_kept p [] h = refl
length-none_kept p (x ∷ xs) h = rw h.0 (length-none_kept p xs h.1)

module _ (runtime : Runtime) (tokens tag_tokens metadata_tokens : List Text) (q : Text)
    (query : List Text) where
  nothing_hit :
      classify_lexical runtime tokens tokens tag_tokens metadata_tokens (q ∷ query) ≡ none
      → (length (keep (includes tokens) (q ∷ query)) ≡ 0)
        × (length (keep (includes tag_tokens) (q ∷ query)) ≡ 0)
        × (length (keep (includes metadata_tokens) (q ∷ query)) ≡ 0)
  unfolding classify_lexical
  nothing_hit h = ground arith

  none_of_nothing_hit :
      length (keep (includes tokens) (q ∷ query)) ≡ 0
      → length (keep (includes tag_tokens) (q ∷ query)) ≡ 0
      → length (keep (includes metadata_tokens) (q ∷ query)) ≡ 0
      → includes tokens q ≡ false
      → classify_lexical runtime tokens tokens tag_tokens metadata_tokens (q ∷ query) ≡ none
  unfolding classify_lexical
  none_of_nothing_hit h t m first = ground (arith, includes-contains_phrase tokens q query)

-- For a query of at least one token and a document whose token set holds its tokens,
-- `classifyLexical` finds no match exactly if no query token is among the document's tokens, its
-- tag tokens or its metadata tokens.
pub classify_lexical-none :
    (runtime : Runtime) (tokens tag_tokens metadata_tokens : List Text) (q : Text)
    (query : List Text)
    → (classify_lexical runtime tokens tokens tag_tokens metadata_tokens (q ∷ query) ≡ none)
      ↔ All
          (λ t. (includes tokens t || includes tag_tokens t || includes metadata_tokens t) ≡ false)
          (q ∷ query)
classify_lexical-none runtime tokens tag_tokens metadata_tokens q query = (
  λ h.
      let (a, b, c) = nothing_hit runtime tokens tag_tokens metadata_tokens q query h in
      let others : All (λ t. (includes tag_tokens t ≡ false) × (includes metadata_tokens t ≡ false))
          (q ∷ query) =
        All-zip _ _ _ (λ t x y. (x, y)) (q ∷ query) (none_kept (includes tag_tokens) (q ∷ query) b)
          (none_kept (includes metadata_tokens) (q ∷ query) c) in
      All-zip _ _ _ (λ t x y. ground arith) (q ∷ query) (none_kept (includes tokens) (q ∷ query) a)
        others,
  λ h.
      none_of_nothing_hit runtime tokens tag_tokens metadata_tokens q query
        (length-none_kept (includes tokens) (q ∷ query)
          (All-imp _ _ (λ t e. ground arith) (q ∷ query) h))
        (length-none_kept (includes tag_tokens) (q ∷ query)
          (All-imp _ _ (λ t e. ground arith) (q ∷ query) h))
        (length-none_kept (includes metadata_tokens) (q ∷ query)
          (All-imp _ _ (λ t e. ground arith) (q ∷ query) h))
        (ground (arith, h.0)),
)
