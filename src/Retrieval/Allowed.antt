-- ===== src/Retrieval/Allowed.antt =====
-- What `passes` of src/core/MemoryRetriever.ts asks of a note.
use ether_memories.Prelude.{
  ℕ, ◌≡◌, ◌≢◌, ◌<◌, ◌⊎◌, inl, inr, refl, Bool, true, false, ◌||◌, Option, none, some, List, [], ◌∷◌,
  All, all, arith, or_default,
}
use ether_memories.Text.{Text, includes}
use ether_memories.Time.{Time, at, invalid}
use ether_memories.Types.{MemoryNote, candidate, archived}
use ether_memories.Notes.{not_expired}
use ether_memories.Retrieval.{QueryOptions, passes}

-- What the options ask of a note.
pub record IsAllowed (options : QueryOptions) (as_of : ℕ) (note : MemoryNote) : Type 0 where
  pub candidates : (options.include_candidate ≡ true) ⊎ (note.status ≢ candidate)
  pub archives : (options.include_archived ≡ true) ⊎ (note.status ≢ archived)
  pub unexpired :
      (options.include_expired ≡ true)
      ⊎ (note.expires_at ≡ none)
      ⊎ ((t : ℕ) × (note.expires_at ≡ some (at t)) × (as_of < t))
  pub pins : (options.pinned_only ≡ false) ⊎ (note.pinned ≡ true)
  pub tags : All (λ t. includes note.tags t ≡ true) (or_default options.tags [])

All-all : (p : Text → Bool) (xs : List Text) → all p xs ≡ true → All (λ x. p x ≡ true) xs
All-all p [] h = tt
All-all p (x ∷ xs) h = (ground arith, All-all p xs (ground arith))

unexpired_at :
    (include_expired : Bool) (as_of : ℕ) (expiry : Option Time)
    → (include_expired || not_expired (at as_of) expiry) ≡ true
    → (include_expired ≡ true) ⊎ (expiry ≡ none) ⊎ ((t : ℕ) × (expiry ≡ some (at t)) × (as_of < t))
unexpired_at true as_of expiry h = inl refl
unexpired_at false as_of none h = inr (inl refl)
unexpired_at false as_of (some invalid) h = ground arith
unexpired_at false as_of (some (at t)) h = inr (inr (t, refl, ground arith))

pub passes-IsAllowed :
    (note : MemoryNote) (options : QueryOptions) (as_of : ℕ)
    → passes note options as_of ≡ true
    → IsAllowed options as_of note
unfolding passes
passes-IsAllowed note options as_of h = record {
  candidates = ground arith;
  archives = ground arith;
  unexpired = unexpired_at options.include_expired as_of note.expires_at (ground arith);
  pins = ground arith;
  tags = All-all (includes note.tags) (or_default options.tags []) (ground arith);
}
