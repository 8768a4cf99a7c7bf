-- ===== src/Text/Trim.antt =====
-- `String.prototype.trim`, and what it leaves.
use mathlib.Core.List.{reverse, reverse-reverse, reverse-append}
use ether_memories.Prelude.{
  ◌≡◌, refl, ap, sym, ◌∙◌, Bool, true, false, [], ◌∷◌, ◌++◌, if◌then◌else◌, Bool-cases, inl, inr,
}
use ether_memories.Text.{Text, is_space}

unfoldable pub trim_start : Text → Text
trim_start [] = []
trim_start (c ∷ s) = if is_space c then trim_start s else c ∷ s

unfoldable pub trim : Text → Text
unfolding trim_start
trim s = reverse (trim_start (reverse (trim_start s)))

abbrev pub is_empty : Text → Bool
is_empty [] = true
is_empty (c ∷ s) = false

-- `!s.trim()`
unfoldable pub is_blank : Text → Bool
is_blank s = is_empty (trim s)

abbrev StartsClean : Text → Type 0
StartsClean [] = Unit
StartsClean (c ∷ s) = is_space c ≡ false

StartsClean-trim_start : (s : Text) → StartsClean (trim_start s)
unfolding trim_start
StartsClean-trim_start [] = tt
StartsClean-trim_start (c ∷ s) = elim (Bool-cases (is_space c)) [
  | inl e ↦ rw e (StartsClean-trim_start s)
  | inr e ↦ rw e e
]

trim_start_of_clean : (s : Text) → StartsClean s → trim_start s ≡ s
unfolding trim_start
trim_start_of_clean [] h = refl
trim_start_of_clean (c ∷ s) h = rw h

StartsClean-prefix : (s t : Text) → StartsClean (s ++ t) → StartsClean s
StartsClean-prefix [] t h = tt
StartsClean-prefix (c ∷ s) t h = h

-- What `trim_start` drops is a prefix.
trim_start-suffix : (s : Text) → (p : Text) × (s ≡ p ++ trim_start s)
unfolding trim_start
trim_start-suffix [] = ([], refl)
trim_start-suffix (c ∷ s) = elim (Bool-cases (is_space c)) [
  | inl e ↦ let (p, h) = trim_start-suffix s in (c ∷ p, rw e (ap (λ t. c ∷ t) h))
  | inr e ↦ ([], rw e)
]

StartsClean-trim : (s : Text) → StartsClean (trim s)
unfolding trim
StartsClean-trim s =
    let (p, h) = trim_start-suffix (reverse (trim_start s)) in
    let whole : trim_start s ≡ reverse (trim_start (reverse (trim_start s))) ++ reverse p =
      sym (reverse-reverse (trim_start s)) ∙ ap reverse h ∙ reverse-append p _ in
    StartsClean-prefix _ (reverse p) (rw whole at (StartsClean-trim_start s))

-- Trimming a second time changes nothing.
pub trim-trim : (s : Text) → trim (trim s) ≡ trim s
unfolding trim
trim-trim s =
    let core : Text = trim_start (reverse (trim_start s)) in
    let first : trim_start (trim s) ≡ trim s = trim_start_of_clean (trim s) (StartsClean-trim s) in
    let last : trim_start core ≡ core =
      trim_start_of_clean core (StartsClean-trim_start (reverse (trim_start s))) in
    ap (λ t. reverse (trim_start (reverse t))) first
    ∙ ap (λ t. reverse (trim_start t)) (reverse-reverse core)
    ∙ ap reverse last

-- A text that is not blank is not blank after `trim` either.
pub is_blank-trim : (s : Text) → is_blank (trim s) ≡ is_blank s
unfolding is_blank
is_blank-trim s = ap is_empty (trim-trim s)
