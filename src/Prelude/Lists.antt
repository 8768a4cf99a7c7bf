-- ===== src/Prelude/Lists.antt =====
-- Lists measured by native numbers, and a predicate on all items of a list.
use Prim.Native.Nat.{ℕ, zero, suc, ◌+◌, ◌≤◌}
use mathlib.Core.Path.{subst, ap, ◌∙◌, ◌≡◌, refl}
use mathlib.Core.Logic.{inl, inr}
use mathlib.Core.Bool.{Bool, true, false, not, ◌&&◌, ◌||◌}
use mathlib.Core.List.{List, [], ◌∷◌, ◌++◌, map}
use native.Mathlib.Omega.{arith}
use ether_memories.Prelude.Tests.{if◌then◌else◌, Bool-cases}

module _ {ℓ} {A : Type ℓ} where
  abbrev pub length : List A → ℕ
  length [] = 0
  length (x ∷ xs) = suc (length xs)

  abbrev pub take : ℕ → List A → List A
  take zero xs = []
  take (suc n) [] = []
  take (suc n) (x ∷ xs) = x ∷ take n xs

  abbrev pub drop : ℕ → List A → List A
  drop zero xs = xs
  drop (suc n) [] = []
  drop (suc n) (x ∷ xs) = drop n xs

  -- `xs.filter(p)`
  abbrev pub keep : (A → Bool) → List A → List A
  keep p [] = []
  keep p (x ∷ xs) = let rest = keep p xs in if p x then x ∷ rest else rest

  -- `xs.some(p)`
  abbrev pub any : (A → Bool) → List A → Bool
  any p [] = false
  any p (x ∷ xs) = p x || any p xs

  -- `xs.every(p)`
  abbrev pub all : (A → Bool) → List A → Bool
  all p [] = true
  all p (x ∷ xs) = p x && all p xs

  pub length-append : (xs ys : List A) → length (xs ++ ys) ≡ length xs + length ys
  length-append [] ys = omega arith
  length-append (x ∷ xs) ys = omega (arith, length-append xs ys)

  pub length-take : (n : ℕ) (xs : List A) → length (take n xs) ≤ n
  length-take zero xs = omega arith
  length-take (suc n) [] = omega arith
  length-take (suc n) (x ∷ xs) = omega (arith, length-take n xs)

module _ {ℓ κ} {A : Type ℓ} (P : A → Type κ) where
  abbrev pub All : List A → Type κ
  All [] = Unit
  All (x ∷ xs) = P x × All xs

  -- Some item of the list has `P`, with the place kept.
  pub data Some : List A → Type (ℓ ⊔ κ) where
    here : {x : A} {xs : List A} → P x → Some (x ∷ xs)
    there : {x : A} {xs : List A} → Some xs → Some (x ∷ xs)

module _ {ℓ κ} {A : Type ℓ} (P : A → Type κ) where
  pub All-append : (xs ys : List A) → All P xs → All P ys → All P (xs ++ ys)
  All-append [] ys hx hy = hy
  All-append (x ∷ xs) ys hx hy = (hx.0, All-append xs ys hx.1 hy)

  pub All-take : (n : ℕ) (xs : List A) → All P xs → All P (take n xs)
  All-take zero xs h = tt
  All-take (suc n) [] h = tt
  All-take (suc n) (x ∷ xs) h = (h.0, All-take n xs h.1)

  pub All-keep : (p : A → Bool) (xs : List A) → All P xs → All P (keep p xs)
  All-keep p [] h = tt
  All-keep p (x ∷ xs) h = elim (Bool-cases (p x)) [
    | inl e ↦ rw e (h.0, All-keep p xs h.1)
    | inr e ↦ rw e (All-keep p xs h.1)
  ]

  pub All-map {μ} :
      {B : Type μ} (f : B → A) (xs : List B) → All (λ b. P (f b)) xs → All P (map f xs)
  All-map f [] h = tt
  All-map f (x ∷ xs) h = (h.0, All-map f xs h.1)

  pub All-tabulate : ((a : A) → P a) → (xs : List A) → All P xs
  All-tabulate f [] = tt
  All-tabulate f (x ∷ xs) = (f x, All-tabulate f xs)

module _ {ℓ} {A : Type ℓ} where
  pub All-keep_self : (p : A → Bool) (xs : List A) → All (λ a. p a ≡ true) (keep p xs)
  All-keep_self p [] = tt
  All-keep_self p (x ∷ xs) = elim (Bool-cases (p x)) [
    | inl e ↦ rw e (e, All-keep_self p xs)
    | inr e ↦ rw e (All-keep_self p xs)
  ]

  pub length-keep : (p : A → Bool) (xs : List A) → length (keep p xs) ≤ length xs
  length-keep p [] = omega arith
  length-keep p (x ∷ xs) = ground (arith, length-keep p xs)

  -- What is kept and what is left out add up.
  pub length-keep-not :
      (p : A → Bool) (xs : List A)
      → length (keep p xs) + length (keep (λ a. not (p a)) xs) ≡ length xs
  length-keep-not p [] = omega arith
  length-keep-not p (x ∷ xs) = elim (Bool-cases (p x)) [
    | inl e ↦ rw e (omega (arith, length-keep-not p xs))
    | inr e ↦ rw e (omega (arith, length-keep-not p xs))
  ]

  -- Mapping a function that changes nothing.
  pub map_of_id : (f : A → A) → ((a : A) → f a ≡ a) → (xs : List A) → map f xs ≡ xs
  map_of_id f h [] = refl
  map_of_id f h (x ∷ xs) = rw (h x, map_of_id f h xs)

module _ {ℓ κ μ ν} {A : Type ℓ} (P : A → Type κ) (Q : A → Type μ) (R : A → Type ν) where
  pub All-zip : ((a : A) → P a → Q a → R a) → (xs : List A) → All P xs → All Q xs → All R xs
  All-zip f [] hp hq = tt
  All-zip f (x ∷ xs) hp hq = (f x hp.0 hq.0, All-zip f xs hp.1 hq.1)

module _ {ℓ κ μ} {A : Type ℓ} (P : A → Type κ) (Q : A → Type μ) where
  pub All-imp : ((a : A) → P a → Q a) → (xs : List A) → All P xs → All Q xs
  All-imp f [] h = tt
  All-imp f (x ∷ xs) h = (f x h.0, All-imp f xs h.1)

-- Every item of a list stands in it.
pub All-self {ℓ} : {A : Type ℓ} (xs : List A) → All (λ x. Some (λ y. y ≡ x) xs) xs
All-self [] = tt
All-self (x ∷ xs) = (
  here refl,
  All-imp (λ y. Some (λ z. z ≡ y) xs) (λ y. Some (λ z. z ≡ y) (x ∷ xs)) (λ y h. there h) xs
      (All-self xs),
)

module _ {ℓ} {A : Type ℓ} where
  pub Some-append-left :
      {x : A} (xs ys : List A) → Some (λ y. y ≡ x) xs → Some (λ y. y ≡ x) (xs ++ ys)
  Some-append-left [] ys h = elim h [ ]
  Some-append-left (x ∷ xs) ys (here e) = here e
  Some-append-left (x ∷ xs) ys (there h) = there (Some-append-left xs ys h)

  pub Some-append-right :
      {x : A} (xs ys : List A) → Some (λ y. y ≡ x) ys → Some (λ y. y ≡ x) (xs ++ ys)
  Some-append-right [] ys h = h
  Some-append-right (x ∷ xs) ys h = there (Some-append-right xs ys h)

  pub All-Some {κ} : (P : A → Type κ) (xs : List A) (x : A) → All P xs → Some (λ y. y ≡ x) xs → P x
  All-Some P [] x h s = elim s [ ]
  All-Some P (y ∷ xs) x h (here e) = subst P e h.0
  All-Some P (y ∷ xs) x h (there s) = All-Some P xs x h.1 s

  pub Some-keep :
      (p : A → Bool) (xs : List A) (x : A)
      → Some (λ y. y ≡ x) xs
      → p x ≡ true
      → Some (λ y. y ≡ x) (keep p xs)
  Some-keep p [] x s h = elim s [ ]
  Some-keep p (y ∷ xs) x (here e) h = rw (ap p e ∙ h) (here e)
  Some-keep p (y ∷ xs) x (there s) h = elim (Bool-cases (p y)) [
    | inl kept ↦ rw kept (there (Some-keep p xs x s h))
    | inr left ↦ rw left (Some-keep p xs x s h)
  ]

module _ {ℓ κ} {A : Type ℓ} {B : Type κ} where
  pub Some-map :
      (f : A → B) (xs : List A) (x : A) → Some (λ y. y ≡ x) xs → Some (λ b. b ≡ f x) (map f xs)
  Some-map f [] x s = elim s [ ]
  Some-map f (y ∷ xs) x (here e) = here (ap f e)
  Some-map f (y ∷ xs) x (there s) = there (Some-map f xs x s)
