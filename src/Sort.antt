-- ===== src/Sort.antt =====
-- `Array.prototype.sort` with a comparator: the stable sort, as an insertion sort. A comparator's
-- sign is an `Ordering`.
pub mod Coarse
pub mod Map
use mathlib.Core.List.{Perm}
use mathlib.Core.List.Perm
use ether_memories.Prelude.{
  suc, ◌≡◌, refl, ap, ◌∙◌, ◌≢◌, Ordering, List, [], ◌∷◌, All, length, arith,
}

-- `x` before `y`, unless `x` compares greater: then behind it, in `later`.
abbrev pub place {ℓ} : {A : Type ℓ} → Ordering → A → A → List A → List A → List A
place Ordering.gt x y ys later = y ∷ later
place Ordering.lt x y ys later = x ∷ y ∷ ys
place Ordering.eq x y ys later = x ∷ y ∷ ys

module _ {ℓ} {A : Type ℓ} (cmp : A → A → Ordering) where
  unfoldable pub insert : A → List A → List A
  insert x [] = x ∷ []
  insert x (y ∷ ys) = place (cmp x y) x y ys (insert x ys)

  unfoldable pub sort : List A → List A
  unfolding insert
  sort [] = []
  sort (x ∷ xs) = insert x (sort xs)

  abbrev pub IsSorted : List A → Type ℓ
  IsSorted [] = Unit
  IsSorted (x ∷ xs) = All (λ y. cmp x y ≢ Ordering.gt) xs × IsSorted xs

module _ {ℓ} {A : Type ℓ} (cmp : A → A → Ordering) where
  insert-perm : (x : A) (xs : List A) → Perm (insert cmp x xs) (x ∷ xs)
  unfolding insert
  insert-perm x [] = Perm.refl (x ∷ [])
  insert-perm x (y ∷ ys) =
      elim (cmp x y) as (λ o. Perm (place o x y ys (insert cmp x ys)) (x ∷ y ∷ ys)) [
        | Ordering.gt ↦ Perm.trans (Perm.cons y (insert-perm x ys)) (Perm.swap x y ys)
        | _ ↦ Perm.refl (x ∷ y ∷ ys)
      ]

  -- A sort only changes the order.
  pub sort-perm : (xs : List A) → Perm (sort cmp xs) xs
  unfolding sort
  sort-perm [] = Perm.refl []
  sort-perm (x ∷ xs) = Perm.trans (insert-perm x (sort cmp xs)) (Perm.cons x (sort-perm xs))

module _ {ℓ κ} {A : Type ℓ} (cmp : A → A → Ordering) (P : A → Type κ) where
  All-insert : (x : A) (xs : List A) → P x → All P xs → All P (insert cmp x xs)
  unfolding insert
  All-insert x [] p h = (p, tt)
  All-insert x (y ∷ ys) p h = elim (cmp x y) as (λ o. All P (place o x y ys (insert cmp x ys))) [
    | Ordering.gt ↦ (h.0, All-insert x ys p h.1)
    | _ ↦ (p, h)
  ]

  pub All-sort : (xs : List A) → All P xs → All P (sort cmp xs)
  unfolding sort
  All-sort [] h = tt
  All-sort (x ∷ xs) h = All-insert x (sort cmp xs) h.0 (All-sort xs h.1)

module _ {ℓ} {A : Type ℓ} (cmp : A → A → Ordering) where
  length-insert : (x : A) (xs : List A) → length (insert cmp x xs) ≡ suc (length xs)
  unfolding insert
  length-insert x [] = refl
  length-insert x (y ∷ ys) =
      elim (cmp x y) as (λ o. length (place o x y ys (insert cmp x ys)) ≡ suc (suc (length ys))) [
        | Ordering.gt ↦ ap suc (length-insert x ys)
        | _ ↦ refl
      ]

  pub length-sort : (xs : List A) → length (sort cmp xs) ≡ length xs
  unfolding sort
  length-sort [] = refl
  length-sort (x ∷ xs) = length-insert x (sort cmp xs) ∙ ap suc (length-sort xs)

-- A comparator that orders the items with `P`.
pub record IsOrder {ℓ κ} {A : Type ℓ} (cmp : A → A → Ordering) (P : A → Type κ) : Type (ℓ ⊔ κ) where
  pub total : (a b : A) → P a → P b → cmp a b ≡ Ordering.gt → cmp b a ≢ Ordering.gt
  pub trans :
      (a b c : A)
      → P a
      → P b
      → P c
      → cmp a b ≢ Ordering.gt
      → cmp b c ≢ Ordering.gt
      → cmp a c ≢ Ordering.gt

module _ {ℓ κ} {A : Type ℓ} (cmp : A → A → Ordering) (P : A → Type κ) (order : IsOrder cmp P) where
  below-All :
      (x y : A) (ys : List A)
      → P x
      → P y
      → All P ys
      → cmp x y ≢ Ordering.gt
      → All (λ z. cmp y z ≢ Ordering.gt) ys
      → All (λ z. cmp x z ≢ Ordering.gt) ys
  below-All x y [] px py ps le h = tt
  below-All x y (z ∷ zs) px py ps le h =
      (order.trans x y z px py ps.0 le h.0, below-All x y zs px py ps.1 le h.1)

  place-IsSorted :
      (o : Ordering) (x y : A) (ys later : List A)
      → cmp x y ≡ o
      → P x
      → P y
      → All P ys
      → IsSorted cmp (y ∷ ys)
      → (o ≡ Ordering.gt → All (λ z. cmp y z ≢ Ordering.gt) later)
      → IsSorted cmp later
      → IsSorted cmp (place o x y ys later)
  place-IsSorted Ordering.gt x y ys later e px py ps s below t = (below refl, t)
  place-IsSorted Ordering.lt x y ys later e px py ps s below t =
      let le : cmp x y ≢ Ordering.gt = ground arith in ((le, below-All x y ys px py ps le s.0), s)
  place-IsSorted Ordering.eq x y ys later e px py ps s below t =
      let le : cmp x y ≢ Ordering.gt = ground arith in ((le, below-All x y ys px py ps le s.0), s)

  insert-IsSorted :
      (x : A) (xs : List A) → P x → All P xs → IsSorted cmp xs → IsSorted cmp (insert cmp x xs)
  unfolding insert
  insert-IsSorted x [] px ps s = (tt, tt)
  insert-IsSorted x (y ∷ ys) px ps s =
      place-IsSorted (cmp x y) x y ys (insert cmp x ys) refl px ps.0 ps.1 s
        (λ after.
          All-insert cmp (λ z. cmp y z ≢ Ordering.gt) x ys (order.total x y px ps.0 after) s.0)
        (insert-IsSorted x ys px ps.1 s.1)

  pub sort-IsSorted : (xs : List A) → All P xs → IsSorted cmp (sort cmp xs)
  unfolding sort
  sort-IsSorted [] ps = tt
  sort-IsSorted (x ∷ xs) ps =
      insert-IsSorted x (sort cmp xs) ps.0 (All-sort cmp P xs ps.1) (sort-IsSorted xs ps.1)
