-- ===== src/Sort/Coarse.antt =====
-- A sort by a comparator also sorts by any coarser relation that the comparator respects, an order
-- or not.
use ether_memories.Prelude.{
  ◌≡◌, ◌≢◌, refl, Ordering, ℕ, zero, suc, List, [], ◌∷◌, All, All-take, take, arith,
}
use ether_memories.Sort.{place, insert, sort, All-insert, All-sort}

abbrev pub Ordered {ℓ κ} : {A : Type ℓ} → (A → A → Type κ) → List A → Type κ
Ordered R [] = Unit
Ordered R (x ∷ xs) = All (R x) xs × Ordered R xs

pub Ordered-take {ℓ κ} :
    {A : Type ℓ} (R : A → A → Type κ) (n : ℕ) (xs : List A) → Ordered R xs → Ordered R (take n xs)
Ordered-take R zero xs h = tt
Ordered-take R (suc n) [] h = tt
Ordered-take R (suc n) (x ∷ xs) h = (All-take (R x) n xs h.0, Ordered-take R n xs h.1)

pub record IsCoarse {ℓ κ} {A : Type ℓ} (cmp : A → A → Ordering) (R : A → A → Type κ)
    : Type (ℓ ⊔ κ) where
  pub forward : (x y : A) → cmp x y ≢ Ordering.gt → R x y
  pub backward : (x y : A) → cmp x y ≡ Ordering.gt → R y x
  pub trans : (x y z : A) → R x y → R y z → R x z

module _ {ℓ κ} {A : Type ℓ} (cmp : A → A → Ordering) (R : A → A → Type κ)
    (coarse : IsCoarse cmp R) where
  above-All : (x y : A) (ys : List A) → R x y → All (R y) ys → All (R x) ys
  above-All x y [] r h = tt
  above-All x y (z ∷ zs) r h = (coarse.trans x y z r h.0, above-All x y zs r h.1)

  place-Ordered :
      (o : Ordering) (x y : A) (ys later : List A)
      → cmp x y ≡ o
      → Ordered R (y ∷ ys)
      → (o ≡ Ordering.gt → All (R y) later)
      → Ordered R later
      → Ordered R (place o x y ys later)
  place-Ordered Ordering.gt x y ys later e s below t = (below refl, t)
  place-Ordered Ordering.lt x y ys later e s below t =
      let r = coarse.forward x y (ground arith) in ((r, above-All x y ys r s.0), s)
  place-Ordered Ordering.eq x y ys later e s below t =
      let r = coarse.forward x y (ground arith) in ((r, above-All x y ys r s.0), s)

  insert-Ordered : (x : A) (xs : List A) → Ordered R xs → Ordered R (insert cmp x xs)
  unfolding insert
  insert-Ordered x [] s = (tt, tt)
  insert-Ordered x (y ∷ ys) s =
      place-Ordered (cmp x y) x y ys (insert cmp x ys) refl s
        (λ after. All-insert cmp (R y) x ys (coarse.backward x y after) s.0)
        (insert-Ordered x ys s.1)

  pub sort-Ordered : (xs : List A) → Ordered R (sort cmp xs)
  unfolding sort
  sort-Ordered [] = tt
  sort-Ordered (x ∷ xs) = insert-Ordered x (sort cmp xs) (sort-Ordered xs)

-- A relation that has no direction holds between the items of a list in every order of them.
module _ {ℓ κ} {A : Type ℓ} (cmp : A → A → Ordering) (R : A → A → Type κ)
    (swap : (x y : A) → R x y → R y x) where
  insert-kept : (x : A) (xs : List A) → All (R x) xs → Ordered R xs → Ordered R (insert cmp x xs)
  unfolding insert
  insert-kept x [] r s = (tt, tt)
  insert-kept x (y ∷ ys) r s =
      elim (cmp x y) as (λ o. Ordered R (place o x y ys (insert cmp x ys))) [
        | Ordering.gt ↦ (All-insert cmp (R y) x ys (swap x y r.0) s.0, insert-kept x ys r.1 s.1)
        | _ ↦ (r, s)
      ]

  pub sort-kept : (xs : List A) → Ordered R xs → Ordered R (sort cmp xs)
  unfolding sort
  sort-kept [] s = tt
  sort-kept (x ∷ xs) s = insert-kept x (sort cmp xs) (All-sort cmp (R x) xs s.0) (sort-kept xs s.1)
