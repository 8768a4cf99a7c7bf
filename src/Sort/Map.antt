-- ===== src/Sort/Map.antt =====
-- A sort by what a function makes of the items.
use ether_memories.Prelude.{ℕ, zero, suc, ◌≡◌, refl, ap, ◌∙◌, Ordering, List, [], ◌∷◌, map, take}
use ether_memories.Sort.{place, insert, sort}

module _ {ℓ κ} {A : Type ℓ} {B : Type κ} (f : A → B) where
  pub map-take : (n : ℕ) (xs : List A) → map f (take n xs) ≡ take n (map f xs)
  map-take zero xs = refl
  map-take (suc n) [] = refl
  map-take (suc n) (x ∷ xs) = ap (λ ys. f x ∷ ys) (map-take n xs)

  map-place :
      (o : Ordering) (x y : A) (ys later : List A)
      → map f (place o x y ys later) ≡ place o (f x) (f y) (map f ys) (map f later)
  map-place Ordering.lt x y ys later = refl
  map-place Ordering.eq x y ys later = refl
  map-place Ordering.gt x y ys later = refl

  module _ (cmp : B → B → Ordering) where
    abbrev pub through : A → A → Ordering
    through x y = cmp (f x) (f y)

    map-insert : (x : A) (xs : List A) → map f (insert through x xs) ≡ insert cmp (f x) (map f xs)
    unfolding insert
    map-insert x [] = refl
    map-insert x (y ∷ ys) =
        map-place (cmp (f x) (f y)) x y ys (insert through x ys)
        ∙ ap (place (cmp (f x) (f y)) (f x) (f y) (map f ys)) (map-insert x ys)

    pub map-sort : (xs : List A) → map f (sort through xs) ≡ sort cmp (map f xs)
    unfolding sort
    map-sort [] = refl
    map-sort (x ∷ xs) = map-insert x (sort through xs) ∙ ap (insert cmp (f x)) (map-sort xs)
