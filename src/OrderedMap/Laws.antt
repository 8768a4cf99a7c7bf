-- ===== src/OrderedMap/Laws.antt =====
-- What a map holds after `set` and `delete`.
use ether_memories.Prelude.{
  ◌≡◌, refl, sym, ◌||◌, ◌++◌, Bool, true, false, [], ◌∷◌, none, some, is_some, if◌then◌else◌, arith,
  All, keep, Bool-cases, inl, inr,
}
use mathlib.Core.Path.{subst}
use ether_memories.Text.{Text, same, same_iff, same_refl}
use ether_memories.OrderedMap.{Map, get, has, set, delete, values, IsDistinct}

module _ {ℓ} {V : Type ℓ} where
  pub get-set :
      (k j : Text) (v : V) (m : Map V) → get j (set k v m) ≡ (if same k j then some v else get j m)
  unfolding get set
  get-set k j v [] = refl
  get-set k j v ((i, w) ∷ m) =
      ground (arith, same_iff k j, same_iff i k, same_iff i j, get-set k j v m)

  pub get-delete :
      (k j : Text) (m : Map V) → get j (delete k m) ≡ (if same k j then none else get j m)
  unfolding get delete
  get-delete k j [] = ground arith
  get-delete k j ((i, w) ∷ m) =
      ground (arith, same_iff k j, same_iff i k, same_iff i j, get-delete k j m)

  pub has_lem : (k : Text) (m : Map V) → has k m ≡ is_some (get k m)
  unfolding get has
  has_lem k [] = refl
  has_lem k ((i, w) ∷ m) = ground (arith, has_lem k m)

  pub has-set :
      (k j : Text) (v : V) (m : Map V) → has j (set k v m) ≡ (if same k j then true else has j m)
  has-set k j v m = ground (arith, has_lem j (set k v m), has_lem j m, get-set k j v m)

  pub has-delete :
      (k j : Text) (m : Map V) → has j (delete k m) ≡ (if same k j then false else has j m)
  has-delete k j m = ground (arith, has_lem j (delete k m), has_lem j m, get-delete k j m)

  pub IsDistinct-set : (k : Text) (v : V) (m : Map V) → IsDistinct m → IsDistinct (set k v m)
  unfolding set has
  IsDistinct-set k v [] h = (refl, tt)
  IsDistinct-set k v ((i, w) ∷ m) h =
      ground (arith, IsDistinct-set k v m h.1, has-set k i v m, same_iff k i, same_iff i k)

  pub IsDistinct-delete : (k : Text) (m : Map V) → IsDistinct m → IsDistinct (delete k m)
  unfolding delete
  IsDistinct-delete k [] h = tt
  IsDistinct-delete k ((i, w) ∷ m) h = ground (arith, IsDistinct-delete k m h.1, has-delete k i m)

  pub delete_absent : (k : Text) (m : Map V) → has k m ≡ false → delete k m ≡ m
  unfolding delete has
  delete_absent k [] h = refl
  delete_absent k ((i, w) ∷ m) h = ground (arith, delete_absent k m)

  has-append : (k : Text) (m n : Map V) → has k (m ++ n) ≡ (has k m || has k n)
  unfolding has
  has-append k [] n = refl
  has-append k ((i, w) ∷ m) n = ground (arith, has-append k m n)

  pub delete-middle :
      (k : Text) (v : V) (m n : Map V)
      → IsDistinct (m ++ (k, v) ∷ n)
      → delete k (m ++ (k, v) ∷ n) ≡ m ++ n
  unfolding delete has
  delete-middle k v [] n h = rw (same_refl k) (delete_absent k n h.0)
  delete-middle k v ((i, w) ∷ m) n h =
      ground
        (arith, delete-middle k v m n h.1, has-append i m ((k, v) ∷ n), same_iff i k, same_iff k i)

  pub absent_before :
      (k : Text) (v : V) (m n : Map V) → IsDistinct (m ++ (k, v) ∷ n) → has k m ≡ false
  unfolding has
  absent_before k v [] n h = refl
  absent_before k v ((i, w) ∷ m) n h =
      ground
        (arith, absent_before k v m n h.1, has-append i m ((k, v) ∷ n), same_iff i k, same_iff k i)

  pub set_absent : (k : Text) (v : V) (m : Map V) → has k m ≡ false → set k v m ≡ m ++ (k, v) ∷ []
  unfolding set has
  set_absent k v [] h = refl
  set_absent k v ((i, w) ∷ m) h = ground (arith, set_absent k v m)

  -- No key stands twice among the entries that a filter keeps.
  has-keep :
      (p : Text × V → Bool) (k : Text) (m : Map V) → has k m ≡ false → has k (keep p m) ≡ false
  unfolding has
  has-keep p k [] h = refl
  has-keep p k ((i, w) ∷ m) h = ground (arith, has-keep p k m)

  pub IsDistinct-keep : (p : Text × V → Bool) (m : Map V) → IsDistinct m → IsDistinct (keep p m)
  IsDistinct-keep p [] h = tt
  IsDistinct-keep p ((i, w) ∷ m) h = elim (Bool-cases (p (i, w))) [
    | inl e ↦ rw e (has-keep p i m h.0, IsDistinct-keep p m h.1)
    | inr e ↦ rw e (IsDistinct-keep p m h.1)
  ]

module _ {ℓ κ} {V : Type ℓ} (P : V → Type κ) where
  pub All-values-set :
      (k : Text) (v : V) (m : Map V) → P v → All P (values m) → All P (values (set k v m))
  unfolding set
  All-values-set k v [] p h = (p, tt)
  All-values-set k v ((i, w) ∷ m) p h = ground (arith, All-values-set k v m p h.1)

  pub All-values-delete : (k : Text) (m : Map V) → All P (values m) → All P (values (delete k m))
  unfolding delete
  All-values-delete k [] h = tt
  All-values-delete k ((i, w) ∷ m) h = ground (arith, All-values-delete k m h.1)

  pub All-values-get : (k : Text) (m : Map V) (v : V) → All P (values m) → get k m ≡ some v → P v
  unfolding get
  All-values-get k [] v h e = ground arith
  All-values-get k ((i, w) ∷ m) v h e = elim (Bool-cases (same i k)) [
    | inl s ↦ let found : w ≡ v = ground arith in subst P found h.0
    | inr s ↦ All-values-get k m v h.1 (ground arith)
  ]

-- The same over entries, key and value together.
module _ {ℓ κ} {V : Type ℓ} (P : Text × V → Type κ) where
  pub All-set : (k : Text) (v : V) (m : Map V) → P (k, v) → All P m → All P (set k v m)
  unfolding set
  All-set k v [] p h = (p, tt)
  All-set k v ((i, w) ∷ m) p h = elim (Bool-cases (same i k)) [
    | inl e ↦ rw e (subst (λ j. P (j, v)) (sym ((same_iff i k).0 e)) p, h.1)
    | inr e ↦ rw e (h.0, All-set k v m p h.1)
  ]

  pub All-delete : (k : Text) (m : Map V) → All P m → All P (delete k m)
  unfolding delete
  All-delete k [] h = tt
  All-delete k ((i, w) ∷ m) h = ground (arith, All-delete k m h.1)

  pub All-get : (k : Text) (m : Map V) (v : V) → All P m → get k m ≡ some v → P (k, v)
  unfolding get
  All-get k [] v h e = ground arith
  All-get k ((i, w) ∷ m) v h e = elim (Bool-cases (same i k)) [
    | inl s ↦
        let found : w ≡ v = ground arith in
        subst (λ j. P (j, v)) ((same_iff i k).0 s) (subst (λ x. P (i, x)) found h.0)
    | inr s ↦ All-get k m v h.1 (ground arith)
  ]
