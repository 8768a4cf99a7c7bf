-- ===== src/OrderedMap.antt =====
-- The `Map` of JavaScript with string keys: entries in the order of insertion. `set` on a key that
-- is there keeps its place.
pub mod Laws
use ether_memories.Prelude.{
  ◌≡◌, Bool, true, false, List, [], ◌∷◌, Option, none, some, is_some, if◌then◌else◌, map,
}
use ether_memories.Text.{Text, same}

abbrev pub Map {ℓ} : Type ℓ → Type ℓ
Map V = List (Text × V)

module _ {ℓ} {V : Type ℓ} where
  unfoldable pub get : Text → Map V → Option V
  get k [] = none
  get k ((j, v) ∷ m) = if same j k then some v else get k m

  unfoldable pub has : Text → Map V → Bool
  has k [] = false
  has k ((j, v) ∷ m) = if same j k then true else has k m

  unfoldable pub set : Text → V → Map V → Map V
  set k v [] = (k, v) ∷ []
  set k v ((j, w) ∷ m) = if same j k then (j, v) ∷ m else (j, w) ∷ set k v m

  -- `map.delete(k)`; whether there was such a key is `has k`.
  unfoldable pub delete : Text → Map V → Map V
  delete k [] = []
  delete k ((j, v) ∷ m) = let rest = delete k m in if same j k then rest else (j, v) ∷ rest

  abbrev pub values : Map V → List V
  values m = map (λ e. e.1) m

  abbrev pub keys : Map V → List Text
  keys m = map (λ e. e.0) m

  -- No key stands twice.
  abbrev pub IsDistinct : Map V → Type 0
  IsDistinct [] = Unit
  IsDistinct ((k, v) ∷ m) = (has k m ≡ false) × IsDistinct m
