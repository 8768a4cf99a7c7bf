-- ===== src/Lexical/Keyed.antt =====
-- Maps whose entries stand under their ids, and what `new Map` makes of their values.
use mathlib.Core.Path.{subst}
use ether_memories.Prelude.{
  ◌≡◌, refl, sym, ap, ◌∙◌, false, some, List, [], ◌∷◌, ◌++◌, map, All, All-zip, append_assoc, arith,
}
use ether_memories.Text.{Text, same, same_iff, same_refl}
use ether_memories.OrderedMap
use ether_memories.OrderedMap.{Map, IsDistinct, values}
use ether_memories.OrderedMap.Laws.{absent_before, set_absent}
use ether_memories.Types.{DiaryEntry}
use ether_memories.Lexical.{map_of}

module _ {ℓ} {V : Type ℓ} where
  append_none : (m : Map V) → m ++ [] ≡ m
  append_none [] = refl
  append_none (e ∷ m) = ap (λ n. e ∷ n) (append_none m)

  -- Entries with distinct keys are a map as they stand.
  map_of-distinct : (es m : Map V) → IsDistinct (m ++ es) → map_of es m ≡ m ++ es
  unfolding map_of
  map_of-distinct [] m d = sym (append_none m)
  map_of-distinct ((k, v) ∷ es) m d =
      let last = set_absent k v m (absent_before k v m es d) in
      let whole = append_assoc m ((k, v) ∷ []) es in
      rw last (map_of-distinct es (m ++ (k, v) ∷ []) (subst IsDistinct (sym whole) d) ∙ whole)

-- Every entry stands under its id.
abbrev pub IsKeyed : Map DiaryEntry → Type 0
IsKeyed m = All (λ x. x.1.id ≡ x.0) m

module _ {ℓ} {V : Type ℓ} (f : DiaryEntry → V) where
  abbrev pub by_id : List DiaryEntry → Map V
  by_id es = map (λ e. (e.id, f e)) es

  has-by_id :
      (k : Text) (m : Map DiaryEntry)
      → IsKeyed m
      → OrderedMap.has k (by_id (values m)) ≡ OrderedMap.has k m
  unfolding OrderedMap.has
  has-by_id k [] h = refl
  has-by_id k ((j, e) ∷ m) h = rw (h.0, has-by_id k m h.1) refl

  by_id-IsDistinct : (m : Map DiaryEntry) → IsKeyed m → IsDistinct m → IsDistinct (by_id (values m))
  by_id-IsDistinct [] h d = tt
  by_id-IsDistinct ((j, e) ∷ m) h d = (rw h.0 (has-by_id j m h.1 ∙ d.0), by_id-IsDistinct m h.1 d.1)

  pub map_of-by_id :
      (m : Map DiaryEntry)
      → IsKeyed m
      → IsDistinct m
      → map_of (by_id (values m)) [] ≡ by_id (values m)
  map_of-by_id m h d = map_of-distinct (by_id (values m)) [] (by_id-IsDistinct m h d)

  pub values-by_id : (es : List DiaryEntry) → values (by_id es) ≡ map f es
  values-by_id [] = refl
  values-by_id (e ∷ es) = ap (λ vs. f e ∷ vs) (values-by_id es)

pub by_id_self : (m : Map DiaryEntry) → IsKeyed m → by_id (λ e. e) (values m) ≡ m
by_id_self [] h = refl
by_id_self ((j, e) ∷ m) h = rw (h.0, by_id_self m h.1)

other_ids :
    (k : Text) (m : Map DiaryEntry)
    → IsKeyed m
    → OrderedMap.has k m ≡ false
    → All (λ x. same k x.1.id ≡ false) m
unfolding OrderedMap.has
other_ids k [] h absent = tt
other_ids k ((j, e) ∷ m) h absent =
    (rw h.0 (ground (arith, same_iff j k, same_iff k j)), other_ids k m h.1 (ground arith))

-- Each entry is found under its id.
pub found_by_id :
    (m : Map DiaryEntry)
    → IsKeyed m
    → IsDistinct m
    → All (λ x. OrderedMap.get x.1.id m ≡ some x.1) m
unfolding OrderedMap.get
found_by_id [] h d = tt
found_by_id ((j, e) ∷ m) h d = (
  rw (h.0, same_refl j) refl,
  All-zip (λ x. same j x.1.id ≡ false) (λ x. OrderedMap.get x.1.id m ≡ some x.1)
      (λ x. OrderedMap.get x.1.id ((j, e) ∷ m) ≡ some x.1) (λ x a b. rw a b) m
      (other_ids j m h.1 d.0) (found_by_id m h.1 d.1),
)
