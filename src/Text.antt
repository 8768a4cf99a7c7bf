-- ===== src/Text.antt =====
-- Strings as lists of UTF-16 code units: equality, `trim`, and `codeUnitCompare` of
-- src/core/Tokenizer.ts.
pub mod Order
pub mod Trim
use Prim.Native.Char.{code}
use Prim.Native.String
use Prim.Native.String.{String}
use ether_memories.Prelude.{
  ℕ, ◌≡◌, refl, ◌↔◌, Bool, true, false, ◌&&◌, ◌||◌, List, [], ◌∷◌, ◌++◌, compare, Ordering, arith,
  ltb, leb, ◌==◌,
}

abbrev pub Text : Type 0
Text = List ℕ

-- The code units of a literal below U+10000.
abbrev pub units : String → Text
units String.[] = []
units (String.◌∷◌ c s) = code c ∷ units s

-- `a === b`
unfoldable pub same : Text → Text → Bool
same [] [] = true
same [] (b ∷ t) = false
same (a ∷ s) [] = false
same (a ∷ s) (b ∷ t) = a == b && same s t

pub same_iff : (s t : Text) → (same s t ≡ true) ↔ (s ≡ t)
unfolding same
same_iff [] [] = ground arith
same_iff [] (b ∷ t) = ground arith
same_iff (a ∷ s) [] = ground arith
same_iff (a ∷ s) (b ∷ t) = ground (arith, same_iff s t)

pub same_refl : (s : Text) → same s s ≡ true
same_refl s = (same_iff s s).1 refl

-- `list.includes(s)`
unfoldable pub includes : List Text → Text → Bool
includes [] s = false
includes (t ∷ ts) s = same t s || includes ts s

pub includes-snoc :
    (xs : List Text) (y n : Text) → includes (xs ++ y ∷ []) n ≡ (includes xs n || same y n)
unfolding includes
includes-snoc [] y n = ground arith
includes-snoc (x ∷ xs) y n = ground (arith, includes-snoc xs y n)

-- The code units that `trim` removes: white space and line terminators of ECMAScript.
unfoldable pub is_space : ℕ → Bool
is_space c =
    (leb 9 c && leb c 13)
    || c == 32
    || c == 0xa0
    || c == 0x1680
    || (leb 0x2000 c && leb c 0x200a)
    || c == 0x2028
    || c == 0x2029
    || c == 0x202f
    || c == 0x205f
    || c == 0x3000
    || c == 0xfeff

-- `a < b ? -1 : a > b ? 1 : 0`, by the first code unit that differs.
unfoldable pub code_unit_compare : Text → Text → Ordering
code_unit_compare [] [] = Ordering.eq
code_unit_compare [] (b ∷ t) = Ordering.lt
code_unit_compare (a ∷ s) [] = Ordering.gt
code_unit_compare (a ∷ s) (b ∷ t) =
    let rest = code_unit_compare s t in
    elim (compare a b) [
      | Ordering.lt ↦ Ordering.lt
      | Ordering.eq ↦ rest
      | Ordering.gt ↦ Ordering.gt
    ]
