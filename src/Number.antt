-- ===== src/Number.antt =====
-- JavaScript numbers. A finite double is a whole multiple of 2^-1074, so `finite n` is n * 2^-1074,
-- exactly; the two zeros are one. `clamp` is that of src/core/MemoryNotes.ts and
-- src/core/CondensationEngine.ts.
use Prim.Native.Nat.{◌^◌}
use ether_memories.Prelude.{ℕ, ◌≡◌, refl, ◌⊎◌, Bool, true, false, leb, if◌then◌else◌, arith}

-- `negsuc n` is -(n + 1).
pub data ℤ : Type 0 where
  pos : ℕ → ℤ
  negsuc : ℕ → ℤ

pub data Number : Type 0 where
  nan infinity neg_infinity : Number
  finite : ℤ → Number

abbrev pub leb_ℤ : ℤ → ℤ → Bool
leb_ℤ (pos a) (pos b) = leb a b
leb_ℤ (pos a) (negsuc b) = false
leb_ℤ (negsuc a) (pos b) = true
leb_ℤ (negsuc a) (negsuc b) = leb b a

abbrev pub is_nan : Number → Bool
is_nan nan = true
is_nan _ = false

-- `a <= b`
unfoldable pub num_leb : Number → Number → Bool
num_leb nan _ = false
num_leb infinity infinity = true
num_leb infinity _ = false
num_leb neg_infinity nan = false
num_leb neg_infinity _ = true
num_leb (finite a) nan = false
num_leb (finite a) infinity = true
num_leb (finite a) neg_infinity = false
num_leb (finite a) (finite b) = leb_ℤ a b

-- `Math.min(a, b)` and `Math.max(a, b)`: NaN if either is.
unfoldable pub math_min : Number → Number → Number
unfolding num_leb
math_min nan b = nan
math_min a b = if is_nan b then nan else if num_leb a b then a else b

unfoldable pub math_max : Number → Number → Number
unfolding num_leb
math_max nan b = nan
math_max a b = if is_nan b then nan else if num_leb a b then b else a

abbrev pub num_zero : Number
num_zero = finite (pos 0)

abbrev pub num_one : Number
num_one = finite (pos (2 ^ 1074))

unfoldable pub clamp : Number → Number
unfolding math_min math_max
clamp n = math_max num_zero (math_min num_one n)

-- A number of the unit interval, or NaN.
abbrev pub IsUnit : Number → Type 0
IsUnit n = (is_nan n ≡ true) ⊎ ((num_leb num_zero n ≡ true) × (num_leb n num_one ≡ true))

pub clamp-IsUnit : (n : Number) → IsUnit (clamp n)
unfolding clamp
clamp-IsUnit nan = ground arith
clamp-IsUnit infinity = ground arith
clamp-IsUnit neg_infinity = ground arith
clamp-IsUnit (finite (pos n)) = ground arith
clamp-IsUnit (finite (negsuc n)) = ground arith

-- A number that is in range already is kept.
pub clamp_of_IsUnit : (n : Number) → IsUnit n → clamp n ≡ n
unfolding clamp
clamp_of_IsUnit nan h = refl
clamp_of_IsUnit infinity h = ground arith
clamp_of_IsUnit neg_infinity h = ground arith
clamp_of_IsUnit (finite (pos n)) h = ground arith
clamp_of_IsUnit (finite (negsuc n)) h = ground arith
