-- ===== src/Time.antt =====
-- JavaScript dates. `at n` is the moment n - 8.64e15 ms after 1970-01-01, so that the whole range of
-- `Date` is covered; `invalid` is a date whose `getTime()` is NaN.
use ether_memories.Prelude.{ℕ, Bool, false, leb, ltb, compare, Ordering}

pub data Time : Type 0 where
  invalid : Time
  at : ℕ → Time

-- `a.getTime() > b.getTime()`; a comparison with NaN is false.
abbrev pub later : Time → Time → Bool
later (at a) (at b) = ltb b a
later invalid _ = false
later (at a) invalid = false

-- `a.getTime() <= b.getTime()`
abbrev pub no_later : Time → Time → Bool
no_later (at a) (at b) = leb a b
no_later invalid _ = false
no_later (at a) invalid = false

-- `a.getTime() - b.getTime()` as the sign that a sort reads; NaN counts as 0.
abbrev pub time_compare : Time → Time → Ordering
time_compare (at a) (at b) = compare a b
time_compare invalid _ = Ordering.eq
time_compare (at a) invalid = Ordering.eq
