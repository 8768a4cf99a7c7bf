-- ===== src/Durable/Decimal.antt =====
-- Decimal text and `BigInt`: the successor of a sequence number, in src/persistence/wal.ts.
use Prim.Native.Nat.{◌/◌, ◌%◌}
use ether_memories.Prelude.{
  ℕ, zero, suc, ◌+◌, ◌-◌, ◌*◌, ◌<◌, ◌≡◌, Bool, true, false, [], ◌∷◌, ltb, arith,
}
use ether_memories.Text.{Text, same, same_iff}

-- `BigInt(text)`, for a text of digits, after those that gave `sum`
unfoldable pub decimal_from : ℕ → Text → ℕ
decimal_from sum [] = sum
decimal_from sum (u ∷ text) = decimal_from (sum * 10 + (u - 48)) text

unfoldable pub decimal_value : Text → ℕ
unfolding decimal_from
decimal_value text = decimal_from 0 text

-- The digits of a number, in front of those in `rest`; a number below 10^fuel needs `fuel` rounds.
unfoldable pub digits : ℕ → ℕ → Text → Text
digits zero n rest = rest
digits (suc fuel) n rest = elim (ltb n 10) [
  | true ↦ (48 + n) ∷ rest
  | false ↦ digits fuel (n / 10) ((48 + n % 10) ∷ rest)
]

-- `n.toString()`
unfoldable pub decimal : ℕ → Text
unfolding digits
decimal n = digits (suc n) n []

unfoldable pub is_successor : Text → Text → Bool
unfolding decimal decimal_value
is_successor base next = same (decimal (decimal_value base + 1)) next

decimal_from-digits :
    (fuel n : ℕ) (rest : Text)
    → n < fuel
    → decimal_from 0 (digits fuel n rest) ≡ decimal_from n rest
unfolding digits decimal_from
decimal_from-digits zero n rest h = absurd (omega arith)
decimal_from-digits (suc fuel) n rest h =
    ground (arith, decimal_from-digits fuel (n / 10) ((48 + n % 10) ∷ rest))

-- A number is read back from its decimal text.
pub decimal_value-decimal : (n : ℕ) → decimal_value (decimal n) ≡ n
unfolding decimal decimal_value decimal_from
decimal_value-decimal n = decimal_from-digits (suc n) n [] (omega arith)

-- The successor of a sequence number is one more.
pub is_successor_value :
    (base next : Text) → is_successor base next ≡ true → decimal_value next ≡ decimal_value base + 1
unfolding is_successor
is_successor_value base next h =
    rw (← (same_iff _ next).0 h) (decimal_value-decimal (decimal_value base + 1))
