-- ===== src/Bytes.antt =====
-- Byte arrays (`Uint8Array`, `Buffer`) as lists of numbers below 256: the calls of them that
-- src/persistence makes.
pub mod Slices
pub mod Utf8
use Prim.Native.Nat.{◌/◌, ◌%◌}
use ether_memories.Prelude.{
  ℕ, suc, ◌+◌, ◌-◌, ◌*◌, ◌^◌, ◌<◌, ◌≡◌, Option, none, some, Bool, List, [], ◌∷◌, ◌++◌, take, drop,
  ltb, ◌==◌, if◌then◌else◌, arith,
}
use ether_memories.Text.{Text}

abbrev pub Bytes : Type 0
Bytes = List ℕ

-- `bytes.subarray(from, to)`, which is cut to the bytes there are, as with `Math.min` at `to`.
abbrev pub subarray : Bytes → ℕ → ℕ → Bytes
subarray bytes from to = drop from (take to bytes)

-- The number that the bytes of a big-endian word write, after those that gave `sum`.
unfoldable pub big_endian : ℕ → Bytes → ℕ
big_endian sum [] = sum
big_endian sum (b ∷ bytes) = big_endian (sum * 256 + b) bytes

-- `bytes.readUInt32BE(at)`, for an offset that has four bytes
unfoldable pub read_u32 : Bytes → ℕ → ℕ
read_u32 bytes offset = big_endian 0 (subarray bytes offset (offset + 4))

-- What `bytes.writeUInt32BE(n, at)` writes, for a number below 2^32.
unfoldable pub u32_bytes : ℕ → Bytes
u32_bytes n = n / 2 ^ 24 % 256 ∷ n / 2 ^ 16 % 256 ∷ n / 2 ^ 8 % 256 ∷ n % 256 ∷ []

-- A word is read as it was written.
pub big_endian-u32_bytes : (n : ℕ) → n < 2 ^ 32 → big_endian 0 (u32_bytes n) ≡ n
unfolding big_endian u32_bytes
big_endian-u32_bytes n h = omega arith

-- `(~n) >>> 0`, for a number below 2^32
abbrev pub complement : ℕ → ℕ
complement n = 2 ^ 32 - 1 - n

-- The code unit of a digit of base 16.
abbrev pub hex_digit : ℕ → ℕ
hex_digit d = if ltb d 10 then 48 + d else 87 + d

-- `bytes.toString("hex")`
unfoldable pub hex : Bytes → Text
hex [] = []
hex (b ∷ bytes) = hex_digit (b / 16) ∷ hex_digit (b % 16) ∷ hex bytes

abbrev one_more : Option ℕ → Option ℕ
one_more none = none
one_more (some n) = some (suc n)

-- `bytes.indexOf(byte)`, or none for -1
unfoldable pub index_of : ℕ → Bytes → Option ℕ
index_of byte [] = none
index_of byte (b ∷ bytes) =
    let rest = index_of byte bytes in if b == byte then some 0 else one_more rest
