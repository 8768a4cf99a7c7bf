-- ===== src/Json/Records.antt =====
-- `isRecord` of src/persistence/walJson.ts, and the property tests of the decoders. A field that is
-- left out reads as `undefined`.
use ether_memories.Prelude.{
  ℕ, Bool, true, false, ◌&&◌, Option, none, some, List, length, all, ◌==◌, ◌*◌, ◌^◌, ◌<◌, ◌≡◌, ltb,
  arith, suc, if◌then◌else◌,
}
use Prim.Native.Nat.{◌/◌, ◌%◌}
use ether_memories.Result.{Result, ◌>>=◌, require}
use ether_memories.Result.Ensures.{Ensures, require-Ensures}
use ether_memories.Number.{pos, negsuc, nan, infinity, neg_infinity, finite}
use ether_memories.Text.{Text, same}
use ether_memories.Value.{
  Value, null, undefined, bool, number, text, date, array, object, Fields, end, field,
}

-- The properties of a value that `isRecord` takes; a date is an object without any.
unfoldable pub is_record : Value → Option Fields
is_record (object fs) = some fs
is_record (date t) = some end
is_record null = none
is_record undefined = none
is_record (bool b) = none
is_record (number n) = none
is_record (text s) = none
is_record (array xs) = none

unfoldable pub has_own : Fields → Text → Bool
has_own end name = false
has_own (field k v fs) name = if same k name then true else has_own fs name

unfoldable pub get_field : Fields → Text → Value
get_field end name = undefined
get_field (field k v fs) name = let rest = get_field fs name in if same k name then v else rest

-- `Object.keys(value).length`
abbrev pub keys_length : Fields → ℕ
keys_length end = 0
keys_length (field k v fs) = suc (keys_length fs)

-- `keys(value, names)`
unfoldable pub has_keys : Fields → List Text → Bool
unfolding has_own
has_keys fs names = keys_length fs == length names && all (has_own fs) names

-- A value that is a string.
abbrev pub as_text : Value → Option Text
as_text (text s) = some s
as_text null = none
as_text undefined = none
as_text (bool b) = none
as_text (number n) = none
as_text (date t) = none
as_text (array xs) = none
as_text (object fs) = none

-- A string with the property `p`, as the decoders ask for one.
unfoldable pub read_text : (Text → Bool) → Value → Option Text
read_text p (text s) = if p s then some s else none
read_text p null = none
read_text p undefined = none
read_text p (bool b) = none
read_text p (number n) = none
read_text p (date t) = none
read_text p (array xs) = none
read_text p (object fs) = none

-- What `read_text` returns has the property.
read_text-holds : (p : Text → Bool) (v : Value) (s : Text) → read_text p v ≡ some s → p s ≡ true
unfolding read_text
read_text-holds p (text t) s h = ground arith
read_text-holds p null s h = ground arith
read_text-holds p undefined s h = ground arith
read_text-holds p (bool b) s h = ground arith
read_text-holds p (number n) s h = ground arith
read_text-holds p (date t) s h = ground arith
read_text-holds p (array xs) s h = ground arith
read_text-holds p (object fs) s h = ground arith

module _ {ℓ κ} {B : Type ℓ} (P : B → Type κ) where
  pub read_text-Ensures :
      (p : Text → Bool) (v : Value) (f : Text → Result B)
      → ((s : Text) → p s ≡ true → Ensures P (f s))
      → Ensures P (require (read_text p v) >>= f)
  read_text-Ensures p v f h =
      require-Ensures P (read_text p v) f (λ s e. h s (read_text-holds p v s e))

-- The number of a value that is a whole number from 0 to 2^53 - 1. A negative whole number, which no
-- decoder takes either, reads as none.
unfoldable pub as_count : Value → Option ℕ
as_count (number (finite (pos n))) =
    if n % 2 ^ 1074 == 0 && ltb n (2 ^ 1127) then some (n / 2 ^ 1074) else none
as_count (number (finite (negsuc n))) = none
as_count (number nan) = none
as_count (number infinity) = none
as_count (number neg_infinity) = none
as_count null = none
as_count undefined = none
as_count (bool b) = none
as_count (text s) = none
as_count (date t) = none
as_count (array xs) = none
as_count (object fs) = none

abbrev pub count_value : ℕ → Value
count_value n = number (finite (pos (n * 2 ^ 1074)))

-- A count is read back from its number.
pub as_count-count_value : (n : ℕ) → n < 2 ^ 53 → as_count (count_value n) ≡ some n
unfolding as_count
as_count-count_value n h = ground arith
