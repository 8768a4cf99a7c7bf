-- ===== src/Json.antt =====
-- src/persistence/walJson.ts: canonical JSON of the log. `JSON.stringify` of scalars and `JSON.parse` are
-- those of the runtime. A value is a tree without accessors, so the checks against cycles, symbols,
-- hidden fields and -0 have nothing to refuse, and `freezeJson` changes nothing.
pub mod Records
pub mod Nesting
pub mod Canonical
use Prim.Native.Nat.{◌%◌}
use ether_memories.Prelude.{
  ℕ, zero, suc, ◌+◌, ◌-◌, ◌^◌, ◌≡◌, Bool, true, false, not, ◌&&◌, ◌||◌, Ordering, Option, none,
  some, List, [], ◌∷◌, ◌++◌, length, ltb, leb, ◌==◌, if◌then◌else◌, arith,
}
use ether_memories.Result.{Result, ok, err, ErrorCode, ◌>>=◌}
use ether_memories.Result.ErrorCode.{persistence_corruption}
use ether_memories.Text.{Text, units, same, includes, code_unit_compare}
use ether_memories.Number.{ℤ, pos, negsuc, Number, nan, infinity, neg_infinity, finite}
use ether_memories.Value.{
  Value, null, undefined, bool, number, text, date, array, object, Items, nil, cons, Fields, end,
  field,
}
use ether_memories.Bytes.{Bytes}
use ether_memories.Bytes.Utf8.{utf8_encode, utf8_decode, is_high, is_low}
use ether_memories.Json.Nesting.{nests_within}
use ether_memories.Json.Records.{keys_length}

-- What the runtime does with JSON texts.
pub record JsonRuntime : Type 0 where
  -- `JSON.stringify(value)`
  pub stringify : Value → Text
  -- `JSON.parse(text)`, none if it throws
  pub parse : Text → Option Value

pub record JsonBounds : Type 0 where
  pub bytes : ℕ
  pub depth : ℕ
  pub nodes : ℕ

-- `walCorruption(message)`
abbrev pub wal_corruption {ℓ} : {A : Type ℓ} → Result A
wal_corruption = err ErrorCode.persistence_corruption

-- The chunks so far, joined, with the two counts of `canonicalJson`.
pub record Writer : Type 0 where
  pub written : Text
  pub bytes : ℕ
  pub nodes : ℕ

-- The next step, unless the last one threw.
infixl 5 ◌>?◌
abbrev pub ◌>?◌ {ℓ κ} : {A : Type ℓ} {B : Type κ} → Option A → (A → Option B) → Option B
none >? f = none
some a >? f = f a

unfoldable pub append : JsonBounds → Text → Writer → Option Writer
append bounds s w =
    let bytes = w.bytes + length (utf8_encode s) in
    if ltb bounds.bytes bytes
    then none
    else some (record { written = w.written ++ s; bytes = bytes; nodes = w.nodes })

-- Every high surrogate stands before a low one, and no low one stands alone.
unfoldable pub is_paired : Text → Bool
is_paired [] = true
is_paired (u ∷ []) = not (is_high u || is_low u)
is_paired (u ∷ v ∷ rest) = elim (is_high u) [
  | true ↦ is_low v && is_paired rest
  | false ↦ not (is_low u) && is_paired (v ∷ rest)
]

unfoldable pub write_string : JsonRuntime → JsonBounds → Text → Writer → Option Writer
unfolding append is_paired
write_string json bounds s w =
    if ltb bounds.bytes (length s) || not (is_paired s)
    then none
    else append bounds (json.stringify (text s)) w

-- `Number.isInteger(n) && !Number.isSafeInteger(n)` fails, and `Number.isFinite(n)` holds: what is
-- not whole, or at most 2^53 - 1 on either side of zero.
unfoldable pub is_canonical_number : Number → Bool
is_canonical_number nan = false
is_canonical_number infinity = false
is_canonical_number neg_infinity = false
is_canonical_number (finite (pos n)) = not (n % 2 ^ 1074 == 0) || ltb n (2 ^ 1127)
is_canonical_number (finite (negsuc n)) = not ((n + 1) % 2 ^ 1074 == 0) || ltb (n + 1) (2 ^ 1127)

-- `Object.getOwnPropertyNames(item).sort()`: the fields of an object, by the code units of their names.
unfoldable pub insert_field : Text → Value → Fields → Fields
insert_field k v end = field k v end
insert_field k v (field l w fs) =
    let later = field l w (insert_field k v fs) in
    elim (code_unit_compare k l) [ Ordering.gt ↦ later | _ ↦ field k v (field l w fs) ]

-- A value with the fields of every object in it in the order in which they are written.
unfoldable mutual
  unfolding insert_field

  pub sorted_value : Value → Value
  sorted_value null = null
  sorted_value undefined = undefined
  sorted_value (bool b) = bool b
  sorted_value (number n) = number n
  sorted_value (text s) = text s
  sorted_value (date t) = date t
  sorted_value (array xs) = array (sorted_items xs)
  sorted_value (object fs) = object (sorted_fields fs)

  pub sorted_items : Items → Items
  sorted_items nil = nil
  sorted_items (cons x xs) = cons (sorted_value x) (sorted_items xs)

  pub sorted_fields : Fields → Fields
  sorted_fields end = end
  sorted_fields (field k v fs) = insert_field k (sorted_value v) (sorted_fields fs)

abbrev pub items_length : Items → ℕ
items_length nil = 0
items_length (cons x xs) = suc (items_length xs)

abbrev pub reserved_keys : List Text
reserved_keys = units "__proto__" ∷ units "constructor" ∷ units "prototype" ∷ []

-- The comma before every item but the first.
abbrev separate : Bool → JsonBounds → Writer → Option Writer
separate true bounds w = some w
separate false bounds w = append bounds (units ",") w

-- `++nodes > bounds.nodes || depth > bounds.depth`
unfoldable pub enter : JsonBounds → ℕ → Writer → Option Writer
enter bounds depth w =
    if ltb bounds.nodes (w.nodes + 1) || ltb bounds.depth depth
    then none
    else some (record { written = w.written; bytes = w.bytes; nodes = w.nodes + 1 })

module _ (json : JsonRuntime) (bounds : JsonBounds) where
  unfoldable mutual
    unfolding enter append write_string is_canonical_number

    pub visit_value : Value → ℕ → Writer → Option Writer
    visit_value null depth w = enter bounds depth w >? append bounds (units "null")
    visit_value undefined depth w = none
    visit_value (bool b) depth w =
        enter bounds depth w >? append bounds (if b then units "true" else units "false")
    visit_value (number n) depth w =
        if is_canonical_number n
        then enter bounds depth w >? append bounds (json.stringify (number n))
        else none
    visit_value (text s) depth w = enter bounds depth w >? write_string json bounds s
    visit_value (date t) depth w = none
    visit_value (array xs) depth w =
        if ltb bounds.nodes (items_length xs)
        then none
        else enter bounds depth w
          >? append bounds (units "[")
          >? visit_items true xs (suc depth)
          >? append bounds (units "]")
    visit_value (object fs) depth w =
        if ltb bounds.nodes (keys_length fs)
        then none
        else enter bounds depth w
          >? append bounds (units "{")
          >? visit_fields true fs (suc depth)
          >? append bounds (units "}")

    pub visit_items : Bool → Items → ℕ → Writer → Option Writer
    visit_items first nil depth w = some w
    visit_items first (cons x xs) depth w =
        separate first bounds w >? visit_value x depth >? visit_items false xs depth

    pub visit_fields : Bool → Fields → ℕ → Writer → Option Writer
    visit_fields first end depth w = some w
    visit_fields first (field k v fs) depth w =
        if includes reserved_keys k
        then none
        else separate first bounds w
          >? write_string json bounds k
          >? append bounds (units ":")
          >? visit_value v depth
          >? visit_fields false fs depth

  abbrev no_text : Writer
  no_text = record { written = []; bytes = 0; nodes = 0 }

  abbrev encoded : Option Writer → Result Bytes
  encoded none = wal_corruption
  encoded (some w) = ok (utf8_encode w.written)

  -- `canonicalJson(value, bounds)`
  unfoldable pub canonical_json : Value → Result Bytes
  unfolding visit_value sorted_value
  canonical_json value = encoded (visit_value (sorted_value value) 0 no_text)

  unfoldable pub parse_canonical : Bytes → Option Value → Result Value
  unfolding canonical_json
  parse_canonical bytes none = wal_corruption
  parse_canonical bytes (some value) = canonical_json value >>= λ canonical.
      if same bytes canonical then ok value else wal_corruption

  unfoldable pub decode_text : Bytes → Option Text → Result Value
  unfolding parse_canonical nests_within
  decode_text bytes none = wal_corruption
  decode_text bytes (some s) =
      if nests_within (bounds.depth + 1) s
      then parse_canonical bytes (json.parse s)
      else wal_corruption

  -- `decodeCanonicalJson(bytes, bounds)`
  unfoldable pub decode_canonical_json : Bytes → Result Value
  unfolding decode_text utf8_decode
  decode_canonical_json bytes =
      if length bytes == 0 || ltb bounds.bytes (length bytes)
      then wal_corruption
      else decode_text bytes (utf8_decode bytes)
