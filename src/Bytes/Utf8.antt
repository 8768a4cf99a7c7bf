-- ===== src/Bytes/Utf8.antt =====
-- UTF-8 as `TextDecoder` and `Buffer` have it: the decoder of the WHATWG encoding standard, a
-- machine that reads one byte at a time, and the encoder. Texts are UTF-16 code units.
use Prim.Native.Nat.{◌/◌, ◌%◌}
use ether_memories.Prelude.{
  ℕ, zero, suc, ◌+◌, ◌-◌, ◌*◌, ◌≡◌, refl, Bool, true, false, ◌&&◌, ◌||◌, Option, none, some,
  is_some, [], ◌∷◌, ◌++◌, take, ltb, leb, ◌==◌, if◌then◌else◌, arith,
}
use ether_memories.Text.{Text}
use ether_memories.Bytes.{Bytes}

-- How many bytes of a character are missing, the bounds of the next one, the code point so far
-- and the code units of the characters before.
pub record Decoder : Type 0 where
  pub needed : ℕ
  pub lower : ℕ
  pub upper : ℕ
  pub point : ℕ
  pub decoded : Text

abbrev pub new_decoder : Decoder
new_decoder = record { needed = 0; lower = 0x80; upper = 0xbf; point = 0; decoded = [] }

-- The code units of a code point.
abbrev utf16 : ℕ → Text
utf16 point =
    if ltb point 0x10000
    then point ∷ []
    else (0xd800 + (point - 0x10000) / 1024) ∷ (0xdc00 + (point - 0x10000) % 1024) ∷ []

abbrev start : ℕ → ℕ → ℕ → ℕ → Decoder → Option Decoder
start needed lower upper point d =
    some
      (record { needed = needed; lower = lower; upper = upper; point = point; decoded = d.decoded })

abbrev emit : ℕ → Decoder → Option Decoder
emit point d = some (record {
  needed = 0;
  lower = 0x80;
  upper = 0xbf;
  point = 0;
  decoded = d.decoded ++ utf16 point;
})

-- The first byte of a character; none, if there is no such one.
unfoldable pub lead_byte : ℕ → Decoder → Option Decoder
lead_byte b d =
    if ltb b 0x80
    then emit b d
    else if leb 0xc2 b && leb b 0xdf
    then start 1 0x80 0xbf (b - 0xc0) d
    else if b == 0xe0
    then start 2 0xa0 0xbf 0 d
    else if b == 0xed
    then start 2 0x80 0x9f 13 d
    else if leb 0xe1 b && leb b 0xef
    then start 2 0x80 0xbf (b - 0xe0) d
    else if b == 0xf0
    then start 3 0x90 0xbf 0 d
    else if b == 0xf4
    then start 3 0x80 0x8f 4 d
    else if leb 0xf1 b && leb b 0xf3
    then start 3 0x80 0xbf (b - 0xf0) d
    else none

unfoldable pub read_byte : Decoder → ℕ → Option Decoder
unfolding lead_byte
read_byte d b =
    if d.needed == 0
    then lead_byte b d
    else if ltb b d.lower || ltb d.upper b
    then none
    else if d.needed == 1
    then emit (d.point * 64 + (b - 0x80)) d
    else start (d.needed - 1) 0x80 0xbf (d.point * 64 + (b - 0x80)) d

unfoldable pub read_bytes : Option Decoder → Bytes → Option Decoder
unfolding read_byte
read_bytes d [] = d
read_bytes none (b ∷ bytes) = none
read_bytes (some d) (b ∷ bytes) = read_bytes (read_byte d b) bytes

abbrev whole_text : Option Decoder → Option Text
whole_text none = none
whole_text (some d) = if d.needed == 0 then some d.decoded else none

-- `new TextDecoder("utf-8", { fatal: true, ignoreBOM: true }).decode(bytes)`, none if it throws
unfoldable pub utf8_decode : Bytes → Option Text
unfolding read_bytes
utf8_decode bytes = whole_text (read_bytes (some new_decoder) bytes)

-- Whether the fatal decoder takes the bytes with `{ stream: true }`.
unfoldable pub streams : Bytes → Bool
unfolding read_bytes
streams bytes = is_some (read_bytes (some new_decoder) bytes)

read_bytes-none : (bytes : Bytes) → read_bytes none bytes ≡ none
unfolding read_bytes
read_bytes-none [] = refl
read_bytes-none (b ∷ bytes) = refl

read_bytes-take :
    (k : ℕ) (bytes : Bytes) (d : Option Decoder)
    → is_some (read_bytes d bytes) ≡ true
    → is_some (read_bytes d (take k bytes)) ≡ true
unfolding read_bytes
read_bytes-take zero [] d h = h
read_bytes-take zero (b ∷ bytes) none h = h
read_bytes-take zero (b ∷ bytes) (some d) h = refl
read_bytes-take (suc k) [] d h = h
read_bytes-take (suc k) (b ∷ bytes) none h = h
read_bytes-take (suc k) (b ∷ bytes) (some d) h = read_bytes-take k bytes (read_byte d b) h

-- Bytes that the decoder takes may end anywhere before.
pub streams-take : (k : ℕ) (bytes : Bytes) → streams bytes ≡ true → streams (take k bytes) ≡ true
unfolding streams
streams-take k bytes h = read_bytes-take k bytes (some new_decoder) h

-- A text that decodes is taken by the stream decoder as well.
pub streams_of_utf8_decode :
    (bytes : Bytes) {s : Text} → utf8_decode bytes ≡ some s → streams bytes ≡ true
unfolding utf8_decode streams
streams_of_utf8_decode bytes h = ground arith

-- The bytes of a code point.
abbrev point_bytes : ℕ → Bytes
point_bytes p =
    if ltb p 0x80
    then p ∷ []
    else if ltb p 0x800
    then (0xc0 + p / 64) ∷ (0x80 + p % 64) ∷ []
    else if ltb p 0x10000
    then (0xe0 + p / 4096) ∷ (0x80 + p / 64 % 64) ∷ (0x80 + p % 64) ∷ []
    else (0xf0 + p / 262144) ∷ (0x80 + p / 4096 % 64) ∷ (0x80 + p / 64 % 64) ∷ (0x80 + p % 64) ∷ []

abbrev pub is_high : ℕ → Bool
is_high unit = leb 0xd800 unit && leb unit 0xdbff

abbrev pub is_low : ℕ → Bool
is_low unit = leb 0xdc00 unit && leb unit 0xdfff

-- `Buffer.from(text, "utf8")`: an unpaired surrogate gives the bytes of U+FFFD.
unfoldable pub utf8_encode : Text → Bytes
utf8_encode [] = []
utf8_encode (u ∷ []) = if is_high u || is_low u then point_bytes 0xfffd else point_bytes u
utf8_encode (u ∷ v ∷ text) = elim (is_high u && is_low v) [
  | true ↦ point_bytes (0x10000 + (u - 0xd800) * 1024 + (v - 0xdc00)) ++ utf8_encode text
  | false ↦
      (if is_high u || is_low u then point_bytes 0xfffd else point_bytes u)
      ++ utf8_encode (v ∷ text)
]
