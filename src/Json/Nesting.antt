-- ===== src/Json/Nesting.antt =====
-- The scans of a JSON text that run before it is parsed: they follow strings and brackets. The
-- depth of the source, which may be negative, is `opened - closed`.
use ether_memories.Prelude.{
  ℕ, zero, suc, ◌+◌, ◌≡◌, refl, Bool, true, false, not, ◌&&◌, ◌||◌, [], ◌∷◌, take, ltb, leb, ◌==◌,
  if◌then◌else◌, arith,
}
use ether_memories.Text.{Text}

-- `quoted`, `escaped`, and the brackets that were opened and closed.
pub record JsonScan : Type 0 where
  pub quoted : Bool
  pub escaped : Bool
  pub opened : ℕ
  pub closed : ℕ

abbrev pub new_scan : JsonScan
new_scan = record { quoted = false; escaped = false; opened = 0; closed = 0 }

abbrev pub is_opening : ℕ → Bool
is_opening c = c == 91 || c == 123

abbrev pub is_closing : ℕ → Bool
is_closing c = c == 93 || c == 125

unfoldable pub scan_unit : ℕ → JsonScan → JsonScan
scan_unit c s =
    if s.quoted
    then if s.escaped
      then record { quoted = true; escaped = false; opened = s.opened; closed = s.closed }
      else if c == 92
      then record { quoted = true; escaped = true; opened = s.opened; closed = s.closed }
      else record { quoted = not (c == 34); escaped = false; opened = s.opened; closed = s.closed }
    else if c == 34
    then record { quoted = true; escaped = s.escaped; opened = s.opened; closed = s.closed }
    else if is_opening c
    then record { quoted = false; escaped = s.escaped; opened = s.opened + 1; closed = s.closed }
    else if is_closing c
    then record { quoted = false; escaped = s.escaped; opened = s.opened; closed = s.closed + 1 }
    else s

-- No bracket is opened at a depth of `limit`.
unfoldable pub nests_from : ℕ → Text → JsonScan → Bool
unfolding scan_unit
nests_from limit [] s = true
nests_from limit (c ∷ rest) s =
    not (not s.quoted && is_opening c && ltb (s.closed + limit) (s.opened + 1))
    && nests_from limit rest (scan_unit c s)

unfoldable pub nests_within : ℕ → Text → Bool
unfolding nests_from
nests_within limit s = nests_from limit s new_scan

-- `byte === 44 && depth === 1`, outside a string
abbrev is_item_comma : ℕ → JsonScan → Bool
is_item_comma c s = not s.quoted && c == 44 && s.opened == s.closed + 1

-- The commas between the items of the outer array stay below `limit`.
unfoldable pub commas_from : ℕ → Text → ℕ → JsonScan → Bool
unfolding scan_unit
commas_from limit [] commas s = true
commas_from limit (c ∷ rest) commas s =
    let later = if is_item_comma c s then commas + 1 else commas in
    not (is_item_comma c s && leb limit later) && commas_from limit rest later (scan_unit c s)

unfoldable pub commas_within : ℕ → Text → Bool
unfolding commas_from
commas_within limit s = commas_from limit s 0 new_scan

commas_from-take :
    (k limit : ℕ) (s : Text) (commas : ℕ) (st : JsonScan)
    → commas_from limit s commas st ≡ true
    → commas_from limit (take k s) commas st ≡ true
unfolding commas_from
commas_from-take zero limit s commas st h = refl
commas_from-take (suc k) limit [] commas st h = refl
commas_from-take (suc k) limit (c ∷ rest) commas st h = ground (
  arith,
  commas_from-take k limit rest (if is_item_comma c st then commas + 1 else commas)
      (scan_unit c st),
)

-- A text that was cut short has no more commas.
pub commas_within-take :
    (k limit : ℕ) (s : Text) → commas_within limit s ≡ true → commas_within limit (take k s) ≡ true
unfolding commas_within
commas_within-take k limit s h = commas_from-take k limit s 0 new_scan h
