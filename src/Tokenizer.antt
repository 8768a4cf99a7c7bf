-- ===== src/Tokenizer.antt =====
-- src/core/Tokenizer.ts. What the runtime does with Unicode tables, number formats and
-- rounding is a parameter.
use ether_memories.Prelude.{List, [], ◌∷◌, ◌++◌}
use ether_memories.Text.{Text}
use ether_memories.Number.{Number}
use ether_memories.Value.{Value}

pub record Runtime : Type 0 where
  -- `value.normalize("NFC")`
  pub normalize_nfc : Text → Text
  pub to_lower_case : Text → Text
  -- `value.match(tokenPattern) ?? []`
  pub match_tokens : Text → List Text
  -- `JSON.stringify(value)`, as a template shows it
  pub stringify : Value → Text
  -- Sum and product of two doubles, rounded.
  pub add : Number → Number → Number
  pub mul : Number → Number → Number

-- `texts.join(" ")`
unfoldable pub join : List Text → Text
join [] = []
join (s ∷ []) = s
join (s ∷ t ∷ rest) = s ++ 32 ∷ join (t ∷ rest)

module _ (runtime : Runtime) where
  unfoldable pub tokenize : Text → List Text
  tokenize value = runtime.match_tokens (runtime.to_lower_case (runtime.normalize_nfc value))

  unfoldable pub normalize_phrase : Text → Text
  unfolding tokenize join
  normalize_phrase value = join (tokenize value)
