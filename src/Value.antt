-- ===== src/Value.antt =====
-- `unknown` data of records (metadata, preferences, graph data), and `cloneValue` of
-- src/utils/clone.ts. An object is its entries in order.
use ether_memories.Prelude.{◌≡◌, refl, ap, Bool}
use ether_memories.Text.{Text}
use ether_memories.Time.{Time}
use ether_memories.Number.{Number}

mutual
  pub data Value : Type 0 where
    null : Value
    undefined : Value
    bool : Bool → Value
    number : Number → Value
    text : Text → Value
    date : Time → Value
    array : Items → Value
    object : Fields → Value

  pub data Items : Type 0 where
    nil : Items
    cons : Value → Items → Items

  pub data Fields : Type 0 where
    end : Fields
    field : Text → Value → Fields → Fields

unfoldable mutual
  pub clone_value : Value → Value
  clone_value null = null
  clone_value undefined = undefined
  clone_value (bool b) = bool b
  clone_value (number n) = number n
  clone_value (text s) = text s
  clone_value (date t) = date t
  clone_value (array xs) = array (clone_items xs)
  clone_value (object fs) = object (clone_fields fs)

  pub clone_items : Items → Items
  clone_items nil = nil
  clone_items (cons x xs) = cons (clone_value x) (clone_items xs)

  pub clone_fields : Fields → Fields
  clone_fields end = end
  clone_fields (field k v fs) = field k (clone_value v) (clone_fields fs)

mutual
  unfolding clone_value clone_items clone_fields

  clone_value-eq : (v : Value) → clone_value v ≡ v
  clone_value-eq null = refl
  clone_value-eq undefined = refl
  clone_value-eq (bool b) = refl
  clone_value-eq (number n) = refl
  clone_value-eq (text s) = refl
  clone_value-eq (date t) = refl
  clone_value-eq (array xs) = ap array (clone_items-eq xs)
  clone_value-eq (object fs) = ap object (clone_fields-eq fs)

  clone_items-eq : (xs : Items) → clone_items xs ≡ xs
  clone_items-eq nil = refl
  clone_items-eq (cons x xs) = rw (clone_value-eq x, clone_items-eq xs)

  clone_fields-eq : (fs : Fields) → clone_fields fs ≡ fs
  clone_fields-eq end = refl
  clone_fields-eq (field k v fs) = rw (clone_value-eq v, clone_fields-eq fs)

-- A clone has the value of its original.
pub clone_value_lem : (v : Value) → clone_value v ≡ v
clone_value_lem = clone_value-eq
