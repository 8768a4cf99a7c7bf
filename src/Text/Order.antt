-- ===== src/Text/Order.antt =====
-- `codeUnitCompare` is a total order whose ties are equal strings.
use ether_memories.Prelude.{◌≡◌, refl, ◌≢◌, Ordering, [], ◌∷◌, arith}
use ether_memories.Text.{Text, code_unit_compare}

pub code_unit_compare_refl : (s : Text) → code_unit_compare s s ≡ Ordering.eq
unfolding code_unit_compare
code_unit_compare_refl [] = refl
code_unit_compare_refl (a ∷ s) = ground (arith, code_unit_compare_refl s)

pub code_unit_compare_eq : (s t : Text) → code_unit_compare s t ≡ Ordering.eq → s ≡ t
unfolding code_unit_compare
code_unit_compare_eq [] [] h = refl
code_unit_compare_eq [] (b ∷ t) h = ground arith
code_unit_compare_eq (a ∷ s) [] h = ground arith
code_unit_compare_eq (a ∷ s) (b ∷ t) h = ground (arith, code_unit_compare_eq s t)

abbrev pub flip : Ordering → Ordering
flip Ordering.lt = Ordering.gt
flip Ordering.eq = Ordering.eq
flip Ordering.gt = Ordering.lt

pub code_unit_compare-flip : (s t : Text) → code_unit_compare t s ≡ flip (code_unit_compare s t)
unfolding code_unit_compare
code_unit_compare-flip [] [] = refl
code_unit_compare-flip [] (b ∷ t) = refl
code_unit_compare-flip (a ∷ s) [] = refl
code_unit_compare-flip (a ∷ s) (b ∷ t) = ground (arith, code_unit_compare-flip s t)

pub code_unit_compare_trans :
    (r s t : Text)
    → code_unit_compare r s ≢ Ordering.gt
    → code_unit_compare s t ≢ Ordering.gt
    → code_unit_compare r t ≢ Ordering.gt
unfolding code_unit_compare
code_unit_compare_trans [] s [] p q = ground arith
code_unit_compare_trans [] s (c ∷ t) p q = ground arith
code_unit_compare_trans (a ∷ r) [] t p q = ground arith
code_unit_compare_trans (a ∷ r) (b ∷ s) [] p q = ground arith
code_unit_compare_trans (a ∷ r) (b ∷ s) (c ∷ t) p q = ground (arith, code_unit_compare_trans r s t)
