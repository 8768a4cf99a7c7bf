-- ===== src/Bytes/Slices.antt =====
-- Slices of a byte array that was cut short.
use ether_memories.Prelude.{
  ℕ, zero, suc, ◌+◌, ◌-◌, ◌≤◌, ◌≡◌, refl, sym, ap, ◌∙◌, List, [], ◌∷◌, ◌++◌, length, take, drop,
  arith, leb, leb→le, Bool-cases, inl, inr, true,
}
use ether_memories.Text.{same, same_iff}
use ether_memories.Bytes.{Bytes, subarray, read_u32}

to_zero : (n : ℕ) → 0 ≡ 0 - suc n
to_zero n = omega arith

module _ {ℓ} {A : Type ℓ} where
  pub take-take : (j k : ℕ) (xs : List A) → j ≤ k → take j (take k xs) ≡ take j xs
  take-take zero k xs h = refl
  take-take (suc j) zero xs h = absurd (omega arith)
  take-take (suc j) (suc k) [] h = refl
  take-take (suc j) (suc k) (x ∷ xs) h = ap (λ r. x ∷ r) (take-take j k xs (omega arith))

  pub take-take_short : (j k : ℕ) (xs : List A) → k ≤ j → take j (take k xs) ≡ take k xs
  take-take_short zero zero xs h = refl
  take-take_short zero (suc k) xs h = absurd (omega arith)
  take-take_short (suc j) zero xs h = refl
  take-take_short (suc j) (suc k) [] h = refl
  take-take_short (suc j) (suc k) (x ∷ xs) h =
      ap (λ r. x ∷ r) (take-take_short j k xs (omega arith))

  pub take_all : (k : ℕ) (xs : List A) → length xs ≤ k → take k xs ≡ xs
  take_all zero [] h = refl
  take_all zero (x ∷ xs) h = absurd (omega arith)
  take_all (suc k) [] h = refl
  take_all (suc k) (x ∷ xs) h = ap (λ r. x ∷ r) (take_all k xs (omega arith))

  pub length-take_in : (k : ℕ) (xs : List A) → k ≤ length xs → length (take k xs) ≡ k
  length-take_in zero xs h = refl
  length-take_in (suc k) [] h = absurd (omega arith)
  length-take_in (suc k) (x ∷ xs) h = ap suc (length-take_in k xs (omega arith))

  nothing_taken : (m : ℕ) → [] ≡ take {A = A} m []
  nothing_taken zero = refl
  nothing_taken (suc m) = refl

  pub drop-take : (n k : ℕ) (xs : List A) → drop n (take k xs) ≡ take (k - n) (drop n xs)
  drop-take zero k xs = ap (λ n. take n xs) (omega arith)
  drop-take (suc n) zero [] = ap (λ m. take m []) (to_zero n)
  drop-take (suc n) zero (x ∷ xs) = ap (λ m. take m (drop n xs)) (to_zero n)
  drop-take (suc n) (suc k) [] = nothing_taken (suc k - suc n)
  drop-take (suc n) (suc k) (x ∷ xs) = drop-take n k xs ∙ ap (λ m. take m (drop n xs)) (omega arith)

  pub length-drop : (n : ℕ) (xs : List A) → length (drop n xs) ≡ length xs - n
  length-drop zero xs = omega arith
  length-drop (suc n) [] = omega arith
  length-drop (suc n) (x ∷ xs) = omega (arith, length-drop n xs)

  pub take_comm : (j k : ℕ) (xs : List A) → take j (take k xs) ≡ take k (take j xs)
  take_comm zero zero xs = refl
  take_comm zero (suc k) xs = sym (nothing_taken (suc k))
  take_comm (suc j) zero xs = nothing_taken (suc j)
  take_comm (suc j) (suc k) [] = refl
  take_comm (suc j) (suc k) (x ∷ xs) = ap (λ r. x ∷ r) (take_comm j k xs)

-- What a slice within the cut holds is not changed by the cut.
pub subarray-take :
    (bytes : Bytes) (k from to : ℕ)
    → to ≤ k
    → subarray (take k bytes) from to ≡ subarray bytes from to
subarray-take bytes k from to h = ap (drop from) (take-take to k bytes h)

-- A slice that the cut goes through is cut itself.
pub subarray-take_short :
    (bytes : Bytes) (k from to : ℕ)
    → k ≤ to
    → subarray (take k bytes) from to ≡ take (k - from) (subarray bytes from to)
subarray-take_short bytes k from to h =
    ap (drop from) (take-take_short to k bytes h ∙ sym (take-take k to bytes h))
    ∙ drop-take from k (take to bytes)

pub read_u32-take :
    (bytes : Bytes) (k offset : ℕ)
    → offset + 4 ≤ k
    → read_u32 (take k bytes) offset ≡ read_u32 bytes offset
unfolding read_u32
read_u32-take bytes k offset h = rw (subarray-take bytes k offset (offset + 4) h)

-- A slice that begins as `whole` does still does so when it is cut.
pub same-take :
    (j : ℕ) (part whole : Bytes)
    → same part (take (length part) whole) ≡ true
    → same (take j part) (take (length (take j part)) whole) ≡ true
same-take j part whole h =
    let e : part ≡ take (length part) whole = (same_iff part (take (length part) whole)).0 h in
    elim (Bool-cases (leb (length part) j)) [
      | inl l ↦ rw (take_all j part (leb→le (length part) j l)) h
      | inr l ↦
          let inside : j ≤ length part = ground arith in
          rw (length-take_in j part inside) (
            (same_iff (take j part) (take j whole)).1
              (ap (take j) e ∙ take-take j (length part) whole inside))
    ]

-- The parts of a byte array that was put together.
pub take-append : (front back : Bytes) → take (length front) (front ++ back) ≡ front
take-append [] back = refl
take-append (b ∷ front) back = ap (λ r. b ∷ r) (take-append front back)

drop-append : (front back : Bytes) → drop (length front) (front ++ back) ≡ back
drop-append [] back = refl
drop-append (b ∷ front) back = drop-append front back

take-append_more :
    (front back : Bytes) (n : ℕ) → take (length front + n) (front ++ back) ≡ front ++ take n back
take-append_more [] back n = ap (λ k. take k back) (omega arith)
take-append_more (b ∷ front) back n =
    ap (λ k. take k (b ∷ (front ++ back))) (shift (length front) n)
    ∙ ap (λ r. b ∷ r) (take-append_more front back n)
  where
    shift : (a n : ℕ) → suc a + n ≡ suc (a + n)
    shift a n = omega arith

pub subarray-append :
    (front part back : Bytes)
    → subarray (front ++ (part ++ back)) (length front) (length front + length part) ≡ part
subarray-append front part back =
    ap (drop (length front)) (take-append_more front (part ++ back) (length part))
    ∙ ap (λ r. drop (length front) (front ++ r)) (take-append part back)
    ∙ drop-append front part
