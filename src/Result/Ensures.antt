-- ===== src/Result/Ensures.antt =====
-- What every value that a chain of fallible calls returns satisfies.
use ether_memories.Prelude.{◌≡◌, refl, Bool, true, false, Option, none, some, if◌then◌else◌}
use ether_memories.Result.{Result, ok, err, ◌>>=◌, require, require_that, support_that}

module _ {ℓ κ} {A : Type ℓ} (P : A → Type κ) where
  -- A value that is returned has `P`.
  abbrev pub Ensures : Result A → Type κ
  Ensures (ok a) = P a
  Ensures (err e) = Unit

  pub ensured : (r : Result A) (a : A) → Ensures r → r ≡ ok a → P a
  ensured r a h e = rw e at h

  pub Ensures-of : (r : Result A) → ((a : A) → r ≡ ok a → P a) → Ensures r
  Ensures-of (ok a) h = h a refl
  Ensures-of (err e) h = tt

  pub Ensures-if :
      (t : Bool) (r s : Result A)
      → (t ≡ true → Ensures r)
      → (t ≡ false → Ensures s)
      → Ensures (if t then r else s)
  Ensures-if true r s hr hs = hr refl
  Ensures-if false r s hr hs = hs refl

module _ {ℓ κ μ} {A : Type ℓ} {B : Type μ} (P : B → Type κ) where
  pub >>=-Ensures :
      (r : Result A) (f : A → Result B)
      → ((a : A) → r ≡ ok a → Ensures P (f a))
      → Ensures P (r >>= f)
  >>=-Ensures (ok a) f h = h a refl
  >>=-Ensures (err e) f h = tt

  pub require-Ensures :
      (o : Option A) (f : A → Result B)
      → ((a : A) → o ≡ some a → Ensures P (f a))
      → Ensures P (require o >>= f)
  require-Ensures none f h = tt
  require-Ensures (some a) f h = h a refl

module _ {κ μ} {B : Type μ} (P : B → Type κ) where
  pub require_that-Ensures :
      (t : Bool) (f : Unit {0} → Result B)
      → (t ≡ true → Ensures P (f tt))
      → Ensures P (require_that t >>= f)
  require_that-Ensures true f h = h refl
  require_that-Ensures false f h = tt

  pub support_that-Ensures :
      (t : Bool) (f : Unit {0} → Result B)
      → (t ≡ true → Ensures P (f tt))
      → Ensures P (support_that t >>= f)
  support_that-Ensures true f h = h refl
  support_that-Ensures false f h = tt
