-- ===== src/Result.antt =====
-- src/utils/result.ts and the error codes of src/types: an outcome is a value or a code. The
-- message and details, which no code branches on here, are left out.
pub mod Ensures
use ether_memories.Prelude.{Bool, true, false, Option, none, some}

pub data ErrorCode : Type 0 where
  stale_transaction_base persistence_corruption writer_busy read_only_locked : ErrorCode
  recovery_required unsupported_persistence_format durability_unavailable closed : ErrorCode
  storage_error invalid_input not_found conflict : ErrorCode
  user_id_mismatch unsupported_schema unknown_error : ErrorCode

pub data Result {ℓ} (A : Type ℓ) : Type ℓ where
  ok : A → Result A
  err : ErrorCode → Result A

infixl 5 ◌>>=◌
abbrev pub ◌>>=◌ {ℓ κ} : {A : Type ℓ} {B : Type κ} → Result A → (A → Result B) → Result B
ok a >>= f = f a
err e >>= f = err e

-- `result.ok`
abbrev pub is_ok {ℓ} : {A : Type ℓ} → Result A → Bool
is_ok (ok a) = true
is_ok (err e) = false

-- The checks of a decoder: what must hold, or the data is corrupt.
abbrev pub require_that : Bool → Result {0} Unit
require_that true = ok tt
require_that false = err persistence_corruption

abbrev pub require {ℓ} : {A : Type ℓ} → Option A → Result A
require none = err persistence_corruption
require (some a) = ok a

-- What must hold, or the format is another one.
abbrev pub support_that : Bool → Result {0} Unit
support_that true = ok tt
support_that false = err unsupported_persistence_format
