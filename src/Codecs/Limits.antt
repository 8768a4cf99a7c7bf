-- ===== src/Codecs/Limits.antt =====
-- The limits that options may set, of src/persistence/codecs.ts.
use ether_memories.Prelude.{ℕ, ◌≤◌, ◌≡◌, ◌||◌, false, Option, none, some, ltb, arith}
use ether_memories.Result.{ok, err, ErrorCode}
use ether_memories.Result.Ensures.{Ensures, ensured, Ensures-if, >>=-Ensures}
use ether_memories.Value.{
  Value, null, undefined, bool, number, text, date, array, object, Fields, end, field,
}
use ether_memories.Json.Records.{as_count}
use ether_memories.Codecs.{
  PersistenceLimits, persistence_maximum, Limit, head_bytes, checkpoint_header_bytes,
  checkpoint_payload_bytes, identifier_bytes, transaction_digits, metadata_depth, limit_named,
  limit_of, with_limit, set_limit, set_limits, persistence_limits,
}

-- Every limit is at least one and at most that of the format.
abbrev IsTightened : PersistenceLimits → Type 0
IsTightened limits =
    (limit : Limit)
    → (1 ≤ limit_of limit limits) × (limit_of limit limits ≤ limit_of limit persistence_maximum)

at_least : (n m : ℕ) → (ltb n 1 || ltb m n) ≡ false → (1 ≤ n) × (n ≤ m)
at_least n m h = (ground arith, ground arith)

with_limit-IsTightened :
    (limit : Limit) (n : ℕ) (limits : PersistenceLimits)
    → IsTightened limits
    → 1 ≤ n
    → n ≤ limit_of limit persistence_maximum
    → IsTightened (with_limit limit n limits)
with_limit-IsTightened head_bytes n limits h lo hi head_bytes = (lo, hi)
with_limit-IsTightened head_bytes n limits h lo hi checkpoint_header_bytes =
    h checkpoint_header_bytes
with_limit-IsTightened head_bytes n limits h lo hi checkpoint_payload_bytes =
    h checkpoint_payload_bytes
with_limit-IsTightened head_bytes n limits h lo hi identifier_bytes = h identifier_bytes
with_limit-IsTightened head_bytes n limits h lo hi transaction_digits = h transaction_digits
with_limit-IsTightened head_bytes n limits h lo hi metadata_depth = h metadata_depth
with_limit-IsTightened checkpoint_header_bytes n limits h lo hi head_bytes = h head_bytes
with_limit-IsTightened checkpoint_header_bytes n limits h lo hi checkpoint_header_bytes = (lo, hi)
with_limit-IsTightened checkpoint_header_bytes n limits h lo hi checkpoint_payload_bytes =
    h checkpoint_payload_bytes
with_limit-IsTightened checkpoint_header_bytes n limits h lo hi identifier_bytes =
    h identifier_bytes
with_limit-IsTightened checkpoint_header_bytes n limits h lo hi transaction_digits =
    h transaction_digits
with_limit-IsTightened checkpoint_header_bytes n limits h lo hi metadata_depth = h metadata_depth
with_limit-IsTightened checkpoint_payload_bytes n limits h lo hi head_bytes = h head_bytes
with_limit-IsTightened checkpoint_payload_bytes n limits h lo hi checkpoint_header_bytes =
    h checkpoint_header_bytes
with_limit-IsTightened checkpoint_payload_bytes n limits h lo hi checkpoint_payload_bytes = (lo, hi)
with_limit-IsTightened checkpoint_payload_bytes n limits h lo hi identifier_bytes =
    h identifier_bytes
with_limit-IsTightened checkpoint_payload_bytes n limits h lo hi transaction_digits =
    h transaction_digits
with_limit-IsTightened checkpoint_payload_bytes n limits h lo hi metadata_depth = h metadata_depth
with_limit-IsTightened identifier_bytes n limits h lo hi head_bytes = h head_bytes
with_limit-IsTightened identifier_bytes n limits h lo hi checkpoint_header_bytes =
    h checkpoint_header_bytes
with_limit-IsTightened identifier_bytes n limits h lo hi checkpoint_payload_bytes =
    h checkpoint_payload_bytes
with_limit-IsTightened identifier_bytes n limits h lo hi identifier_bytes = (lo, hi)
with_limit-IsTightened identifier_bytes n limits h lo hi transaction_digits = h transaction_digits
with_limit-IsTightened identifier_bytes n limits h lo hi metadata_depth = h metadata_depth
with_limit-IsTightened transaction_digits n limits h lo hi head_bytes = h head_bytes
with_limit-IsTightened transaction_digits n limits h lo hi checkpoint_header_bytes =
    h checkpoint_header_bytes
with_limit-IsTightened transaction_digits n limits h lo hi checkpoint_payload_bytes =
    h checkpoint_payload_bytes
with_limit-IsTightened transaction_digits n limits h lo hi identifier_bytes = h identifier_bytes
with_limit-IsTightened transaction_digits n limits h lo hi transaction_digits = (lo, hi)
with_limit-IsTightened transaction_digits n limits h lo hi metadata_depth = h metadata_depth
with_limit-IsTightened metadata_depth n limits h lo hi head_bytes = h head_bytes
with_limit-IsTightened metadata_depth n limits h lo hi checkpoint_header_bytes =
    h checkpoint_header_bytes
with_limit-IsTightened metadata_depth n limits h lo hi checkpoint_payload_bytes =
    h checkpoint_payload_bytes
with_limit-IsTightened metadata_depth n limits h lo hi identifier_bytes = h identifier_bytes
with_limit-IsTightened metadata_depth n limits h lo hi transaction_digits = h transaction_digits
with_limit-IsTightened metadata_depth n limits h lo hi metadata_depth = (lo, hi)

set_limits-IsTightened :
    (options : Fields) (limits : PersistenceLimits)
    → IsTightened limits
    → Ensures IsTightened (set_limits options limits)
unfolding set_limits
set_limits-IsTightened end limits h = h
set_limits-IsTightened (field key value rest) limits h =
    let set = set_limit (limit_named key) (as_count value) limits in
    >>=-Ensures IsTightened set (set_limits rest) λ more e.
      set_limits-IsTightened rest more
        (ensured IsTightened set more (one (limit_named key) (as_count value) h) e)
  where
    one :
        (l : Option Limit) (n : Option ℕ)
        → IsTightened limits
        → Ensures IsTightened (set_limit l n limits)
    one none n h = unfold set_limit in tt
    one (some l) none h = unfold set_limit in tt
    one (some l) (some n) h =
        unfold set_limit in
        Ensures-if IsTightened (ltb n 1 || ltb (limit_of l persistence_maximum) n)
          (err ErrorCode.invalid_input) (ok (with_limit l n limits)) (λ _. tt)
          λ fits.
            with_limit-IsTightened l n limits h (at_least n (limit_of l persistence_maximum) fits).0
              (at_least n (limit_of l persistence_maximum) fits).1

maximum-IsTightened : IsTightened persistence_maximum
maximum-IsTightened head_bytes = omega arith
maximum-IsTightened checkpoint_header_bytes = omega arith
maximum-IsTightened checkpoint_payload_bytes = omega arith
maximum-IsTightened identifier_bytes = omega arith
maximum-IsTightened transaction_digits = omega arith
maximum-IsTightened metadata_depth = omega arith

-- Options that `persistenceLimits` accepts give limits that are positive and at most those of the
-- format.
pub persistence_limits_tightened :
    (options : Value) (limits : PersistenceLimits) (limit : Limit)
    → persistence_limits options ≡ ok limits
    → (1 ≤ limit_of limit limits) × (limit_of limit limits ≤ limit_of limit persistence_maximum)
persistence_limits_tightened options limits limit h =
    ensured IsTightened (persistence_limits options) limits (of_options options) h limit
  where
    of_options : (options : Value) → Ensures IsTightened (persistence_limits options)
    of_options undefined = unfold persistence_limits in maximum-IsTightened
    of_options (object fs) =
        unfold persistence_limits in
        set_limits-IsTightened fs persistence_maximum maximum-IsTightened
    of_options (date t) = unfold persistence_limits in maximum-IsTightened
    of_options null = unfold persistence_limits in tt
    of_options (bool b) = unfold persistence_limits in tt
    of_options (number n) = unfold persistence_limits in tt
    of_options (text s) = unfold persistence_limits in tt
    of_options (array xs) = unfold persistence_limits in tt
