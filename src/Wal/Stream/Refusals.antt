-- ===== src/Wal/Stream/Refusals.antt =====
-- When the stream scanner refuses: after a failure, and for a continuation that was used.
use ether_memories.Prelude.{
  ◌+◌, ◌≤◌, ◌<◌, ◌^◌, ◌≡◌, refl, Bool, Bool-cases, inl, inr, true, false, not, ◌||◌, ◌==◌, ==_iff,
  ltb, List, [], ◌∷◌, length, map, arith, if◌then◌else◌,
}
use ether_memories.Result.{Result, ok, err, ErrorCode}
use ether_memories.Bytes.{Bytes}
use ether_memories.Wal.{wal_limits}
use ether_memories.Wal.Registry.{ReplayRegistry}
use ether_memories.Wal.Frame.{Platform}
use ether_memories.Wal.Round.{WalStreamScanner, WalContinuation, WalBatch, Round}
use ether_memories.Wal.Stream.{first_round, process, stopped, settle, next}

-- The arguments of a call of `next`.
pub record Call : Type 0 where
  pub cursor : WalContinuation
  pub input : Bytes
  pub final : Bool

module _ (platform : Platform) (registry : ReplayRegistry) where
  abbrev pub call : WalStreamScanner → Call → WalStreamScanner × Result WalBatch
  call s c = next platform registry s c.cursor c.input c.final

  -- The scanner after calls, and their results.
  unfoldable pub run : WalStreamScanner → List Call → WalStreamScanner × List (Result WalBatch)
  run s [] = (s, [])
  run s (c ∷ cs) = let step = call s c in let rest = run step.0 cs in (rest.0, step.1 ∷ rest.1)

  pub next_failed :
      (s : WalStreamScanner) (c : Call)
      → s.failed ≡ true
      → call s c ≡ (s, err ErrorCode.recovery_required)
  unfolding next
  next_failed s c h = rw h refl

  run_failed :
      (s : WalStreamScanner) (calls : List Call)
      → s.failed ≡ true
      → run s calls ≡ (s, map (λ _. err ErrorCode.recovery_required) calls)
  unfolding run
  run_failed s [] h = refl
  run_failed s (c ∷ cs) h = rw (next_failed s c h, run_failed s cs h) refl

  -- What a call does that passes the tests at its beginning.
  abbrev outcome_of : WalStreamScanner → Call → WalStreamScanner × Result WalBatch
  outcome_of s c =
      let start = first_round s s.current in
      settle s s.current c.input c.final
        (stopped platform registry s.store_id s.current.offset (length c.input) c.input start)
        (process platform registry s.store_id s.current.offset c.input start)

  settle_token :
      (s : WalStreamScanner) (input : Bytes) (final : Bool) (last : Round) (r : Result Round)
      → s.current.token ≤ (settle s s.current input final last r).0.current.token
  settle_token s input final last (ok r) = omega arith
  settle_token s input final last (err e) = omega arith

  next_token : (s : WalStreamScanner) (c : Call) → s.current.token ≤ (call s c).0.current.token
  unfolding next
  next_token s c =
      let start = first_round s s.current in
      let last =
        stopped platform registry s.store_id s.current.offset (length c.input) c.input start in
      let processed = process platform registry s.store_id s.current.offset c.input start in
      either (s.failed || not (c.cursor.token == s.current.token) || s.current.ended)
        (ltb wal_limits.stream_bytes (length c.input)
          || not (ltb (s.current.offset + length c.input) (2 ^ 53)))
        (outcome_of s c) (settle_token s c.input c.final last processed)
    where
      either :
          (t u : Bool) (outcome : WalStreamScanner × Result WalBatch)
          → s.current.token ≤ outcome.0.current.token
          → s.current.token
            ≤ (if t
                then (s, err ErrorCode.recovery_required)
                else if u
                then (s, err ErrorCode.persistence_corruption)
                else outcome).0.current.token
      either true u outcome h = omega arith
      either false true outcome h = omega arith
      either false false outcome h = h

  run_token :
      (s : WalStreamScanner) (calls : List Call) → s.current.token ≤ (run s calls).0.current.token
  unfolding run
  run_token s [] = omega arith
  run_token s (c ∷ cs) = omega (arith, next_token s c, run_token (call s c).0 cs)

  settle_used :
      (s : WalStreamScanner) (input : Bytes) (final : Bool) (last : Round) (r : Result Round)
      (batch : WalBatch)
      → (settle s s.current input final last r).1 ≡ ok batch
      → s.current.token < (settle s s.current input final last r).0.current.token
  settle_used s input final last (ok r) batch h = omega arith
  settle_used s input final last (err e) batch h = ground arith

  next_used :
      (s : WalStreamScanner) (c : Call) (batch : WalBatch)
      → (call s c).1 ≡ ok batch
      → c.cursor.token < (call s c).0.current.token
  unfolding next
  next_used s c batch =
      let start = first_round s s.current in
      let last =
        stopped platform registry s.store_id s.current.offset (length c.input) c.input start in
      let processed = process platform registry s.store_id s.current.offset c.input start in
      either (c.cursor.token == s.current.token) refl
        (ltb wal_limits.stream_bytes (length c.input)
          || not (ltb (s.current.offset + length c.input) (2 ^ 53)))
        (outcome_of s c) (settle_used s c.input c.final last processed batch)
    where
      either :
          (t : Bool)
          → (c.cursor.token == s.current.token) ≡ t
          → (u : Bool) (outcome : WalStreamScanner × Result WalBatch)
          → (outcome.1 ≡ ok batch → s.current.token < outcome.0.current.token)
          → (if s.failed || not t || s.current.ended
              then (s, err ErrorCode.recovery_required)
              else if u
              then (s, err ErrorCode.persistence_corruption)
              else outcome).1
            ≡ ok batch
          → c.cursor.token
            < (if s.failed || not t || s.current.ended
                then (s, err ErrorCode.recovery_required)
                else if u
                then (s, err ErrorCode.persistence_corruption)
                else outcome).0.current.token
      either t e u outcome h = elim (Bool-cases (s.failed || not t || s.current.ended)) [
        | inl refused ↦ rw refused (λ p. ground arith)
        | inr passed ↦ elim (Bool-cases u) [
          | inl bad ↦ rw (passed, bad) (λ p. ground arith)
          | inr good ↦
              rw (passed, good)
                (λ p. omega (arith, h p, (==_iff c.cursor.token s.current.token).0 (ground arith)))
        ]
      ]

  next_stale :
      (s : WalStreamScanner) (c : Call)
      → c.cursor.token < s.current.token
      → call s c ≡ (s, err ErrorCode.recovery_required)
  unfolding next
  next_stale s c h =
      let differs : (c.cursor.token == s.current.token) ≡ false = ground arith in
      let refused : (s.failed || not (c.cursor.token == s.current.token) || s.current.ended)
          ≡ true =
        rw differs (ground arith) in
      rw refused refl

  -- A continuation with which `next` succeeded gives no authority again: after any further calls,
  -- `next` with it is refused and changes nothing.
  pub next_once :
      (s : WalStreamScanner) (c : Call) (batch : WalBatch) (calls : List Call) (again : Call)
      → (call s c).1 ≡ ok batch
      → again.cursor.token ≡ c.cursor.token
      → call (run (call s c).0 calls).0 again
        ≡ ((run (call s c).0 calls).0, err ErrorCode.recovery_required)
  next_once s c batch calls again h e =
      next_stale (run (call s c).0 calls).0 again
        (omega (arith, e, next_used s c batch h, run_token (call s c).0 calls))

  settle_failed :
      (s : WalStreamScanner) (input : Bytes) (final : Bool) (last : Round) (r : Result Round)
      (e : ErrorCode)
      → (settle s s.current input final last r).1 ≡ err e
      → ((settle s s.current input final last r).0.failed ≡ true)
        × ((settle s s.current input final last r).0.current ≡ s.current)
  settle_failed s input final last (ok r) e h = ground arith
  settle_failed s input final last (err e') e h = (refl, refl)

  next_rejected :
      (s : WalStreamScanner) (c : Call) (e : ErrorCode)
      → s.failed ≡ false
      → c.cursor.token ≡ s.current.token
      → s.current.ended ≡ false
      → length c.input ≤ wal_limits.stream_bytes
      → s.current.offset + length c.input < 2 ^ 53
      → (call s c).1 ≡ err e
      → ((call s c).0.failed ≡ true) × ((call s c).0.current ≡ s.current)
  unfolding next
  next_rejected s c e fresh own open_ small safe h =
      let start = first_round s s.current in
      let last =
        stopped platform registry s.store_id s.current.offset (length c.input) c.input start in
      let processed = process platform registry s.store_id s.current.offset c.input start in
      let passes : (s.failed || not (c.cursor.token == s.current.token) || s.current.ended)
          ≡ false =
        ground arith in
      let fits : (ltb wal_limits.stream_bytes (length c.input)
            || not (ltb (s.current.offset + length c.input) (2 ^ 53)))
          ≡ false =
        ground arith in
      let same_call : call s c ≡ outcome_of s c = rw (passes, fits) refl in
      rw same_call (settle_failed s c.input c.final last processed e (rw same_call at h))

  -- If `next` returns an error for the scanner's own continuation, which is not an ended one, and
  -- for an input within the bounds, then the continuation stays, and every later call, whatever its
  -- arguments, returns `RECOVERY_REQUIRED` and changes nothing.
  pub next_rejected_for_good :
      (s : WalStreamScanner) (c : Call) (e : ErrorCode) (calls : List Call)
      → s.failed ≡ false
      → c.cursor.token ≡ s.current.token
      → s.current.ended ≡ false
      → length c.input ≤ wal_limits.stream_bytes
      → s.current.offset + length c.input < 2 ^ 53
      → (call s c).1 ≡ err e
      → ((call s c).0.current ≡ s.current)
        × (run (call s c).0 calls
            ≡ ((call s c).0, map (λ _. err ErrorCode.recovery_required) calls))
  next_rejected_for_good s c e calls fresh own open_ small safe h =
      let (failed, stays) = next_rejected s c e fresh own open_ small safe h in
      (stays, run_failed (call s c).0 calls failed)
