-- ===== src/Wal/Stream/Room.antt =====
-- Between calls, the buffer of a stream scanner that has not failed has room up to its target.
use ether_memories.Prelude.{
  ℕ, zero, suc, ◌+◌, ◌-◌, ◌<◌, ◌^◌, ◌≡◌, refl, Bool, Bool-cases, inl, inr, true, false, not, ◌||◌,
  ◌==◌, ltb, ltb→lt, List, [], ◌∷◌, length, drop, arith, if◌then◌else◌,
}
use ether_memories.Result.{Result, ok, err, ErrorCode, ◌>>=◌}
use ether_memories.Result.Ensures.{Ensures, ensured, >>=-Ensures}
use ether_memories.Text.{Text}
use ether_memories.Bytes.{Bytes}
use ether_memories.Codecs.{PersistedStoreHead}
use ether_memories.Wal.{wal_limits}
use ether_memories.Wal.Registry.{ReplayRegistry}
use ether_memories.Wal.Frame.{Platform}
use ether_memories.Wal.Scan.{checkpoint_wal_anchor}
use ether_memories.Wal.Round.{Round, WalStreamScanner, WalBatch, create, fill}
use ether_memories.Wal.Stream.{
  full_buffer, rounds, check_pending, process, first_round, stopped, settle, next,
}
use ether_memories.Wal.Stream.Rounds.{IsOpen, full_buffer-IsOpen, filled_up}
use ether_memories.Wal.Stream.Refusals.{Call, call, run, next_failed}

module _ (platform : Platform) (registry : ReplayRegistry) where
  module _ (store_id : Text) (offset : ℕ) where
    rounds-IsOpen :
        (fuel : ℕ) (rest : Bytes) (r : Round)
        → IsOpen r
        → Ensures IsOpen (rounds platform registry store_id offset fuel rest r)
    unfolding rounds
    rounds-IsOpen zero rest r h = h
    rounds-IsOpen (suc fuel) [] r h = h
    rounds-IsOpen (suc fuel) (b ∷ rest) r h =
        let bytes : Bytes = b ∷ rest in
        let filled = fill bytes r in
        let round = full_buffer platform registry store_id offset filled in
        let later =
          rounds platform registry store_id offset fuel
            (drop (r.target - length r.pending) bytes) in
        either (ltb r.physical wal_limits.frames) (ltb (length filled.pending) filled.target) refl r
          filled (round >>= later) h (λ u. ltb→lt (length filled.pending) filled.target u)
          (λ u. >>=-Ensures IsOpen round later λ q found.
            rounds-IsOpen fuel (drop (r.target - length r.pending) bytes) q (
              ensured IsOpen round q
                (full_buffer-IsOpen platform registry store_id offset filled
                  (filled_up platform registry store_id offset r bytes h u))
                found))
      where
        either :
            (t u : Bool) {v : Bool}
            → v ≡ u
            → (r filled : Round) (p : Result Round) → IsOpen r
            → (v ≡ true → IsOpen filled)
            → (v ≡ false → Ensures IsOpen p)
            → Ensures IsOpen
                (elim t [ false ↦ ok r | true ↦ elim u [ true ↦ ok filled | false ↦ p ] ])
        either false u e r filled p a b c = a
        either true true e r filled p a b c = b e
        either true false e r filled p a b c = c e

    process-IsOpen :
        (input : Bytes) (r : Round)
        → IsOpen r
        → Ensures IsOpen (process platform registry store_id offset input r)
    unfolding process
    process-IsOpen input r h =
        let loop = rounds platform registry store_id offset (length input) input r in
        >>=-Ensures IsOpen loop _ λ last e.
          >>=-Ensures IsOpen (check_pending platform registry store_id offset last.pending) _
            λ _ _. ensured IsOpen loop last (rounds-IsOpen (length input) input r h) e

  -- The buffer of a scanner has room, unless the scanner has failed.
  abbrev pub HasRoom : WalStreamScanner → Type 0
  HasRoom s = s.failed ≡ false → length s.pending < s.target

  settle-HasRoom :
      (s : WalStreamScanner) (input : Bytes) (final : Bool) (last : Round) (r : Result Round)
      → Ensures IsOpen r
      → HasRoom (settle s s.current input final last r).0
  settle-HasRoom s input final last (ok q) o = λ fine. o
  settle-HasRoom s input final last (err e) o = λ fine. ground arith

  next-HasRoom :
      (s : WalStreamScanner) (c : Call) → HasRoom s → HasRoom (call platform registry s c).0
  unfolding next
  next-HasRoom s c h = elim (Bool-cases s.failed) [
    | inl failed ↦ rw (next_failed platform registry s c failed) h
    | inr fine ↦
        let start = first_round s s.current in
        let last =
          stopped platform registry s.store_id s.current.offset (length c.input) c.input start in
        let processed = process platform registry s.store_id s.current.offset c.input start in
        either (s.failed || not (c.cursor.token == s.current.token) || s.current.ended)
          (ltb wal_limits.stream_bytes (length c.input)
            || not (ltb (s.current.offset + length c.input) (2 ^ 53)))
          (settle s s.current c.input c.final last processed)
          (settle-HasRoom s c.input c.final last processed
            (process-IsOpen s.store_id s.current.offset c.input start (h fine)))
  ]
    where
      either :
          (t u : Bool) (outcome : WalStreamScanner × Result WalBatch)
          → HasRoom outcome.0
          → HasRoom
              (if t
                then (s, err ErrorCode.recovery_required)
                else if u
                then (s, err ErrorCode.persistence_corruption)
                else outcome).0
      either true u outcome o = h
      either false true outcome o = h
      either false false outcome o = o

  run-HasRoom :
      (s : WalStreamScanner) (calls : List Call)
      → HasRoom s
      → HasRoom (run platform registry s calls).0
  unfolding run
  run-HasRoom s [] h = h
  run-HasRoom s (c ∷ cs) h = run-HasRoom (call platform registry s c).0 cs (next-HasRoom s c h)

  create-HasRoom : (head : PersistedStoreHead) → Ensures HasRoom (create platform head)
  unfolding create
  create-HasRoom head =
      >>=-Ensures HasRoom (checkpoint_wal_anchor platform head) _ λ _ _ _. omega arith

  -- Whatever calls of `next` are made on a scanner that `create` returns: as long as it has not
  -- failed, the bytes that wait in its buffer are fewer than the number that it waits for.
  pub WalStreamScanner-HasRoom :
      (head : PersistedStoreHead) (s : WalStreamScanner) (calls : List Call)
      → create platform head ≡ ok s
      → (run platform registry s calls).0.failed ≡ false
      → length (run platform registry s calls).0.pending < (run platform registry s calls).0.target
  WalStreamScanner-HasRoom head s calls h =
      run-HasRoom s calls (ensured HasRoom (create platform head) s (create-HasRoom head) h)
