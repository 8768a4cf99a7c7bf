-- ===== src/Wal/Stream/Stopped.antt =====
-- The two readings of the loop of the stream scanner: its result, and the buffer that it leaves.
use ether_memories.Prelude.{
  ℕ, zero, suc, ◌-◌, ◌≡◌, refl, Bool, true, false, ltb, [], ◌∷◌, length, drop,
}
use ether_memories.Result.{Result, ok, err, ◌>>=◌}
use ether_memories.Result.Ensures.{Ensures}
use ether_memories.Text.{Text}
use ether_memories.Bytes.{Bytes}
use ether_memories.Wal.{wal_limits}
use ether_memories.Wal.Registry.{ReplayRegistry}
use ether_memories.Wal.Frame.{Platform}
use ether_memories.Wal.Round.{Round, fill}
use ether_memories.Wal.Stream.{full_buffer, rounds, go_on, stopped}

module _ (platform : Platform) (registry : ReplayRegistry) (store_id : Text) (offset : ℕ) where
  -- A loop that does not fail stops with the round that it returns.
  rounds-stopped :
      (fuel : ℕ) (rest : Bytes) (r : Round)
      → Ensures
          (λ q. stopped platform registry store_id offset fuel rest r ≡ q)
          (rounds platform registry store_id offset fuel rest r)
  unfolding rounds stopped
  rounds-stopped zero rest r = refl
  rounds-stopped (suc fuel) [] r = refl
  rounds-stopped (suc fuel) (b ∷ rest) r =
      let filled = fill (b ∷ rest) r in
      let left = drop (r.target - length r.pending) (b ∷ rest) in
      either (ltb r.physical wal_limits.frames) (ltb (length filled.pending) filled.target) filled
        (full_buffer platform registry store_id offset filled)
        (rounds platform registry store_id offset fuel left)
        (stopped platform registry store_id offset fuel left) (λ q. rounds-stopped fuel left q)
    where
      either :
          (t u : Bool) (filled : Round) (round : Result Round) (go : Round → Result Round)
          (last : Round → Round)
          → ((q : Round) → Ensures (λ p. last q ≡ p) (go q))
          → Ensures
              (λ p.
                elim t [
                  | false ↦ r
                  | true ↦ elim u [ true ↦ filled | false ↦ go_on filled round last ]
                ]
                ≡ p)
              (elim t [ false ↦ ok r | true ↦ elim u [ true ↦ ok filled | false ↦ round >>= go ] ])
      either false u filled round go last h = refl
      either true true filled round go last h = refl
      either true false filled (ok q) go last h = h q
      either true false filled (err e) go last h = tt
