-- ===== src/Wal/Replay/Laws.antt =====
-- The replay of a log that was cut short, in src/persistence/walReplay.ts.
use ether_memories.Prelude.{ℕ, ◌≤◌, ◌≡◌, refl, List, [], ◌∷◌, ◌++◌, length, take}
use ether_memories.Result.{ok}
use ether_memories.Result.Ensures.{Ensures, ensured, Ensures-of, >>=-Ensures}
use ether_memories.Value.{Value}
use ether_memories.Bytes.{Bytes}
use ether_memories.Durable.{DurableTransaction}
use ether_memories.Codecs.{PersistedStoreHead}
use ether_memories.Wal.Registry.{ReplayRegistry, detached_state}
use ether_memories.Wal.Frame.{Platform}
use ether_memories.Wal.Scan.{scan_wal}
use ether_memories.Wal.Scan.Cut.{scan_wal-take}
use ether_memories.Wal.Replay.{
  DetachedReplay, replay_of, replay_operations, replay_transactions, replay_wal,
}

module _ (registry : ReplayRegistry) where
  -- More transactions are replayed from where the first ones have led to.
  abbrev Through : List DurableTransaction → List DurableTransaction → Value → Value → Type 0
  Through txs more state last =
      (middle : Value) × (replay_transactions registry state txs ≡ ok middle)
      × (replay_transactions registry middle more ≡ ok last)

  replay_transactions-append :
      (txs more : List DurableTransaction) (state : Value)
      → Ensures (Through txs more state) (replay_transactions registry state (txs ++ more))
  unfolding replay_transactions
  replay_transactions-append [] more state =
      Ensures-of (Through [] more state) (replay_transactions registry state more)
        (λ last e. (state, refl, e))
  replay_transactions-append (tx ∷ txs) more state =
      let P = Through (tx ∷ txs) more state in
      >>=-Ensures P (replay_operations registry state tx.operations) _ λ next e.
        let rest = replay_transactions registry next (txs ++ more) in
        Ensures-of P rest λ last found.
          let (middle, first, second) =
            ensured (Through txs more next) rest last (replay_transactions-append txs more next)
              found in
          (middle, rw e first, second)

module _ (platform : Platform) (bytes : Bytes) (head : PersistedStoreHead) (initial : Value)
    (registry : ReplayRegistry) where
  abbrev pub Reaches : ℕ → DetachedReplay → Type 0
  Reaches k full =
      (part : DetachedReplay) × (replay_wal platform (take k bytes) head initial registry ≡ ok part)
      × (later : List DurableTransaction) × (replay_transactions registry part.state later
          ≡ ok full.state)

  -- If a replay succeeds, so does that of the log cut short anywhere, and further transactions
  -- lead from its state to that of the whole log.
  pub replay_wal-take :
      (k : ℕ) (full : DetachedReplay)
      → k ≤ length bytes
      → replay_wal platform bytes head initial registry ≡ ok full
      → Reaches k full
  unfolding replay_wal
  replay_wal-take k full le h =
      let P = Reaches k in
      ensured P (replay_wal platform bytes head initial registry) full
        (>>=-Ensures P (scan_wal platform bytes head registry) _ λ scanned s.
          let (part, cut, (later, e)) = scan_wal-take platform bytes head registry scanned k le s in
          >>=-Ensures P (detached_state platform.json initial) _ λ cloned d.
            >>=-Ensures P (replay_transactions registry cloned scanned.transactions) _ λ state r.
              let (middle, first, second) =
                ensured (Through registry part.transactions later cloned)
                  (replay_transactions registry cloned (part.transactions ++ later)) state
                  (replay_transactions-append registry part.transactions later cloned)
                  (rw (← e) at r) in
              (replay_of part middle, rw (cut, d, first) refl, later, second))
        h
