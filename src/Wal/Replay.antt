-- ===== src/Wal/Replay.antt =====
-- src/persistence/walReplay.ts: the state that a log leads to.
pub mod Laws
use ether_memories.Prelude.{ℕ, List, [], ◌∷◌}
use ether_memories.Result.{Result, ok, err, ErrorCode, ◌>>=◌}
use ether_memories.Value.{Value}
use ether_memories.Bytes.{Bytes}
use ether_memories.Durable.{CommittedTip, WalOperation, DurableTransaction}
use ether_memories.Codecs.{PersistedStoreHead}
use ether_memories.Wal.Registry.{ReplayRegistry, detached_state}
use ether_memories.Wal.Frame.{Platform}
use ether_memories.Wal.Scan.{WalScan, WalTail, scan_wal}

pub record DetachedReplay : Type 0 where
  pub state : Value
  pub tip : CommittedTip
  pub tail : WalTail
  pub duplicates : ℕ

module _ (registry : ReplayRegistry) where
  unfoldable pub replay_operations : Value → List WalOperation → Result Value
  replay_operations state [] = ok state
  replay_operations state (op ∷ ops) =
      registry.reduce state op >>= λ next. replay_operations next ops

  unfoldable pub replay_transactions : Value → List DurableTransaction → Result Value
  unfolding replay_operations
  replay_transactions state [] = ok state
  replay_transactions state (tx ∷ txs) =
      replay_operations state tx.operations >>= λ next. replay_transactions next txs

abbrev pub replay_of : WalScan → Value → DetachedReplay
replay_of scanned state = record {
  state = state;
  tip = scanned.tip;
  tail = scanned.tail;
  duplicates = scanned.duplicates;
}

-- `replayWal(bytes, head, initialState, registry)`
unfoldable pub replay_wal :
    Platform → Bytes → PersistedStoreHead → Value → ReplayRegistry → Result DetachedReplay
unfolding scan_wal detached_state replay_transactions
replay_wal platform bytes head initial registry =
    scan_wal platform bytes head registry >>= λ scanned.
    detached_state platform.json initial >>= λ cloned.
    replay_transactions registry cloned scanned.transactions >>= λ state.
    ok (replay_of scanned state)
