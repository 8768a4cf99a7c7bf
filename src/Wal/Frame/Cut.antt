-- ===== src/Wal/Frame/Cut.antt =====
-- `readFrame` on a frame that was cut short, as by a crash in the middle of a write.
pub mod Trailer
pub mod Body
pub mod Whole
use ether_memories.Prelude.{ℕ, Bool, ltb, if◌then◌else◌}
use ether_memories.Wal.Frame.{FrameRead, incomplete, complete}

-- What is read of the first `k` bytes of a frame.
abbrev pub cut : ℕ → FrameRead → FrameRead
cut k incomplete = incomplete
cut k (complete tx n) = if ltb k n then incomplete else complete tx n
