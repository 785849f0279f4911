-- ===== src/Raft/Log/Shape.antt =====
-- What holds of every log of a running node: contiguous indices from the sentinel on, and room for
-- the indices in 64 bits.
use raft_implementation.Prelude.{ℕ, ◌+◌, ◌<◌, ◌≡◌, List, [], ◌∷◌, length, u64_mod}
use raft_implementation.Raft.Log.{Log, LogEntry, snapshot_index}

-- The entries carry the indices i, i + 1, …
abbrev pub Contiguous : ℕ → List LogEntry → Type 0
Contiguous i [] = Unit
Contiguous i (e ∷ es) = (e.index ≡ i) × Contiguous (i + 1) es

pub record IsLog (l : Log) : Type 0 where
  pub has_sentinel : 0 < length l.entries
  pub contiguous : Contiguous (snapshot_index l) l.entries
  pub fits : snapshot_index l + length l.entries < u64_mod
