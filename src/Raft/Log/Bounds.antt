-- ===== src/Raft/Log/Bounds.antt =====
-- The snapshot boundary after each operation that changes the log.
use raft_implementation.Prelude.{
  ℕ, ◌-◌, ◌<◌, ◌≡◌, List, arith, u64_mod, if◌then◌else◌, ltb, get_or-append_left, get_or-take, ap,
}
use raft_implementation.Raft.Log.{
  Log, LogEntry, zero_entry, snapshot_index, append, truncate_from, compact_to,
}
use raft_implementation.Raft.Log.Shape.{IsLog}
use raft_implementation.Raft.Log.Basic.{truncate_from_lem, compact_to_lem}

module _ (l : Log) (w : IsLog l) where
  pub snapshot_index-append : (es : List LogEntry) → snapshot_index (append l es) ≡ snapshot_index l
  unfolding snapshot_index append
  snapshot_index-append es =
      ap (λ (e : LogEntry). e.index) (get_or-append_left l.entries es 0 zero_entry w.has_sentinel)

  pub snapshot_index-truncate_from :
      (i : ℕ) → i < u64_mod → snapshot_index (truncate_from l i) ≡ snapshot_index l
  unfolding snapshot_index
  snapshot_index-truncate_from i h =
      ground
        (arith, truncate_from_lem l w i, get_or-take (i - snapshot_index l) l.entries 0 zero_entry)

  pub snapshot_index-compact_to :
      (i t : ℕ)
      → i < u64_mod
      → snapshot_index (compact_to l i t)
        ≡ (if ltb (snapshot_index l) i then i else snapshot_index l)
  unfolding snapshot_index
  snapshot_index-compact_to i t h = ground (arith, compact_to_lem l w i t)
