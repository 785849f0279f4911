-- ===== src/Raft/Log/Reads.antt =====
-- What `get` and the bounds return after each operation that changes the log.
use raft_implementation.Prelude.{
  ℕ, ◌+◌, ◌-◌, ◌<◌, ◌≤◌, ◌≡◌, List, arith, length, get_or, take, drop, u64_mod, if◌then◌else◌, ltb,
  leb, ◌==◌, ◌&&◌, length-append, length-take, get_or-append_left, get_or-append_right, get_or-take,
  get_or-drop, get_or_past, get_or-cons,
}
use raft_implementation.Raft.Log.{
  Log, LogEntry, zero_entry, snapshot_index, get, last_index, append, truncate_from, compact_to,
  sentinel,
}
use raft_implementation.Raft.Log.Shape.{IsLog, Contiguous}
use raft_implementation.Raft.Log.Bounds.{
  snapshot_index-append, snapshot_index-truncate_from, snapshot_index-compact_to,
}
use raft_implementation.Raft.Log.Keeps.{append-IsLog, truncate_from-IsLog, compact_to-IsLog}
use raft_implementation.Raft.Log.Basic.{last_index_lem, get_lem, truncate_from_lem, compact_to_lem}

module _ (l : Log) (w : IsLog l) where
  pub last_index-append :
      (es : List LogEntry)
      → Contiguous (last_index l + 1) es
      → snapshot_index l + length l.entries + length es < u64_mod
      → last_index (append l es) ≡ last_index l + length es
  unfolding append
  last_index-append es next fits = omega (
    arith,
    last_index_lem (append l es) (append-IsLog l w es next fits),
    last_index_lem l w,
    snapshot_index-append l w es,
    length-append l.entries es,
    w.has_sentinel,
  )

  -- In a well-formed log, after an append of entries that carry on where it ends and fit 64 bits,
  -- an index past the old end reads the new entries, and any other reads as before.
  pub get-append :
      (es : List LogEntry) (i : ℕ)
      → Contiguous (last_index l + 1) es
      → snapshot_index l + length l.entries + length es < u64_mod
      → i < u64_mod
      → get (append l es) i
        ≡ (if ltb (last_index l) i then get_or es (i - last_index l - 1) zero_entry else get l i)
  unfolding append
  get-append es i next fits h = ground (
    arith,
    get_lem (append l es) (append-IsLog l w es next fits) i h,
    get_lem l w i h,
    last_index_lem l w,
    w.has_sentinel,
    snapshot_index-append l w es,
    get_or-append_left l.entries es (i - snapshot_index l) zero_entry,
    get_or-append_right l.entries es (i - last_index l - 1) zero_entry,
  )

  -- In a well-formed log, truncation from an index above the boundary removes exactly the entries
  -- from there on, and truncation from any other index removes nothing.
  pub get-truncate_from :
      (i j : ℕ)
      → i < u64_mod
      → j < u64_mod
      → get (truncate_from l i) j
        ≡ (if ltb (snapshot_index l) i && leb i j then zero_entry else get l j)
  get-truncate_from i j h k = ground (
    arith,
    get_lem (truncate_from l i) (truncate_from-IsLog l w i h) j k,
    get_lem l w j k,
    truncate_from_lem l w i h,
    snapshot_index-truncate_from l w i h,
    get_or-take (i - snapshot_index l) l.entries (j - snapshot_index l) zero_entry,
    length-take (i - snapshot_index l) l.entries,
    get_or_past (take (i - snapshot_index l) l.entries) (j - snapshot_index l) zero_entry,
  )

  -- In a well-formed log, compaction to an index above the boundary forgets what lies below the
  -- index, puts the sentinel there, and keeps every entry above; compaction to any other index
  -- changes no read.
  pub get-compact_to :
      (i t j : ℕ)
      → i + 1 < u64_mod
      → j < u64_mod
      → get (compact_to l i t) j ≡ (
          if leb i (snapshot_index l)
          then get l j
          else if ltb j i
          then zero_entry
          else if j == i
          then sentinel i t
          else get l j)
  get-compact_to i t j h k =
      let xs = drop (i - snapshot_index l + 1) l.entries in
      ground (
        arith,
        get_lem (compact_to l i t) (compact_to-IsLog l w i t h) j k,
        get_lem l w j k,
        compact_to_lem l w i t,
        snapshot_index-compact_to l w i t,
        get_or-cons (sentinel i t) xs (j - i) zero_entry,
        get_or-drop (i - snapshot_index l + 1) l.entries (j - i - 1) zero_entry,
      )

  -- What is read above the boundary with a term lies within the log.
  pub le-last_index_of_term : (i : ℕ) → i < u64_mod → 0 < (get l i).term → i ≤ last_index l
  le-last_index_of_term i h t = ground (
    arith,
    get_lem l w i h,
    last_index_lem l w,
    w.has_sentinel,
    get_or_past l.entries (i - snapshot_index l) zero_entry,
  )

  -- What is read with a term does not lie below the boundary.
  pub snapshot_index-le_of_term : (i : ℕ) → i < u64_mod → 0 < (get l i).term → snapshot_index l ≤ i
  snapshot_index-le_of_term i h t = ground (arith, get_lem l w i h)
