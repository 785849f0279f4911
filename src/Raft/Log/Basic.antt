-- ===== src/Raft/Log/Basic.antt =====
-- The reading operations on a well-formed log, with the 64-bit arithmetic done.
use raft_implementation.Prelude.{
  ℕ, ◌+◌, ◌-◌, ◌<◌, ◌≡◌, refl, ◌∷◌, arith, length, get_or, take, drop, u64_mod, add64_lem,
  sub64_lem, if◌then◌else◌, ltb, leb, add64, sub64, get_or_past, take_none, take-drop_clamp,
  length-drop, take_all, drop_all,
}
use raft_implementation.Raft.Log.{
  Log, zero_entry, snapshot_index, get, last_index, truncate_from, compact_to, slice, sentinel,
}
use raft_implementation.Raft.Log.Shape.{IsLog}

module _ (l : Log) (w : IsLog l) where
  pub last_index_lem : last_index l ≡ snapshot_index l + length l.entries - 1
  unfolding last_index add64 sub64
  last_index_lem = omega (arith, w.fits, w.has_sentinel)

  -- Reading at an offset from the boundary.
  pub get_lem :
      (i : ℕ)
      → i < u64_mod
      → get l i ≡ (
          if ltb i (snapshot_index l)
          then zero_entry
          else get_or l.entries (i - snapshot_index l) zero_entry)
  unfolding get
  get_lem i h = ground (
    arith,
    sub64_lem i (snapshot_index l),
    get_or_past l.entries (i - snapshot_index l) zero_entry,
  )

  pub truncate_from_lem :
      (i : ℕ)
      → i < u64_mod
      → (truncate_from l i).entries
        ≡ (if leb i (snapshot_index l) then l.entries else take (i - snapshot_index l) l.entries)
  unfolding truncate_from
  truncate_from_lem i h =
      ground (arith, sub64_lem i (snapshot_index l), take_all (i - snapshot_index l) l.entries)

  pub compact_to_lem :
      (i t : ℕ)
      → i < u64_mod
      → (compact_to l i t).entries ≡ (
          if leb i (snapshot_index l)
          then l.entries
          else sentinel i t ∷ drop (i - snapshot_index l + 1) l.entries)
  unfolding compact_to
  compact_to_lem i t h = ground (
    arith,
    w.fits,
    sub64_lem i (snapshot_index l),
    add64_lem (i - snapshot_index l) 1,
    drop_all (i - snapshot_index l + 1) l.entries,
  )

  -- The result of `slice` for a start above the boundary.
  pub slice_lem :
      (from to : ℕ)
      → snapshot_index l < from
      → from < u64_mod
      → to < u64_mod
      → slice l from to ≡ take (to - from) (drop (from - snapshot_index l) l.entries)
  unfolding slice
  slice_lem from to above h k =
      let s = snapshot_index l in
      let size = length l.entries in
      ground (
        arith,
        sub64_lem from s,
        sub64_lem to s,
        take_none (to - from) (drop (from - s) l.entries),
        take_all (to - from) (drop (from - s) l.entries),
        drop_all (from - s) l.entries,
        length-drop (from - s) l.entries,
        take-drop_clamp (from - s) (to - s) size l.entries refl,
      )
