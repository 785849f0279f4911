-- ===== src/Raft/Log/Slices.antt =====
-- What `slice` and `firstIndexForTerm` return.
use raft_implementation.Prelude.{
  ℕ, zero, suc, ◌+◌, ◌-◌, ◌<◌, ◌≤◌, ◌≡◌, List, [], ◌∷◌, arith, length, get_or, drop, u64_mod, add64,
  add64_lem, get_or-take, get_or-drop, length-take, length-drop, ap, ◌∙◌, get_or_first, get_or-cons,
}
use raft_implementation.Raft.Log.{
  Log, LogEntry, zero_entry, snapshot_index, get, last_index, slice, first_index_in,
  first_index_for_term,
}
use raft_implementation.Raft.Log.Shape.{IsLog, Contiguous}
use raft_implementation.Raft.Log.Basic.{last_index_lem, get_lem, slice_lem}
use raft_implementation.Raft.Log.Keeps.{Contiguous_at, Contiguous-take, Contiguous-drop}

module _ (l : Log) (w : IsLog l) where
  -- A slice that starts above the boundary holds, at each place below its asked length, what the log
  -- reads at the index of that place; it carries those indices; and it is as long as was asked for,
  -- up to the end of the log.
  pub slice_reads :
      (from to k : ℕ)
      → snapshot_index l < from
      → to ≤ last_index l + 1
      → from < u64_mod
      → k < to - from
      → (get_or (slice l from to) k zero_entry ≡ get l (from + k))
        × (length (slice l from to) ≡ to - from)
        × Contiguous from (slice l from to)
  slice_reads from to k above end h lt =
      let s = snapshot_index l in
      let cut = drop (from - s) l.entries in
      let bound = last_index_lem l w in
      let e = slice_lem l w from to above h (omega (arith, w.fits, w.has_sentinel)) in
      (
        ap (λ (xs : List LogEntry). get_or xs k zero_entry) e
            ∙ get_or-take (to - from) cut k zero_entry lt
            ∙ get_or-drop (from - s) l.entries k zero_entry
            ∙ ground (arith, w.fits, w.has_sentinel, get_lem l w (from + k)),
        omega (
          arith,
          ap length e,
          length-take (to - from) cut,
          length-drop (from - s) l.entries,
          w.has_sentinel,
        ),
        rw e (
            Contiguous-take from (to - from) cut (
              Contiguous_at cut (omega arith)
                (Contiguous-drop s (from - s) l.entries w.contiguous))),
      )

-- In a contiguous list the search finds the least index of a term.
first_index_in_lem :
    (t i k : ℕ) (es : List LogEntry)
    → Contiguous i es
    → k < length es
    → (get_or es k zero_entry).term ≡ t
    → (i ≤ first_index_in t es)
      × (first_index_in t es ≤ i + k)
      × ((get_or es (first_index_in t es - i) zero_entry).term ≡ t)
unfolding first_index_in
first_index_in_lem t i k [] h lt e = elim lt [ ]
first_index_in_lem t i zero (x ∷ es) h lt e =
    ground (arith, get_or_first x es (x.index - i) zero_entry)
first_index_in_lem t i (suc k) (x ∷ es) h lt e = ground (
  arith,
  get_or_first x es (x.index - i) zero_entry,
  get_or-cons x es (first_index_in t es - i) zero_entry,
  first_index_in_lem t (i + 1) k es h.1 (omega arith) e,
)

-- Where a well-formed log holds an entry of a term, at the boundary or above, `firstIndexForTerm`
-- gives an index of that term, not below the boundary and not past that entry.
pub first_index_for_term_least :
    (l : Log) (t i : ℕ)
    → IsLog l
    → snapshot_index l ≤ i
    → i ≤ last_index l
    → (get l i).term ≡ t
    → (snapshot_index l ≤ first_index_for_term l t)
      × (first_index_for_term l t ≤ i)
      × ((get l (first_index_for_term l t)).term ≡ t)
unfolding first_index_for_term
first_index_for_term_least l t i w above end e =
    let s = snapshot_index l in
    let fits : s + length l.entries < u64_mod = w.fits in
    let bound = last_index_lem l w in
    let some_entry = w.has_sentinel in
    let reads = get_lem l w i (omega arith) in
    let here : (get_or l.entries (i - s) zero_entry).term ≡ t = ground arith in
    let found = first_index_in_lem t s (i - s) l.entries w.contiguous (omega arith) here in
    ground (arith, get_lem l w (first_index_in t l.entries))

-- In a well-formed log, the slice from an index above the boundary, at most the one after the end,
-- to the end of the log is contiguous from that index and has every entry from there on.
pub slice_whole :
    (l : Log) (from : ℕ)
    → IsLog l
    → snapshot_index l < from
    → from ≤ last_index l + 1
    → let es = slice l from (add64 (last_index l) 1) in
      (from + length es ≡ last_index l + 1)
      × Contiguous from es
      × ((k : ℕ) → k < length es → get_or es k zero_entry ≡ get l (from + k))
slice_whole l from w above end =
    let s = snapshot_index l in
    let bound = last_index_lem l w in
    let fits : last_index l + 1 < u64_mod = omega (arith, w.fits, w.has_sentinel) in
    let to = add64 (last_index l) 1 in
    let to_lem = add64_lem (last_index l) 1 fits in
    let cut = drop (from - s) l.entries in
    let e = slice_lem l w from to above (omega arith) (omega arith) in
    let size : length (slice l from to) ≡ to - from = omega (
      arith,
      ap length e,
      length-take (to - from) cut,
      length-drop (from - s) l.entries,
      w.has_sentinel,
    ) in
    (
      omega arith,
      rw e (
          Contiguous-take from (to - from) cut (
            Contiguous_at cut (omega arith) (Contiguous-drop s (from - s) l.entries w.contiguous))),
      λ k lt. (slice_reads l w from to k above (omega arith) (omega arith) (omega arith)).0,
    )
