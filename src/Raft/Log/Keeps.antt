-- ===== src/Raft/Log/Keeps.antt =====
-- `append`, `truncateFrom` and `compactTo` keep a log well-formed.
use raft_implementation.Prelude.{
  ℕ, zero, suc, ◌+◌, ◌-◌, ◌<◌, ◌≡◌, refl, List, [], ◌∷◌, ◌++◌, arith, length, get_or, take, drop,
  u64_mod, subst, sym, ap, ◌∙◌, Bool-cases, leb, leb→le, leb→lt, le→ltb, lt→ltb, inl, inr,
  length-append, length-take, length-drop,
}
use raft_implementation.Raft.Log.{
  Log, LogEntry, zero_entry, snapshot_index, last_index, append, truncate_from, compact_to,
  sentinel,
}
use raft_implementation.Raft.Log.Shape.{IsLog, Contiguous}
use raft_implementation.Raft.Log.Basic.{last_index_lem, truncate_from_lem, compact_to_lem}
use raft_implementation.Raft.Log.Bounds.{
  snapshot_index-append, snapshot_index-truncate_from, snapshot_index-compact_to,
}

pub Contiguous_at : {i j : ℕ} (xs : List LogEntry) → i ≡ j → Contiguous i xs → Contiguous j xs
Contiguous_at xs e h = subst (λ k. Contiguous k xs) e h

Contiguous-append :
    (i : ℕ) (xs ys : List LogEntry)
    → Contiguous i xs
    → Contiguous (i + length xs) ys
    → Contiguous i (xs ++ ys)
Contiguous-append i [] ys h k = Contiguous_at ys (omega arith) k
Contiguous-append i (x ∷ xs) ys h k =
    (h.0, Contiguous-append (i + 1) xs ys h.1 (Contiguous_at ys (omega arith) k))

pub Contiguous-take : (i n : ℕ) (xs : List LogEntry) → Contiguous i xs → Contiguous i (take n xs)
Contiguous-take i zero xs h = tt
Contiguous-take i (suc n) [] h = tt
Contiguous-take i (suc n) (x ∷ xs) h = (h.0, Contiguous-take (i + 1) n xs h.1)

pub Contiguous-drop :
    (i n : ℕ) (xs : List LogEntry) → Contiguous i xs → Contiguous (i + n) (drop n xs)
Contiguous-drop i zero xs h = Contiguous_at xs (omega arith) h
Contiguous-drop i (suc n) [] h = tt
Contiguous-drop i (suc n) (x ∷ xs) h =
    Contiguous_at (drop n xs) (omega arith) (Contiguous-drop (i + 1) n xs h.1)

-- The k-th entry of a contiguous list that starts at i has the index i + k.
pub index-get_or :
    (i k : ℕ) (xs : List LogEntry)
    → Contiguous i xs
    → k < length xs
    → (get_or xs k zero_entry).index ≡ i + k
index-get_or i k [] h lt = elim lt [ ]
index-get_or i zero (x ∷ xs) h lt = omega (arith, h.0)
index-get_or i (suc k) (x ∷ xs) h lt = omega (arith, index-get_or (i + 1) k xs h.1 (omega arith))

-- A log with given entries and boundary is well-formed by their properties alone.
IsLog-of_entries :
    {m : Log} {i : ℕ} {es : List LogEntry}
    → m.entries ≡ es
    → snapshot_index m ≡ i
    → 0 < length es
    → Contiguous i es
    → i + length es < u64_mod
    → IsLog m
IsLog-of_entries {m} {i} {es} p q some_entry next fits = record {
  has_sentinel = omega (arith, ap length p);
  contiguous = Contiguous_at m.entries (sym q) (subst (Contiguous i) (sym p) next);
  fits = omega (arith, ap length p);
}

module _ (l : Log) (w : IsLog l) where
  -- Entries that carry on where a well-formed log ends, and for whose indices there is room, keep
  -- it well-formed.
  pub append-IsLog :
      (es : List LogEntry)
      → Contiguous (last_index l + 1) es
      → snapshot_index l + length l.entries + length es < u64_mod
      → IsLog (append l es)
  unfolding append
  append-IsLog es next fits = record {
    has_sentinel = omega (arith, w.has_sentinel, length-append l.entries es);
    contiguous =
        Contiguous_at (l.entries ++ es) (sym (unfold append in snapshot_index-append l w es)) (
          Contiguous-append (snapshot_index l) l.entries es w.contiguous
            (Contiguous_at es (omega (arith, last_index_lem l w, w.has_sentinel)) next));
    fits = omega (arith, fits, length-append l.entries es, snapshot_index-append l w es);
  }

  -- Truncation at any index keeps a well-formed log well-formed.
  pub truncate_from-IsLog : (i : ℕ) → i < u64_mod → IsLog (truncate_from l i)
  truncate_from-IsLog i h = elim (Bool-cases (leb i (snapshot_index l))) [
    | inl low ↦
        IsLog-of_entries (truncate_from_lem l w i h ∙ rw low) (snapshot_index-truncate_from l w i h)
          w.has_sentinel w.contiguous w.fits
    | inr high ↦
        let above = leb→lt i (snapshot_index l) high in
        IsLog-of_entries (truncate_from_lem l w i h ∙ rw high)
          (snapshot_index-truncate_from l w i h)
          (omega (arith, w.has_sentinel, length-take (i - snapshot_index l) l.entries))
          (Contiguous-take (snapshot_index l) (i - snapshot_index l) l.entries w.contiguous)
          (omega (arith, w.fits, length-take (i - snapshot_index l) l.entries))
  ]

  -- Compaction keeps a well-formed log well-formed, at any index that has a successor in 64 bits.
  pub compact_to-IsLog : (i t : ℕ) → i + 1 < u64_mod → IsLog (compact_to l i t)
  compact_to-IsLog i t h = elim (Bool-cases (leb i (snapshot_index l))) [
    | inl low ↦
        let above = leb→le i (snapshot_index l) low in
        IsLog-of_entries {i = snapshot_index l} {es = l.entries}
          (compact_to_lem l w i t (omega arith) ∙ rw low)
          (snapshot_index-compact_to l w i t (omega arith) ∙ rw (le→ltb (snapshot_index l) i above))
          w.has_sentinel w.contiguous w.fits
    | inr high ↦
        let above = leb→lt i (snapshot_index l) high in
        IsLog-of_entries {i = i} {es = sentinel i t ∷ drop (i - snapshot_index l + 1) l.entries}
          (compact_to_lem l w i t (omega arith) ∙ rw high)
          (snapshot_index-compact_to l w i t (omega arith) ∙ rw (lt→ltb (snapshot_index l) i above))
          (omega arith)
          (
            refl,
            Contiguous_at (drop (i - snapshot_index l + 1) l.entries) (omega arith) (
                Contiguous-drop (snapshot_index l) (i - snapshot_index l + 1) l.entries
                  w.contiguous),
          )
          (omega (arith, w.fits, length-drop (i - snapshot_index l + 1) l.entries))
  ]
