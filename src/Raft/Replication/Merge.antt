-- ===== src/Raft/Replication/Merge.antt =====
-- The loop of the append handler over a message's entries: what the log reads afterwards.
use raft_implementation.Prelude.{
  ℕ, zero, suc, ◌+◌, ◌-◌, ◌<◌, ◌≤◌, ◌≡◌, ◌⊎◌, refl, sym, ap, ◌∙◌, subst, inl, inr, List, [], ◌∷◌,
  arith, length, get_or, take, u64_mod, ltb, leb, ltb→lt, ltb→le, leb→le, leb→lt, lt→ltb, le→ltb,
  lt→leb, ◌==◌, ==_iff, not, Bool-cases, length-take,
}
use raft_implementation.Raft.Log.{
  Log, LogEntry, zero_entry, snapshot_index, get, last_index, append, truncate_from,
}
use raft_implementation.Raft.Log.Shape.{IsLog, Contiguous}
use raft_implementation.Raft.Log.Basic.{last_index_lem, truncate_from_lem}
use raft_implementation.Raft.Log.Bounds.{snapshot_index-append, snapshot_index-truncate_from}
use raft_implementation.Raft.Log.Keeps.{Contiguous_at, append-IsLog, truncate_from-IsLog}
use raft_implementation.Raft.Log.Reads.{
  last_index-append, get-append, get-truncate_from, le-last_index_of_term,
}
use raft_implementation.Raft.Replication.{merge_entries}

-- No entry above the boundary has term 0, which the code takes for a missing entry.
abbrev pub HasTerms : Log → Type 0
HasTerms l = (i : ℕ) → snapshot_index l < i → i ≤ last_index l → 0 < (get l i).term

-- The log m has, up to p, what l had; and at the index of each of the entries es, which stand from
-- p + 1 on, that entry, or what l had there before if that is an entry of the same term.
pub record Merged (l : Log) (p : ℕ) (es : List LogEntry) (m : Log) : Type 0 where
  pub is_log : IsLog m
  pub same_boundary : snapshot_index m ≡ snapshot_index l
  pub covers : p + length es ≤ last_index m
  pub before : (i : ℕ) → i ≤ p → get m i ≡ get l i
  pub agrees :
      (k : ℕ)
      → k < length es
      → snapshot_index l < p + 1 + k
      → (get m (p + 1 + k)).term ≡ (get_or es k zero_entry).term
  pub holds :
      (k : ℕ)
      → k < length es
      → snapshot_index l < p + 1 + k
      → (get m (p + 1 + k) ≡ get_or es k zero_entry)
        ⊎ ((get m (p + 1 + k) ≡ get l (p + 1 + k)) × (0 < (get l (p + 1 + k)).term))

module _ (l : Log) (w : IsLog l) (p : ℕ) (es : List LogEntry) where
  -- What is appended reads as it is.
  append_reads :
      last_index l ≡ p
      → Contiguous (p + 1) es
      → p + 1 + length es < u64_mod
      → (k : ℕ) → k < length es
      → get (append l es) (p + 1 + k) ≡ get_or es k zero_entry
  append_reads end next fits k lt =
      let bound = last_index_lem l w in
      let room : snapshot_index l + length l.entries + length es < u64_mod =
        omega (arith, w.has_sentinel) in
      let next' : Contiguous (last_index l + 1) es = Contiguous_at es (omega arith) next in
      get-append l w es (p + 1 + k) next' room (omega arith)
      ∙ rw (lt→ltb (last_index l) (p + 1 + k) (omega arith))
          (ap (λ j. get_or es j zero_entry) (omega arith))

  append-Merged :
      last_index l ≡ p
      → Contiguous (p + 1) es
      → p + 1 + length es < u64_mod
      → Merged l p es (append l es)
  append-Merged end next fits =
      let bound = last_index_lem l w in
      let room : snapshot_index l + length l.entries + length es < u64_mod =
        omega (arith, w.has_sentinel) in
      let next' : Contiguous (last_index l + 1) es = Contiguous_at es (omega arith) next in
      record {
        is_log = append-IsLog l w es next' room;
        same_boundary = snapshot_index-append l w es;
        covers = omega (arith, last_index-append l w es next' room);
        before = λ i low.
            get-append l w es i next' room (omega arith)
            ∙ rw (le→ltb (last_index l) i (omega arith));
        agrees = λ k lt above. ap (λ (e : LogEntry). e.term) (append_reads end next fits k lt);
        holds = λ k lt above. inl (append_reads end next fits k lt);
      }

  -- The end of a log that is cut above index p.
  pub last_index-cut :
      snapshot_index l ≤ p → p < last_index l → last_index (truncate_from l (p + 1)) ≡ p
  last_index-cut low high =
      let bound = last_index_lem l w in
      let small : p + 1 < u64_mod = omega (arith, w.fits, w.has_sentinel) in
      let cut : (truncate_from l (p + 1)).entries ≡ take (p + 1 - snapshot_index l) l.entries =
        truncate_from_lem l w (p + 1) small
        ∙ rw (lt→leb (p + 1) (snapshot_index l) (omega arith)) in
      omega (
        arith,
        last_index_lem (truncate_from l (p + 1)) (truncate_from-IsLog l w (p + 1) small),
        snapshot_index-truncate_from l w (p + 1) small,
        ap length cut,
        length-take (p + 1 - snapshot_index l) l.entries,
        w.has_sentinel,
      )

-- A conflict at index p + 1: what the log held from there on is replaced.
replace-Merged :
    (l : Log) (p : ℕ) (es : List LogEntry)
    → IsLog l
    → snapshot_index l ≤ p
    → p < last_index l
    → Contiguous (p + 1) es
    → p + 1 + length es < u64_mod
    → Merged l p es (append (truncate_from l (p + 1)) es)
replace-Merged l p es w low high next fits =
    let bound = last_index_lem l w in
    let small : p + 1 < u64_mod = omega (arith, w.fits, w.has_sentinel) in
    let cut = truncate_from l (p + 1) in
    let wc = truncate_from-IsLog l w (p + 1) small in
    let end = last_index-cut l w p es low high in
    let m = append-Merged cut wc p es end next fits in
    let same = snapshot_index-truncate_from l w (p + 1) small in
    record {
      is_log = m.is_log;
      same_boundary = m.same_boundary ∙ same;
      covers = m.covers;
      before = λ i up.
          m.before i up ∙ get-truncate_from l w (p + 1) i small (omega arith) ∙ ground arith;
      agrees = λ k lt above. m.agrees k lt (omega arith);
      holds = λ k lt above. inl (append_reads cut wc p es end next fits k lt);
    }

-- An entry that is skipped, or that the log holds already.
skip-Merged :
    (l m : Log) (p : ℕ) (e : LogEntry) (es : List LogEntry)
    → (snapshot_index l < p + 1 → (0 < (get l (p + 1)).term) × ((get l (p + 1)).term ≡ e.term))
    → Merged l (p + 1) es m
    → Merged l p (e ∷ es) m
skip-Merged l m p e es here h = record {
  is_log = h.is_log;
  same_boundary = h.same_boundary;
  covers = omega (arith, h.covers);
  before = λ i low. h.before i (omega arith);
  agrees = elim [
    | zero ↦ λ lt above.
        let first : p + 1 + 0 ≡ p + 1 = omega arith in
        rw first
          (ap (λ (x : LogEntry). x.term) (h.before (p + 1) (omega arith)) ∙ (here (omega arith)).1)
    | suc k ↦ λ lt above.
        let shift : p + 1 + suc k ≡ p + 1 + 1 + k = omega arith in
        rw shift (h.agrees k (omega arith) (omega arith))
  ];
  holds = elim [
    | zero ↦ λ lt above.
        let first : p + 1 + 0 ≡ p + 1 = omega arith in
        rw first (inr (h.before (p + 1) (omega arith), (here (omega arith)).0))
    | suc k ↦ λ lt above.
        let shift : p + 1 + suc k ≡ p + 1 + 1 + k = omega arith in
        rw shift (h.holds k (omega arith) (omega arith))
  ];
}

-- A missing entry right above index p means that the log ends there.
pub ends_at :
    (l : Log) (p : ℕ)
    → HasTerms l
    → snapshot_index l < p + 1
    → p ≤ last_index l
    → (get l (p + 1)).term ≡ 0
    → last_index l ≡ p
ends_at l p t above low missing = elim (Bool-cases (ltb p (last_index l))) [
  | inl more ↦ absurd (
      omega (
        arith,
        ltb→lt p (last_index l) more,
        t (p + 1) above (omega (arith, ltb→lt p (last_index l) more)),
      ))
  | inr end ↦ omega (arith, ltb→le p (last_index l) end)
]

-- For a well-formed log with a term in every entry, a previous index within it, and contiguous
-- entries that follow it and fit 64 bits: after the loop the log is well-formed and has, at the
-- index of each of those entries above its boundary, that entry, or what it had there before if
-- that is an entry of the same term; at the previous index and below nothing has changed.
pub merge_entries-Merged :
    (l : Log) (p : ℕ) (es : List LogEntry)
    → IsLog l
    → HasTerms l
    → p ≤ last_index l
    → Contiguous (p + 1) es
    → p + 1 + length es < u64_mod
    → Merged l p es (merge_entries l es)
unfolding merge_entries
merge_entries-Merged l p [] w t low next fits = record {
  is_log = w;
  same_boundary = refl;
  covers = omega arith;
  before = λ i up. refl;
  agrees = λ k lt above. elim lt [ ];
  holds = λ k lt above. elim lt [ ];
}
merge_entries-Merged l p (e ∷ es) w t low next fits =
    let rest = merge_entries-Merged l (p + 1) es w t in
    let at : e.index ≡ p + 1 = next.0 in
    elim (Bool-cases (leb e.index (snapshot_index l))) [
      | inl old ↦ rw old (
          skip-Merged l (merge_entries l es) p e es
            (λ above. absurd (omega (arith, leb→le e.index (snapshot_index l) old)))
            (rest
              (omega
                (arith, leb→le e.index (snapshot_index l) old, last_index_lem l w, w.has_sentinel))
              next.1 (omega arith)))
      | inr new ↦ elim (Bool-cases ((get l e.index).term == 0)) [
        | inl missing ↦
            let none_there : (get l (p + 1)).term ≡ 0 =
              subst (λ i. (get l i).term ≡ 0) at ((==_iff (get l e.index).term 0).0 missing) in
            let above : snapshot_index l < p + 1 =
              omega (arith, leb→lt e.index (snapshot_index l) new) in
            rw (new, missing)
              (append-Merged l w p (e ∷ es) (ends_at l p t above low none_there) next fits)
        | inr there ↦ elim (Bool-cases (not ((get l e.index).term == e.term))) [
          | inl conflict ↦
              let above : snapshot_index l < p + 1 =
                omega (arith, leb→lt e.index (snapshot_index l) new) in
              let term_there : 0 < (get l (p + 1)).term =
                subst (λ i. 0 < (get l i).term) at (ground arith) in
              let within = le-last_index_of_term l w (p + 1) (omega arith) term_there in
              rw (new, there, conflict)
                (subst (λ i. Merged l p (e ∷ es) (append (truncate_from l i) (e ∷ es))) (sym at)
                  (replace-Merged l p (e ∷ es) w (omega arith) (omega arith) next fits))
          | inr same ↦
              let equal : (get l e.index).term ≡ e.term = ground arith in
              let term_there : 0 < (get l (p + 1)).term =
                subst (λ i. 0 < (get l i).term) at (ground arith) in
              let within = le-last_index_of_term l w (p + 1) (omega arith) term_there in
              rw (new, there, same)
                (skip-Merged l (merge_entries l es) p e es
                  (λ above. (term_there, subst (λ i. (get l i).term ≡ e.term) at equal))
                  (rest within next.1 (omega arith)))
        ]
      ]
    ]
