-- ===== src/Raft/Matching/Merging.antt =====
-- The loop of the append handler on a log that was never compacted, entry by entry: it keeps the
-- log, or replaces everything from the first difference on.
use raft_implementation.Prelude.{
  ℕ, zero, suc, ◌+◌, ◌-◌, ◌<◌, ◌≤◌, ◌≡◌, ◌≢◌, refl, sym, ap, ◌∙◌, subst, inl, inr, false, List, [],
  ◌∷◌, arith, length, get_or, u64_mod, ◌==◌, ==_iff, leb, lt→leb, not, Bool-cases,
}
use raft_implementation.Raft.Log.{
  Log, LogEntry, zero_entry, snapshot_index, get, last_index, append, truncate_from,
}
use raft_implementation.Raft.Log.Shape.{IsLog, Contiguous}
use raft_implementation.Raft.Log.Basic.{last_index_lem}
use raft_implementation.Raft.Log.Bounds.{snapshot_index-append, snapshot_index-truncate_from}
use raft_implementation.Raft.Log.Keeps.{Contiguous_at, append-IsLog, truncate_from-IsLog}
use raft_implementation.Raft.Log.Reads.{
  last_index-append, get-append, get-truncate_from, le-last_index_of_term,
}
use raft_implementation.Raft.Replication.{merge_entries}
use raft_implementation.Raft.Replication.Merge.{HasTerms, ends_at, last_index-cut}

-- The log m holds what l held up to q, then the entries es, which follow index p, and nothing else.
pub record Replaced (l : Log) (p : ℕ) (es : List LogEntry) (q : ℕ) (m : Log) : Type 0 where
  pub is_log : IsLog m
  pub same_boundary : snapshot_index m ≡ snapshot_index l
  pub ends : last_index m ≡ p + length es
  pub before : (i : ℕ) → i ≤ q → get m i ≡ get l i
  pub after : (k : ℕ) → k < length es → q ≤ p + k → get m (p + 1 + k) ≡ get_or es k zero_entry

-- What the loop makes of the log l: nothing, or a log that is replaced above q, where q is the last
-- place before the first difference in a term.
pub data Merging (l : Log) (p : ℕ) (es : List LogEntry) (m : Log) : Type 0 where
  kept : m ≡ l → Merging l p es m
  replaced :
      (q : ℕ)
      → p ≤ q
      → q < p + length es
      → (get l (q + 1)).term ≢ (get_or es (q - p) zero_entry).term
      → (p < q → (get l q).term ≡ (get_or es (q - p - 1) zero_entry).term)
      → Replaced l p es q m
      → Merging l p es m

module _ (l : Log) (w : IsLog l) (p : ℕ) (es : List LogEntry) where
  append-Replaced :
      last_index l ≡ p
      → Contiguous (p + 1) es
      → p + 1 + length es < u64_mod
      → Replaced l p es p (append l es)
  append-Replaced end next fits =
      let bound = last_index_lem l w in
      let room : snapshot_index l + length l.entries + length es < u64_mod =
        omega (arith, w.has_sentinel) in
      let next' : Contiguous (last_index l + 1) es = Contiguous_at es (omega arith) next in
      record {
        is_log = append-IsLog l w es next' room;
        same_boundary = snapshot_index-append l w es;
        ends = omega (arith, last_index-append l w es next' room);
        before = λ i low. ground (arith, get-append l w es i next' room (omega arith));
        after = λ k lt above.
            let at : p + 1 + k - last_index l - 1 ≡ k = omega arith in
            ground (
              arith,
              get-append l w es (p + 1 + k) next' room (omega arith),
              ap (λ j. get_or es j zero_entry) at,
            );
      }

-- A difference at index p + 1: what the log held from there on is replaced.
cut-Replaced :
    (l : Log) (p : ℕ) (es : List LogEntry)
    → IsLog l
    → snapshot_index l ≤ p
    → p < last_index l
    → Contiguous (p + 1) es
    → p + 1 + length es < u64_mod
    → Replaced l p es p (append (truncate_from l (p + 1)) es)
cut-Replaced l p es w low high next fits =
    let bound = last_index_lem l w in
    let small : p + 1 < u64_mod = omega (arith, w.fits, w.has_sentinel) in
    let m =
      append-Replaced (truncate_from l (p + 1)) (truncate_from-IsLog l w (p + 1) small) p es
        (last_index-cut l w p es low high) next fits in
    record {
      is_log = m.is_log;
      same_boundary = m.same_boundary ∙ snapshot_index-truncate_from l w (p + 1) small;
      ends = m.ends;
      before = λ i up.
          m.before i up ∙ get-truncate_from l w (p + 1) i small (omega arith) ∙ ground arith;
      after = m.after;
    }

-- An entry that the log holds already, before the rest.
skip-Merging :
    (l m : Log) (p : ℕ) (e : LogEntry) (es : List LogEntry)
    → (get l (p + 1)).term ≡ e.term
    → Merging l (p + 1) es m
    → Merging l p (e ∷ es) m
skip-Merging l m p e es here (kept s) = kept s
skip-Merging l m p e es here (replaced q low high differs same r) =
    let shift : q - p ≡ suc (q - (p + 1)) = omega arith in
    replaced q (omega arith) (omega arith)
      (λ h. differs (h ∙ ap (λ i. (get_or (e ∷ es) i zero_entry).term) shift))
      (λ lt. elim (Bool-cases (q == p + 1)) [
        | inl first ↦
            let at : q ≡ p + 1 = (==_iff q (p + 1)).0 first in
            let none_left : q - p - 1 ≡ 0 = omega arith in rw (none_left, at) here
        | inr more ↦
            let above : p + 1 < q = ground arith in
            let one_left : q - p - 1 ≡ suc (q - (p + 1) - 1) = omega arith in
            rw one_left (same above)
      ])
      (record {
        is_log = r.is_log;
        same_boundary = r.same_boundary;
        ends = omega (arith, r.ends);
        before = r.before;
        after = elim [
          | zero ↦ λ lt above. absurd (omega arith)
          | suc k ↦ λ lt above.
              let at : p + 1 + suc k ≡ p + 1 + 1 + k = omega arith in
              rw at (r.after k (omega arith) (omega arith))
        ];
      })

-- On a log that was never compacted, with a term in every entry, and for entries with terms that
-- follow an index within the log, the loop does one or the other.
pub merge_entries-Merging :
    (l : Log) (p : ℕ) (es : List LogEntry)
    → IsLog l
    → HasTerms l
    → snapshot_index l ≡ 0
    → p ≤ last_index l
    → Contiguous (p + 1) es
    → ((k : ℕ) → k < length es → 0 < (get_or es k zero_entry).term)
    → p + 1 + length es < u64_mod
    → Merging l p es (merge_entries l es)
unfolding merge_entries
merge_entries-Merging l p [] w t whole low next terms fits = kept refl
merge_entries-Merging l p (e ∷ es) w t whole low next terms fits =
    let at : e.index ≡ p + 1 = next.0 in
    let positive : 0 < e.term = terms 0 (omega arith) in
    let start : p - p ≡ 0 = omega arith in
    let new : leb e.index (snapshot_index l) ≡ false =
      lt→leb e.index (snapshot_index l) (omega arith) in
    let above : snapshot_index l < p + 1 = omega arith in
    let there_term : (get l e.index).term ≡ (get l (p + 1)).term = ap (λ i. (get l i).term) at in
    elim (Bool-cases ((get l e.index).term == 0)) [
      | inl missing ↦
          let none_there : (get l (p + 1)).term ≡ 0 = ground arith in
          rw (new, missing)
            (replaced p (omega arith) (omega arith) (rw start (omega arith))
              (λ h. absurd (omega arith))
              (append-Replaced l w p (e ∷ es) (ends_at l p t above low none_there) next fits))
      | inr there ↦
          let term_there : 0 < (get l (p + 1)).term = ground arith in
          let within = le-last_index_of_term l w (p + 1) (omega arith) term_there in
          elim (Bool-cases (not ((get l e.index).term == e.term))) [
            | inl conflict ↦
                let differs : (get l (p + 1)).term ≢ e.term = ground arith in
                rw (new, there, conflict)
                  (replaced p (omega arith) (omega arith) (rw start differs)
                    (λ h. absurd (omega arith))
                    (subst (λ i. Replaced l p (e ∷ es) p (append (truncate_from l i) (e ∷ es)))
                      (sym at) (cut-Replaced l p (e ∷ es) w (omega arith) (omega arith) next fits)))
            | inr same ↦
                let equal : (get l (p + 1)).term ≡ e.term = ground arith in
                rw (new, there, same)
                  (skip-Merging l (merge_entries l es) p e es equal (
                    merge_entries-Merging l (p + 1) es w t whole within next.1
                      (λ k lt. terms (suc k) (omega arith)) (omega arith)))
          ]
    ]
