-- ===== src/Raft/Matching/Deliver.antt =====
-- An append message that arrives: the log stays, or becomes a beginning of the leader's log.
use raft_implementation.Prelude.{
  ℕ, ◌+◌, ◌-◌, ◌<◌, ◌≤◌, ◌≡◌, ◌≢◌, ◌⊎◌, inl, inr, sym, ap, ◌∙◌, subst, [], arith, length,
  Bool-cases, ltb, ltb→lt, ltb→le, ==_iff, ◌==◌, get_or, u64_mod,
}
use raft_implementation.Raft.Log.{Log, LogEntry, zero_entry, get, last_index}
use raft_implementation.Raft.Log.Reads.{le-last_index_of_term}
use raft_implementation.Raft.Rpc.{AppendEntriesArgs}
use raft_implementation.Raft.Node.{RaftNode, leader}
use raft_implementation.Raft.Replication.{
  merge_entries, handle_append_entries, greeted, yield_to_leader,
}
use raft_implementation.Raft.Replication.Handler.{Handled, handle_append_entries-Handled}
use raft_implementation.Raft.Replication.Outcomes.{
  Matches, passed-Matches, Matches-le-last, log-accept_entries,
}
use raft_implementation.Raft.Cluster.Steady.{append_checked-Steady}
use raft_implementation.Raft.Matching.{Book}
use raft_implementation.Raft.Matching.Merging.{kept, replaced, Replaced, merge_entries-Merging}
use raft_implementation.Raft.Matching.Logs.{AreSame, IsGood, IsGood-match, IsGood-AreSame, IsCopied}

-- The log m is a beginning of the leader's log, and l up to place q, after which l differs.
pub record IsCut (l theirs m : Log) : Type 0 where
  pub place : ℕ
  pub same : AreSame m theirs (last_index m)
  pub below : place < last_index m
  pub before : (k : ℕ) → k ≤ place → get m k ≡ get l k
  pub differs : get l (place + 1) ≢ get theirs (place + 1)

pub IsCut-differ : (l theirs m : Log) → IsCut l theirs m → l ≢ theirs
IsCut-differ l theirs m h own = h.differs (ap (λ x. get x (h.place + 1)) own)

module _ (book : Book) (args : AppendEntriesArgs) (c : IsCopied book args) where
  abbrev p : ℕ
  p = args.prev_log_index

  abbrev theirs : Log
  theirs = c.its_log

  -- The entry of the message that has index i, as the leader's log has it.
  copied_at :
      (i k : ℕ)
      → k < length args.entries
      → p + 1 + k ≡ i
      → get_or args.entries k zero_entry ≡ get theirs i
  copied_at i k lt at = c.copies k lt ∙ ap (get theirs) at

  copied_terms :
      IsGood book theirs
      → (k : ℕ) → k < length args.entries
      → 0 < (get_or args.entries k zero_entry).term
  copied_terms g k lt =
      subst (λ (e : LogEntry). 0 < e.term) (sym (c.copies k lt))
        (g.has_terms (p + 1 + k) (omega (arith, g.whole)) (omega (arith, c.covers)))

  module _ (l : Log) (h : IsGood book l) (g : IsGood book theirs) where
    start-AreSame : p ≡ 0 → AreSame l theirs p
    start-AreSame start = record {
      within = omega arith;
      within' = omega arith;
      reads = λ k a b. absurd (omega arith);
    }

    -- A log that passes the consistency check is the leader's up to the previous index.
    checked-AreSame : p < u64_mod → Matches args l → AreSame l theirs p
    checked-AreSame small (inl start) = start-AreSame start
    checked-AreSame small (inr (pos, e)) = elim (Bool-cases (p == 0)) [
      | inl start ↦ start-AreSame ((==_iff p 0).0 start)
      | inr later ↦
          let above : 0 < p = ground arith in
          IsGood-match book l theirs p h g above (le-last_index_of_term l h.is_log p small pos)
            (omega (arith, c.covers)) (e ∙ c.prev_term above)
    ]

    -- So is a log up to the place before the first difference.
    before-AreSame :
        (q : ℕ)
        → Matches args l
        → p ≤ q
        → q < p + length args.entries
        → (p < q → (get l q).term ≡ (get_or args.entries (q - p - 1) zero_entry).term)
        → AreSame l theirs q
    before-AreSame q passed low high same = elim (Bool-cases (ltb p q)) [
      | inr none_more ↦
          let at : p ≡ q = omega (arith, ltb→le p q none_more) in
          subst (AreSame l theirs) at (checked-AreSame (omega (arith, c.is_append.fits)) passed)
      | inl more ↦
          let above = ltb→lt p q more in
          let k = q - p - 1 in
          let lt : k < length args.entries = omega arith in
          let read = copied_at q k lt (omega arith) in
          let term = copied_terms g k lt in
          let here : 0 < (get l q).term = omega (arith, same above) in
          IsGood-match book l theirs q h g (omega arith)
            (le-last_index_of_term l h.is_log q (omega (arith, c.is_append.fits)) here)
            (omega (arith, c.covers)) (same above ∙ ap (λ (e : LogEntry). e.term) read)
    ]

    Replaced-AreSame :
        (q : ℕ) (m : Log)
        → p ≤ q
        → q < p + length args.entries
        → AreSame l theirs q
        → Replaced l p args.entries q m
        → AreSame m theirs (last_index m)
    Replaced-AreSame q m low high same r = record {
      within = omega arith;
      within' = omega (arith, r.ends, c.covers);
      reads = λ k a b. elim (Bool-cases (ltb q k)) [
        | inr old ↦ let below = ltb→le q k old in r.before k below ∙ same.reads k a below
        | inl new ↦
            let above = ltb→lt q k new in
            let at : p + 1 + (k - p - 1) ≡ k = omega arith in
            let lt : k - p - 1 < length args.entries = omega (arith, r.ends) in
            ap (get m) (sym at)
            ∙ r.after (k - p - 1) lt (omega arith)
            ∙ copied_at k (k - p - 1) lt at
      ];
    }

    -- The loop keeps the log, or leaves a good one; it never changes the leader's own.
    merged-IsGood :
        Matches args l
        → (merge_entries l args.entries ≡ l)
          ⊎ (IsGood book (merge_entries l args.entries)
              × IsCut l theirs (merge_entries l args.entries))
    merged-IsGood passed =
        let small : p < u64_mod = omega (arith, c.is_append.fits) in
        elim (merge_entries-Merging l p args.entries h.is_log h.has_terms h.whole
          (Matches-le-last args l h.is_log small passed) c.is_append.in_order (copied_terms g)
          c.is_append.fits) [
            | kept same ↦ inl same
            | replaced q low high differs same r ↦
                let like = before-AreSame q passed low high same in
                inr (
                  IsGood-AreSame book theirs _ g r.is_log (r.same_boundary ∙ h.whole)
                      (Replaced-AreSame q _ low high like r),
                  record {
                    place = q;
                    same = Replaced-AreSame q _ low high like r;
                    below = omega (arith, r.ends);
                    before = r.before;
                    differs = λ e. differs (
                        ap (λ (x : LogEntry). x.term) e
                        ∙ sym (
                            ap (λ (x : LogEntry). x.term)
                              (copied_at (q + 1) (q - p) (omega arith) (omega arith))));
                  },
                )
          ]

-- What a message leaves of a log.
pub handled-IsGood :
    (book : Book) (now : ℕ) (args : AppendEntriesArgs) (n : RaftNode)
    → (c : IsCopied book args) → IsGood book n.log
    → IsGood book c.its_log
    → ((handle_append_entries now args n).0.log ≡ n.log)
      ⊎ (IsGood book (handle_append_entries now args n).0.log
          × IsCut n.log c.its_log (handle_append_entries now args n).0.log)
handled-IsGood book now args n c h g = elim (handle_append_entries-Handled now args n) [
  | Handled.too_old less same r ↦ inl (ap (λ (x : RaftNode). x.log) same)
  | Handled.rejected k same failed m ↦ inl (ap (λ (x : RaftNode). x.log) m ∙ same)
  | Handled.taken k same commit passed m ok ↦
      let log_k = ap (λ (x : RaftNode). x.log) m ∙ log-accept_entries args k in
      let log_n = log_k ∙ ap (λ l. merge_entries l args.entries) same in
      let matches = subst (Matches args) same (passed-Matches args k passed) in
      rw log_n (merged-IsGood book args c n.log h g matches)
]

pub handled_empty :
    (now : ℕ) (args : AppendEntriesArgs) (n : RaftNode)
    → args.entries ≡ []
    → (handle_append_entries now args n).0.log ≡ n.log
unfolding merge_entries
handled_empty now args n none_sent = elim (handle_append_entries-Handled now args n) [
  | Handled.too_old less same r ↦ ap (λ (x : RaftNode). x.log) same
  | Handled.rejected k same failed m ↦ ap (λ (x : RaftNode). x.log) m ∙ same
  | Handled.taken k same commit passed m ok ↦
      ap (λ (x : RaftNode). x.log) m
      ∙ log-accept_entries args k
      ∙ ap (merge_entries k.log) none_sent
      ∙ same
]

-- A node that still leads afterwards has kept its log, or the message was of its own term.
pub handled_leader :
    (now : ℕ) (args : AppendEntriesArgs) (n : RaftNode)
    → (handle_append_entries now args n).0.state ≡ leader
    → ((handle_append_entries now args n).0.log ≡ n.log) ⊎ (args.term ≡ n.current_term)
unfolding handle_append_entries yield_to_leader
handled_leader now args n e = elim (Bool-cases (args.term == n.current_term)) [
  | inl same ↦ inr ((==_iff args.term n.current_term).0 same)
  | inr other ↦
      let k = greeted now args (yield_to_leader args.term n) in
      inl (ground (arith, (append_checked-Steady args k).no_new_leader))
]
