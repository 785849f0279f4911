-- ===== src/Raft/Replication/Outcomes.antt =====
-- What an acceptance and a rejection by the append handler mean.
use raft_implementation.Prelude.{
  ℕ, ◌<◌, ◌≤◌, ◌≡◌, ◌≢◌, ◌⊎◌, inl, inr, sym, ap, ◌∙◌, subst, true, false, arith, none, some,
  u64_mod, add64, false≢true, min,
}
use raft_implementation.Raft.Log.{Log, get, last_index, first_index_for_term}
use raft_implementation.Raft.Log.Shape.{IsLog}
use raft_implementation.Raft.Log.Reads.{le-last_index_of_term, snapshot_index-le_of_term}
use raft_implementation.Raft.Log.Slices.{first_index_for_term_least}
use raft_implementation.Raft.Rpc.{AppendEntriesArgs, AppendEntriesReply}
use raft_implementation.Raft.Node.{RaftNode}
use raft_implementation.Raft.Replication.{
  merge_entries, check_previous, accept_entries, handle_append_entries,
}
use raft_implementation.Raft.Replication.Merge.{HasTerms, Merged, merge_entries-Merged}
use raft_implementation.Raft.Replication.Handler.{IsAppend, Handled, handle_append_entries-Handled}

-- The entry before the new ones, as the follower has it, is the one that the leader means.
abbrev pub Matches : AppendEntriesArgs → Log → Type 0
Matches args l =
    (args.prev_log_index ≡ 0)
    ⊎ ((0 < (get l args.prev_log_index).term)
        × ((get l args.prev_log_index).term ≡ args.prev_log_term))

pub passed-Matches :
    (args : AppendEntriesArgs) (k : RaftNode) → check_previous args k ≡ none → Matches args k.log
unfolding check_previous
passed-Matches args k h = ground arith

pub log-accept_entries :
    (args : AppendEntriesArgs) (k : RaftNode)
    → (accept_entries args k).log ≡ merge_entries k.log args.entries
unfolding accept_entries
log-accept_entries args k = ground arith

commit-accept_entries :
    (args : AppendEntriesArgs) (k : RaftNode)
    → (min k.commit_index (last_index (merge_entries k.log args.entries))
        ≤ (accept_entries args k).commit_index)
      × (((accept_entries args k).commit_index ≡ k.commit_index)
          ⊎ (((accept_entries args k).commit_index ≤ args.leader_commit)
              × ((accept_entries args k).commit_index
                  ≤ last_index (merge_entries k.log args.entries))))
unfolding accept_entries
commit-accept_entries args k = ground arith

pub Matches-le-last :
    (args : AppendEntriesArgs) (l : Log)
    → IsLog l
    → args.prev_log_index < u64_mod
    → Matches args l
    → args.prev_log_index ≤ last_index l
Matches-le-last args l w h (inl e) = omega (arith, e)
Matches-le-last args l w h (inr (t, e)) = le-last_index_of_term l w args.prev_log_index h t

rejection_fails :
    (args : AppendEntriesArgs) (k : RaftNode) (r : AppendEntriesReply)
    → check_previous args k ≡ some r
    → r.success ≡ true
    → ⊥
unfolding check_previous
rejection_fails args k r e h = ground arith

-- For a message whose indices are contiguous and fit 64 bits, and a follower whose log is
-- well-formed and has a term in every entry: it accepts only if its entry at the previous index is
-- of the term that the message gives, or that index is 0; its log then has, at the index of each
-- entry of the message above its boundary, that entry, or what it had there before if that is an
-- entry of the same term, and up to the previous index what it had; and its commit index falls at
-- most to the end of its log, and moves forward neither past the leader's nor past the end of its
-- log.
pub append_accepted :
    (now : ℕ) (args : AppendEntriesArgs) (n : RaftNode)
    → IsLog n.log
    → HasTerms n.log
    → IsAppend args
    → (handle_append_entries now args n).1.success ≡ true
    → let m = (handle_append_entries now args n).0 in
      Matches args n.log
      × Merged n.log args.prev_log_index args.entries m.log
      × (min n.commit_index (last_index m.log) ≤ m.commit_index)
      × ((m.commit_index ≡ n.commit_index)
          ⊎ ((m.commit_index ≤ args.leader_commit) × (m.commit_index ≤ last_index m.log)))
append_accepted now args n w t a yes_reply = elim (handle_append_entries-Handled now args n) [
  | Handled.too_old old same r ↦
      absurd (false≢true (sym (ap (λ (x : AppendEntriesReply). x.success) r) ∙ yes_reply))
  | Handled.rejected k same r e ↦ absurd (rejection_fails args k _ r yes_reply)
  | Handled.taken k same_log same_commit passed e ok ↦
      let low =
        Matches-le-last args n.log w (omega (arith, a.fits))
          (subst (Matches args) same_log (passed-Matches args k passed)) in
      let merged =
        merge_entries-Merged n.log args.prev_log_index args.entries w t low a.in_order a.fits in
      let new_log : (handle_append_entries now args n).0.log ≡ merge_entries n.log args.entries =
        ap (λ (x : RaftNode). x.log) e
        ∙ log-accept_entries args k
        ∙ ap (λ (l : Log). merge_entries l args.entries) same_log in
      let new_commit : (handle_append_entries now args n).0.commit_index
          ≡ (accept_entries args k).commit_index =
        ap (λ (x : RaftNode). x.commit_index) e in
      let (floor, ceiling) = commit-accept_entries args k in
      let ends : last_index (merge_entries k.log args.entries)
          ≡ last_index (merge_entries n.log args.entries) =
        ap (λ (l : Log). last_index (merge_entries l args.entries)) same_log in
      (
        subst (Matches args) same_log (passed-Matches args k passed),
        rw new_log merged,
        rw (new_log, new_commit) (omega arith),
        rw (new_log, new_commit) (ground arith),
      )
]

-- Why the consistency check rejects, and the hint that it gives.
abbrev pub Hint : AppendEntriesArgs → Log → AppendEntriesReply → Type 0
Hint args l r =
    ((r.conflict_term ≡ 0)
      × ((get l args.prev_log_index).term ≡ 0)
      × (r.conflict_index ≡ add64 (last_index l) 1))
    ⊎ ((0 < r.conflict_term)
        × (r.conflict_term ≡ (get l args.prev_log_index).term)
        × (r.conflict_term ≢ args.prev_log_term)
        × (r.conflict_index ≤ args.prev_log_index)
        × ((get l r.conflict_index).term ≡ r.conflict_term))

check_previous-some :
    (args : AppendEntriesArgs) (k : RaftNode) (r : AppendEntriesReply)
    → check_previous args k ≡ some r
    → ((r.conflict_term ≡ 0)
        × ((get k.log args.prev_log_index).term ≡ 0)
        × (r.conflict_index ≡ add64 (last_index k.log) 1))
      ⊎ ((0 < r.conflict_term)
          × (r.conflict_term ≡ (get k.log args.prev_log_index).term)
          × (r.conflict_term ≢ args.prev_log_term)
          × (r.conflict_index ≡ first_index_for_term k.log r.conflict_term))
unfolding check_previous
check_previous-some args k r e = ground arith

check_previous-Hint :
    (args : AppendEntriesArgs) (k : RaftNode) (r : AppendEntriesReply)
    → IsLog k.log
    → args.prev_log_index < u64_mod
    → check_previous args k ≡ some r
    → Hint args k.log r
check_previous-Hint args k r w h e = elim (check_previous-some args k r e) [
  | inl short ↦ inl short
  | inr (pos, there, differs, first) ↦
      let p = args.prev_log_index in
      let has : 0 < (get k.log p).term = omega arith in
      let (low, least, found) =
        first_index_for_term_least k.log r.conflict_term p w
          (snapshot_index-le_of_term k.log w p h has) (le-last_index_of_term k.log w p h has)
          (sym there) in
      inr (pos, there, differs, omega arith, rw first found)
]

-- A rejection leaves a well-formed log as it is. Its cause is an old term, a missing entry at the
-- previous index, or an entry of another term there; then the hint is an index not past the
-- previous one that holds the conflicting term.
pub append_rejected :
    (now : ℕ) (args : AppendEntriesArgs) (n : RaftNode)
    → IsLog n.log
    → args.prev_log_index < u64_mod
    → (handle_append_entries now args n).1.success ≡ false
    → let m = (handle_append_entries now args n).0 in
      (m.log ≡ n.log)
      × ((args.term < n.current_term) ⊎ Hint args n.log (handle_append_entries now args n).1)
append_rejected now args n w h failed = elim (handle_append_entries-Handled now args n) [
  | Handled.too_old old same r ↦ (ap (λ (x : RaftNode). x.log) same, inl old)
  | Handled.rejected k same r e ↦
      let wk = subst IsLog (sym same) w in
      (
        ap (λ (x : RaftNode). x.log) e ∙ same,
        inr (
            subst (λ (l : Log). Hint args l (handle_append_entries now args n).1) same
              (check_previous-Hint args k _ wk h r)),
      )
  | Handled.taken k same_log same_commit passed e ok ↦ absurd (false≢true (sym failed ∙ ok))
]
