-- ===== src/Raft/Replication/Handler.antt =====
-- The append handler as a whole: what an acceptance and a rejection say of the follower's log.
use raft_implementation.Prelude.{
  ℕ, ◌+◌, ◌<◌, ◌≡◌, inl, inr, sym, ap, ◌∙◌, subst, true, false, arith, length, ltb, ltb→lt,
  Bool-cases, Option-cases, none, some, u64_mod,
}
use raft_implementation.Raft.Log.Shape.{Contiguous}
use raft_implementation.Raft.Rpc.{AppendEntriesArgs, AppendEntriesReply}
use raft_implementation.Raft.Node.{RaftNode}
use raft_implementation.Raft.Replication.{
  yield_to_leader, greeted, check_previous, accept_entries, append_checked, handle_append_entries,
}

-- A message of a leader: entries in order after the previous index, which fit.
pub record IsAppend (args : AppendEntriesArgs) : Type 0 where
  pub in_order : Contiguous (args.prev_log_index + 1) args.entries
  pub fits : args.prev_log_index + 1 + length args.entries < u64_mod

-- The three ways of the handler.
pub data Handled (args : AppendEntriesArgs) (n m : RaftNode) (r : AppendEntriesReply) : Type 0 where
  too_old :
      args.term < n.current_term
      → m ≡ n
      → r ≡ record { term = n.current_term; success = false; conflict_term = 0; conflict_index = 0 }
      → Handled args n m r
  rejected :
      (k : RaftNode) → k.log ≡ n.log → check_previous args k ≡ some r → m ≡ k → Handled args n m r
  taken :
      (k : RaftNode)
      → k.log ≡ n.log
      → k.commit_index ≡ n.commit_index
      → check_previous args k ≡ none
      → m ≡ accept_entries args k
      → r.success ≡ true
      → Handled args n m r

yields_log :
    (t : ℕ) (n : RaftNode)
    → ((yield_to_leader t n).log ≡ n.log)
      × ((yield_to_leader t n).commit_index ≡ n.commit_index)
      × (t < (yield_to_leader t n).current_term → yield_to_leader t n ≡ n)
unfolding yield_to_leader
yields_log t n = ground arith

module _ (now : ℕ) (args : AppendEntriesArgs) (n : RaftNode) where
  abbrev yielded : RaftNode
  yielded = yield_to_leader args.term n

  current_append :
      ltb args.term yielded.current_term ≡ false
      → handle_append_entries now args n ≡ append_checked args (greeted now args yielded)
  unfolding handle_append_entries
  current_append h = rw h

  old_append :
      ltb args.term yielded.current_term ≡ true
      → handle_append_entries now args n ≡ (
        yielded,
        record {
          term = yielded.current_term;
          success = false;
          conflict_term = 0;
          conflict_index = 0;
        },
      )
  unfolding handle_append_entries
  old_append h = rw h

checked_none :
    (args : AppendEntriesArgs) (k : RaftNode)
    → check_previous args k ≡ none
    → (append_checked args k).0 ≡ accept_entries args k
unfolding append_checked
checked_none args k e = rw (e, append_checked)

checked_none_reply :
    (args : AppendEntriesArgs) (k : RaftNode)
    → check_previous args k ≡ none
    → (append_checked args k).1.success ≡ true
unfolding append_checked
checked_none_reply args k e = rw (e, append_checked)

checked_some :
    (args : AppendEntriesArgs) (k : RaftNode) (r : AppendEntriesReply)
    → check_previous args k ≡ some r
    → append_checked args k ≡ (k, r)
unfolding append_checked
checked_some args k r e = rw (e, append_checked)

-- Every call of the handler goes one of the three ways.
pub handle_append_entries-Handled :
    (now : ℕ) (args : AppendEntriesArgs) (n : RaftNode)
    → Handled args n (handle_append_entries now args n).0 (handle_append_entries now args n).1
handle_append_entries-Handled now args n =
    let (same_log, same_commit, unchanged) = yields_log args.term n in
    let y = yield_to_leader args.term n in
    let k = greeted now args y in
    elim (Bool-cases (ltb args.term y.current_term)) [
      | inl old ↦
          let same = unchanged (ltb→lt args.term y.current_term old) in
          Handled.too_old
            (subst (λ (m : RaftNode). args.term < m.current_term) same
              (ltb→lt args.term y.current_term old))
            (ap (λ (x : RaftNode × AppendEntriesReply). x.0) (old_append now args n old) ∙ same)
            (ap (λ (x : RaftNode × AppendEntriesReply). x.1) (old_append now args n old)
              ∙ ap
                  (λ (m : RaftNode). record {
                    term = m.current_term;
                    success = false;
                    conflict_term = 0;
                    conflict_index = 0;
                  })
                  same)
      | inr current ↦
          let e = current_append now args n current in
          elim (Option-cases (check_previous args k)) [
            | inl passed ↦
                Handled.taken k same_log same_commit passed
                  (ap (λ (x : RaftNode × AppendEntriesReply). x.0) e ∙ checked_none args k passed)
                  (ap (λ (x : RaftNode × AppendEntriesReply). x.1.success) e
                    ∙ checked_none_reply args k passed)
            | inr (r, failed) ↦
                let e' = e ∙ checked_some args k r failed in
                Handled.rejected k same_log
                  (failed ∙ ap some (sym (ap (λ (x : RaftNode × AppendEntriesReply). x.1) e')))
                  (ap (λ (x : RaftNode × AppendEntriesReply). x.0) e')
          ]
    ]
