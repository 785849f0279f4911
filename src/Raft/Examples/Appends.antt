-- ===== src/Raft/Examples/Appends.antt =====
-- Replication on concrete logs: a follower b with two entries of term 1, and a leader of term 2.
use raft_implementation.Prelude.{
  some, ℕ, ◌<◌, ◌≤◌, ◌≡◌, ◌⊎◌, refl, true, false, [], ◌∷◌, arith, min, sub64, add64, lookup_or,
  lookup,
}
use raft_implementation.Raft.Log.{get, last_index, snapshot_index}
use raft_implementation.Raft.Rpc.{AppendEntriesArgs, AppendEntriesReply}
use raft_implementation.Raft.Node.{RaftNode, new_raft_node, leader}
use raft_implementation.Raft.Replication.{
  yield_to_leader, append_checked, check_previous, handle_append_entries, match_index_of,
  on_append_reply, replicated, maybe_commit, quorum_index, next_index_of,
}
use raft_implementation.Raft.Replication.Merge.{Merged}
use raft_implementation.Raft.Replication.Handler.{IsAppend}
use raft_implementation.Raft.Replication.Outcomes.{Matches, append_accepted, Hint, append_rejected}
use raft_implementation.Raft.Replication.Commit.{
  count_from, recorded, quorum_index_iff, maybe_commit_quorum, maybe_commit_commits,
}
use raft_implementation.Raft.Replication.Tracking.{raised_match, on_append_reply-success}
use raft_implementation.Raft.Examples.{entry, two_old, two_old-IsLog, two_old-HasTerms, follower_b}

-- The leader of term 2 overwrites index 2 and adds index 3.
abbrev overwrite : AppendEntriesArgs
overwrite = record {
  term = 2;
  leader_id = "a";
  prev_log_index = 1;
  prev_log_term = 1;
  entries = entry 2 2 ∷ entry 3 2 ∷ [];
  leader_commit = 2;
}

overwrite-IsAppend : IsAppend overwrite
overwrite-IsAppend = record { in_order = (refl, (refl, tt)); fits = ground arith }

overwrites : (handle_append_entries 5 overwrite follower_b).1.success ≡ true
unfolding handle_append_entries yield_to_leader append_checked check_previous get sub64
overwrites = refl

append_accepted_example :
    let m = (handle_append_entries 5 overwrite follower_b).0 in
    Matches overwrite two_old
    × Merged two_old 1 (entry 2 2 ∷ entry 3 2 ∷ []) m.log
    × (min follower_b.commit_index (last_index m.log) ≤ m.commit_index)
    × ((m.commit_index ≡ follower_b.commit_index)
        ⊎ ((m.commit_index ≤ 2) × (m.commit_index ≤ last_index m.log)))
append_accepted_example =
    append_accepted 5 overwrite follower_b two_old-IsLog two_old-HasTerms overwrite-IsAppend
      overwrites

-- The leader's previous entry is of a term that the follower does not have there.
abbrev mismatch : AppendEntriesArgs
mismatch = record overwrite { prev_log_index = 2; prev_log_term = 2; entries = entry 3 2 ∷ [] }

mismatches : (handle_append_entries 5 mismatch follower_b).1.success ≡ false
unfolding handle_append_entries yield_to_leader append_checked check_previous get sub64
mismatches = refl

append_rejected_example :
    let (m, r) = handle_append_entries 5 mismatch follower_b in
    (m.log ≡ two_old) × ((2 < 1) ⊎ Hint mismatch two_old r)
append_rejected_example =
    append_rejected 5 mismatch follower_b two_old-IsLog (ground arith) mismatches

-- The leader has two entries of term 1 and its peer b is at index 2.
abbrev leader_a : RaftNode
leader_a = record follower_b {
  id = "a";
  state = leader;
  current_term = 1;
  peers = "b" ∷ "c" ∷ [];
  next_index = ("b", 2) ∷ ("c", 2) ∷ [];
  match_index = ("b", 2) ∷ ("c", 0) ∷ [];
}

held : recorded 2 leader_a ≡ 2
unfolding last_index snapshot_index lookup lookup_or add64 sub64
held = refl

not_beyond : recorded 3 leader_a ≡ 0
unfolding last_index snapshot_index lookup lookup_or add64 sub64
not_beyond = refl

maybe_commit_commits_example :
    ((maybe_commit leader_a).commit_index ≡ 2) × ((maybe_commit leader_a).commit_pending ≡ true)
unfolding replicated get lookup lookup_or new_raft_node sub64
maybe_commit_commits_example =
    maybe_commit_commits leader_a 2 (ground arith) (omega (arith, held)) (omega (arith, not_beyond))
      refl

quorum_index_iff_example :
    (2 ≤ count_from 2 (replicated leader_a) → 2 ≤ quorum_index leader_a)
    × (2 ≤ quorum_index leader_a → 2 ≤ count_from 2 (replicated leader_a))
quorum_index_iff_example = quorum_index_iff leader_a 2

maybe_commit_quorum_example :
    (0 ≤ (maybe_commit leader_a).commit_index)
    × (((maybe_commit leader_a).commit_index ≡ 0)
        ⊎ ((2 ≤ recorded (maybe_commit leader_a).commit_index leader_a)
            × ((x : ℕ) → 2 ≤ recorded x leader_a → x ≤ (maybe_commit leader_a).commit_index)
            × ((get two_old (maybe_commit leader_a).commit_index).term ≡ 1)))
unfolding new_raft_node
maybe_commit_quorum_example = maybe_commit_quorum leader_a

-- c accepts what the leader has built for it.
abbrev to_c : AppendEntriesArgs
to_c = record overwrite { term = 1; prev_log_index = 1; entries = entry 2 1 ∷ [] }

abbrev accepted_by_c : AppendEntriesReply
accepted_by_c = record { term = 1; success = true; conflict_term = 0; conflict_index = 0 }

on_append_reply-success_example :
    let m = on_append_reply 9 "c" 1 to_c (some accepted_by_c) leader_a in
    (match_index_of "c" m ≡ raised_match "c" to_c leader_a)
    × (next_index_of "c" m ≡ add64 (raised_match "c" to_c leader_a) 1)
on_append_reply-success_example =
    on_append_reply-success 9 "c" to_c accepted_by_c leader_a refl (ground arith) refl "c"
