-- ===== src/Raft/Votes/Saved.antt =====
-- What is on disk when a vote is granted, and what a restart makes of it.
use raft_implementation.Prelude.{ℕ, ◌≡◌, true, false, some, [], arith}
use raft_implementation.Raft.Rpc.{RequestVoteArgs}
use raft_implementation.Raft.Disk.{write_state}
use raft_implementation.Raft.Node.{RaftNode, persist}
use raft_implementation.Raft.Election.{
  handle_request_vote, answer_vote, observe_term, become_follower,
}

-- When a real vote is granted and the disk fails no operation: the vote is the candidate's and the
-- term is the request's when the handler returns, and the state file has both, with the entries of
-- the log.
pub granted_vote-saved :
    (now : ℕ) (args : RequestVoteArgs) (n : RaftNode)
    → args.is_pre_vote ≡ false
    → n.disk.answers ≡ []
    → (handle_request_vote now args n).1.vote_granted ≡ true
    → let m = (handle_request_vote now args n).0 in
      (m.voted_for ≡ args.candidate_id)
      × (m.current_term ≡ args.term)
      × (m.disk.state_file
          ≡ some (record {
            current_term = args.term;
            voted_for = args.candidate_id;
            entries = n.log.entries;
          }))
unfolding handle_request_vote persist write_state answer_vote observe_term become_follower
granted_vote-saved now args n real good g = ground arith
