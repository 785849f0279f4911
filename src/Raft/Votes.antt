-- ===== src/Raft/Votes.antt =====
-- One vote for each term: what the steps of a node do to `currentTerm` and `votedFor`.
pub mod Keeps
pub mod Once
pub mod Saved
use raft_implementation.Prelude.{ℕ, ◌≤◌, String, ◌≡◌, ◌≢◌}
use raft_implementation.Raft.Node.{RaftNode}

-- The term does not fall, and a vote stays as long as the term does.
pub record VoteKept (n m : RaftNode) : Type 0 where
  pub term_grows : n.current_term ≤ m.current_term
  pub vote_stays : n.current_term ≡ m.current_term → n.voted_for ≢ "" → m.voted_for ≡ n.voted_for
