-- ===== src/Raft/Election/PreVote.antt =====
-- The count of pre-votes: it stops at the majority, and says whether the replies make one.
use raft_implementation.Prelude.{ℕ, ◌+◌, ◌<◌, ◌≡◌, Option, List, [], ◌∷◌, arith, count, length, leb}
use raft_implementation.Raft.Rpc.{RequestVoteReply}
use raft_implementation.Raft.Node.{RaftNode, majority_of}
use raft_implementation.Raft.Election.{granted, count_pre_votes, start_pre_vote}

count_pre_votes_lem :
    (majority votes : ℕ) (rs : List (Option RequestVoteReply))
    → votes < majority
    → count_pre_votes majority votes rs ≡ leb majority (votes + count granted rs)
unfolding count_pre_votes
count_pre_votes_lem majority votes [] h = ground arith
count_pre_votes_lem majority votes (r ∷ rs) h =
    ground
      (arith, count_pre_votes_lem majority votes rs h, count_pre_votes_lem majority (votes + 1) rs)

-- With at least one peer, a pre-vote succeeds exactly if the granted answers and the node's own
-- vote make a majority, in whatever order they come.
pub start_pre_vote_iff :
    (n : RaftNode) (rs : List (Option RequestVoteReply))
    → 0 < length n.peers
    → start_pre_vote n rs ≡ leb (majority_of n.peers) (1 + count granted rs)
unfolding start_pre_vote
start_pre_vote_iff n rs h = ground (arith, count_pre_votes_lem (majority_of n.peers) 1 rs)
