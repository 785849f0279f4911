-- ===== src/Raft/Votes/Keeps.antt =====
-- Each handler keeps the vote of the current term.
use raft_implementation.Prelude.{
  ℕ, ◌+◌, ◌<◌, String, List, Option, none, some, [], ◌∷◌, arith, eq_iff, u64_mod, add64_lem,
}
use raft_implementation.Raft.Log.{Bytes, LogEntry}
use raft_implementation.Raft.Rpc.{
  RequestVoteArgs, RequestVoteReply, AppendEntriesArgs, AppendEntriesReply, InstallSnapshotArgs,
  InstallSnapshotReply,
}
use raft_implementation.Raft.Node.{RaftNode}
use raft_implementation.Raft.Election.{
  Ballot, init_peers, become_leader, become_candidate, handle_request_vote, on_vote_reply,
}
use raft_implementation.Raft.Replication.{
  on_append_reply, handle_append_entries, maybe_commit, yield_to_leader, append_checked,
  check_previous, accept_entries,
}
use raft_implementation.Raft.Snapshot.{handle_install_snapshot, on_snapshot_reply, take_snapshot}
use raft_implementation.Raft.Membership.{submit, add_peer, remove_peer, apply_config_entry}
use raft_implementation.Raft.Votes.{VoteKept}

pub VoteKept-refl : (n : RaftNode) → VoteKept n n
VoteKept-refl n = ground arith

pub VoteKept-trans : {n m k : RaftNode} → VoteKept n m → VoteKept m k → VoteKept n k
VoteKept-trans h g = ground arith

pub handle_request_vote-VoteKept :
    (now : ℕ) (args : RequestVoteArgs) (n : RaftNode)
    → VoteKept n (handle_request_vote now args n).0
unfolding handle_request_vote
handle_request_vote-VoteKept now args n =
    ground (arith, eq_iff n.voted_for "", eq_iff n.voted_for args.candidate_id)

pub become_candidate-VoteKept :
    (n : RaftNode) → n.current_term + 1 < u64_mod → VoteKept n (become_candidate n)
unfolding become_candidate
become_candidate-VoteKept n h = ground (arith, add64_lem n.current_term 1)

init_peers-VoteKept :
    (next now : ℕ) (ps : List String) (n : RaftNode) → VoteKept n (init_peers next now ps n)
unfolding init_peers
init_peers-VoteKept next now [] n = VoteKept-refl n
init_peers-VoteKept next now (p ∷ ps) n =
    let later = init_peers-VoteKept next now ps _ in
    record { term_grows = later.term_grows; vote_stays = later.vote_stays }

become_leader-VoteKept : (now : ℕ) (n : RaftNode) → VoteKept n (become_leader now n)
unfolding become_leader
become_leader-VoteKept now n =
    let later = init_peers-VoteKept _ now n.peers _ in
    record { term_grows = later.term_grows; vote_stays = later.vote_stays }

pub on_vote_reply-VoteKept :
    (now : ℕ) (r : Option RequestVoteReply) (b : Ballot) (n : RaftNode)
    → VoteKept n (on_vote_reply now r b n).1
unfolding on_vote_reply
on_vote_reply-VoteKept now none b n = VoteKept-refl n
on_vote_reply-VoteKept now (some r) b n = ground (arith, become_leader-VoteKept now n)

pub handle_append_entries-VoteKept :
    (now : ℕ) (args : AppendEntriesArgs) (n : RaftNode)
    → VoteKept n (handle_append_entries now args n).0
unfolding handle_append_entries yield_to_leader append_checked check_previous accept_entries
handle_append_entries-VoteKept now args n = ground arith

pub handle_install_snapshot-VoteKept :
    (args : InstallSnapshotArgs) (n : RaftNode) → VoteKept n (handle_install_snapshot args n).0
unfolding handle_install_snapshot
handle_install_snapshot-VoteKept args n = ground arith

maybe_commit-VoteKept : (n : RaftNode) → VoteKept n (maybe_commit n)
unfolding maybe_commit
maybe_commit-VoteKept n = ground arith

pub on_append_reply-VoteKept :
    (now : ℕ) (peer : String) (term : ℕ) (args : AppendEntriesArgs) (r : Option AppendEntriesReply)
    (n : RaftNode)
    → VoteKept n (on_append_reply now peer term args r n)
unfolding on_append_reply
on_append_reply-VoteKept now peer term args none n = VoteKept-refl n
on_append_reply-VoteKept now peer term args (some r) n = ground arith

pub on_snapshot_reply-VoteKept :
    (peer : String) (term : ℕ) (args : InstallSnapshotArgs) (r : Option InstallSnapshotReply)
    (n : RaftNode)
    → VoteKept n (on_snapshot_reply peer term args r n)
unfolding on_snapshot_reply
on_snapshot_reply-VoteKept peer term args none n = VoteKept-refl n
on_snapshot_reply-VoteKept peer term args (some r) n = ground arith

pub take_snapshot-VoteKept :
    (payload : Bytes) (n : RaftNode) → VoteKept n (take_snapshot payload n).0
unfolding take_snapshot
take_snapshot-VoteKept payload n = ground arith

pub submit-VoteKept : (command : Bytes) (n : RaftNode) → VoteKept n (submit command n).0
unfolding submit
submit-VoteKept command n = ground arith

pub add_peer-VoteKept :
    (now : ℕ) (addr : String) (n : RaftNode) → VoteKept n (add_peer now addr n).0
unfolding add_peer
add_peer-VoteKept now addr n = ground arith

pub remove_peer-VoteKept :
    (now : ℕ) (addr : String) (n : RaftNode) → VoteKept n (remove_peer now addr n).0
unfolding remove_peer
remove_peer-VoteKept now addr n = ground arith

pub apply_config_entry-VoteKept :
    (now : ℕ) (e : LogEntry) (n : RaftNode) → VoteKept n (apply_config_entry now e n)
unfolding apply_config_entry
apply_config_entry-VoteKept now e n = ground arith
