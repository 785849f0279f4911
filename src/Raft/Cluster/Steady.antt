-- ===== src/Raft/Cluster/Steady.antt =====
-- What every quiet step leaves as it was: the name, the membership, the vote of the term; and no
-- quiet step makes a candidate or a leader.
use raft_implementation.Prelude.{ℕ, ◌≡◌, false, arith, some, none, Option, String}
use raft_implementation.Raft.Log.{Bytes}
use raft_implementation.Raft.Rpc.{
  RequestVoteArgs, AppendEntriesArgs, AppendEntriesReply, InstallSnapshotArgs, InstallSnapshotReply,
}
use raft_implementation.Raft.Node.{Config, RaftNode, candidate, leader, new_raft_node}
use raft_implementation.Raft.Election.{handle_request_vote}
use raft_implementation.Raft.Replication.{
  on_append_reply, handle_append_entries, yield_to_leader, greeted, append_checked, accept_entries,
}
use raft_implementation.Raft.Snapshot.{handle_install_snapshot, on_snapshot_reply, take_snapshot}
use raft_implementation.Raft.Membership.{submit}
use raft_implementation.Raft.EventLoop.{on_heartbeat_tick, boot}
use raft_implementation.Raft.Steps.{
  Event, vote_request, append_request, snapshot_request, pre_vote_done, vote_reply, append_reply,
  snapshot_reply, heartbeat_tick, command, peer_added, peer_removed, snapshot_taken, config_applied,
  step,
}
use raft_implementation.Raft.Votes.{VoteKept}
use raft_implementation.Raft.Votes.Once.{IsRegular, has_lost_quorum}
use raft_implementation.Raft.Cluster.{IsQuiet, IsCleanRestart}

pub record Steady (n m : RaftNode) : Type 0 where
  pub same_id : m.id ≡ n.id
  pub same_peers : m.peers ≡ n.peers
  pub no_new_candidate :
      m.state ≡ candidate → (n.state ≡ candidate) × (m.current_term ≡ n.current_term)
  pub no_new_leader : m.state ≡ leader → (n.state ≡ leader) × (m.current_term ≡ n.current_term)

pub handle_request_vote-Steady :
    (now : ℕ) (args : RequestVoteArgs) (n : RaftNode) → Steady n (handle_request_vote now args n).0
unfolding handle_request_vote
handle_request_vote-Steady now args n = ground arith

yield_to_leader-Steady : (t : ℕ) (n : RaftNode) → Steady n (yield_to_leader t n)
unfolding yield_to_leader
yield_to_leader-Steady t n = ground arith

accept_entries-Steady : (args : AppendEntriesArgs) (n : RaftNode) → Steady n (accept_entries args n)
unfolding accept_entries
accept_entries-Steady args n = ground arith

pub append_checked-Steady :
    (args : AppendEntriesArgs) (n : RaftNode) → Steady n (append_checked args n).0
unfolding append_checked
append_checked-Steady args n = ground (arith, accept_entries-Steady args n)

pub handle_append_entries-Steady :
    (now : ℕ) (args : AppendEntriesArgs) (n : RaftNode)
    → Steady n (handle_append_entries now args n).0
unfolding handle_append_entries
handle_append_entries-Steady now args n = ground (
  arith,
  yield_to_leader-Steady args.term n,
  append_checked-Steady args (greeted now args (yield_to_leader args.term n)),
)

handle_install_snapshot-Steady :
    (args : InstallSnapshotArgs) (n : RaftNode) → Steady n (handle_install_snapshot args n).0
unfolding handle_install_snapshot
handle_install_snapshot-Steady args n = ground arith

on_append_reply-Steady :
    (now : ℕ) (peer : String) (term : ℕ) (args : AppendEntriesArgs) (r : Option AppendEntriesReply)
    (n : RaftNode)
    → Steady n (on_append_reply now peer term args r n)
unfolding on_append_reply
on_append_reply-Steady now peer term args none n = ground arith
on_append_reply-Steady now peer term args (some r) n = ground arith

on_snapshot_reply-Steady :
    (peer : String) (term : ℕ) (args : InstallSnapshotArgs) (r : Option InstallSnapshotReply)
    (n : RaftNode)
    → Steady n (on_snapshot_reply peer term args r n)
unfolding on_snapshot_reply
on_snapshot_reply-Steady peer term args none n = ground arith
on_snapshot_reply-Steady peer term args (some r) n = ground arith

take_snapshot-Steady : (payload : Bytes) (n : RaftNode) → Steady n (take_snapshot payload n).0
unfolding take_snapshot
take_snapshot-Steady payload n = ground arith

submit-Steady : (c : Bytes) (n : RaftNode) → Steady n (submit c n).0
unfolding submit
submit-Steady c n = ground arith

tick-Steady :
    (now : ℕ) (n : RaftNode) → has_lost_quorum now n ≡ false → Steady n (on_heartbeat_tick now n).0
unfolding on_heartbeat_tick
tick-Steady now n h = ground arith

-- A quiet step leaves the node steady.
pub quiet-Steady : (e : Event) (n : RaftNode) → IsQuiet e → IsRegular e n → Steady n (step e n)
unfolding step
quiet-Steady (vote_request now args) n q h = handle_request_vote-Steady now args n
quiet-Steady (append_request now args) n q h = handle_append_entries-Steady now args n
quiet-Steady (snapshot_request args) n q h = handle_install_snapshot-Steady args n
quiet-Steady (pre_vote_done won) n q h = absurd q
quiet-Steady (vote_reply now r b) n q h = absurd q
quiet-Steady (append_reply now peer term args r) n q h =
    on_append_reply-Steady now peer term args r n
quiet-Steady (snapshot_reply peer term args r) n q h = on_snapshot_reply-Steady peer term args r n
quiet-Steady (heartbeat_tick now) n q h = tick-Steady now n h
quiet-Steady (command c) n q h = submit-Steady c n
quiet-Steady (peer_added now addr) n q h = absurd q
quiet-Steady (peer_removed now addr) n q h = absurd q
quiet-Steady (snapshot_taken payload) n q h = take_snapshot-Steady payload n
quiet-Steady (config_applied now e) n q h = absurd q

-- A clean restart leaves the node steady, and keeps its vote as long as its term.
pub restart-Steady :
    (n : RaftNode) (cfg : Config)
    → IsCleanRestart n cfg
    → Steady n (boot (new_raft_node cfg n.disk)).0 × VoteKept n (boot (new_raft_node cfg n.disk)).0
unfolding boot new_raft_node
restart-Steady n cfg h = ground arith
