-- ===== src/Raft/Steps.antt =====
-- The steps of one node as data: each event is one stretch of code that holds the node's mutex, a
-- handler, a goroutine after its reply, a case of the event loop, or a call by the application.
use raft_implementation.Prelude.{ℕ, Bool, String, Option, List, [], ◌∷◌}
use raft_implementation.Raft.Log.{Bytes, LogEntry}
use raft_implementation.Raft.Rpc.{
  RequestVoteArgs, RequestVoteReply, AppendEntriesArgs, AppendEntriesReply, InstallSnapshotArgs,
  InstallSnapshotReply,
}
use raft_implementation.Raft.Node.{RaftNode}
use raft_implementation.Raft.Election.{Ballot, handle_request_vote, on_vote_reply}
use raft_implementation.Raft.Replication.{on_append_reply, handle_append_entries}
use raft_implementation.Raft.Snapshot.{handle_install_snapshot, on_snapshot_reply, take_snapshot}
use raft_implementation.Raft.Membership.{submit, add_peer, remove_peer, apply_config_entry}
use raft_implementation.Raft.EventLoop.{on_heartbeat_tick, after_pre_vote}

pub data Event : Type 0 where
  vote_request : (now : ℕ) → RequestVoteArgs → Event
  append_request : (now : ℕ) → AppendEntriesArgs → Event
  snapshot_request : InstallSnapshotArgs → Event
  pre_vote_done : Bool → Event
  vote_reply : (now : ℕ) → Option RequestVoteReply → Ballot → Event
  append_reply : (now : ℕ) → String → ℕ → AppendEntriesArgs → Option AppendEntriesReply → Event
  snapshot_reply : String → ℕ → InstallSnapshotArgs → Option InstallSnapshotReply → Event
  heartbeat_tick : (now : ℕ) → Event
  command : Bytes → Event
  peer_added peer_removed : (now : ℕ) → String → Event
  snapshot_taken : Bytes → Event
  config_applied : (now : ℕ) → LogEntry → Event

unfoldable pub step : Event → RaftNode → RaftNode
step (vote_request now args) n = (handle_request_vote now args n).0
step (append_request now args) n = (handle_append_entries now args n).0
step (snapshot_request args) n = (handle_install_snapshot args n).0
step (pre_vote_done won) n = after_pre_vote won n
step (vote_reply now r b) n = (on_vote_reply now r b n).1
step (append_reply now peer term args r) n = on_append_reply now peer term args r n
step (snapshot_reply peer term args r) n = on_snapshot_reply peer term args r n
step (heartbeat_tick now) n = (on_heartbeat_tick now n).0
step (command c) n = (submit c n).0
step (peer_added now addr) n = (add_peer now addr n).0
step (peer_removed now addr) n = (remove_peer now addr n).0
step (snapshot_taken payload) n = (take_snapshot payload n).0
step (config_applied now e) n = apply_config_entry now e n

unfoldable pub run : List Event → RaftNode → RaftNode
run [] n = n
run (e ∷ es) n = run es (step e n)
