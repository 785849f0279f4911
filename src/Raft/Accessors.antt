-- ===== src/Raft/Accessors.antt =====
-- raft/node.go: what a node shows of its state. Each accessor is one stretch of code under the mutex,
-- or an atomic load.
use raft_implementation.Prelude.{ℕ, String, List, add64}
use raft_implementation.Raft.Log.{LogEntry, last_index, snapshot_index, slice}
use raft_implementation.Raft.Node.{NodeState, follower, candidate, leader, RaftNode}

-- The method String; the default case has no state left.
abbrev pub state_string : NodeState → String
state_string follower = "follower"
state_string candidate = "candidate"
state_string leader = "leader"

abbrev pub node_state : RaftNode → NodeState
node_state n = n.state

abbrev pub current_term : RaftNode → ℕ
current_term n = n.current_term

abbrev pub leader_id : RaftNode → String
leader_id n = n.leader_id

abbrev pub node_id : RaftNode → String
node_id n = n.id

abbrev pub node_last_index : RaftNode → ℕ
node_last_index n = last_index n.log

abbrev pub heartbeats_received : RaftNode → ℕ
heartbeats_received n = n.heartbeats_recv

abbrev pub heartbeats_sent : RaftNode → ℕ
heartbeats_sent n = n.heartbeats_sent

abbrev pub commit_index : RaftNode → ℕ
commit_index n = n.commit_index

abbrev pub last_applied : RaftNode → ℕ
last_applied n = n.last_applied

abbrev pub peers : RaftNode → List String
peers n = n.peers

-- The entries after the snapshot boundary.
unfoldable pub log_entries : RaftNode → List LogEntry
log_entries n = slice n.log (add64 (snapshot_index n.log) 1) (add64 (last_index n.log) 1)

abbrev pub node_snapshot_index : RaftNode → ℕ
node_snapshot_index n = snapshot_index n.log
