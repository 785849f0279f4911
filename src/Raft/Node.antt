-- ===== src/Raft/Node.antt =====
-- raft/node.go: the state of one node and its construction. The mutex is not modelled: a handler
-- holds it throughout, so it is one step. A channel of capacity one is an `Option`, or a `Bool` if it
-- carries no value. Times are milliseconds on the node's monotonic clock.
use raft_implementation.Prelude.{
  ℕ, ◌+◌, ◌/◌, String, Bool, false, true, Option, none, List, [], ◌==◌, str_eq, if◌then◌else◌, any,
  length, GoMap,
}
use raft_implementation.Raft.Log.{Bytes, Log, new_log}
use raft_implementation.Raft.Disk.{Disk, PersistedState, write_state}

pub data NodeState : Type 0 where
  follower candidate leader : NodeState

pub record Config : Type 0 where
  pub id : String
  pub peers : List String
  pub election_timeout_min_ms : ℕ
  pub election_timeout_max_ms : ℕ
  pub heartbeat_interval_ms : ℕ
  pub self_addr : String

-- A snapshot on its way to the apply loop.
pub record SnapshotToApply : Type 0 where
  pub index : ℕ
  pub term : ℕ
  pub payload : Bytes

pub record RaftNode : Type 0 where
  pub id : String
  pub peers : List String
  pub current_term : ℕ
  pub voted_for : String
  pub log : Log
  pub state : NodeState
  pub commit_index : ℕ
  pub last_applied : ℕ
  pub next_index : GoMap String ℕ
  pub match_index : GoMap String ℕ
  pub last_heard_from : GoMap String ℕ
  pub config : Config
  pub leader_id : String
  pub last_leader_contact : Option ℕ
  pub snapshot_payload : Bytes
  pub snapshot_notify : Option SnapshotToApply
  pub heartbeat_pending : Bool
  pub commit_pending : Bool
  pub heartbeats_recv : ℕ
  pub heartbeats_sent : ℕ
  pub disk : Disk

abbrev or_default : ℕ → ℕ → ℕ
or_default n d = if n == 0 then d else n

abbrev with_defaults : Config → Config
with_defaults cfg = record cfg {
  election_timeout_min_ms = or_default cfg.election_timeout_min_ms 150;
  election_timeout_max_ms = or_default cfg.election_timeout_max_ms 300;
  heartbeat_interval_ms = or_default cfg.heartbeat_interval_ms 50;
}

-- The disk of the data directory is given: a restarted node finds what it left there.
unfoldable pub new_raft_node : Config → Disk → RaftNode
new_raft_node cfg d = record {
  id = cfg.id;
  peers = cfg.peers;
  current_term = 0;
  voted_for = "";
  log = new_log;
  state = follower;
  commit_index = 0;
  last_applied = 0;
  next_index = [];
  match_index = [];
  last_heard_from = [];
  config = with_defaults cfg;
  leader_id = "";
  last_leader_contact = none;
  snapshot_payload = [];
  snapshot_notify = none;
  heartbeat_pending = false;
  commit_pending = false;
  heartbeats_recv = 0;
  heartbeats_sent = 0;
  disk = d;
}

abbrev pub is_leader : NodeState → Bool
is_leader leader = true
is_leader _ = false

abbrev pub is_candidate : NodeState → Bool
is_candidate candidate = true
is_candidate _ = false

-- The three fields that survive a crash.
abbrev pub persisted : RaftNode → PersistedState
persisted n = record {
  current_term = n.current_term;
  voted_for = n.voted_for;
  entries = n.log.entries;
}

unfoldable pub persist : RaftNode → RaftNode
persist n = record n { disk = write_state (persisted n) n.disk }

abbrev pub notify_heartbeat : RaftNode → RaftNode
notify_heartbeat n = record n { heartbeat_pending = true }

abbrev pub notify_commit : RaftNode → RaftNode
notify_commit n = record n { commit_pending = true }

-- `(len(peers)+1)/2 + 1`, for a cluster of the node and its peers.
abbrev pub majority_of : List String → ℕ
majority_of peers = (length peers + 1) / 2 + 1

abbrev pub is_member : String → List String → Bool
is_member addr peers = any (λ p. str_eq p addr) peers
