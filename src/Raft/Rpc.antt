-- ===== src/Raft/Rpc.antt =====
-- raft/rpc.go: the arguments and replies of the three RPCs. Every number is a uint64.
use raft_implementation.Prelude.{ℕ, String, Bool, List}
use raft_implementation.Raft.Log.{Bytes, LogEntry}

pub record RequestVoteArgs : Type 0 where
  pub term : ℕ
  pub candidate_id : String
  pub last_log_index : ℕ
  pub last_log_term : ℕ
  pub is_pre_vote : Bool

pub record RequestVoteReply : Type 0 where
  pub term : ℕ
  pub vote_granted : Bool

pub record AppendEntriesArgs : Type 0 where
  pub term : ℕ
  pub leader_id : String
  pub prev_log_index : ℕ
  pub prev_log_term : ℕ
  pub entries : List LogEntry
  pub leader_commit : ℕ

pub record AppendEntriesReply : Type 0 where
  pub term : ℕ
  pub success : Bool
  pub conflict_term : ℕ
  pub conflict_index : ℕ

pub record InstallSnapshotArgs : Type 0 where
  pub term : ℕ
  pub leader_id : String
  pub last_included_index : ℕ
  pub last_included_term : ℕ
  pub payload : Bytes

pub record InstallSnapshotReply : Type 0 where
  pub term : ℕ
