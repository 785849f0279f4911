-- ===== src/Raft/Transport/Proto.antt =====
-- proto/raft.proto and the conversions of raft/transport_grpc.go between its messages and the
-- library's types.
use raft_implementation.Prelude.{ℕ, String, Bool, List, [], ◌∷◌}
use raft_implementation.Raft.Log.{Bytes, LogEntry}
use raft_implementation.Raft.Rpc.{
  RequestVoteArgs, RequestVoteReply, AppendEntriesArgs, AppendEntriesReply, InstallSnapshotArgs,
  InstallSnapshotReply,
}

pub record PbLogEntry : Type 0 where
  pub term : ℕ
  pub index : ℕ
  pub command : Bytes
  pub is_config : Bool
  pub config_op : String
  pub config_peer : String

pub record PbVoteArgs : Type 0 where
  pub term : ℕ
  pub candidate_id : String
  pub last_log_index : ℕ
  pub last_log_term : ℕ
  pub is_pre_vote : Bool

pub record PbVoteReply : Type 0 where
  pub term : ℕ
  pub vote_granted : Bool

pub record PbAppendArgs : Type 0 where
  pub term : ℕ
  pub leader_id : String
  pub prev_log_index : ℕ
  pub prev_log_term : ℕ
  pub entries : List PbLogEntry
  pub leader_commit : ℕ

pub record PbAppendReply : Type 0 where
  pub term : ℕ
  pub success : Bool
  pub conflict_term : ℕ
  pub conflict_index : ℕ

pub record PbSnapshotArgs : Type 0 where
  pub term : ℕ
  pub leader_id : String
  pub last_included_index : ℕ
  pub last_included_term : ℕ
  pub data_bytes : Bytes

pub record PbSnapshotReply : Type 0 where
  pub term : ℕ

-- The loop of `toProtoEntries`.
unfoldable pub to_proto_entries : List LogEntry → List PbLogEntry
to_proto_entries [] = []
to_proto_entries (e ∷ es) =
    record {
      term = e.term;
      index = e.index;
      command = e.command;
      is_config = e.is_config;
      config_op = e.config_op;
      config_peer = e.config_peer;
    }
    ∷ to_proto_entries es

-- The loop of `fromProtoEntries`.
unfoldable pub from_proto_entries : List PbLogEntry → List LogEntry
from_proto_entries [] = []
from_proto_entries (e ∷ es) =
    record {
      term = e.term;
      index = e.index;
      command = e.command;
      is_config = e.is_config;
      config_op = e.config_op;
      config_peer = e.config_peer;
    }
    ∷ from_proto_entries es

-- What the client methods of `GRPCTransport` send, and what they make of the answer.
abbrev pub vote_args_to_proto : RequestVoteArgs → PbVoteArgs
vote_args_to_proto a = record {
  term = a.term;
  candidate_id = a.candidate_id;
  last_log_index = a.last_log_index;
  last_log_term = a.last_log_term;
  is_pre_vote = a.is_pre_vote;
}

abbrev pub vote_reply_from_proto : PbVoteReply → RequestVoteReply
vote_reply_from_proto r = record { term = r.term; vote_granted = r.vote_granted }

unfoldable pub append_args_to_proto : AppendEntriesArgs → PbAppendArgs
append_args_to_proto a = record {
  term = a.term;
  leader_id = a.leader_id;
  prev_log_index = a.prev_log_index;
  prev_log_term = a.prev_log_term;
  entries = to_proto_entries a.entries;
  leader_commit = a.leader_commit;
}

abbrev pub append_reply_from_proto : PbAppendReply → AppendEntriesReply
append_reply_from_proto r = record {
  term = r.term;
  success = r.success;
  conflict_term = r.conflict_term;
  conflict_index = r.conflict_index;
}

abbrev pub snapshot_args_to_proto : InstallSnapshotArgs → PbSnapshotArgs
snapshot_args_to_proto a = record {
  term = a.term;
  leader_id = a.leader_id;
  last_included_index = a.last_included_index;
  last_included_term = a.last_included_term;
  data_bytes = a.payload;
}

abbrev pub snapshot_reply_from_proto : PbSnapshotReply → InstallSnapshotReply
snapshot_reply_from_proto r = record { term = r.term }

-- What the methods of `grpcHandler` hand to the node, and what they answer.
abbrev pub vote_args_from_proto : PbVoteArgs → RequestVoteArgs
vote_args_from_proto a = record {
  term = a.term;
  candidate_id = a.candidate_id;
  last_log_index = a.last_log_index;
  last_log_term = a.last_log_term;
  is_pre_vote = a.is_pre_vote;
}

abbrev pub vote_reply_to_proto : RequestVoteReply → PbVoteReply
vote_reply_to_proto r = record { term = r.term; vote_granted = r.vote_granted }

unfoldable pub append_args_from_proto : PbAppendArgs → AppendEntriesArgs
append_args_from_proto a = record {
  term = a.term;
  leader_id = a.leader_id;
  prev_log_index = a.prev_log_index;
  prev_log_term = a.prev_log_term;
  entries = from_proto_entries a.entries;
  leader_commit = a.leader_commit;
}

abbrev pub append_reply_to_proto : AppendEntriesReply → PbAppendReply
append_reply_to_proto r = record {
  term = r.term;
  success = r.success;
  conflict_term = r.conflict_term;
  conflict_index = r.conflict_index;
}

abbrev pub snapshot_args_from_proto : PbSnapshotArgs → InstallSnapshotArgs
snapshot_args_from_proto a = record {
  term = a.term;
  leader_id = a.leader_id;
  last_included_index = a.last_included_index;
  last_included_term = a.last_included_term;
  payload = a.data_bytes;
}

abbrev pub snapshot_reply_to_proto : InstallSnapshotReply → PbSnapshotReply
snapshot_reply_to_proto r = record { term = r.term }
