-- ===== src/Raft/Transport/Grpc.antt =====
-- raft/transport_grpc.go: the client's methods and the server's handlers. Dialing and the call itself
-- are the gRPC library's: a record of parameters over a state of the network.
use raft_implementation.Prelude.{ℕ, String, Bool, Option, none, some, if◌then◌else◌}
use raft_implementation.Raft.Rpc.{
  RequestVoteArgs, RequestVoteReply, AppendEntriesArgs, AppendEntriesReply, InstallSnapshotArgs,
  InstallSnapshotReply,
}
use raft_implementation.Raft.Node.{RaftNode}
use raft_implementation.Raft.Election.{handle_request_vote}
use raft_implementation.Raft.Replication.{handle_append_entries}
use raft_implementation.Raft.Snapshot.{handle_install_snapshot}
use raft_implementation.Raft.Transport.{Transport}
use raft_implementation.Raft.Transport.Proto.{
  PbVoteArgs, PbVoteReply, PbAppendArgs, PbAppendReply, PbSnapshotArgs, PbSnapshotReply,
  vote_args_to_proto, vote_reply_from_proto, append_args_to_proto, append_reply_from_proto,
  snapshot_args_to_proto, snapshot_reply_from_proto, vote_args_from_proto, vote_reply_to_proto,
  append_args_from_proto, append_reply_to_proto, snapshot_args_from_proto, snapshot_reply_to_proto,
}

-- grpc.DialContext and the methods of the generated client.
pub record GrpcClient (W : Type 0) : Type 0 where
  pub dial : String → W → Bool
  pub send_vote : String → PbVoteArgs → W → W × Option PbVoteReply
  pub send_append : String → PbAppendArgs → W → W × Option PbAppendReply
  pub send_snapshot : String → PbSnapshotArgs → W → W × Option PbSnapshotReply

-- The end of each client method: an error, or the converted response.
abbrev pub converted : {W P R : Type 0} → (P → R) → W × Option P → W × Option R
converted f (w, none) = (w, none)
converted f (w, some p) = (w, some (f p))

module _ {W : Type 0} (c : GrpcClient W) where
  unfoldable pub grpc_request_vote : String → RequestVoteArgs → W → W × Option RequestVoteReply
  grpc_request_vote addr args w =
      if c.dial addr w
      then converted vote_reply_from_proto (c.send_vote addr (vote_args_to_proto args) w)
      else (w, none)

  unfoldable pub grpc_append_entries :
      String → AppendEntriesArgs → W → W × Option AppendEntriesReply
  grpc_append_entries addr args w =
      if c.dial addr w
      then converted append_reply_from_proto (c.send_append addr (append_args_to_proto args) w)
      else (w, none)

  unfoldable pub grpc_install_snapshot :
      String → InstallSnapshotArgs → W → W × Option InstallSnapshotReply
  grpc_install_snapshot addr args w =
      if c.dial addr w
      then converted snapshot_reply_from_proto
          (c.send_snapshot addr (snapshot_args_to_proto args) w)
      else (w, none)

  abbrev pub grpc_transport : Transport W
  grpc_transport = record {
    call_vote = grpc_request_vote;
    call_append = grpc_append_entries;
    call_snapshot = grpc_install_snapshot;
  }

-- The methods of `grpcHandler`.
unfoldable pub serve_vote : ℕ → PbVoteArgs → RaftNode → RaftNode × PbVoteReply
serve_vote now req n =
    let (n', reply) = handle_request_vote now (vote_args_from_proto req) n in
    (n', vote_reply_to_proto reply)

unfoldable pub serve_append : ℕ → PbAppendArgs → RaftNode → RaftNode × PbAppendReply
serve_append now req n =
    let (n', reply) = handle_append_entries now (append_args_from_proto req) n in
    (n', append_reply_to_proto reply)

unfoldable pub serve_snapshot : PbSnapshotArgs → RaftNode → RaftNode × PbSnapshotReply
serve_snapshot req n =
    let (n', reply) = handle_install_snapshot (snapshot_args_from_proto req) n in
    (n', snapshot_reply_to_proto reply)
