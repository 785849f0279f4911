-- ===== src/Raft/Transport/Agree.antt =====
-- The three transports against each other: over a network that carries each message to the server of
-- the node at its address, the gRPC and the HTTP transport are the memory transport.
use raft_implementation.Prelude.{
  ℕ, String, Bool, true, Option, none, some, List, [], ◌∷◌, ◌≡◌, refl, ap, ◌∙◌, inl, inr,
  Bool-cases,
}
use raft_implementation.Raft.Log.{LogEntry}
use raft_implementation.Raft.Node.{RaftNode}
use raft_implementation.Raft.Rpc.{RequestVoteArgs, AppendEntriesArgs, InstallSnapshotArgs}
use raft_implementation.Raft.MemoryNetwork.{
  MemoryNetwork, find_node, register, deliver, request_vote, append_entries, install_snapshot,
}
use raft_implementation.Raft.MemoryNetwork.Delivery.{Answer-cases}
use raft_implementation.Raft.Election.{handle_request_vote}
use raft_implementation.Raft.Replication.{handle_append_entries}
use raft_implementation.Raft.Snapshot.{handle_install_snapshot}
use raft_implementation.Raft.Transport.{memory_transport, with_reply}
use raft_implementation.Raft.Transport.Proto.{
  to_proto_entries, from_proto_entries, append_args_to_proto, append_args_from_proto,
  vote_args_to_proto, snapshot_args_to_proto, vote_reply_from_proto, append_reply_from_proto,
  snapshot_reply_from_proto,
}
use raft_implementation.Raft.Transport.Grpc.{
  GrpcClient, grpc_transport, grpc_request_vote, grpc_append_entries, grpc_install_snapshot,
  serve_vote, serve_append, serve_snapshot, converted,
}
use raft_implementation.Raft.Transport.Http.{
  Codecs, Json, http_transport, http_post, serve_http, served, read_response, HttpResponse, Carrier,
}

pub from_proto_entries-to_proto_entries :
    (es : List LogEntry) → from_proto_entries (to_proto_entries es) ≡ es
unfolding from_proto_entries to_proto_entries
from_proto_entries-to_proto_entries [] = refl
from_proto_entries-to_proto_entries (e ∷ es) =
    ap (λ xs. e ∷ xs) (from_proto_entries-to_proto_entries es)

append_args_from_proto-append_args_to_proto :
    (a : AppendEntriesArgs) → append_args_from_proto (append_args_to_proto a) ≡ a
unfolding append_args_from_proto append_args_to_proto
append_args_from_proto-append_args_to_proto a =
    ap (λ (es : List LogEntry). record a { entries = es })
      (from_proto_entries-to_proto_entries a.entries)

-- A network in which a gRPC message reaches the server of the node at its address.
abbrev pub grpc_wire : ℕ → Bool → String → GrpcClient MemoryNetwork
grpc_wire now done self = record {
  dial = λ addr net. true;
  send_vote = λ addr req net. with_reply (deliver (serve_vote now req) done self addr net);
  send_append = λ addr req net. with_reply (deliver (serve_append now req) done self addr net);
  send_snapshot = λ addr req net. with_reply (deliver (serve_snapshot req) done self addr net);
}

-- A network in which an HTTP request reaches the server of the node at its address.
abbrev pub http_wire :
    {Body : Type 0} → Codecs Body → ℕ → Bool → String → Carrier Body MemoryNetwork
http_wire c now done self addr path body net =
    with_reply (deliver (serve_http c now path body) done self addr net)

-- Delivering to a server and reading its answer is delivering to the handler, if the server runs the
-- handler and its answer reads as the handler's.
module _ {S R : Type 0} (handle : RaftNode → RaftNode × R) (serve : RaftNode → RaftNode × S)
    (read : MemoryNetwork × Option S → MemoryNetwork × Option R)
    (fails : (net : MemoryNetwork) → read (net, none) ≡ (net, none))
    (works : (net : MemoryNetwork) (n : RaftNode)
      → read (net, some (serve n).1) ≡ (net, some (handle n).1))
    (runs : (n : RaftNode) → (serve n).0 ≡ (handle n).0) where
  read-deliver :
      (done : Bool) (self addr : String) (net : MemoryNetwork)
      → read (with_reply (deliver serve done self addr net))
        ≡ with_reply (deliver handle done self addr net)
  unfolding deliver
  read-deliver done self addr net = elim (Answer-cases (find_node self addr net)) [
    | inl (e, failed) ↦ rw (failed, deliver) (fails net)
    | inr (n, found) ↦ elim (Bool-cases done) [
      | inl t ↦ rw (found, t, deliver) (fails net)
      | inr u ↦
          rw (found, u, deliver)
            (works (register addr (serve n).0 net) n
              ∙ ap (λ m. (register addr m net, some (handle n).1)) (runs n))
    ]
  ]

-- Over a network that carries each message to the gRPC server of the node at its address, the gRPC
-- transport is the memory transport, for the three calls.
pub grpc_agrees :
    (now : ℕ) (done : Bool) (self addr : String) (net : MemoryNetwork)
    → let g = grpc_transport (grpc_wire now done self) in
      let m = memory_transport now done self in
      ((args : RequestVoteArgs) → g.call_vote addr args net ≡ m.call_vote addr args net)
      × ((args : AppendEntriesArgs) → g.call_append addr args net ≡ m.call_append addr args net)
      × ((args : InstallSnapshotArgs)
          → g.call_snapshot addr args net ≡ m.call_snapshot addr args net)
unfolding grpc_request_vote grpc_append_entries grpc_install_snapshot serve_vote serve_append
    serve_snapshot request_vote append_entries install_snapshot
grpc_agrees now done self addr net = (
  λ args.
      read-deliver (handle_request_vote now args) (serve_vote now (vote_args_to_proto args))
        (converted vote_reply_from_proto) (λ w. refl) (λ w n. refl) (λ n. refl) done self addr net,
  λ args.
      let e = append_args_from_proto-append_args_to_proto args in
      read-deliver (handle_append_entries now args) (serve_append now (append_args_to_proto args))
        (converted append_reply_from_proto) (λ w. refl)
        (λ w n. ap (λ a. (w, some (handle_append_entries now a n).1)) e)
        (λ n. ap (λ a. (handle_append_entries now a n).0) e) done self addr net,
  λ args.
      read-deliver (handle_install_snapshot args) (serve_snapshot (snapshot_args_to_proto args))
        (converted snapshot_reply_from_proto) (λ w. refl) (λ w n. refl) (λ n. refl) done self addr
        net,
)

served_encoded :
    {Body A R : Type 0} (text : Body) (ja : Json Body A) (jr : Json Body R)
    (handle : A → RaftNode → RaftNode × R) (a : A) (n : RaftNode)
    → served text ja jr handle (ja.encode a) n
      ≡ ((handle a n).0, record { status = 200; body = jr.encode (handle a n).1 })
served_encoded text ja jr handle a n =
    let e : ja.decode (ja.encode a) ≡ some a = ja.decode-encode a in rw (e, served) refl

-- One route of the server under the client's `post`.
agree_at :
    {Body A R : Type 0} (text : Body) (ja : Json Body A) (jr : Json Body R)
    (handle : A → RaftNode → RaftNode × R) (a : A) (done : Bool) (self addr : String)
    (net : MemoryNetwork)
    → read_response jr
        (with_reply (deliver (served text ja jr handle (ja.encode a)) done self addr net))
      ≡ with_reply (deliver (handle a) done self addr net)
agree_at {Body} text ja jr handle a done self addr net =
    read-deliver (handle a) (served text ja jr handle (ja.encode a)) (read_response jr) (λ w. refl)
      (λ w n.
        ap (λ (r : RaftNode × HttpResponse Body). read_response jr (w, some r.1))
          (served_encoded text ja jr handle a n)
        ∙ ap (λ o. (w, o)) (jr.decode-encode (handle a n).1))
      (λ n. ap (λ r. r.0) (served_encoded text ja jr handle a n)) done self addr net

-- Over a network that carries each body to the HTTP server of the node at its address, the HTTP
-- transport is the memory transport, for the three calls.
pub http_agrees :
    {Body : Type 0} (c : Codecs Body) (now : ℕ) (done : Bool) (self addr : String)
    (net : MemoryNetwork)
    → let h = http_transport (http_wire c now done self) c in
      let m = memory_transport now done self in
      ((args : RequestVoteArgs) → h.call_vote addr args net ≡ m.call_vote addr args net)
      × ((args : AppendEntriesArgs) → h.call_append addr args net ≡ m.call_append addr args net)
      × ((args : InstallSnapshotArgs)
          → h.call_snapshot addr args net ≡ m.call_snapshot addr args net)
unfolding http_post serve_http request_vote append_entries install_snapshot
http_agrees c now done self addr net = (
  λ args.
      agree_at c.error_text c.vote_args c.vote_reply (handle_request_vote now) args done self addr
        net,
  λ args.
      agree_at c.error_text c.append_args c.append_reply (handle_append_entries now) args done self
        addr net,
  λ args.
      agree_at c.error_text c.snapshot_args c.snapshot_reply handle_install_snapshot args done self
        addr net,
)

-- Over a network that carries each message to the server of the node at its address, the gRPC
-- transport and, with any codecs that decode what they encode, the HTTP transport give the world
-- and the reply that the memory transport gives, for each of the three calls.
pub transports_agree :
    {Body : Type 0} (c : Codecs Body) (now : ℕ) (done : Bool) (self addr : String)
    (net : MemoryNetwork)
    → let g = grpc_transport (grpc_wire now done self) in
      let h = http_transport (http_wire c now done self) c in
      let m = memory_transport now done self in
      ((args : RequestVoteArgs)
        → (g.call_vote addr args net ≡ m.call_vote addr args net)
          × (h.call_vote addr args net ≡ m.call_vote addr args net))
      × ((args : AppendEntriesArgs)
          → (g.call_append addr args net ≡ m.call_append addr args net)
            × (h.call_append addr args net ≡ m.call_append addr args net))
      × ((args : InstallSnapshotArgs)
          → (g.call_snapshot addr args net ≡ m.call_snapshot addr args net)
            × (h.call_snapshot addr args net ≡ m.call_snapshot addr args net))
transports_agree c now done self addr net =
    let g = grpc_agrees now done self addr net in
    let h = http_agrees c now done self addr net in
    (λ args. (g.0 args, h.0 args), λ args. (g.1 args, h.1 args), λ args. (g.2 args, h.2 args))
