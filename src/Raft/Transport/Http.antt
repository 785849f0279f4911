-- ===== src/Raft/Transport/Http.antt =====
-- raft/transport_http.go: the server's routes and the client's `post`. encoding/json and net/http are
-- parameters: a type of bodies with a codec for each message, and a function that carries a request.
use raft_implementation.Prelude.{ℕ, String, Option, none, some, ◌==◌, str_eq, if◌then◌else◌, ◌≡◌}
use raft_implementation.Raft.Rpc.{
  RequestVoteArgs, RequestVoteReply, AppendEntriesArgs, AppendEntriesReply, InstallSnapshotArgs,
  InstallSnapshotReply,
}
use raft_implementation.Raft.Node.{RaftNode}
use raft_implementation.Raft.Election.{handle_request_vote}
use raft_implementation.Raft.Replication.{handle_append_entries}
use raft_implementation.Raft.Snapshot.{handle_install_snapshot}
use raft_implementation.Raft.Transport.{Transport}

-- json.Marshal and json.Decode at one type, documented to be inverse.
pub record Json (Body A : Type 0) : Type 0 where
  pub encode : A → Body
  pub decode : Body → Option A
  pub decode-encode : (a : A) → decode (encode a) ≡ some a

-- A codec for each message, and the text of an error.
pub record Codecs (Body : Type 0) : Type 0 where
  pub error_text : Body
  pub vote_args : Json Body RequestVoteArgs
  pub vote_reply : Json Body RequestVoteReply
  pub append_args : Json Body AppendEntriesArgs
  pub append_reply : Json Body AppendEntriesReply
  pub snapshot_args : Json Body InstallSnapshotArgs
  pub snapshot_reply : Json Body InstallSnapshotReply

pub record HttpResponse (Body : Type 0) : Type 0 where
  pub status : ℕ
  pub body : Body

-- http.Client.Do on a POST to addr and path: none for an error.
abbrev pub Carrier : Type 0 → Type 0 → Type 0
Carrier Body W = String → String → Body → W → W × Option (HttpResponse Body)

-- The last lines of `post`.
abbrev pub read_response :
    {Body R W : Type 0} → Json Body R → W × Option (HttpResponse Body) → W × Option R
read_response j (w, none) = (w, none)
read_response j (w, some resp) = (w, if resp.status == 200 then j.decode resp.body else none)

module _ {Body W : Type 0} (do_post : Carrier Body W) (c : Codecs Body) where
  unfoldable pub http_post :
      {A R : Type 0} → Json Body A → Json Body R → String → String → A → W → W × Option R
  http_post ja jr addr path body w = read_response jr (do_post addr path (ja.encode body) w)

  abbrev pub http_transport : Transport W
  http_transport = record {
    call_vote = λ addr args w. http_post c.vote_args c.vote_reply addr "/raft/request-vote" args w;
    call_append =
        λ addr args w. http_post c.append_args c.append_reply addr "/raft/append-entries" args w;
    call_snapshot = λ addr args w.
        http_post c.snapshot_args c.snapshot_reply addr "/raft/install-snapshot" args w;
  }

-- One of the three functions that `Register` installs.
abbrev pub served :
    {Body A R : Type 0}
    → Body
    → Json Body A
    → Json Body R
    → (A → RaftNode → RaftNode × R)
    → Body
    → RaftNode
    → RaftNode × HttpResponse Body
served error_text ja jr handle body n = elim (ja.decode body) [
  | none ↦ (n, record { status = 400; body = error_text })
  | some args ↦ ((handle args n).0, record { status = 200; body = jr.encode (handle args n).1 })
]

-- The mux of the server; a path without a route is answered 404.
unfoldable pub serve_http :
    {Body : Type 0} → Codecs Body → ℕ → String → Body → RaftNode → RaftNode × HttpResponse Body
serve_http c now path body n =
    if str_eq path "/raft/request-vote"
    then served c.error_text c.vote_args c.vote_reply (handle_request_vote now) body n
    else if str_eq path "/raft/append-entries"
    then served c.error_text c.append_args c.append_reply (handle_append_entries now) body n
    else if str_eq path "/raft/install-snapshot"
    then served c.error_text c.snapshot_args c.snapshot_reply handle_install_snapshot body n
    else (n, record { status = 404; body = c.error_text })
