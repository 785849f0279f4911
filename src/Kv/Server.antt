-- ===== src/Kv/Server.antt =====
-- cmd/kvstore/main.go: the handlers of one node's HTTP API, with kvstore.go's `call` up to its wait. A
-- handler that waits for its log index returns that index; what it answers then is `write_reply`.
pub mod Addrs
pub mod Writes
pub mod Applied
pub mod Start
use raft_implementation.Prelude.{
  ℕ, String, Bool, false, ◌&&◌, not, Option, none, some, List, [], ◌∷◌, map, str_eq, if◌then◌else◌,
  GoMap, lookup, string_eq, ◌<>◌, trim_prefix, trim_space,
}
use raft_implementation.Raft.Log.{LogEntry}
use raft_implementation.Raft.Node.{RaftNode, is_leader}
use raft_implementation.Raft.Membership.{
  SubmitError, Outcome, submit, accepted_at, refused, add_peer, remove_peer,
}
use raft_implementation.Raft.Membership
use raft_implementation.Raft.Replication.{Message}
use raft_implementation.Raft.Accessors.{
  state_string, node_state, current_term, leader_id, heartbeats_received, heartbeats_sent,
  commit_index, last_applied, peers, log_entries, node_snapshot_index,
}
use raft_implementation.Kv.Store.{
  Op, Data, Failure, not_leader, key_not_found, timeout, decode_error, unknown_op, Codec, Calls,
  register, get,
}

-- What the handlers read of an http.Request; `query_value` is the parameter value of its query.
pub record Request : Type 0 where
  pub method : String
  pub path : String
  pub uri : String
  pub body : String
  pub query_value : String

-- http.Error, http.Redirect with status 307, fmt.Fprintln, and a header alone.
pub data Response : Type 0 where
  http_error : ℕ → String → Response
  redirected : String → Response
  printed : String → Response
  no_content : Response

-- A handler answers, or waits on its channel for the entry of an index.
pub data Progress : Type 0 where
  answered : Response → Progress
  waiting : ℕ → ℕ → Progress

-- The node, the data of the state machine and the waiting calls of one process.
pub record Server : Type 0 where
  pub node : RaftNode
  pub store : Data
  pub calls : Calls

abbrev pub Step : Type 0
Step = Server × Progress × List (String × Message)

-- The text of an error; that of the decoder is not the program's.
abbrev pub error_text : (gob_text : String) → Failure → String
error_text gob_text not_leader = "kvstore: not the leader"
error_text gob_text key_not_found = "kvstore: key not found"
error_text gob_text timeout = "kvstore: timed out waiting for commit"
error_text gob_text decode_error = gob_text
error_text gob_text (unknown_op kind) = "unknown op: " <> kind

-- What a PUT or a DELETE answers once `Set` or `Delete` has returned.
unfoldable pub write_reply : (gob_text : String) → Option Failure → Response
write_reply gob_text none = printed "OK"
write_reply gob_text (some f) = http_error 503 (error_text gob_text f)

-- Both handlers send what needs the leader to its address.
unfoldable pub to_leader : GoMap String String → Request → RaftNode → Response
to_leader addrs r n = elim (lookup (leader_id n) addrs) [
  | none ↦
      if str_eq (leader_id n) ""
      then http_error 503 "no leader elected yet, retry shortly"
      else http_error 500 "unknown leader address"
  | some addr ↦
      if str_eq (leader_id n) ""
      then http_error 503 "no leader elected yet, retry shortly"
      else redirected ("http://" <> addr <> r.uri)
]

-- The value of a PUT.
unfoldable pub put_value : Request → String
put_value r = let v = trim_space r.body in if str_eq v "" then r.query_value else v

module _ (c : Codec) (gob_text : String) where
  -- What `call` does with the results of `Submit`, up to its select.
  abbrev pub after_submit : ℕ → Server → RaftNode × Outcome × List (String × Message) → Step
  after_submit channel s (n, refused e, sent) =
      (record s { node = n }, answered (write_reply gob_text (some not_leader)), sent)
  after_submit channel s (n, accepted_at index term, sent) =
      (record s { node = n; calls = register index term channel s.calls }, waiting index term, sent)

  -- The channel is a fresh number.
  unfoldable pub call : ℕ → Op → Server → Step
  unfolding submit
  call channel o s = after_submit channel s (submit (c.encode_op o) s.node)

  unfoldable pub set : ℕ → String → String → Server → Step
  unfolding call
  set channel key value s = call channel (record { kind = "SET"; key = key; value = value }) s

  unfoldable pub delete_key : ℕ → String → Server → Step
  unfolding call
  delete_key channel key s = call channel (record { kind = "DEL"; key = key; value = "" }) s

  abbrev pub read_reply : String × Option Failure → Response
  read_reply (v, none) = printed v
  read_reply (v, some key_not_found) = http_error 404 "not found"
  read_reply (v, some f) = http_error 503 (error_text gob_text f)

  -- `makeHandler`. The node may step down between its check and the call, so the node that the check
  -- saw is an argument of its own.
  unfoldable pub serve_key : ℕ → GoMap String String → Request → RaftNode → Server → Step
  unfolding trim_prefix to_leader get set delete_key put_value
  serve_key channel addrs r seen s =
      let key = trim_prefix r.path "/keys/" in
      if str_eq key ""
      then (s, answered (http_error 400 "missing key in path"), [])
      else if not (str_eq r.method "GET") && not (is_leader (node_state seen))
      then (s, answered (to_leader addrs r seen), [])
      else if str_eq r.method "GET"
      then (s, answered (read_reply (get key s.store)), [])
      else if str_eq r.method "PUT"
      then set channel key (put_value r) s
      else if str_eq r.method "DELETE"
      then delete_key channel key s
      else (s, answered (http_error 405 "method not allowed"), [])

-- The JSON object of `makeStatusHandler`.
pub record Status : Type 0 where
  pub node_id : String
  pub state : String
  pub term : ℕ
  pub leader : String
  pub commit_index : ℕ
  pub last_applied : ℕ
  pub heartbeats_received : ℕ
  pub heartbeats_sent : ℕ
  pub peers : List String
  pub snapshot_index : ℕ

unfoldable pub serve_status : String → RaftNode → Status
serve_status node_id n = record {
  node_id = node_id;
  state = state_string (node_state n);
  term = current_term n;
  leader = leader_id n;
  commit_index = commit_index n;
  last_applied = last_applied n;
  heartbeats_received = heartbeats_received n;
  heartbeats_sent = heartbeats_sent n;
  peers = peers n;
  snapshot_index = node_snapshot_index n;
}

-- The JSON list of `makeLogHandler` has every field of an entry.
unfoldable pub serve_log : RaftNode → List LogEntry
unfolding log_entries
serve_log n = log_entries n

abbrev admin_reply : Option SubmitError → Response
admin_reply none = printed "OK"
admin_reply (some Membership.not_leader) = http_error 500 "raft: not the leader"

-- The `switch op` of `makeAdminHandler`; any other op changes nothing.
unfoldable pub change_peers :
    ℕ → String → String → RaftNode → RaftNode × Option SubmitError × List (String × Message)
unfolding add_peer remove_peer
change_peers now op addr n =
    if str_eq op "add"
    then add_peer now addr n
    else if str_eq op "remove"
    then remove_peer now addr n
    else (n, none, [])

-- `makeAdminHandler`; the field addr of the body is given, none if it is no such JSON.
unfoldable pub serve_admin :
    ℕ
    → GoMap String String
    → String
    → Request
    → Option String
    → RaftNode
    → RaftNode
    → RaftNode × Response × List (String × Message)
unfolding to_leader change_peers
serve_admin now addrs op r none seen n =
    if not (str_eq r.method "POST")
    then (n, http_error 405 "method not allowed", [])
    else if not (is_leader (node_state seen))
    then (n, to_leader addrs r seen, [])
    else (n, http_error 400 "body must be JSON with an \"addr\" field", [])
serve_admin now addrs op r (some addr) seen n =
    let (n', err, sent) = change_peers now op addr n in
    if not (str_eq r.method "POST")
    then (n, http_error 405 "method not allowed", [])
    else if not (is_leader (node_state seen))
    then (n, to_leader addrs r seen, [])
    else if str_eq addr ""
    then (n, http_error 400 "body must be JSON with an \"addr\" field", [])
    else (n', admin_reply err, sent)

-- `corsMiddleware`, around the rest of a handler; the headers that it always sets are left out.
abbrev pub cors : {A : Type 0} → (Response → A) → Request → A → A
cors answer r rest = if str_eq r.method "OPTIONS" then answer no_content else rest
