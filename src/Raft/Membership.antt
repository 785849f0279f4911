-- ===== src/Raft/Membership.antt =====
-- raft/node.go: commands and membership changes submitted to a leader, and applied membership
-- changes.
pub mod Peers
use raft_implementation.Prelude.{
  ℕ, String, true, ◌||◌, not, Option, none, some, List, [], ◌∷◌, ◌++◌, str_eq, if◌then◌else◌,
  insert, delete, string_eq, add64, filter,
}
use raft_implementation.Raft.Log.{Bytes, LogEntry, zero_entry, append, last_index}
use raft_implementation.Raft.Node.{follower, RaftNode, persist, is_leader, is_member}
use raft_implementation.Raft.Replication.{Message, outgoing}

-- `ErrNotLeader`.
pub data SubmitError : Type 0 where
  not_leader : SubmitError

-- What a call returns beside the new state and the messages that it sends.
pub data Outcome : Type 0 where
  accepted_at : ℕ → ℕ → Outcome
  refused : SubmitError → Outcome

-- The entry that the leader writes for a command.
abbrev pub command_entry : Bytes → RaftNode → LogEntry
command_entry command n = record zero_entry {
  term = n.current_term;
  index = add64 (last_index n.log) 1;
  command = command;
}

unfoldable pub submit : Bytes → RaftNode → RaftNode × Outcome × List (String × Message)
unfolding persist outgoing
submit command n =
    let e = command_entry command n in
    let n' = persist (record n { log = append n.log (e ∷ []) }) in
    if not (is_leader n.state)
    then (n, refused not_leader, [])
    else (n', accepted_at e.index e.term, outgoing n')

abbrev pub config_entry : String → String → RaftNode → LogEntry
config_entry op addr n = record zero_entry {
  term = n.current_term;
  index = add64 (last_index n.log) 1;
  is_config = true;
  config_op = op;
  config_peer = addr;
}

-- The fast path of `submitConfigLocked`: a peer to be added is replicated to at once.
unfoldable pub track_peer : ℕ → String → ℕ → RaftNode → RaftNode
track_peer now addr index n = record n {
  peers = n.peers ++ addr ∷ [];
  next_index = insert addr index n.next_index;
  match_index = insert addr 0 n.match_index;
  last_heard_from = insert addr now n.last_heard_from;
}

unfoldable pub submit_config : ℕ → String → String → RaftNode → RaftNode × List (String × Message)
unfolding persist track_peer outgoing
submit_config now op addr n =
    let e = config_entry op addr n in
    let saved = persist (record n { log = append n.log (e ∷ []) }) in
    let n' = if str_eq op "add" then track_peer now addr e.index saved else saved in
    (n', outgoing n')

-- The error of `AddPeer` and `RemovePeer`, and the messages sent.
unfoldable pub add_peer :
    ℕ → String → RaftNode → RaftNode × Option SubmitError × List (String × Message)
unfolding submit_config
add_peer now addr n =
    let (n', sent) = submit_config now "add" addr n in
    if not (is_leader n.state)
    then (n, some not_leader, [])
    else if str_eq addr n.config.self_addr
    then (n, none, [])
    else if is_member addr n.peers
    then (n, none, [])
    else (n', none, sent)

unfoldable pub remove_peer :
    ℕ → String → RaftNode → RaftNode × Option SubmitError × List (String × Message)
unfolding submit_config
remove_peer now addr n =
    let (n', sent) = submit_config now "remove" addr n in
    if not (is_leader n.state)
    then (n, some not_leader, [])
    else if str_eq addr n.config.self_addr
    then (n', none, sent)
    else if is_member addr n.peers
    then (n', none, sent)
    else (n, none, [])

-- The two cases of `applyConfigEntry`.
unfoldable pub apply_add : ℕ → String → RaftNode → RaftNode
apply_add now addr n =
    let joined = record n { peers = n.peers ++ addr ∷ [] } in
    if str_eq addr n.config.self_addr || is_member addr n.peers
    then n
    else if is_leader n.state
    then record joined {
      next_index = insert addr (add64 (last_index n.log) 1) n.next_index;
      match_index = insert addr 0 n.match_index;
      last_heard_from = insert addr now n.last_heard_from;
    }
    else joined

unfoldable pub apply_remove : String → RaftNode → RaftNode
apply_remove addr n =
    let alone = record n { peers = []; next_index = []; match_index = [] } in
    if str_eq addr n.config.self_addr
    then (if is_leader n.state then record alone { state = follower; leader_id = "" } else alone)
    else record n {
      peers = filter (λ p. not (str_eq p addr)) n.peers;
      next_index = delete addr n.next_index;
      match_index = delete addr n.match_index;
    }

unfoldable pub apply_config_entry : ℕ → LogEntry → RaftNode → RaftNode
unfolding apply_add apply_remove
apply_config_entry now e n =
    if str_eq e.config_op "add"
    then apply_add now e.config_peer n
    else if str_eq e.config_op "remove"
    then apply_remove e.config_peer n
    else n
