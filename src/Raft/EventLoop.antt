-- ===== src/Raft/EventLoop.antt =====
-- raft/node.go: the cases of the event loop `Run`, and the quorum check of a leader.
use raft_implementation.Prelude.{
  ℕ, suc, ◌+◌, ◌-◌, none, some, String, Bool, not, Option, List, [], ◌∷◌, ltb, ◌&&◌, if◌then◌else◌,
  lookup, GoMap, string_eq,
}
use raft_implementation.Raft.Log.{Bytes}
use raft_implementation.Raft.Node.{Config, RaftNode, is_leader, majority_of}
use raft_implementation.Raft.Election.{become_follower, become_candidate, heard_within}
use raft_implementation.Raft.Replication.{Message, send_heartbeats, is_empty}
use raft_implementation.Raft.Snapshot.{load_state, restore_from_snapshot}

-- The peers that answered within the threshold.
unfoldable pub count_heard : ℕ → ℕ → GoMap String ℕ → List String → ℕ
count_heard now threshold heard [] = 0
count_heard now threshold heard (p ∷ ps) =
    let rest = count_heard now threshold heard ps in
    if heard_within now threshold (lookup p heard) then suc rest else rest

unfoldable pub check_quorum : ℕ → RaftNode → RaftNode
unfolding become_follower count_heard
check_quorum now n =
    let heard = count_heard now n.config.election_timeout_max_ms n.last_heard_from n.peers + 1 in
    if not (is_leader n.state)
    then n
    else if ltb heard (majority_of n.peers)
    then become_follower n.current_term n
    else n

-- `randomElectionTimeout`: rand.Intn is `intn`, none where it panics, which is on a spread that is not positive.
unfoldable pub random_election_timeout : (ℕ → Option ℕ) → Config → Option ℕ
random_election_timeout intn cfg =
    elim (intn (cfg.election_timeout_max_ms - cfg.election_timeout_min_ms)) [
      | none ↦ none
      | some k ↦ some (cfg.election_timeout_min_ms + k)
    ]

-- The case `<-heartbeatTicker.C`.
unfoldable pub on_heartbeat_tick : ℕ → RaftNode → RaftNode × List (String × Message)
unfolding check_quorum send_heartbeats
on_heartbeat_tick now n =
    if is_leader n.state then send_heartbeats (check_quorum now n) else (n, [])

-- `n.state != Leader && len(n.peers) > 0`.
abbrev pub eligible : RaftNode → Bool
eligible n = not (is_leader n.state) && not (is_empty n.peers)

-- What the pre-vote goroutine does under the lock, once the probe has ended.
unfoldable pub after_pre_vote : Bool → RaftNode → RaftNode
after_pre_vote won n = if won && eligible n then become_candidate n else n

-- The first lines of `Run`: restart from the disk, and the bytes for the state machine.
unfoldable pub boot : RaftNode → RaftNode × Option Bytes
unfolding load_state restore_from_snapshot
boot n = restore_from_snapshot (load_state n)
