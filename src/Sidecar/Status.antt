-- ===== src/Sidecar/Status.antt =====
-- cmd/sidecar/main.go: `handleNodes`, the view of all known nodes. The nodes are asked one after the
-- other, where the source asks them at once and takes the answers in any order; where two nodes share
-- a port, the later answer stays in the map.
use raft_implementation.Prelude.{
  ℕ, String, Bool, true, false, ◌||◌, Option, none, some, List, [], ◌∷◌, ◌++◌, map, str_eq,
  if◌then◌else◌, any, GoMap, lookup_or, insert, nat_eq,
}
use raft_implementation.Sidecar.Registry.{NodeDef, RaftStatus, Sidecar, is_paused}
use raft_implementation.Sidecar.Docker.{Environment}
use raft_implementation.Sidecar.Cluster.{fetch_raft_status}

-- `node` is the embedded NodeDef.
pub record NodeInfo : Type 0 where
  pub node : NodeDef
  pub running : Bool
  pub in_cluster : Bool
  pub paused : Bool
  pub raft_state : String
  pub term : ℕ
  pub leader : String
  pub peers : List String
  pub commit_index : ℕ
  pub last_applied : ℕ
  pub heartbeats_sent : ℕ
  pub heartbeats_received : ℕ
  pub snapshot_index : ℕ

abbrev pub StatusByPort : Type 0
StatusByPort = GoMap ℕ (Option RaftStatus)

abbrev pub status_at : ℕ → StatusByPort → Option RaftStatus
status_at port m = lookup_or none port m

abbrev pub says_leader : Option RaftStatus → Bool
says_leader none = false
says_leader (some st) = str_eq st.state "leader"

abbrev peers_of : Option RaftStatus → List String
peers_of none = []
peers_of (some st) = st.peers

-- The addresses of the first node that says that it is the leader and of its peers; none without one.
unfoldable pub leader_peers : StatusByPort → List NodeDef → Option (List String)
leader_peers m [] = none
leader_peers m (n ∷ ns) =
    let rest = leader_peers m ns in
    let st = status_at n.http_port m in
    if says_leader st then some (n.rpc_addr ∷ peers_of st) else rest

-- The union of all peer lists.
unfoldable pub fallback_peers : StatusByPort → List String
fallback_peers [] = []
fallback_peers ((port, st) ∷ m) = peers_of st ++ fallback_peers m

-- The addresses that count as members.
unfoldable pub members : StatusByPort → List NodeDef → List String
unfolding leader_peers fallback_peers
members m all = elim (leader_peers m all) [ some addrs ↦ addrs | none ↦ fallback_peers m ]

-- The fields that a node does not say itself.
abbrev silent : NodeDef → Bool → Bool → NodeInfo
silent n paused member = record {
  node = n;
  running = paused;
  in_cluster = member || paused;
  paused = paused;
  raft_state = if paused then "paused" else "";
  term = 0;
  leader = "";
  peers = [];
  commit_index = 0;
  last_applied = 0;
  heartbeats_sent = 0;
  heartbeats_received = 0;
  snapshot_index = 0;
}

-- One round of the last loop.
abbrev pub node_info : NodeDef → Bool → Bool → Option RaftStatus → NodeInfo
node_info n paused member none = silent n paused member
node_info n paused member (some st) = record (silent n paused member) {
  running = true;
  in_cluster = member || paused || str_eq st.state "leader";
  raft_state = st.state;
  term = st.term;
  leader = st.leader;
  peers = st.peers;
  commit_index = st.commit_index;
  last_applied = st.last_applied;
  heartbeats_sent = st.heartbeats_sent;
  heartbeats_received = st.heartbeats_received;
  snapshot_index = st.snapshot_index;
}

module _ {W : Type 0} (env : Environment W) where
  -- The answers; a paused node is not asked.
  unfoldable pub ask_all : (String → Bool) → List NodeDef → StatusByPort → W → W × StatusByPort
  unfolding fetch_raft_status
  ask_all paused [] m w = (w, m)
  ask_all paused (n ∷ ns) m w =
      let (w', st) = if paused n.id then (w, none) else fetch_raft_status env n.http_port w in
      ask_all paused ns (insert n.http_port st m) w'

  unfoldable pub asked : Sidecar W → W × StatusByPort
  unfolding ask_all is_paused
  asked s = ask_all (λ id. is_paused id s) s.nodes [] s.world

  -- What is shown of one node, given all answers.
  unfoldable pub info_of : StatusByPort → Sidecar W → NodeDef → NodeInfo
  unfolding members is_paused
  info_of m s n =
      node_info n (is_paused n.id s) (any (λ p. str_eq p n.rpc_addr) (members m s.nodes))
        (status_at n.http_port m)

  unfoldable pub handle_nodes : Sidecar W → Sidecar W × List NodeInfo
  unfolding asked info_of
  handle_nodes s = let (w, m) = asked s in (record s { world = w }, map (info_of m s) s.nodes)
