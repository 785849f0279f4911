-- ===== src/Sidecar/Cluster.antt =====
-- cmd/sidecar/main.go: what the nodes say over HTTP, and changes of the membership. A loop up to a
-- deadline is a loop of a number of rounds; the sleep between two rounds is left out.
use raft_implementation.Prelude.{
  ℕ, zero, suc, String, Bool, true, false, ◌&&◌, not, Option, none, some, List, [], ◌∷◌, leb, ◌==◌,
  str_eq, if◌then◌else◌, ◌<>◌, split_on, decimal, ◌⊎◌, inl, inr,
}
use raft_implementation.Sidecar.Registry.{NodeDef, RaftStatus}
use raft_implementation.Sidecar.Docker.{Environment}

abbrev pub Live : Type 0
Live = List (NodeDef × RaftStatus)

-- The first pass of `findOnlinePortExcluding`: a node that says that it is the leader.
unfoldable pub leader_port : Live → Option ℕ
leader_port [] = none
leader_port ((n, st) ∷ live) =
    let rest = leader_port live in if str_eq st.state "leader" then some n.http_port else rest

-- The port of the leader that a follower knows.
unfoldable pub port_of : ℕ → String → List NodeDef → Option ℕ
port_of exclude id [] = none
port_of exclude id (n ∷ ns) =
    let rest = port_of exclude id ns in
    if str_eq n.id id && not (n.http_port == exclude) then some n.http_port else rest

-- The part of an address before its first colon, which has the code 58.
abbrev pub host_of : String → String
host_of addr = elim (split_on 58 addr) [ [] ↦ "" | part ∷ parts ↦ part ]

abbrev pub first_of : Option ℕ → Option ℕ → Option ℕ
first_of none o = o
first_of (some port) o = some port

abbrev pub or_else : Option ℕ → ℕ → ℕ
or_else none port = port
or_else (some port) other = port

-- The second pass.
unfoldable pub known_leader_port : ℕ → List NodeDef → Live → Option ℕ
unfolding port_of split_on
known_leader_port exclude all [] = none
known_leader_port exclude all ((n, st) ∷ live) =
    let rest = known_leader_port exclude all live in
    if str_eq st.leader "" then rest else first_of (port_of exclude (host_of st.leader) all) rest

-- The third pass: any node that answers.
abbrev pub any_port : Live → ℕ
any_port [] = 0
any_port ((n, st) ∷ live) = n.http_port

unfoldable pub choose_port : ℕ → List NodeDef → Live → ℕ
unfolding leader_port known_leader_port
choose_port exclude all live =
    or_else (first_of (leader_port live) (known_leader_port exclude all live)) (any_port live)

abbrev local_url : ℕ → String → String
local_url port path = "http://localhost:" <> decimal port <> path

-- The error of an answer to a change of the membership.
abbrev pub change_error : String → String ⊎ ℕ → Option String
change_error what (inl err) = some err
change_error what (inr status) =
    if leb 300 status then some (what <> " returned HTTP " <> decimal status) else none

module _ {W : Type 0} (env : Environment W) where
  unfoldable pub fetch_raft_status : ℕ → W → W × Option RaftStatus
  fetch_raft_status port w = env.get_status (local_url port "/status") w

  unfoldable pub ask_other : ℕ → NodeDef → W → W × Option RaftStatus
  unfolding fetch_raft_status
  ask_other exclude n w =
      if n.http_port == exclude then (w, none) else fetch_raft_status n.http_port w

  abbrev pub add_live : NodeDef → Option RaftStatus → W × Live → W × Live
  add_live n none (w, live) = (w, live)
  add_live n (some st) (w, live) = (w, (n, st) ∷ live)

  -- The nodes that answer, but for those at the excluded port.
  unfoldable pub live_nodes : ℕ → List NodeDef → W → W × Live
  unfolding ask_other
  live_nodes exclude [] w = (w, [])
  live_nodes exclude (n ∷ ns) w =
      let (w', st) = ask_other exclude n w in add_live n st (live_nodes exclude ns w')

  unfoldable pub find_online_port_excluding : ℕ → List NodeDef → W → W × ℕ
  unfolding live_nodes choose_port
  find_online_port_excluding exclude all w =
      let (w', live) = live_nodes exclude all w in (w', choose_port exclude all live)

  unfoldable pub wait_for_http : ℕ → ℕ → W → W × Option String
  unfolding fetch_raft_status
  wait_for_http zero port w = (w, some "timed out after 30s")
  wait_for_http (suc rounds) port w =
      let (w', st) = fetch_raft_status port w in
      let rest = wait_for_http rounds port w' in elim st [ some st ↦ (w', none) | none ↦ rest ]

  unfoldable pub raft_add_node : ℕ → String → W → W × Option String
  raft_add_node port rpc_addr w =
      let (w', answer) = env.post_addr (local_url port "/admin/add-node") rpc_addr w in
      (w', change_error "add-node" answer)

  unfoldable pub raft_remove_node : ℕ → String → W → W × Option String
  raft_remove_node port rpc_addr w =
      let (w', answer) = env.post_addr (local_url port "/admin/remove-node") rpc_addr w in
      (w', change_error "remove-node" answer)

  abbrev is_none : Option String → Bool
  is_none none = true
  is_none (some err) = false

  abbrev add_timed_out : String → Option String → String
  add_timed_out rpc_addr none = "add-node timed out for " <> rpc_addr <> ": no cluster leader found"
  add_timed_out rpc_addr (some err) = "add-node timed out for " <> rpc_addr <> ": " <> err

  -- The registry is read anew in every round; nothing else changes it meanwhile.
  unfoldable pub retry_add_node :
      ℕ → Option String → ℕ → String → List NodeDef → W → W × Option String
  unfolding find_online_port_excluding raft_add_node
  retry_add_node zero last_err exclude rpc_addr all w = (w, some (add_timed_out rpc_addr last_err))
  retry_add_node (suc rounds) last_err exclude rpc_addr all w =
      let (w₁, port) = find_online_port_excluding exclude all w in
      let (w₂, err) = if port == 0 then (w₁, last_err) else raft_add_node port rpc_addr w₁ in
      let rest = retry_add_node rounds err exclude rpc_addr all w₂ in
      if not (port == 0) && is_none err then (w₂, none) else rest
