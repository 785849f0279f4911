-- ===== src/Sidecar/Examples.antt =====
-- The sidecar in a world where every command succeeds.
use raft_implementation.Prelude.{
  ℕ, ◌+◌, ◌%◌, ◌==◌, ◌≡◌, ◌⊎◌, inr, refl, true, false, String, none, some, [], ◌∷◌, str_eq,
  if◌then◌else◌, is_free, trim_space, lookup_or, decimal, insert,
}
use raft_implementation.Sidecar.Registry.{
  NodeDef, RaftStatus, Sidecar, preset_nodes, new_sidecar, is_paused, find_in,
}
use raft_implementation.Sidecar.Docker.{Environment, succeeded, build_peer_http_addrs}
use raft_implementation.Sidecar.Cluster.{find_online_port_excluding}
use raft_implementation.Sidecar.Status.{handle_nodes}
use raft_implementation.Sidecar.Scenarios.{isolate_leader, lose_follower, leader_churn}
use raft_implementation.Sidecar.Stops.{ShowsPaused, on_parts-ShowsPaused}
use raft_implementation.Sidecar.Handlers.{on_parts}
use raft_implementation.Sidecar.Ports.{IsOther, find_online_port_excluding-IsOther}
use raft_implementation.Sidecar.Restores.{IsRestored}
use raft_implementation.Sidecar.Quorum.{scenarios-IsRestored}
use raft_implementation.Sidecar.Presets.{IsRegistry}
use raft_implementation.Sidecar.Requests.{create_call, action_call, serve_all, serve_all-IsRegistry}
use raft_implementation.Sidecar.PeerAddrs.{IsId, known_pairs, address_map, parse-build}
use raft_implementation.Kv.Server.Addrs.{parse_peer_http_addrs}

abbrev status_of : String → RaftStatus
status_of state = record {
  state = state;
  term = 1;
  leader = "node1";
  peers = "node2:7001" ∷ "node3:7001" ∷ [];
  commit_index = 0;
  last_applied = 0;
  heartbeats_sent = 0;
  heartbeats_received = 0;
  snapshot_index = 0;
}

-- The world counts the docker commands: node1 leads after an even number of them, node3 otherwise.
abbrev leader_url : ℕ → String
leader_url w = if w % 2 == 0 then "http://localhost:8081/status" else "http://localhost:8083/status"

abbrev toy : Environment ℕ
toy = record {
  compose_file = "infra/docker-compose.yml";
  project_name = "infra";
  docker = λ args w. (w + 1, succeeded "");
  get_status =
      λ url w. (w, some (status_of (if str_eq url (leader_url w) then "leader" else "follower")));
  post_addr = λ url addr w. (w, inr 200);
}

abbrev start : Sidecar ℕ
start = new_sidecar 0

abbrev node4 : NodeDef
node4 = record {
  id = "node4";
  rpc_addr = "node4:7001";
  http_port = 8084;
  rpc_port = 0;
  bootstrap = false;
  dynamic = false;
}

serve_all-IsRegistry_example :
    IsRegistry
      (serve_all toy 2
        (create_call "POST" (some (record { id = "node6"; http_port = 8086; rpc_port = 0 }))
          ∷ action_call "POST" "/nodes/node6/stop"
          ∷ [])
        start).nodes
serve_all-IsRegistry_example =
    serve_all-IsRegistry toy 2
      (create_call "POST" (some (record { id = "node6"; http_port = 8086; rpc_port = 0 }))
        ∷ action_call "POST" "/nodes/node6/stop"
        ∷ [])
      0

find_online_port_excluding-IsOther_example :
    let port = (find_online_port_excluding toy 8084 preset_nodes 0).1 in
    (port ≡ 0) ⊎ IsOther 8084 preset_nodes port
find_online_port_excluding-IsOther_example =
    find_online_port_excluding-IsOther toy 8084 preset_nodes 0

-- All four scenarios pass in this world.
isolate_leader_passes : (isolate_leader toy 3 start).1 ≡ none
unfolding isolate_leader lookup_or decimal insert
isolate_leader_passes = refl

lose_follower_passes : (lose_follower toy start).1 ≡ none
unfolding lose_follower lookup_or decimal insert
lose_follower_passes = refl

leader_churn_passes : (leader_churn toy 3 start).1 ≡ none
unfolding leader_churn lookup_or decimal insert
leader_churn_passes = refl

scenarios-IsRestored_example :
    IsRestored toy start (isolate_leader toy 3 start)
    × IsRestored toy start (lose_follower toy start)
    × IsRestored toy start (leader_churn toy 3 start)
scenarios-IsRestored_example = scenarios-IsRestored toy 3 start

abbrev node4_paused : Sidecar ℕ
node4_paused = record start { paused_nodes = ("node4", true) ∷ [] }

on_parts-ShowsPaused_example :
    ShowsPaused node4 (handle_nodes toy (on_parts toy 2 ("node4" ∷ "stop" ∷ []) node4_paused).0).1
unfolding find_in is_paused lookup_or
on_parts-ShowsPaused_example = on_parts-ShowsPaused toy 2 "node4" node4 node4_paused refl refl refl

node4-IsId : IsId "node4"
unfolding is_free trim_space
node4-IsId = (refl, refl, refl)

node5-IsId : IsId "node5"
unfolding is_free trim_space
node5-IsId = (refl, refl, refl)

parse-build_example :
    parse_peer_http_addrs (build_peer_http_addrs (node4 ∷ []) "node5" 8085)
    ≡ address_map (known_pairs (node4 ∷ []) "node5" 8085) []
parse-build_example = parse-build (node4 ∷ []) "node5" 8085 (node4-IsId, tt) node5-IsId
