-- ===== src/Chaos/Examples/Lives.antt =====
-- A scenario beside nodes that agree whenever it sleeps.
use raft_implementation.Prelude.{
  ◌≡◌, refl, some, [], ◌∷◌, str_eq, if◌then◌else◌, decimal, add64, sub64,
}
use raft_implementation.Raft.Log.{append, last_index}
use raft_implementation.Raft.Node.{leader, follower, new_raft_node}
use raft_implementation.Raft.Membership.{submit}
use raft_implementation.Chaos.Harness.{look_for_leader, nodes_consistent}
use raft_implementation.Chaos.Live.{
  Surroundings, Live, Nodes, ◌>>=◌, pure, gets, tb_log, sleep, observe, partition, heal, submit_to,
  names_from, chaos_cluster,
}
use raft_implementation.Chaos.Live.Waits.{
  wait_for_leader, wait_consistent, submit_each, show_observations, log_observations,
  check_stepped_down, first_other,
}
use raft_implementation.Chaos.Live.Scripts.{stale_log_id, script, stale_log_cannot_win}
use raft_implementation.Chaos.Live.Heals.{script-heals}

-- Node 1 leads, and all have its log.
abbrev agreed : Nodes → Nodes
agreed nodes id = record (nodes id) {
  state = if str_eq id "node1" then leader else follower;
  log = (nodes "node1").log;
}

abbrev calm : Surroundings
calm = record {
  World = Unit;
  elapse = λ ms rules w nodes. (w, agreed nodes);
  send = λ id sent w. w;
  clock = λ w. "00:00:01.000";
  bytes_of = λ text. 7 ∷ [];
  rounds = λ ms. 2;
}

abbrev calm_start : Live calm
calm_start = chaos_cluster calm 3 tt

starts : calm_start.rules ≡ []
unfolding chaos_cluster
starts = refl

ends : (script calm stale_log_id calm_start).0 ≡ some tt
unfolding chaos_cluster stale_log_cannot_win names_from decimal wait_for_leader wait_consistent
    submit_each show_observations log_observations check_stepped_down first_other ◌>>=◌ pure gets
    tb_log sleep observe partition heal submit_to submit append last_index add64 sub64
    look_for_leader nodes_consistent new_raft_node
ends = refl

script-heals_example : (script calm stale_log_id calm_start).1.rules ≡ []
script-heals_example = script-heals calm stale_log_id calm_start starts ends
