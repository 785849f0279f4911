-- ===== src/Sidecar/Requests.antt =====
-- The registry through any sequence of requests.
use raft_implementation.Prelude.{
  ℕ, refl, true, false, not, String, Option, none, some, List, [], ◌∷◌, str_eq, if◌then◌else◌, ◌==◌,
  if-elim, Option-both, ◌+◌, split_on, trim_prefix,
}
use raft_implementation.Sidecar.Registry.{
  NodeDef, Sidecar, new_sidecar, find_registered, remove_dynamic_node,
}
use raft_implementation.Sidecar.Docker.{Environment}
use raft_implementation.Sidecar.Cluster.{fetch_raft_status}
use raft_implementation.Sidecar.Lifecycle.{
  with_world, create_dynamic_node, stop_node, pause_node, unpause_node, restart_node,
}
use raft_implementation.Sidecar.Status.{handle_nodes}
use raft_implementation.Sidecar.Presets.{
  IsRegistry, without_dynamic-IsRegistry, same-IsRegistry, switched-nodes, restored-nodes,
  stop_node-IsRegistry, create_dynamic_node-IsRegistry, restart_node-IsRegistry,
}
use raft_implementation.Sidecar.Pauses.{pause_node-IsSwitched, unpause_node-IsSwitched}
use raft_implementation.Sidecar.Restores.{isolate_leader-IsRestored, leader_churn-IsRestored}
use raft_implementation.Sidecar.Quorum.{lose_follower-IsRestored, quorum_loss-nodes}
use raft_implementation.Sidecar.Handlers.{
  Reply, CreateRequest, node_reply, create_new, create_existing, handle_create_node, node_action,
  on_parts, handle_node_action, handle_run_live_scenario,
}
use raft_implementation.Sidecar.Scenarios.{isolate_leader, lose_follower, leader_churn}

module _ {W : Type 0} (env : Environment W) (rounds : ℕ) where
  reply-IsRegistry :
      (id : String) (x : Sidecar W × Option String)
      → IsRegistry x.0.nodes
      → IsRegistry (node_reply id x).0.nodes
  reply-IsRegistry id (s, none) r = r
  reply-IsRegistry id (s, some err) r = r

  -- What a handler keeps.
  abbrev Kept : Sidecar W × Reply → Type 0
  Kept x = IsRegistry x.0.nodes

  create_new-Kept :
      (req : CreateRequest) (s : Sidecar W)
      → IsRegistry s.nodes
      → Kept (create_new env rounds req s)
  unfolding create_new
  create_new-Kept req s r =
      let rpc_port = if req.rpc_port == 0 then req.http_port + 100 else req.rpc_port in
      if-elim Kept (req.http_port == 0) _ _ (λ h. r)
        (λ h.
          reply-IsRegistry req.id (create_dynamic_node env rounds req.id req.http_port rpc_port s)
            (create_dynamic_node-IsRegistry env rounds req.id req.http_port rpc_port s r))

  create_existing-Kept :
      (req : CreateRequest) (existing : NodeDef) (s : Sidecar W)
      → IsRegistry s.nodes
      → Kept (create_existing env rounds req existing s)
  unfolding create_existing remove_dynamic_node
  create_existing-Kept req existing s r =
      let s₁ = with_world (fetch_raft_status env existing.http_port s.world).0 s in
      Option-both Kept (fetch_raft_status env existing.http_port s.world).1 _ _
        (if-elim Kept existing.dynamic _ _
          (λ h.
            create_new-Kept req (remove_dynamic_node req.id s₁)
              (without_dynamic-IsRegistry req.id s.nodes r))
          (λ h. reply-IsRegistry req.id _ r))
        (λ st. r)

  handle_create_node-Kept :
      (method : String) (req : Option CreateRequest) (s : Sidecar W)
      → IsRegistry s.nodes
      → Kept (handle_create_node env rounds method req s)
  unfolding handle_create_node
  handle_create_node-Kept method none s r =
      if-elim Kept (not (str_eq method "POST")) _ _ (λ h. r) (λ h. r)
  handle_create_node-Kept method (some req) s r =
      if-elim Kept (not (str_eq method "POST")) _ _ (λ h. r)
        (λ h.
          if-elim Kept (str_eq req.id "") _ _ (λ h. r)
            (λ h.
              Option-both Kept (find_registered req.id s) _ _ (create_new-Kept req s r)
                (λ existing. create_existing-Kept req existing s r)))

  node_action-Kept :
      (action : String) (n : NodeDef) (s : Sidecar W)
      → IsRegistry s.nodes
      → Kept (node_action env rounds action n s)
  unfolding node_action
  node_action-Kept action n s r =
      if-elim Kept (str_eq action "stop") _ _
        (λ h. reply-IsRegistry n.id (stop_node env n s) (stop_node-IsRegistry env rounds n s r))
        (λ h.
          if-elim Kept (str_eq action "pause") _ _
            (λ h. reply-IsRegistry n.id (pause_node env n s) (
              switched-nodes env rounds true n s (pause_node env n s)
                (pause_node-IsSwitched env n s) r))
            (λ h.
              if-elim Kept (str_eq action "unpause") _ _
                (λ h. reply-IsRegistry n.id (unpause_node env n s) (
                  switched-nodes env rounds false n s (unpause_node env n s)
                    (unpause_node-IsSwitched env n s) r))
                (λ h.
                  if-elim Kept (str_eq action "restart") _ _
                    (λ h.
                      reply-IsRegistry n.id (restart_node env rounds n s)
                        (restart_node-IsRegistry env rounds n s r))
                    (λ h. r))))

  on_parts-Kept :
      (parts : List String) (s : Sidecar W)
      → IsRegistry s.nodes
      → Kept (on_parts env rounds parts s)
  unfolding on_parts
  on_parts-Kept [] s r = r
  on_parts-Kept (id ∷ []) s r = r
  on_parts-Kept (id ∷ (action ∷ [])) s r =
      Option-both Kept (find_registered id s) _ _ r (λ n. node_action-Kept action n s r)
  on_parts-Kept (id ∷ (action ∷ (x ∷ xs))) s r = r

  handle_run_live_scenario-Kept :
      (method path : String) (s : Sidecar W)
      → IsRegistry s.nodes
      → Kept (handle_run_live_scenario env rounds method path s)
  unfolding handle_run_live_scenario
  handle_run_live_scenario-Kept method path s r =
      let id = trim_prefix path "/live-scenarios/" in
      if-elim Kept (not (str_eq method "POST")) _ _ (λ h. r)
        (λ h.
          if-elim Kept (str_eq id "") _ _ (λ h. r)
            (λ h.
              if-elim Kept (str_eq id "isolate_leader") _ _
                (λ h.
                  restored-nodes env rounds s (isolate_leader env rounds s)
                    (isolate_leader-IsRestored env rounds s) r)
                (λ h.
                  if-elim Kept (str_eq id "lose_follower") _ _
                    (λ h.
                      restored-nodes env rounds s (lose_follower env s)
                        (lose_follower-IsRestored env s) r)
                    (λ h.
                      if-elim Kept (str_eq id "quorum_loss") _ _
                        (λ h. same-IsRegistry s.nodes _ (quorum_loss-nodes env s) r)
                        (λ h.
                          if-elim Kept (str_eq id "leader_churn") _ _
                            (λ h.
                              restored-nodes env rounds s (leader_churn env rounds s)
                                (leader_churn-IsRestored env rounds s) r)
                            (λ h. r))))))

-- The requests that change the registry, the flags or the world.
pub data Call : Type 0 where
  view_call : Call
  create_call : (method : String) → Option CreateRequest → Call
  action_call scenario_call : (method path : String) → Call

module _ {W : Type 0} (env : Environment W) (rounds : ℕ) where
  unfoldable pub serve : Call → Sidecar W → Sidecar W
  unfolding handle_nodes
  serve view_call s = (handle_nodes env s).0
  serve (create_call method req) s = (handle_create_node env rounds method req s).0
  serve (action_call method path) s = (handle_node_action env rounds method path s).0
  serve (scenario_call method path) s = (handle_run_live_scenario env rounds method path s).0

  unfoldable pub serve_all : List Call → Sidecar W → Sidecar W
  unfolding serve
  serve_all [] s = s
  serve_all (c ∷ cs) s = serve_all cs (serve c s)

  serve-IsRegistry : (c : Call) (s : Sidecar W) → IsRegistry s.nodes → IsRegistry (serve c s).nodes
  unfolding serve handle_nodes handle_node_action
  serve-IsRegistry view_call s r = r
  serve-IsRegistry (create_call method req) s r = handle_create_node-Kept env rounds method req s r
  serve-IsRegistry (action_call method path) s r =
      if-elim {A = Sidecar W × Reply} (λ x. IsRegistry x.0.nodes) (not (str_eq method "POST")) _ _
        (λ h. r) (λ h. on_parts-Kept env rounds (split_on 47 (trim_prefix path "/nodes/")) s r)
  serve-IsRegistry (scenario_call method path) s r =
      handle_run_live_scenario-Kept env rounds method path s r

  serve_all-keeps :
      (cs : List Call) (s : Sidecar W) → IsRegistry s.nodes → IsRegistry (serve_all cs s).nodes
  unfolding serve_all
  serve_all-keeps [] s r = r
  serve_all-keeps (c ∷ cs) s r = serve_all-keeps cs (serve c s) (serve-IsRegistry c s r)

  -- From the start of the sidecar and through any sequence of requests, whatever docker and the
  -- nodes answer, the registry is the preset nodes in their order, followed by dynamic nodes only.
  pub serve_all-IsRegistry :
      (cs : List Call) (w : W) → IsRegistry (serve_all cs (new_sidecar w)).nodes
  serve_all-IsRegistry cs w = serve_all-keeps cs (new_sidecar w) ([], refl, tt)
