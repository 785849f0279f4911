-- ===== src/Sidecar/Handlers.antt =====
-- cmd/sidecar/main.go: the HTTP handlers. A request gives its method, its path and its decoded body. The
-- verb %q is written out for a text that needs no escapes.
use raft_implementation.Prelude.{
  ℕ, ◌+◌, String, not, Option, none, some, List, [], ◌∷◌, ◌==◌, str_eq, if◌then◌else◌, ◌<>◌,
  trim_prefix, split_on,
}
use raft_implementation.Sidecar.Registry.{NodeDef, Sidecar, find_registered, remove_dynamic_node}
use raft_implementation.Sidecar.Docker.{Environment}
use raft_implementation.Sidecar.Cluster.{fetch_raft_status}
use raft_implementation.Sidecar.Lifecycle.{
  with_world, started, start_preset_node, create_dynamic_node, stop_node, restart_node, pause_node,
  unpause_node,
}
use raft_implementation.Sidecar.Scenarios.{
  LiveScenarioMeta, live_scenario_list, isolate_leader, lose_follower, quorum_loss, leader_churn,
}

-- http.Error, the JSON object with ok and the node's id, the JSON of a scenario's result, its name
-- and its error if it failed, and the JSON of the list of scenarios.
pub data Reply : Type 0 where
  http_error : ℕ → String → Reply
  node_ok : String → Reply
  scenario_result : String → Option String → Reply
  scenario_list : List LiveScenarioMeta → Reply
  no_content : Reply

pub record CreateRequest : Type 0 where
  pub id : String
  pub http_port : ℕ
  pub rpc_port : ℕ

abbrev pub node_reply : {W : Type 0} → String → Sidecar W × Option String → Sidecar W × Reply
node_reply id (s, none) = (s, node_ok id)
node_reply id (s, some err) = (s, http_error 500 err)

abbrev scenario_reply : {W : Type 0} → String → Sidecar W × Option String → Sidecar W × Reply
scenario_reply name (s, err) = (s, scenario_result name err)

module _ {W : Type 0} (env : Environment W) (rounds : ℕ) where
  -- The part of `handleCreateNode` for a node that is not in the registry.
  unfoldable pub create_new : CreateRequest → Sidecar W → Sidecar W × Reply
  unfolding create_dynamic_node
  create_new req s =
      let rpc_port = if req.rpc_port == 0 then req.http_port + 100 else req.rpc_port in
      if req.http_port == 0
      then (s, http_error 400 "http_port is required for new nodes")
      else node_reply req.id (create_dynamic_node env rounds req.id req.http_port rpc_port s)

  -- The part for a node that is in the registry.
  unfoldable pub create_existing : CreateRequest → NodeDef → Sidecar W → Sidecar W × Reply
  unfolding fetch_raft_status start_preset_node remove_dynamic_node create_new
  create_existing req existing s =
      let (w, st) = fetch_raft_status env existing.http_port s.world in
      let s₁ = with_world w s in
      let again =
        if existing.dynamic
        then create_new req (remove_dynamic_node req.id s₁)
        else node_reply req.id
            (started (λ w. with_world w s₁) (start_preset_node env rounds existing s₁.nodes w)) in
      elim st [
        | some st ↦ (s₁, http_error 409 ("node \"" <> req.id <> "\" is already running"))
        | none ↦ again
      ]

  unfoldable pub handle_create_node : String → Option CreateRequest → Sidecar W → Sidecar W × Reply
  unfolding create_existing create_new
  handle_create_node method none s =
      if not (str_eq method "POST")
      then (s, http_error 405 "method not allowed")
      else (s, http_error 400 "body must be JSON with at least {\"id\":\"...\"}")
  handle_create_node method (some req) s =
      if not (str_eq method "POST")
      then (s, http_error 405 "method not allowed")
      else if str_eq req.id ""
      then (s, http_error 400 "body must be JSON with at least {\"id\":\"...\"}")
      else elim (find_registered req.id s) [
        | some existing ↦ create_existing req existing s
        | none ↦ create_new req s
      ]

  -- The `switch` of `handleNodeAction`.
  unfoldable pub node_action : String → NodeDef → Sidecar W → Sidecar W × Reply
  unfolding stop_node pause_node unpause_node restart_node
  node_action action node s =
      if str_eq action "stop"
      then node_reply node.id (stop_node env node s)
      else if str_eq action "pause"
      then node_reply node.id (pause_node env node s)
      else if str_eq action "unpause"
      then node_reply node.id (unpause_node env node s)
      else if str_eq action "restart"
      then node_reply node.id (restart_node env rounds node s)
      else (s, http_error 400 "action must be stop, pause, unpause, or restart")

  -- The parts of the path after its prefix; 47 is the code of the slash.
  unfoldable pub on_parts : List String → Sidecar W → Sidecar W × Reply
  unfolding node_action
  on_parts (id ∷ (action ∷ [])) s = elim (find_registered id s) [
    | none ↦ (s, http_error 404 ("unknown node: " <> id))
    | some node ↦ node_action action node s
  ]
  on_parts _ s = (s, http_error 400 "path must be /nodes/{id}/stop|pause|unpause")

  unfoldable pub handle_node_action : String → String → Sidecar W → Sidecar W × Reply
  unfolding on_parts split_on trim_prefix
  handle_node_action method path s =
      if not (str_eq method "POST")
      then (s, http_error 405 "method not allowed")
      else on_parts (split_on 47 (trim_prefix path "/nodes/")) s

  unfoldable pub handle_run_live_scenario : String → String → Sidecar W → Sidecar W × Reply
  unfolding trim_prefix isolate_leader lose_follower quorum_loss leader_churn
  handle_run_live_scenario method path s =
      let id = trim_prefix path "/live-scenarios/" in
      if not (str_eq method "POST")
      then (s, http_error 405 "method not allowed")
      else if str_eq id ""
      then (s, http_error 400 "missing scenario id")
      else if str_eq id "isolate_leader"
      then scenario_reply id (isolate_leader env rounds s)
      else if str_eq id "lose_follower"
      then scenario_reply id (lose_follower env s)
      else if str_eq id "quorum_loss"
      then scenario_reply id (quorum_loss env s)
      else if str_eq id "leader_churn"
      then scenario_reply id (leader_churn env rounds s)
      else (s, http_error 404 ("unknown scenario: " <> id))

unfoldable pub handle_list_live_scenarios : String → Reply
handle_list_live_scenarios method =
    if not (str_eq method "GET")
    then http_error 405 "method not allowed"
    else scenario_list live_scenario_list

-- `corsMiddleware`; the headers that it always sets are left out.
abbrev pub cors : {A : Type 0} → (Reply → A) → String → A → A
cors answer method rest = if str_eq method "OPTIONS" then answer no_content else rest
