-- ===== src/Sidecar/Lifecycle.antt =====
-- cmd/sidecar/main.go: starting, stopping, restarting and pausing one node. An error is its text, nil
-- is none; `rounds` bounds the polling loops; sleeps and log lines are left out.
use raft_implementation.Prelude.{
  ℕ, String, Bool, true, false, ◌&&◌, Option, none, some, List, [], ◌∷◌, ◌==◌, if◌then◌else◌, ◌<>◌,
  string_eq,
}
use raft_implementation.Sidecar.Registry.{
  NodeDef, Sidecar, add_dynamic_node, remove_dynamic_node, is_paused, set_paused,
}
use raft_implementation.Sidecar.Docker.{
  Environment, compose, clear_node_data, get_built_image, run_args, container_name, run_error,
}
use raft_implementation.Sidecar.Cluster.{
  find_online_port_excluding, wait_for_http, retry_add_node, raft_remove_node,
}

abbrev pub with_world : {W : Type 0} → W → Sidecar W → Sidecar W
with_world w s = record s { world = w }

-- fmt.Errorf with the verb %w at its end.
abbrev pub wrap : String → Option String → Option String
wrap what none = none
wrap what (some err) = some (what <> err)

-- Go on only without an error.
abbrev pub and_then {ℓ} :
    {A : Type ℓ} → A × Option String → (A → A × Option String) → A × Option String
and_then (a, none) f = f a
and_then (a, some err) f = (a, some err)

abbrev pub wrapped {ℓ} : {A : Type ℓ} → String → A × Option String → A × Option String
wrapped what (a, err) = (a, wrap what err)

abbrev pub started : {W A : Type 0} → (W → A) → W × Option String → A × Option String
started f (w, err) = (f w, err)

abbrev pub dynamic_node : String → ℕ → ℕ → NodeDef
dynamic_node id http_port rpc_port = record {
  id = id;
  rpc_addr = id <> ":7001";
  http_port = http_port;
  rpc_port = rpc_port;
  bootstrap = false;
  dynamic = true;
}

module _ {W : Type 0} (env : Environment W) where
  -- `docker pause` and `docker unpause`, of a container of either kind.
  unfoldable pub switch_container : String → NodeDef → W → W × Option String
  unfolding compose
  switch_container verb node w =
      let (w₁, r) = env.docker (verb ∷ container_name node.id ∷ []) w in
      let (w₂, err) = compose env (verb ∷ node.id ∷ []) w in
      if node.dynamic
      then (w₁, run_error ("docker " <> verb <> ": ") r)
      else (w₂, wrap ("docker compose " <> verb <> ": ") err)

  abbrev pub switched : Bool → NodeDef → Sidecar W → W × Option String → Sidecar W × Option String
  switched v node s (w, none) = (set_paused node.id v (with_world w s), none)
  switched v node s (w, some err) = (with_world w s, some err)

  unfoldable pub pause_node : NodeDef → Sidecar W → Sidecar W × Option String
  unfolding switch_container set_paused
  pause_node node s = switched true node s (switch_container "pause" node s.world)

  unfoldable pub unpause_node : NodeDef → Sidecar W → Sidecar W × Option String
  unfolding switch_container set_paused
  unpause_node node s = switched false node s (switch_container "unpause" node s.world)

  -- A node that is no bootstrap node leaves the cluster first; an error is only logged.
  unfoldable pub leave_cluster : NodeDef → List NodeDef → W → W
  unfolding find_online_port_excluding raft_remove_node
  leave_cluster node all w =
      let (w', port) = find_online_port_excluding env node.http_port all w in
      if node.bootstrap
      then w
      else if port == 0
      then w'
      else (raft_remove_node env port node.rpc_addr w').0

  unfoldable pub stop_node : NodeDef → Sidecar W → Sidecar W × Option String
  unfolding leave_cluster compose remove_dynamic_node
  stop_node node s =
      let w = leave_cluster node s.nodes s.world in
      let w₁ = (env.docker ("stop" ∷ container_name node.id ∷ []) w).0 in
      let w₂ = (env.docker ("rm" ∷ container_name node.id ∷ []) w₁).0 in
      let (w₃, err) = compose env ("stop" ∷ node.id ∷ []) w in
      if node.dynamic
      then (remove_dynamic_node node.id (with_world w₂ s), none)
      else (with_world w₃ s, wrap "docker compose stop: " err)

module _ {W : Type 0} (env : Environment W) (rounds : ℕ) where
  -- The last part of `startPresetNode`.
  unfoldable pub join_preset : NodeDef → List NodeDef → W → W × Option String
  unfolding retry_add_node
  join_preset node all w =
      let (w', err) = retry_add_node env rounds none node.http_port node.rpc_addr all w in
      (w', if node.bootstrap then none else wrap "add-node: " err)

  unfoldable pub start_preset_node : NodeDef → List NodeDef → W → W × Option String
  unfolding find_online_port_excluding clear_node_data compose wait_for_http join_preset
  start_preset_node node all w =
      let (w₁, existing) = find_online_port_excluding env node.http_port all w in
      let w₂ = if existing == 0 then clear_node_data env node.id w₁ else w₁ in
      and_then
        (wrapped "docker compose up: "
          (compose env ("up" ∷ "-d" ∷ "--no-deps" ∷ "--build" ∷ node.id ∷ []) w₂))
        (λ w₃.
          and_then
            (wrapped (node.id <> " did not come online: ")
              (wait_for_http env rounds node.http_port w₃))
            (λ w₄.
              if node.bootstrap && (existing == 0)
              then (w₄, none)
              else if existing == 0
              then (w₄, some "no cluster nodes online; start at least one node first")
              else join_preset node all w₄))

  -- What follows once the container runs: the node is in the registry already.
  unfoldable pub join_dynamic : String → ℕ → Sidecar W → Sidecar W × Option String
  unfolding wait_for_http retry_add_node
  join_dynamic id http_port s =
      let (w, err) =
        and_then
          (wrapped (id <> " did not come online: ") (wait_for_http env rounds http_port s.world))
          (λ w.
            wrapped "add-node: "
              (retry_add_node env rounds none http_port (id <> ":7001") s.nodes w)) in
      (with_world w s, err)

  unfoldable pub create_dynamic_node : String → ℕ → ℕ → Sidecar W → Sidecar W × Option String
  unfolding get_built_image run_args add_dynamic_node join_dynamic
  create_dynamic_node id http_port rpc_port s =
      let (w₁, image) = get_built_image env s.world in
      elim image [
        | none ↦ (
          with_world w₁ s,
          some
              "no built image found — run docker compose build (or start any node first) to build the image",
        )
        | some image ↦
            let (w₂, r) = env.docker (run_args env s.nodes id http_port rpc_port image) w₁ in
            elim (run_error "docker run: " r) [
              | some err ↦ (with_world w₂ s, some err)
              | none ↦
                  join_dynamic id http_port
                    (add_dynamic_node (dynamic_node id http_port rpc_port) (with_world w₂ s))
            ]
      ]

  -- The second half of `restartNode`.
  unfoldable pub start_again : NodeDef → Sidecar W → Sidecar W × Option String
  unfolding create_dynamic_node start_preset_node
  start_again node s =
      if node.dynamic
      then create_dynamic_node node.id node.http_port node.rpc_port s
      else started (λ w. with_world w s) (start_preset_node node s.nodes s.world)

  -- An error of unpausing is only logged.
  unfoldable pub restart_node : NodeDef → Sidecar W → Sidecar W × Option String
  unfolding is_paused unpause_node stop_node start_again
  restart_node node s =
      let s₁ = if is_paused node.id s then (unpause_node env node s).0 else s in
      and_then (wrapped "restart: stop failed: " (stop_node env node s₁)) (start_again node)
