-- ===== src/Sidecar/Pauses.antt =====
-- What the operations do to the registry and to the set of paused nodes.
use raft_implementation.Prelude.{
  ◌≡◌, refl, ◌∙◌, inl, inr, true, false, String, Bool, Option, none, some, str_eq, if◌then◌else◌,
  Bool-cases, lookup_or-insert, lookup_or-delete, string_eq,
}
use raft_implementation.Sidecar.Registry.{
  NodeDef, Sidecar, is_paused, set_paused, remove_dynamic_node,
}
use raft_implementation.Sidecar.Docker.{Environment}
use raft_implementation.Sidecar.Lifecycle.{
  with_world, switched, switch_container, pause_node, unpause_node, stop_node,
}

module _ {W : Type 0} where
  -- The flag of every node after a switch.
  pub is_paused-set_paused :
      (id : String) (v : Bool) (s : Sidecar W) (j : String)
      → is_paused j (set_paused id v s) ≡ (if str_eq id j then v else is_paused j s)
  unfolding is_paused set_paused
  is_paused-set_paused id true s j = lookup_or-insert false id j true s.paused_nodes
  is_paused-set_paused id false s j = lookup_or-delete false id j s.paused_nodes

  -- Another state with the same registry and the same paused nodes.
  abbrev pub SameControl : Sidecar W → Sidecar W → Type 0
  SameControl s s' = (s'.nodes ≡ s.nodes) × (s'.paused_nodes ≡ s.paused_nodes)

  pub SameControl-trans :
      (s s' s'' : Sidecar W) → SameControl s s' → SameControl s' s'' → SameControl s s''
  SameControl-trans s s' s'' h k = (k.0 ∙ h.0, k.1 ∙ h.1)

  pub is_paused-same :
      (s s' : Sidecar W) (j : String) → SameControl s s' → is_paused j s' ≡ is_paused j s
  unfolding is_paused
  is_paused-same s s' j h = rw (h.1) refl

module _ {W : Type 0} (env : Environment W) where
  -- A switch that succeeds sets the flag of its node and no other; one that fails sets none.
  abbrev pub IsSwitched : Bool → NodeDef → Sidecar W → Sidecar W × Option String → Type 0
  IsSwitched v node s (s', none) =
      (s'.nodes ≡ s.nodes)
      × ((j : String) → is_paused j s' ≡ (if str_eq node.id j then v else is_paused j s))
  IsSwitched v node s (s', some err) = SameControl s s'

  switched-IsSwitched :
      (v : Bool) (node : NodeDef) (s : Sidecar W) (x : W × Option String)
      → IsSwitched v node s (switched env v node s x)
  unfolding set_paused is_paused
  switched-IsSwitched v node s (w, none) =
      (refl, λ j. is_paused-set_paused node.id v (with_world w s) j)
  switched-IsSwitched v node s (w, some err) = (refl, refl)

  pub pause_node-IsSwitched :
      (node : NodeDef) (s : Sidecar W) → IsSwitched true node s (pause_node env node s)
  unfolding pause_node
  pause_node-IsSwitched node s =
      switched-IsSwitched true node s (switch_container env "pause" node s.world)

  pub unpause_node-IsSwitched :
      (node : NodeDef) (s : Sidecar W) → IsSwitched false node s (unpause_node env node s)
  unfolding unpause_node
  unpause_node-IsSwitched node s =
      switched-IsSwitched false node s (switch_container env "unpause" node s.world)

  -- Stopping a node changes no pause flag.
  pub stop_node-is_paused :
      (node : NodeDef) (s : Sidecar W) (j : String)
      → is_paused j (stop_node env node s).0 ≡ is_paused j s
  unfolding stop_node is_paused remove_dynamic_node
  stop_node-is_paused node s j = elim (Bool-cases node.dynamic) [
    | inl h ↦ rw (h, stop_node) refl
    | inr h ↦ rw (h, stop_node) refl
  ]
